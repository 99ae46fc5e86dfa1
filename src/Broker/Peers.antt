-- ===== src/Broker/Peers.antt =====
-- lofire-broker/src/peer.rs: the advertisement that is kept of a peer.
use lofire_rs.Common.{
  ℕ, Bytes, true, false, some, List, [], ◌∷◌, ok, ◌≡◌, refl, ap, ◌∙◌, bytes_has_eq, beq_refl,
  if◌then◌else◌, Bool-cases, inl, inr, leb,
}
use lofire_rs.Broker.Calls.{is_ok}
use lofire_rs.Broker.Store.{BrokerStore, BrokerStoreLaws, compute_property}
use lofire_rs.Broker.Codec.{Codec}
use lofire_rs.Broker.Properties.{get_first, get_missing, other_suffix}
use lofire_rs.Types.{pub_key_has_eq}
use lofire_rs.Net.Overlay.{PeerId, PeerAdvert, peer_advert_peer, peer_advert_version}
use lofire_rs.Broker.Peer.{
  prefix, version_suffix, advert_suffix, exists, open_peer, create, version, advert, update_advert,
  update_or_create,
}

module _ {S : Type 0} {b : BrokerStore S} (z : Codec) (l : BrokerStoreLaws b) where
  abbrev pub place : PeerId → ℕ → Bytes
  place id suffix = compute_property prefix (z.pub_key_to_vec id) (some suffix)

  known :
      (s : S) (id : PeerId) (v : Bytes) (vs : List Bytes)
      → l.values s (place id version_suffix) ≡ v ∷ vs
      → exists b z s id ≡ ok true
  unfolding exists
  known s id v vs there =
      ap is_ok (get_first l s prefix (z.pub_key_to_vec id) version_suffix v vs there)

  unknown :
      (s : S) (id : PeerId) → l.values s (place id version_suffix) ≡ [] → exists b z s id ≡ ok false
  unfolding exists
  unknown s id nothing =
      ap is_ok (get_missing l s prefix (z.pub_key_to_vec id) version_suffix nothing)

  advert_lem :
      (s : S) (id : PeerId) (a : PeerAdvert) (vs : List Bytes)
      → l.values s (place id advert_suffix) ≡ z.peer_advert_to_vec a ∷ vs
      → advert b z s id ≡ ok a
  unfolding advert
  advert_lem s id a vs there = rw (
    get_first l s prefix (z.pub_key_to_vec id) advert_suffix _ vs there,
    z.peer_advert_round_trip a,
  )

  -- A peer that is not known is kept with its advertisement and the version of it.
  pub update_or_create-new :
      (s : S) (a : PeerAdvert)
      → l.values s (place (peer_advert_peer a) version_suffix) ≡ []
      → l.values s (place (peer_advert_peer a) advert_suffix) ≡ []
      → (s' : S) × (update_or_create b z a s ≡ (ok (peer_advert_peer a), s'))
        × (advert b z s' (peer_advert_peer a) ≡ ok a)
        × (version b z s' (peer_advert_peer a) ≡ ok (peer_advert_version a))
  unfolding update_or_create open_peer create version
  update_or_create-new s a no_version no_advert =
      let id = peer_advert_peer a in
      let k = z.pub_key_to_vec id in
      let (s₁, added₁, into₁, kept₁) =
        l.put_values s prefix k (some version_suffix) (z.u32_to_vec (peer_advert_version a)) in
      let (s₂, added₂, into₂, kept₂) =
        l.put_values s₁ prefix k (some advert_suffix) (z.peer_advert_to_vec a) in
      let still_none =
        kept₁ (place id advert_suffix) (other_suffix prefix k version_suffix advert_suffix refl)
        ∙ no_advert in
      let one_version =
        kept₂ (place id version_suffix) (other_suffix prefix k advert_suffix version_suffix refl)
        ∙ into₁.alone no_version in
      (
        s₂,
        rw (unknown s id no_version) (rw (create, unknown s id no_version, added₁, added₂)),
        advert_lem s₂ id a [] (into₂.alone still_none),
        rw (
          get_first l s₂ prefix k version_suffix _ [] one_version,
          z.u32_round_trip (peer_advert_version a),
        ),
      )

  -- Of a peer that is known the advertisement of the greater version is kept; the version that is
  -- stored beside it stays the one of the first.
  pub update_or_create-known :
      (s : S) (a old : PeerAdvert) (v : Bytes) (vs ws : List Bytes)
      → l.values s (place (peer_advert_peer a) version_suffix) ≡ v ∷ vs
      → l.values s (place (peer_advert_peer a) advert_suffix) ≡ z.peer_advert_to_vec old ∷ ws
      → (s' : S) × (update_or_create b z a s ≡ (ok (peer_advert_peer a), s'))
        × (advert b z s' (peer_advert_peer a)
            ≡ ok (if leb (peer_advert_version a) (peer_advert_version old) then old else a))
        × (version b z s' (peer_advert_peer a) ≡ version b z s (peer_advert_peer a))
  unfolding update_or_create open_peer update_advert version
  update_or_create-known s a old v vs ws has_version has_advert =
      let id = peer_advert_peer a in
      let k = z.pub_key_to_vec id in
      elim (Bool-cases (leb (peer_advert_version a) (peer_advert_version old))) [
        | inl not_newer ↦ (
          s,
          rw (
            known s id v vs has_version,
            beq_refl id,
            advert_lem s id old ws has_advert,
            not_newer,
          ),
          rw not_newer (advert_lem s id old ws has_advert),
          refl,
        )
        | inr newer ↦
            let (s', replaced, alone, kept) =
              l.replace_values s prefix k (some advert_suffix) (z.peer_advert_to_vec a) _ ws
                has_advert in
            (
              s',
              rw (
                known s id v vs has_version,
                beq_refl id,
                advert_lem s id old ws has_advert,
                newer,
                replaced,
              ),
              rw newer (advert_lem s' id a [] alone),
              rw (
                l.get_values s' prefix k (some version_suffix),
                l.get_values s prefix k (some version_suffix),
                kept (place id version_suffix)
                    (other_suffix prefix k advert_suffix version_suffix refl),
              ),
            )
      ]
