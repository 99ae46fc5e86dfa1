-- ===== src/Broker/Overlays.antt =====
-- lofire-broker/src/overlay.rs: an overlay through its operations.
use lofire_rs.Common.{
  ℕ, Bytes, true, false, Option, some, none, List, [], ◌∷◌, ok, err, ◌≡◌, refl, ap, sym, ◌∙◌,
  bytes_has_eq, ◌==◌, ok_or,
}
use lofire_rs.Store.{not_found, backend_error}
use lofire_rs.Broker.Calls.{is_ok}
use lofire_rs.Broker.Store.{
  BrokerStore, BrokerStoreLaws, compute_property, first_value, each_del, parsed,
}
use lofire_rs.Broker.Codec.{Codec}
use lofire_rs.Broker.Properties.{get_first, get_missing, other_suffix}
use lofire_rs.Types.{PubKey, SymKey, Timestamp}
use lofire_rs.Net.Overlay.{OverlayId}
use lofire_rs.Broker.Overlay.{
  prefix, secret_suffix, peer_suffix, topic_suffix, meta_suffix, repo_suffix, exists, open_overlay,
  create, put_repo, secret, metadata, repo, del,
}

module _ {S : Type 0} {b : BrokerStore S} (z : Codec) (l : BrokerStoreLaws b) where
  abbrev pub place : OverlayId → ℕ → Bytes
  place id suffix = compute_property prefix (z.digest_to_vec id) (some suffix)

  joined :
      (s : S) (id : OverlayId) (v : Bytes) (vs : List Bytes)
      → l.values s (place id secret_suffix) ≡ v ∷ vs
      → exists b z s id ≡ ok true
  unfolding exists
  joined s id v vs there =
      ap is_ok (get_first l s prefix (z.digest_to_vec id) secret_suffix v vs there)

  not_joined :
      (s : S) (id : OverlayId)
      → l.values s (place id secret_suffix) ≡ []
      → exists b z s id ≡ ok false
  unfolding exists
  not_joined s id nothing =
      ap is_ok (get_missing l s prefix (z.digest_to_vec id) secret_suffix nothing)

  -- The repository is put, if there is one, and changes no other property.
  put_repo_lem :
      (s : S) (id : OverlayId) (r : Option PubKey)
      → l.values s (place id repo_suffix) ≡ []
      → (s' : S) × (put_repo b z id r s ≡ (ok tt, s'))
        × (repo b z s' id ≡ ok_or not_found r)
        × ((suffix : ℕ)
            → (repo_suffix == suffix) ≡ false
            → l.values s' (place id suffix) ≡ l.values s (place id suffix))
  unfolding repo
  put_repo_lem s id none nothing = (
    s,
    refl,
    rw (get_missing l s prefix (z.digest_to_vec id) repo_suffix nothing),
    λ suffix other. refl,
  )
  put_repo_lem s id (some r) nothing =
      let (s', added, into, kept) =
        l.put_values s prefix (z.digest_to_vec id) (some repo_suffix) (z.pub_key_to_vec r) in
      (
        s',
        added,
        rw (
          get_first l s' prefix (z.digest_to_vec id) repo_suffix _ [] (into.alone nothing),
          z.pub_key_round_trip r,
        ),
        λ suffix other.
            kept (place id suffix)
              (other_suffix prefix (z.digest_to_vec id) repo_suffix suffix other),
      )

  -- An overlay that is created where no property of it is left can be opened, and its secret, its
  -- repository, if it has one, and its meta are what it was created with.
  pub create-open_overlay :
      (s : S) (id : OverlayId) (k : SymKey) (r : Option PubKey) (now : Timestamp)
      → l.values s (place id secret_suffix) ≡ []
      → l.values s (place id repo_suffix) ≡ []
      → l.values s (place id meta_suffix) ≡ []
      → (s' : S) × (create b z id k r now s ≡ (ok id, s'))
        × (open_overlay b z id s' ≡ (ok id, s'))
        × (secret b z s' id ≡ ok k)
        × (repo b z s' id ≡ ok_or not_found r)
        × (metadata b z s' id ≡ ok (record { users = 1; last_used = now }))
  unfolding create open_overlay secret metadata repo
  create-open_overlay s id k r now no_secret no_repo no_meta =
      let key = z.digest_to_vec id in
      let (s₁, added₁, into₁, kept₁) =
        l.put_values s prefix key (some secret_suffix) (z.sym_key_to_vec k) in
      let (s₂, added₂, repo₂, kept₂) = put_repo_lem s₁ id r (
        kept₁ (place id repo_suffix) (other_suffix prefix key secret_suffix repo_suffix refl)
        ∙ no_repo) in
      let (s₃, added₃, into₃, kept₃) =
        l.put_values s₂ prefix key (some meta_suffix)
          (z.overlay_meta_to_vec (record { users = 1; last_used = now })) in
      let secret₃ =
        kept₃ (place id secret_suffix) (other_suffix prefix key meta_suffix secret_suffix refl)
        ∙ kept₂ secret_suffix refl
        ∙ into₁.alone no_secret in
      let meta₂ =
        kept₂ meta_suffix refl
        ∙ kept₁ (place id meta_suffix) (other_suffix prefix key secret_suffix meta_suffix refl)
        ∙ no_meta in
      (
        s₃,
        rw (not_joined s id no_secret, added₁, added₂, added₃),
        rw (joined s₃ id _ [] secret₃),
        rw (get_first l s₃ prefix key secret_suffix _ [] secret₃, z.sym_key_round_trip k),
        (ap (λ v. parsed z.pub_key_from_slice v)
              (l.get_values s₃ prefix key (some repo_suffix)
                ∙ ap first_value (
                    kept₃ (place id repo_suffix)
                      (other_suffix prefix key meta_suffix repo_suffix refl))
                ∙ sym (l.get_values s₂ prefix key (some repo_suffix)))
            ∙ repo₂),
        rw (
          get_first l s₃ prefix key meta_suffix _ [] (into₃.alone meta₂),
          z.overlay_meta_round_trip (record { users = 1; last_used = now }),
        ),
      )

  -- `del` of an overlay without peers fails after it has deleted the secret: the overlay cannot be
  -- opened any more, and its meta stays.
  pub del_no_peers :
      (s : S) (id : OverlayId) (v : Bytes) (vs : List Bytes)
      → l.values s (place id secret_suffix) ≡ v ∷ vs
      → l.values s (place id peer_suffix) ≡ []
      → (s' : S) × (del b z id s ≡ (err backend_error, s'))
        × (open_overlay b z id s' ≡ (err not_found, s'))
        × (metadata b z s' id ≡ metadata b z s id)
  unfolding del each_del open_overlay metadata
  del_no_peers s id v vs there no_peers =
      let key = z.digest_to_vec id in
      let (s', deleted, empty, kept) = l.del_values s prefix key (some secret_suffix) v vs there in
      let still_none =
        kept (place id peer_suffix) (other_suffix prefix key secret_suffix peer_suffix refl)
        ∙ no_peers in
      (
        s',
        rw (
          l.del_all_each s prefix key secret_suffix
              (peer_suffix ∷ topic_suffix ∷ meta_suffix ∷ repo_suffix ∷ []),
          deleted,
          l.del_missing s' prefix key (some peer_suffix) still_none,
        ),
        rw (not_joined s' id empty),
        rw (
          l.get_values s' prefix key (some meta_suffix),
          l.get_values s prefix key (some meta_suffix),
          kept (place id meta_suffix) (other_suffix prefix key secret_suffix meta_suffix refl),
        ),
      )
