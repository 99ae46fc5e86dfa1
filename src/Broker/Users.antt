-- ===== src/Broker/Users.antt =====
-- lofire-broker/src/server.rs: `add_user`, and a store of blocks in `ConfigMode::Core`.
use lofire_rs.Common
use lofire_rs.Common.{
  ℕ, Bytes, none, some, List, [], ◌∷◌, Outcome, ok, err, panic, out_of_fuel, ◌⊎◌, inl, inr, ◌≡◌,
  refl, ap, sym, ◌∙◌, lookup, Outcome-cases, map_err, ok_or,
}
use lofire_rs.Types.{Block, PubKey, SymKey}
use lofire_rs.Crates.{Crates}
use lofire_rs.Utils.{LofireError}
use lofire_rs.Net.Overlay.{OverlayId}
use lofire_rs.Net.Errors.{ProtocolError, from_storage_error, overlay_not_found}
use lofire_rs.Store.{serialization_error}
use lofire_rs.Broker.Calls.{Call, after, reading}
use lofire_rs.Broker.Store.{BrokerStore, BrokerStoreLaws, compute_property}
use lofire_rs.Broker.Properties.{get_first, get_missing}
use lofire_rs.Broker.RepoStoreInfo
use lofire_rs.Broker.Codec.{Codec, RepoStoreId, core}
use lofire_rs.Broker.Server
use lofire_rs.Broker.Server.{
  BrokerServer, BlockStores, repo_store_id_has_eq, get_repostore_from_overlay_id, opened_repostore,
}
use lofire_rs.Broker.Operations.{put_block}

-- `verify` gives a value or an error of its own.
abbrev Decided : Outcome {0} LofireError Unit → Type 0
Decided o = (o ≡ ok tt) ⊎ ((e : LofireError) × (o ≡ err e))

-- What is left of a store that is opened, and that the caller never gets.
abbrev pub never_served : {R A : Type 0} → Outcome ProtocolError R → Outcome ProtocolError A
never_served (ok r) = panic
never_served (err e) = err e
never_served panic = panic
never_served out_of_fuel = out_of_fuel

module _ {S R : Type 0} (x : Crates) {b : BrokerStore S} (z : Codec) (l : BrokerStoreLaws b)
    (blocks : BlockStores R) where
  -- The values of the key of the store of blocks of an overlay
  abbrev pub keys : OverlayId → S → List Bytes
  keys overlay s = l.values s (
      compute_property RepoStoreInfo.prefix (z.repo_store_id_to_vec (RepoStoreId.overlay overlay))
        (some RepoStoreInfo.key_suffix))

  -- The store of blocks of an overlay, opened with a key as it is stored
  abbrev pub open_with : OverlayId → Bytes → Outcome ProtocolError R
  open_with overlay v =
      Common.◌>>=◌ (map_err from_storage_error (ok_or serialization_error (z.sym_key_from_slice v)))
        (blocks.open_store (RepoStoreId.overlay overlay))

  key_read :
      (overlay : OverlayId) (o : Outcome ProtocolError SymKey) (s : BrokerServer S R)
      → after (o, s) (λ k. reading (λ _. blocks.open_store (RepoStoreId.overlay overlay) k))
        ≡ (Common.◌>>=◌ o (blocks.open_store (RepoStoreId.overlay overlay)), s)
  key_read overlay (ok k) s = refl
  key_read overlay (err e) s = refl
  key_read overlay panic s = refl
  key_read overlay out_of_fuel s = refl

  opened_missing :
      (overlay : OverlayId) (s : BrokerServer S R)
      → keys overlay s.store ≡ []
      → opened_repostore b z blocks (RepoStoreId.overlay overlay) s ≡ (err overlay_not_found, s)
  unfolding opened_repostore RepoStoreInfo.open_info RepoStoreInfo.exists
  opened_missing overlay s nothing = rw (
      get_missing l s.store RepoStoreInfo.prefix
        (z.repo_store_id_to_vec (RepoStoreId.overlay overlay)) RepoStoreInfo.key_suffix nothing)

  opened_with :
      (overlay : OverlayId) (s : BrokerServer S R) (v : Bytes) (vs : List Bytes)
      → keys overlay s.store ≡ v ∷ vs
      → opened_repostore b z blocks (RepoStoreId.overlay overlay) s ≡ (open_with overlay v, s)
  unfolding opened_repostore RepoStoreInfo.open_info RepoStoreInfo.exists RepoStoreInfo.key
  opened_with overlay s v vs there =
      let stored_key =
        get_first l s.store RepoStoreInfo.prefix
          (z.repo_store_id_to_vec (RepoStoreId.overlay overlay)) RepoStoreInfo.key_suffix v vs
          there in
      rw stored_key (
        rw stored_key (
          key_read overlay
            (map_err from_storage_error (ok_or serialization_error (z.sym_key_from_slice v))) s))

  not_served :
      {A : Type 0} (o : Outcome ProtocolError R) (s : BrokerServer S R)
      → after (o, s) (λ r. reading {A = A} (λ _. panic)) ≡ (never_served o, s)
  not_served (ok r) s = refl
  not_served (err e) s = refl
  not_served panic s = refl
  not_served out_of_fuel s = refl

  -- Whatever the caller means to do with the store of blocks, it is not done.
  repostore_in_core :
      {A : Type 0} (f : Call R ProtocolError A) (overlay : OverlayId) (s : BrokerServer S R)
      (o : Outcome ProtocolError R)
      → s.mode ≡ core
      → lookup (RepoStoreId.overlay overlay) s.repo_stores ≡ none
      → opened_repostore b z blocks (RepoStoreId.overlay overlay) s ≡ (o, s)
      → get_repostore_from_overlay_id b z blocks overlay f s ≡ (never_served o, s)
  unfolding get_repostore_from_overlay_id
  repostore_in_core f overlay s o in_core closed opened =
      ap (λ m. Server.in_mode b z blocks m overlay f s) in_core
      ∙ (rw closed (ap (λ p. after p (λ r. reading (λ _. panic))) opened) ∙ not_served o s)

  put_block_closed :
      (user : PubKey) (overlay : OverlayId) (block : Block) (s : BrokerServer S R)
      (o : Outcome ProtocolError R)
      → s.mode ≡ core
      → lookup (RepoStoreId.overlay overlay) s.repo_stores ≡ none
      → opened_repostore b z blocks (RepoStoreId.overlay overlay) s ≡ (o, s)
      → put_block x b z blocks user overlay block s ≡ (never_served o, s)
  unfolding put_block
  put_block_closed user overlay block s o in_core closed opened =
      repostore_in_core _ overlay s o in_core closed opened

  -- In `ConfigMode::Core`, where the store of blocks of an overlay is not open yet, `put_block` never
  -- succeeds and leaves the state of the broker: without a key for the store the overlay is not found;
  -- with one, the error of opening the store is returned, and a store that does open ends in a panic.
  pub put_block_in_core :
      (user : PubKey) (overlay : OverlayId) (block : Block) (s : BrokerServer S R)
      → s.mode ≡ core
      → lookup (RepoStoreId.overlay overlay) s.repo_stores ≡ none
      → ((keys overlay s.store ≡ [])
          × (put_block x b z blocks user overlay block s ≡ (err overlay_not_found, s)))
        ⊎ ((v : Bytes) × (vs : List Bytes) × (keys overlay s.store ≡ v ∷ vs)
            × (put_block x b z blocks user overlay block s
                ≡ (never_served (open_with overlay v), s)))
  put_block_in_core user overlay block s in_core closed = by_keys (keys overlay s.store) refl
    where
      by_keys :
          (k : List Bytes)
          → keys overlay s.store ≡ k
          → ((keys overlay s.store ≡ [])
              × (put_block x b z blocks user overlay block s ≡ (err overlay_not_found, s)))
            ⊎ ((v : Bytes) × (vs : List Bytes) × (keys overlay s.store ≡ v ∷ vs)
                × (put_block x b z blocks user overlay block s
                    ≡ (never_served (open_with overlay v), s)))
      by_keys [] nothing = inl (
        nothing,
        put_block_closed user overlay block s _ in_core closed (opened_missing overlay s nothing),
      )
      by_keys (v ∷ vs) there = inr (
        v,
        vs,
        there,
        put_block_closed user overlay block s _ in_core closed (opened_with overlay s v vs there),
      )
