-- ===== src/Broker/Server.antt =====
-- lofire-broker/src/server.rs: `BrokerServer`. A lock is held for one call at a time, but for one case in
-- `get_repostore_from_overlay_id`. A stream of blocks is the list that its channel carries: its sender
-- puts all blocks into it before it is read, and its receiver is still there.
use lofire_rs.Common.{
  Bool, true, false, Option, none, some, List, [], Outcome, ok, panic, map_err, lookup, insert, beq,
  Eq, ◌≡◌, ◌↔◌, ap,
}
use lofire_rs.Types.{
  Block, BlockId, Digest, ObjectId, PubKey, SymKey, digest_has_eq, pub_key_has_eq,
}
use lofire_rs.Store.{StorageError}
use lofire_rs.Net.Overlay.{OverlayId}
use lofire_rs.Net.Errors.{ProtocolError, from_storage_error, broker_error}
use lofire_rs.Broker.Calls.{Call, after, ◌>>=◌, ◌>>◌, fails, reading}
use lofire_rs.Broker.Store.{BrokerStore}
use lofire_rs.Broker.Codec.{Codec, RepoStoreId, ConfigMode, local, core}
use lofire_rs.Broker.Overlay
use lofire_rs.Broker.RepoStoreInfo
use lofire_rs.Broker.Config

pub data BrokerError : Type 0 where
  cannot_start mismatched_mode overlay_not_found : BrokerError

-- `From<BrokerError> for ProtocolError`
abbrev pub from_broker_error : BrokerError → ProtocolError
from_broker_error BrokerError.cannot_start = ProtocolError.overlay_not_found
from_broker_error BrokerError.overlay_not_found = ProtocolError.overlay_not_found
from_broker_error BrokerError.mismatched_mode = ProtocolError.broker_error

-- `From<StorageError> for BrokerError`
abbrev pub broker_storage_error : StorageError → BrokerError
broker_storage_error StorageError.invalid_value = BrokerError.mismatched_mode
broker_storage_error _ = BrokerError.cannot_start

-- Derived equality.
abbrev pub repo_store_id_eq : RepoStoreId → RepoStoreId → Bool
repo_store_id_eq (RepoStoreId.overlay a) (RepoStoreId.overlay b) = beq a b
repo_store_id_eq (RepoStoreId.repo a) (RepoStoreId.repo b) = beq a b
repo_store_id_eq _ _ = false

pub repo_store_id_eq_iff : (a b : RepoStoreId) → (repo_store_id_eq a b ≡ true) ↔ (a ≡ b)
repo_store_id_eq_iff (RepoStoreId.overlay a) (RepoStoreId.overlay b) = (
  λ h. ap RepoStoreId.overlay ((digest_has_eq.beq_iff a b).0 h),
  λ p. (digest_has_eq.beq_iff a b).1 (ap (overlay_or a) p),
)
  where
    overlay_or : Digest → RepoStoreId → Digest
    overlay_or d (RepoStoreId.overlay c) = c
    overlay_or d (RepoStoreId.repo c) = d
repo_store_id_eq_iff (RepoStoreId.overlay a) (RepoStoreId.repo b) = (λ h. cc, λ p. cc)
repo_store_id_eq_iff (RepoStoreId.repo a) (RepoStoreId.overlay b) = (λ h. cc, λ p. cc)
repo_store_id_eq_iff (RepoStoreId.repo a) (RepoStoreId.repo b) = (
  λ h. ap RepoStoreId.repo ((pub_key_has_eq.beq_iff a b).0 h),
  λ p. (pub_key_has_eq.beq_iff a b).1 (ap (repo_or a) p),
)
  where
    repo_or : PubKey → RepoStoreId → PubKey
    repo_or k (RepoStoreId.overlay c) = k
    repo_or k (RepoStoreId.repo c) = c

instance abbrev pub repo_store_id_has_eq : Eq RepoStoreId
repo_store_id_has_eq = record { beq = repo_store_id_eq; beq_iff = repo_store_id_eq_iff }

pub record BrokerServer (S R : Type 0) : Type 0 where
  pub store : S
  pub mode : ConfigMode
  pub repo_stores : List (RepoStoreId × R)
  pub overlayid_to_repostore : List (OverlayId × RepoStoreId)

-- What the server uses of a store of blocks, `LmdbRepoStore`. The stores that it opens are on disk.
pub record BlockStores (R : Type 0) : Type 0 where
  pub get : BlockId → Call R StorageError Block
  pub put : Block → Call R StorageError BlockId
  pub del : BlockId → Call R StorageError Unit
  pub set_pin : ObjectId → Bool → Call R StorageError Unit
  -- `create_dir_all` of the directory of the store, and `LmdbRepoStore::open` with its key
  pub open_store : RepoStoreId → SymKey → Outcome ProtocolError R

abbrev pub Serving : Type 0 → Type 0 → Type 0 → Type 0
Serving S R A = Call (BrokerServer S R) ProtocolError A

module _ {S R : Type 0} where
  abbrev pub stored :
      {E A : Type 0}
      → (E → ProtocolError)
      → BrokerServer S R
      → Outcome E A × S
      → Outcome ProtocolError A × BrokerServer S R
  stored from_error s (result, store) = (map_err from_error result, record s { store = store })

  -- A call on the store of the broker's properties, with `?`.
  abbrev pub on_store : {A : Type 0} → Call S StorageError A → Serving S R A
  on_store call s = stored from_storage_error s (call s.store)

  abbrev pub used :
      {A : Type 0}
      → RepoStoreId
      → BrokerServer S R
      → Outcome ProtocolError A × R
      → Outcome ProtocolError A × BrokerServer S R
  used id s (result, repo) = (result, record s { repo_stores = insert id repo s.repo_stores })

  -- A call on an open store of blocks.
  abbrev pub with_repo : {A : Type 0} → RepoStoreId → R → Call R ProtocolError A → Serving S R A
  with_repo id repo f s = used id s (f repo)

module _ {S R : Type 0} (b : BrokerStore S) (z : Codec) (blocks : BlockStores R) where
  abbrev pub new_mode : S → Outcome StorageError ConfigMode
  new_mode store = Config.mode b z store

  -- `BrokerServer::new`
  unfoldable pub new : ConfigMode → Call S BrokerError (BrokerServer S R)
  new mode store =
      let (result, store') = Config.get_or_create b z mode store in
      after (map_err broker_storage_error result, store')
        (λ _. reading (λ t. map_err broker_storage_error (new_mode t)) >>= λ configmode t. (
          ok (record {
            store = t;
            mode = configmode;
            repo_stores = [];
            overlayid_to_repostore = [];
          }),
          t,
        ))

  -- The store of blocks that `open_or_create_repostore` opens with the key that is kept for it.
  unfoldable pub opened_repostore : RepoStoreId → Serving S R R
  opened_repostore repostore_id = do
    info ← (λ s.
        stored (λ e. ProtocolError.overlay_not_found) s
          (RepoStoreInfo.open_info b z repostore_id s.store))
    key ← reading (λ s. map_err from_storage_error (RepoStoreInfo.key b z s.store info))
    reading (λ s. blocks.open_store repostore_id key)

  unfoldable pub open_or_create_repostore :
      {A : Type 0} → RepoStoreId → Call R ProtocolError A → Serving S R A
  open_or_create_repostore repostore_id f = do
    repo ← opened_repostore repostore_id
    with_repo repostore_id repo f

  -- An open store of the map, in `ConfigMode::Core`. The lock on the map is still held for reading when
  -- `open_or_create_repostore`, after it has opened the store, asks for it for writing: that call
  -- blocks for ever or panics, and both are a panic here.
  abbrev pub in_core :
      {A : Type 0} → RepoStoreId → Call R ProtocolError A → Option R → Serving S R A
  in_core repostore_id f (some repo) = with_repo repostore_id repo f
  in_core repostore_id f none = do repo ← opened_repostore repostore_id; reading (λ s. panic)

  abbrev pub in_local_open :
      {A : Type 0} → RepoStoreId → Call R ProtocolError A → Option R → Serving S R A
  in_local_open repostore_id f (some repo) = with_repo repostore_id repo f
  in_local_open repostore_id f none = fails broker_error

  abbrev pub in_local :
      {A : Type 0} → OverlayId → Call R ProtocolError A → Option RepoStoreId → Serving S R A
  in_local overlay_id f (some repostore_id) =
      λ s. in_local_open repostore_id f (lookup repostore_id s.repo_stores) s
  in_local overlay_id f none = do
    overlay ← on_store (Overlay.open_overlay b z overlay_id)
    repo_id ← reading (λ s. map_err from_storage_error (Overlay.repo b z s.store overlay))
    (λ s. (
      ok tt,
      record s {
        overlayid_to_repostore =
            insert overlay_id (RepoStoreId.repo repo_id) s.overlayid_to_repostore;
      },
    ))
    open_or_create_repostore (RepoStoreId.repo repo_id) f

  abbrev pub in_mode :
      {A : Type 0} → ConfigMode → OverlayId → Call R ProtocolError A → Serving S R A
  in_mode core overlay_id f s =
      in_core (RepoStoreId.overlay overlay_id) f
        (lookup (RepoStoreId.overlay overlay_id) s.repo_stores) s
  in_mode local overlay_id f s =
      in_local overlay_id f (lookup overlay_id s.overlayid_to_repostore) s

  unfoldable pub get_repostore_from_overlay_id :
      {A : Type 0} → OverlayId → Call R ProtocolError A → Serving S R A
  get_repostore_from_overlay_id overlay_id f s = in_mode s.mode overlay_id f s
