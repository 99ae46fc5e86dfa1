-- ===== src/Broker/Operations.antt =====
-- lofire-broker/src/server.rs: the operations of `BrokerServer` on behalf of a user.
use lofire_rs.Common.{
  ℕ, Bytes, Bool, true, false, not, Option, none, some, List, [], ◌∷◌, ◌++◌, Outcome, ok, err,
  panic, out_of_fuel, map_err, if◌then◌else◌, contains,
}
use lofire_rs.Types.{
  Block, BlockId, BloomFilter, ObjectId, PubKey, Sig, SymKey, Timestamp, digest_has_eq,
}
use lofire_rs.Crates.{Crates}
use lofire_rs.Block
use lofire_rs.Store.{StorageError}
use lofire_rs.Object.{Object, ObjectParseError}
use lofire_rs.Object.Persist.{load}
use lofire_rs.Branch.Sync.{sync_req}
use lofire_rs.Commit.{Ed25519}
use lofire_rs.Utils.{verify}
use lofire_rs.Net.Overlay.{OverlayId, UserId, PeerAdvert, peer_advert_peer}
use lofire_rs.Net.Account.{AddUserContentV0}
use lofire_rs.Net.Errors.{
  ProtocolError, from_lofire_error, from_storage_error, from_object_parse_error, overlay_not_joined,
  user_already_exists, repo_id_required, object_parse_error,
}
use lofire_rs.Broker.Calls.{Call, ◌>>=◌, ◌>>◌, returns, fails, reading, is_ok}
use lofire_rs.Broker.Store.{BrokerStore}
use lofire_rs.Broker.Codec.{Codec, RepoStoreId, ConfigMode, local, core}
use lofire_rs.Broker.Account
use lofire_rs.Broker.Overlay
use lofire_rs.Broker.Peer
use lofire_rs.Broker.RepoStoreInfo
use lofire_rs.Broker.Server.{
  BrokerServer, BlockStores, Serving, on_store, get_repostore_from_overlay_id,
}

-- What `obj.is_err()` leaves of a load.
abbrev pub found : {A : Type 0} → Outcome ObjectParseError A → Outcome ProtocolError A
found (ok o) = ok o
found (err e) = err ProtocolError.not_found
found panic = panic
found out_of_fuel = out_of_fuel

module _ {S R : Type 0} (x : Crates) (b : BrokerStore S) (z : Codec) (blocks : BlockStores R) where
  -- The reads of one load see the same blocks: `get` changes the times of use at most.
  abbrev pub load_from : ℕ → ObjectId → R → Outcome ObjectParseError Object
  load_from fuel id r = load x (λ i. (blocks.get i r).0) fuel id none

  -- `?` on a call of the store of blocks
  abbrev pub on_blocks : {A : Type 0} → Call R StorageError A → Call R ProtocolError A
  on_blocks call r = (map_err from_storage_error (call r).0, (call r).1)

  -- The loop over the blocks of an object, each identifier once.
  unfoldable pub each_block :
      (BlockId → Call R ProtocolError Unit) → List Block → List ObjectId → Call R ProtocolError Unit
  each_block step [] deduplicated = returns tt
  each_block step (block ∷ rest) deduplicated =
      let id = Block.id x block in
      let more = each_block step rest (id ∷ deduplicated) in
      let skip = each_block step rest deduplicated in
      if contains id deduplicated then skip else (step id >>= λ _. more)

  abbrev pub each_block_of :
      ℕ → ObjectId → (BlockId → Call R ProtocolError Unit) → Call R ProtocolError Unit
  each_block_of fuel id step = do
    o ← reading (λ r. found (load_from fuel id r))
    each_block step o.blocks []

  unfoldable pub del_object : ℕ → PubKey → OverlayId → ObjectId → Serving S R Unit
  del_object fuel user overlay id =
      get_repostore_from_overlay_id b z blocks overlay
        (each_block_of fuel id (λ i. on_blocks (blocks.del i)))

  unfoldable pub pin_object : ℕ → PubKey → OverlayId → ObjectId → Serving S R Unit
  pin_object fuel user overlay id =
      get_repostore_from_overlay_id b z blocks overlay
        (each_block_of fuel id (λ i. on_blocks (blocks.set_pin i true)))

  unfoldable pub unpin_object : ℕ → PubKey → OverlayId → ObjectId → Serving S R Unit
  unpin_object fuel user overlay id =
      get_repostore_from_overlay_id b z blocks overlay
        (each_block_of fuel id (λ i. on_blocks (blocks.set_pin i false)))

  unfoldable pub put_block : PubKey → OverlayId → Block → Serving S R Unit
  put_block user overlay block =
      get_repostore_from_overlay_id b z blocks overlay
        (do id ← on_blocks (blocks.put block); returns tt)

  -- The blocks that are sent, each identifier once, and the identifiers sent so far.
  unfoldable pub send_blocks : List Block → List BlockId → List Block × List BlockId
  send_blocks [] deduplicated = ([], deduplicated)
  send_blocks (block ∷ rest) deduplicated =
      let id = Block.id x block in
      let skip = send_blocks rest deduplicated in
      let more = send_blocks rest (id ∷ deduplicated) in
      if contains id deduplicated then skip else (block ∷ more.0, more.1)

  unfoldable pub get_block :
      ℕ → PubKey → OverlayId → BlockId → Bool → Option PubKey → Serving S R (List Block)
  get_block fuel user overlay id include_children topic =
      get_repostore_from_overlay_id b z blocks overlay (
        if not include_children
        then (on_blocks (blocks.get id) >>= λ block. returns (block ∷ []))
        else (reading (λ r. found (load_from fuel id r)) >>= λ o.
            returns (send_blocks o.blocks []).0))

  unfoldable pub send_objects : ℕ → List ObjectId → List BlockId → Call R ProtocolError (List Block)
  send_objects fuel [] deduplicated = returns []
  send_objects fuel (id ∷ rest) deduplicated = do
    o ← reading (λ r. map_err from_object_parse_error (load_from fuel id r))
    later ← send_objects fuel rest (send_blocks o.blocks deduplicated).1
    returns ((send_blocks o.blocks deduplicated).0 ++ later)

  unfoldable pub sync_branch :
      (BloomFilter → Bytes → Bool)
      → ℕ
      → ℕ
      → PubKey
      → OverlayId
      → List ObjectId
      → List ObjectId
      → BloomFilter
      → Serving S R (List Block)
  sync_branch filter_contains fuel depth user overlay heads known_heads known_commits =
      get_repostore_from_overlay_id b z blocks overlay (do
        res ← reading (λ r.
            map_err (λ e. object_parse_error)
              (sync_req x filter_contains (λ i. (blocks.get i r).0) fuel depth heads known_heads
                known_commits))
        send_objects fuel res [])

-- `compute_repostore_id`
abbrev pub compute_repostore_id :
    ConfigMode → OverlayId → Option PubKey → Outcome ProtocolError RepoStoreId
compute_repostore_id core overlay repo_id = ok (RepoStoreId.overlay overlay)
compute_repostore_id local overlay none = panic
compute_repostore_id local overlay (some repo_id) = ok (RepoStoreId.repo repo_id)

abbrev pub required_repo : ConfigMode → Option PubKey → Outcome ProtocolError (Option PubKey)
required_repo local none = err repo_id_required
required_repo local (some repo_id) = ok (some repo_id)
required_repo core repo_id = ok none

module _ {S R : Type 0} (b : BrokerStore S) (z : Codec) where
  -- The overlay that is to be joined; it is added with a new random key of its store of blocks if it is
  -- not there.
  abbrev pub overlay_for_join :
      OverlayId
      → Option PubKey
      → SymKey
      → SymKey
      → Timestamp
      → Outcome StorageError OverlayId × BrokerServer S R
      → Outcome ProtocolError OverlayId × BrokerServer S R
  overlay_for_join overlay_id repo_id secret random_key now (ok overlay, s) = (ok overlay, s)
  overlay_for_join overlay_id repo_id secret random_key now (err StorageError.not_found, s) =
      (do
        repo ← reading (λ t. required_repo s.mode repo_id)
        over ← on_store (Overlay.create b z overlay_id secret repo now)
        id ← reading (λ t. compute_repostore_id s.mode overlay_id repo_id)
        info ← on_store (RepoStoreInfo.create b z id random_key)
        returns over)
        s
  overlay_for_join overlay_id repo_id secret random_key now (err e, s) =
      (err (from_storage_error e), s)
  overlay_for_join overlay_id repo_id secret random_key now (panic, s) = (panic, s)
  overlay_for_join overlay_id repo_id secret random_key now (out_of_fuel, s) = (out_of_fuel, s)

  unfoldable pub add_peers : OverlayId → List PeerAdvert → Serving S R Unit
  add_peers overlay [] = returns tt
  add_peers overlay (advert ∷ peers) = do
    peer ← on_store (Peer.update_or_create b z advert)
    on_store (Overlay.add_peer b z overlay (peer_advert_peer advert))
    add_peers overlay peers

  unfoldable pub join_overlay :
      SymKey
      → Timestamp
      → PubKey
      → OverlayId
      → Option PubKey
      → SymKey
      → List PeerAdvert
      → Serving S R Unit
  join_overlay random_key now user overlay_id repo_id secret peers = do
    overlay ← (λ s.
        let (opened, store) = Overlay.open_overlay b z overlay_id s.store in
        overlay_for_join overlay_id repo_id secret random_key now
          (opened, record s { store = store }))
    add_peers overlay peers
    account ← on_store (Account.open_account b z user)
    on_store (Account.add_overlay b z account overlay_id)

  module _ (ed : Ed25519) (content_to_vec : AddUserContentV0 → Bytes) where
    unfoldable pub add_user : PubKey → UserId → Sig → Serving S R Unit
    add_user admin_user user_id sig = do
      reading (λ s.
          map_err from_lofire_error
            (verify ed (content_to_vec (record { user = user_id })) sig admin_user))
      present ← reading (λ s. is_ok (Account.open_account b z user_id s.store).0)
      if present
          then fails user_already_exists
          else (do account ← on_store (Account.create b z user_id false); returns tt)

-- `del_user`, `add_client` and `del_client` are still to be written and do nothing.
module _ {S R : Type 0} where
  abbrev pub del_user : PubKey → PubKey → Sig → Serving S R Unit
  del_user admin_user user_id sig = returns tt

  abbrev pub add_client : PubKey → PubKey → Sig → Serving S R Unit
  add_client user client_id sig = returns tt

  abbrev pub del_client : PubKey → PubKey → Sig → Serving S R Unit
  del_client user client_id sig = returns tt

  abbrev pub connect_overlay : PubKey → OverlayId → Serving S R Unit
  connect_overlay user overlay = fails overlay_not_joined
