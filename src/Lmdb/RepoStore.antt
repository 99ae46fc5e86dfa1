-- ===== src/Lmdb/RepoStore.antt =====
-- lofire-store-lmdb/src/repostore.rs: `LmdbRepoStore`. A lock of the environment is never poisoned
-- unless a holder has panicked. The clock of a call is its argument `now`.
pub mod Abstract
pub mod Lists
pub mod Metas
pub mod Pins
pub mod Blocks
pub mod Deletion
pub mod Reclaim
pub mod LeastUsed
pub mod Unordered
use lofire_rs.Common.{
  ℕ, ◌+◌, Bytes, Bool, true, false, not, Option, some, none, List, [], ◌∷◌, map, concat, length,
  Outcome, ok, err, panic, out_of_fuel, unwrap, ok_or, unwrap_ok, ◌>>=◌, beq, if◌then◌else◌, leb,
  ◌==◌, ◌≡◌,
}
use lofire_rs.Types.{Block, BlockId, ObjectId, Timestamp, digest_has_eq}
use lofire_rs.Crates.{Crates, skip_block}
use lofire_rs.Block
use lofire_rs.Store.{StorageError, not_found, invalid_value, backend_error}
use lofire_rs.Lmdb.Rkv.{SingleStore, MultiIntegerStore, StoreError, oks}

-- The four databases of the environment.
pub record LmdbRepoStore (M I : Type 0) : Type 0 where
  pub main_store : M
  pub meta_store : M
  pub expiry_store : I
  pub recently_used_store : I

pub record BlockMeta : Type 0 where
  pub pin : Bool
  pub last_used : Timestamp
  pub synced : Bool

-- `serde_bare::to_vec` and `from_slice` of what the databases hold
pub record Codec (x : Crates) : Type 0 where
  pub id_to_vec : BlockId → Bytes
  pub id_from_slice : Bytes → Option BlockId
  pub id_round_trip : (i : BlockId) → id_from_slice (id_to_vec i) ≡ some i
  pub meta_to_vec : BlockMeta → Bytes
  pub meta_from_slice : Bytes → Option BlockMeta
  pub meta_round_trip : (m : BlockMeta) → meta_from_slice (meta_to_vec m) ≡ some m
  pub block_from_slice : Bytes → Option Block
  pub block_round_trip : (b : Block) → block_from_slice (x.block_to_vec b) ≡ some (skip_block b)

-- `==` of bools
abbrev pub bool_eq : Bool → Bool → Bool
bool_eq true b = b
bool_eq false b = not b

module _ (x : Crates) (c : Codec x) {M I : Type 0} (single : SingleStore M)
    (multi : MultiIntegerStore I) where
  unfoldable pub remove_from_lru : I → Bytes → Timestamp → Outcome StoreError I
  remove_from_lru i key time = multi.delete i time key

  unfoldable pub add_to_lru : I → Bytes → Timestamp → Outcome StoreError I
  add_to_lru i key time = multi.put_with_flags i time key

  -- The meta is written with the list that goes with it, if it changes.
  abbrev pub write_meta :
      LmdbRepoStore M I → Bytes → Option (BlockMeta × I) → Outcome StorageError (LmdbRepoStore M I)
  write_meta s key none = ok s
  write_meta s key (some (meta, lru)) = do
    metas ← unwrap_ok (single.put s.meta_store key (c.meta_to_vec meta))
    ok (record s { meta_store = metas; recently_used_store = lru })

  -- The transaction of `get` for a block that has been synced.
  unfoldable pub use_now :
      Timestamp → LmdbRepoStore M I → Bytes → BlockMeta → Outcome StorageError (LmdbRepoStore M I)
  use_now now s key meta = do
    lru ←
        (if meta.pin
          then ok s.recently_used_store
          else (unwrap_ok (remove_from_lru s.recently_used_store key meta.last_used) >>= λ i.
              unwrap_ok (add_to_lru i key now)))
    write_meta s key (some (record meta { last_used = now }, lru))

  -- Without a meta there is nothing to update.
  unfoldable pub touch :
      Timestamp
      → LmdbRepoStore M I
      → Bytes
      → Option Bytes
      → Outcome StorageError (LmdbRepoStore M I)
  touch now s key none = ok s
  touch now s key (some meta_value) = do
    meta ← unwrap (c.meta_from_slice meta_value)
    if meta.synced then use_now now s key meta else ok s

  unfoldable pub decode : BlockId → Bytes → Outcome StorageError Block
  decode block_id block_ser = do
    o ← ok_or invalid_value (c.block_from_slice block_ser)
    if beq (Block.id x o) block_id then ok o else panic

  -- The result with the state that is committed; a transaction that panics commits nothing.
  abbrev pub committed :
      {A : Type 0}
      → LmdbRepoStore M I
      → Outcome StorageError (LmdbRepoStore M I)
      → Outcome StorageError A
      → Outcome StorageError A × LmdbRepoStore M I
  committed s (ok s') result = (result, s')
  committed s (err e) result = (err e, s)
  committed s panic result = (panic, s)
  committed s out_of_fuel result = (out_of_fuel, s)

  abbrev pub get_found :
      Timestamp
      → LmdbRepoStore M I
      → BlockId
      → Outcome StoreError (Option Bytes)
      → Outcome StorageError Block × LmdbRepoStore M I
  get_found now s block_id (ok none) = (err not_found, s)
  get_found now s block_id (ok (some block_ser)) =
      committed s
        (do
          meta_ser ← unwrap_ok (single.get s.meta_store (c.id_to_vec block_id))
          touch now s (c.id_to_vec block_id) meta_ser)
        (decode block_id block_ser)
  get_found now s block_id (err e) = (err backend_error, s)
  get_found now s block_id panic = (panic, s)
  get_found now s block_id out_of_fuel = (out_of_fuel, s)

  unfoldable pub get :
      Timestamp → LmdbRepoStore M I → BlockId → Outcome StorageError Block × LmdbRepoStore M I
  get now s block_id = get_found now s block_id (single.get s.main_store (c.id_to_vec block_id))

  abbrev pub put_expiry : I → Bytes → Option Timestamp → Outcome StorageError I
  put_expiry i key none = ok i
  put_expiry i key (some expiry) = unwrap_ok (multi.put i expiry key)

  unfoldable pub put :
      LmdbRepoStore M I → Block → Outcome StorageError (BlockId × LmdbRepoStore M I)
  put s block = do
    let block_id = Block.id x block
    let key = c.id_to_vec block_id
    main ← unwrap_ok (single.put s.main_store key (x.block_to_vec block))
    expiries ← put_expiry s.expiry_store key (Block.expiry block)
    ok (block_id, record s { main_store = main; expiry_store = expiries })

  unfoldable pub del_meta :
      LmdbRepoStore M I → Bytes → Option Bytes → Outcome StorageError (LmdbRepoStore M I)
  del_meta s key none = ok s
  del_meta s key (some meta_value) = do
    meta ← unwrap (c.meta_from_slice meta_value)
    lru ←
        (if not (meta.last_used == 0)
          then unwrap_ok (remove_from_lru s.recently_used_store key meta.last_used)
          else ok s.recently_used_store)
    metas ← unwrap_ok (single.delete s.meta_store key)
    ok (record s { meta_store = metas; recently_used_store = lru })

  abbrev pub del_expiry : I → Bytes → Option Timestamp → Outcome StorageError I
  del_expiry i key none = ok i
  del_expiry i key (some expiry) = unwrap_ok (multi.delete i expiry key)

  unfoldable pub del :
      LmdbRepoStore M I → BlockId → Outcome StorageError ((Block × ℕ) × LmdbRepoStore M I)
  del s block_id = do
    let key = c.id_to_vec block_id
    found ← unwrap_ok (single.get s.main_store key)
    slice ← ok_or not_found found
    block ← unwrap (c.block_from_slice slice)
    meta_res ← unwrap_ok (single.get s.meta_store key)
    s' ← del_meta s key meta_res
    main ← unwrap_ok (single.delete s'.main_store key)
    expiries ← del_expiry s'.expiry_store key (Block.expiry block)
    ok ((block, length slice), record s' { main_store = main; expiry_store = expiries })

  unfoldable pub repin_synced :
      LmdbRepoStore M I → Bytes → Bool → BlockMeta → Outcome StorageError (Option (BlockMeta × I))
  repin_synced s key add meta = do
    lru ←
        (if meta.synced
          then (if add
              then unwrap_ok (remove_from_lru s.recently_used_store key meta.last_used)
              else unwrap_ok (add_to_lru s.recently_used_store key meta.last_used))
          else ok s.recently_used_store)
    ok (some (record meta { pin = add }, lru))

  -- The meta that `set_pin` writes and the list it writes it with; none where it returns at once.
  unfoldable pub repin :
      LmdbRepoStore M I
      → Bytes
      → Bool
      → Option Bytes
      → Outcome StorageError (Option (BlockMeta × I))
  repin s key add none =
      if add
      then ok (some (record { pin = true; synced = false; last_used = 0 }, s.recently_used_store))
      else ok none
  repin s key add (some meta_value) = do
    meta ← unwrap (c.meta_from_slice meta_value)
    if bool_eq add meta.pin then ok none else (repin_synced s key add meta)

  unfoldable pub set_pin :
      LmdbRepoStore M I → ObjectId → Bool → Outcome StorageError (LmdbRepoStore M I)
  set_pin s object_id add = do
    let key = c.id_to_vec object_id
    meta_ser ← unwrap_ok (single.get s.meta_store key)
    change ← repin s key add meta_ser
    write_meta s key change

  unfoldable pub pin : LmdbRepoStore M I → ObjectId → Outcome StorageError (LmdbRepoStore M I)
  pin s object_id = set_pin s object_id true

  unfoldable pub unpin : LmdbRepoStore M I → ObjectId → Outcome StorageError (LmdbRepoStore M I)
  unpin s object_id = set_pin s object_id false

  unfoldable pub resync_new :
      LmdbRepoStore M I
      → Bytes
      → Timestamp
      → BlockMeta
      → Outcome StorageError (Option (BlockMeta × I))
  resync_new s key now meta = do
    lru ←
        (if not meta.pin
          then unwrap_ok (add_to_lru s.recently_used_store key now)
          else ok s.recently_used_store)
    ok (some (record meta { synced = true; last_used = now }, lru))

  -- The meta that `has_been_synced` writes, likewise.
  unfoldable pub resync :
      LmdbRepoStore M I
      → Bytes
      → Timestamp
      → Option Bytes
      → Outcome StorageError (Option (BlockMeta × I))
  resync s key now none = do
    lru ← unwrap_ok (add_to_lru s.recently_used_store key now)
    ok (some (record { pin = false; synced = true; last_used = now }, lru))
  resync s key now (some meta_value) = do
    meta ← unwrap (c.meta_from_slice meta_value)
    if meta.synced then ok none else (resync_new s key now meta)

  unfoldable pub has_been_synced :
      Timestamp
      → LmdbRepoStore M I
      → BlockId
      → Option Timestamp
      → Outcome StorageError (LmdbRepoStore M I)
  has_been_synced clock s block_id when = do
    let key = c.id_to_vec block_id
    meta_ser ← unwrap_ok (single.get s.meta_store key)
    change ← resync s key (elim when [ none ↦ clock | some w ↦ w ]) meta_ser
    write_meta s key change

  unfoldable pub block_ids : List (ℕ × Bytes) → Outcome StorageError (List BlockId)
  block_ids [] = ok []
  block_ids ((time, key) ∷ rest) = do
    block_id ← unwrap (c.id_from_slice key)
    ids ← block_ids rest
    ok (block_id ∷ ids)

  unfoldable pub del_all :
      LmdbRepoStore M I → List BlockId → Outcome StorageError (LmdbRepoStore M I)
  del_all s [] = ok s
  del_all s (block_id ∷ rest) = do
    ((block, block_size), s') ← unwrap_ok (del s block_id)
    del_all s' rest

  unfoldable pub remove_expired :
      Timestamp → LmdbRepoStore M I → Outcome StorageError (LmdbRepoStore M I)
  remove_expired now s = do
    iter ← unwrap_ok (multi.iter_prev_dup_from s.expiry_store now)
    ids ← block_ids (concat (map oks (oks iter)))
    del_all s ids

  -- The sum of a `usize` stays within the size of the database.
  unfoldable pub del_until :
      LmdbRepoStore M I → ℕ → ℕ → List BlockId → Outcome StorageError (ℕ × LmdbRepoStore M I)
  del_until s size total [] = ok (total, s)
  del_until s size total (block_id ∷ rest) = do
    ((block, block_size), s') ← unwrap_ok (del s block_id)
    let more = del_until s' size (total + block_size) rest
    if leb size (total + block_size) then ok (total + block_size, s') else more

  unfoldable pub remove_least_used :
      LmdbRepoStore M I → ℕ → Outcome StorageError (ℕ × LmdbRepoStore M I)
  remove_least_used s size = do
    iter ← unwrap_ok (multi.iter_start s.recently_used_store)
    ids ← block_ids (oks iter)
    del_until s size 0 ids
