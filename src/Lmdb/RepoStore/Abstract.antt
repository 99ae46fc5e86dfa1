-- ===== src/Lmdb/RepoStore/Abstract.antt =====
-- lofire-store-lmdb/src/repostore.rs: what the operations of the store do to its blocks and their
-- metas, each under its serialized identifier, the lists by expiry and by last use left out.
use lofire_rs.Common.{
  ℕ, ◌≡◌, Bytes, Bool, true, false, not, ◌&&◌, Option, some, none, bytes_eq, if◌then◌else◌, ◌==◌,
  Outcome, ok, err,
}
use lofire_rs.Types.{Block, Timestamp}
use lofire_rs.Crates.{Crates, skip_block}
use lofire_rs.Block
use lofire_rs.Store.{StorageError, not_found}
use lofire_rs.Lmdb.Rkv.{SingleStore, SingleStoreLaws, MultiIntegerStore, MultiIntegerStoreLaws}
use lofire_rs.Lmdb.RepoStore.{LmdbRepoStore, BlockMeta, Codec}

pub record Contents : Type 0 where
  pub blocks : Bytes → Option Block
  pub metas : Bytes → Option BlockMeta

abbrev pub set : {A : Type 0} → Bytes → A → (Bytes → A) → Bytes → A
set k a f j = if bytes_eq k j then a else f j

-- A block is in the list of use at the minute of its last use, once it is synced and while it is
-- not pinned.
abbrev pub tracked : Option BlockMeta → ℕ → Bool
tracked none t = false
tracked (some m) t = m.synced && (not m.pin && m.last_used == t)

abbrev pub live : BlockMeta → Bool
live m = m.synced && not m.pin

abbrev pub at_time : Option Timestamp → ℕ → Bool
at_time none t = false
at_time (some e) t = e == t

abbrev pub expires : Option Block → ℕ → Bool
expires none t = false
expires (some b) t = at_time (Block.expiry b) t

abbrev pub option_map : {A B : Type 0} → (A → B) → Option A → Option B
option_map f none = none
option_map f (some a) = some (f a)

-- A meta has a minute of last use exactly if the block is synced.
abbrev pub stamped : Option BlockMeta → Bool
stamped none = true
stamped (some m) = if m.synced then not (m.last_used == 0) else m.last_used == 0

module _ (x : Crates) (c : Codec x) {M I : Type 0} {single : SingleStore M}
    {multi : MultiIntegerStore I} (sl : SingleStoreLaws single)
    (ml : MultiIntegerStoreLaws multi) where
  -- The databases hold these contents, and the two lists agree with them.
  pub record Holds (s : LmdbRepoStore M I) (a : Contents) : Type 0 where
    pub main : (k : Bytes) → sl.view s.main_store k ≡ option_map x.block_to_vec (a.blocks k)
    pub meta : (k : Bytes) → sl.view s.meta_store k ≡ option_map c.meta_to_vec (a.metas k)
    pub used : (t : ℕ) (k : Bytes) → ml.has s.recently_used_store t k ≡ tracked (a.metas k) t
    pub expiring : (t : ℕ) (k : Bytes) → ml.has s.expiry_store t k ≡ expires (a.blocks k) t
    pub named : (k : Bytes) (b : Block) → a.blocks k ≡ some b → c.id_to_vec (Block.get_id x b) ≡ k
    pub stamps : (k : Bytes) → stamped (a.metas k) ≡ true

  -- The block comes after the others that are in the list of use at the minute `now`.
  unfoldable pub Last : Contents → ℕ → Bytes → Type 0
  Last a now k =
      (j : Bytes) → bytes_eq k j ≡ false → tracked (a.metas j) now ≡ true → ml.before j k ≡ true

abbrev pub used_at : ℕ → Option BlockMeta → Option BlockMeta
used_at now none = none
used_at now (some m) = if m.synced then some (record m { last_used = now }) else some m

abbrev pub pinned_as : Bool → Option BlockMeta → Option BlockMeta
pinned_as add (some m) = some (record m { pin = add })
pinned_as true none = some (record { pin = true; synced = false; last_used = 0 })
pinned_as false none = none

abbrev pub synced_at : ℕ → Option BlockMeta → Option BlockMeta
synced_at now none = some (record { pin = false; synced = true; last_used = now })
synced_at now (some m) =
    if m.synced then some m else some (record m { synced = true; last_used = now })

abbrev pub update_meta : (Option BlockMeta → Option BlockMeta) → Bytes → Contents → Contents
update_meta f k a = record a { metas = set k (f (a.metas k)) a.metas }

abbrev pub forget : Bytes → Contents → Contents
forget k a = record { blocks = set k none a.blocks; metas = set k none a.metas }

abbrev pub store_block : Bytes → Block → Contents → Contents
store_block k b a = record a { blocks = set k (some b) a.blocks }

-- What `get` answers, and leaves.
abbrev pub answer : Option Block → Outcome StorageError Block
answer none = err not_found
answer (some b) = ok (skip_block b)

abbrev pub after_get : ℕ → Bytes → Contents → Option Block → Contents
after_get now k a none = a
after_get now k a (some b) = update_meta (used_at now) k a
