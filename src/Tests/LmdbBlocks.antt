-- ===== src/Tests/LmdbBlocks.antt =====
-- The store of blocks on LMDB.
use mathlib.Core.Option.{some-injective}
use lofire_rs.Common.{
  ℕ, zero, suc, Bytes, [], ◌∷◌, none, some, Option, Bool, true, false, ok, err, panic, ◌≡◌, refl,
  ◌⊎◌, ◌≤◌, length, beq_refl, if_true, if_false, ◌≢◌, ap, sym, ◌∙◌, eq_of_beq, bytes_has_eq, lookup,
  arith, bytes_eq, List, if◌then◌else◌, Bool-cases, inl, inr,
}
use lofire_rs.Types.{Block, BlockId, object_id_list}
use lofire_rs.Crates.{Crates, skip_block}
use lofire_rs.Block
use lofire_rs.Lmdb.Rkv.{member, Distinct}
use lofire_rs.Lmdb.RepoStore.{
  LmdbRepoStore, BlockMeta, Codec, get, put, del, set_pin, has_been_synced, remove_least_used,
}
use lofire_rs.Lmdb.RepoStore.Abstract.{
  Contents, Holds, Last, option_map, expires, update_meta, pinned_as, tracked, stamped, synced_at,
  forget, store_block, answer, after_get,
}
use lofire_rs.Lmdb.RepoStore.Metas.{get-Holds}
use lofire_rs.Lmdb.RepoStore.Unordered.{has_been_synced_unordered}
use lofire_rs.Lmdb.RepoStore.Pins.{LastOnUnpin, set_pin-Holds, has_been_synced-Holds}
use lofire_rs.Lmdb.RepoStore.Blocks.{put-Holds, SameExpiry}
use lofire_rs.Lmdb.RepoStore.Reclaim.{del-Holds, del_pinned}
use lofire_rs.Store.{not_found}
use lofire_rs.Lmdb.RepoStore.Deletion.{Removable}
use lofire_rs.Lmdb.RepoStore.LeastUsed.{Stored, reclaim, remove_least_used-reclaim}
use lofire_rs.Tests.Crate.{crates}
use lofire_rs.Tests.Serial.{
  write_block, read_block, read_block-write_block, write_block-skip_block, write_block-cons,
}
use lofire_rs.Tests.Rkv.{single, single_laws, multi, multi_laws, Entries, before}

unfoldable lmdb_crates : Crates
unfolding crates
lmdb_crates = record crates {
  block_to_vec = write_block;
  block_to_vec_skip = write_block-skip_block;
}

bit : Bool → ℕ
bit true = 1
bit false = 0

of_bit : ℕ → Bool
of_bit zero = false
of_bit (suc n) = true

of_bit-bit : (b : Bool) → of_bit (bit b) ≡ b
unfolding of_bit bit
of_bit-bit true = refl
of_bit-bit false = refl

write_block_meta : BlockMeta → Bytes
write_block_meta m = bit m.pin ∷ m.last_used ∷ bit m.synced ∷ []

read_block_meta : Bytes → Option BlockMeta
read_block_meta (p ∷ t ∷ s ∷ []) =
    some (record { pin = of_bit p; last_used = t; synced = of_bit s })
read_block_meta _ = none

unfoldable codec : Codec lmdb_crates
unfolding lmdb_crates write_block_meta read_block_meta
codec = record {
  id_to_vec = λ i. i.blake3_digest32;
  id_from_slice = λ b. some (record { blake3_digest32 = b });
  id_round_trip = λ i. refl;
  meta_to_vec = write_block_meta;
  meta_from_slice = read_block_meta;
  meta_round_trip = λ m. rw (of_bit-bit m.pin, of_bit-bit m.synced);
  block_from_slice = read_block;
  block_round_trip = read_block-write_block;
}

abbrev blk : Block
blk = record {
  v0 = record {
    id = none;
    key = none;
    children = [];
    deps = object_id_list [];
    expiry = some 9;
    content = 7 ∷ [];
  };
}

abbrev name : BlockId
name = Block.get_id lmdb_crates blk

abbrev stored : Bytes
stored = name.blake3_digest32

-- A store of one block.
module _ (key : Bytes) where
  unfoldable only {ℓ} : {A : Type ℓ} → A → Bytes → Option A
  only a k = if bytes_eq key k then some a else none

  unfoldable contents : Block → BlockMeta → Contents
  unfolding only
  contents b m = record { blocks = only b; metas = only m }

  unfoldable store : Block → ℕ → BlockMeta → Entries → LmdbRepoStore (List (Bytes × Bytes)) Entries
  unfolding Distinct member
  store b e m used = record {
    main_store = (key, write_block b) ∷ [];
    meta_store = (key, write_block_meta m) ∷ [];
    expiry_store = ((e, key) ∷ [], (refl, tt));
    recently_used_store = used;
  }

  none_is_not_some : {b : Block} → none ≢ some b
  none_is_not_some h = cc

  store-Holds :
      (b : Block) (e : ℕ) (m : BlockMeta) (used : Entries)
      → Block.expiry b ≡ some e
      → codec.id_to_vec (Block.get_id lmdb_crates b) ≡ key
      → stamped (some m) ≡ true
      → ((t : ℕ) → member t key used.0 ≡ tracked (some m) t)
      → ((t : ℕ) (k : Bytes) → bytes_eq key k ≡ false → member t k used.0 ≡ false)
      → Holds lmdb_crates codec single_laws multi_laws (store b e m used) (contents b m)
  unfolding store contents only single_laws multi_laws lmdb_crates codec lookup member
  store-Holds b e m used once is_named good here elsewhere = record {
    main = λ k. main k (Bool-cases (bytes_eq key k));
    meta = λ k. meta k (Bool-cases (bytes_eq key k));
    used = λ t k. in_use t k (Bool-cases (bytes_eq key k));
    expiring = λ t k. expiring t k (Bool-cases (bytes_eq key k));
    named = λ k b' h. named k b' h (Bool-cases (bytes_eq key k));
    stamps = λ k. stamps k (Bool-cases (bytes_eq key k));
  }
    where
      Split : Bytes → Type 0
      Split k = (bytes_eq key k ≡ true) ⊎ (bytes_eq key k ≡ false)

      main :
          (k : Bytes)
          → Split k
          → lookup k ((key, write_block b) ∷ []) ≡ option_map write_block (only b k)
      main k (inl p) = rw p
      main k (inr p) = rw p

      meta :
          (k : Bytes)
          → Split k
          → lookup k ((key, write_block_meta m) ∷ []) ≡ option_map write_block_meta (only m k)
      meta k (inl p) = rw p
      meta k (inr p) = rw p

      in_use : (t : ℕ) (k : Bytes) → Split k → member t k used.0 ≡ tracked (only m k) t
      in_use t k (inl p) = rw p (ap (λ j. member t j used.0) (sym (eq_of_beq key k p)) ∙ here t)
      in_use t k (inr p) = rw p (elsewhere t k p)

      expiring : (t : ℕ) (k : Bytes) → Split k → member t k ((e, key) ∷ []) ≡ expires (only b k) t
      expiring t k (inl p) = rw (p, once) (ground arith)
      expiring t k (inr p) = rw p (ground arith)

      named :
          (k : Bytes) (b' : Block)
          → only b k ≡ some b'
          → Split k
          → codec.id_to_vec (Block.get_id lmdb_crates b') ≡ k
      named k b' h (inl p) =
          ap (λ (d : Block). codec.id_to_vec (Block.get_id lmdb_crates d))
            (sym (some-injective _ _ (rw p at h)))
          ∙ is_named
          ∙ eq_of_beq key k p
      named k b' h (inr p) = absurd (none_is_not_some (rw p at h))

      stamps : (k : Bytes) → Split k → stamped (only m k) ≡ true
      stamps k (inl p) = rw p good
      stamps k (inr p) = rw p

abbrev idle : BlockMeta
idle = record { pin = false; last_used = 5; synced = true }

abbrev held : BlockMeta
held = record { pin = true; last_used = 5; synced = true }

abbrev in_list : Entries
unfolding Distinct member
in_list = ((5, stored) ∷ [], (refl, tt))

abbrev no_list : Entries
unfolding Distinct
no_list = ([], tt)

abbrev idle_store : LmdbRepoStore (List (Bytes × Bytes)) Entries
idle_store = store stored blk 9 idle in_list

idle-Holds : Holds lmdb_crates codec single_laws multi_laws idle_store (contents stored blk idle)
unfolding codec member in_list
idle-Holds =
    store-Holds stored blk 9 idle in_list refl refl refl (λ t. rw (beq_refl stored) (ground arith))
      (λ t k h. rw h (ground arith))

held-Holds :
    Holds lmdb_crates codec single_laws multi_laws
      (store stored blk 9 held no_list)
      (contents stored blk held)
unfolding codec member no_list
held-Holds = store-Holds stored blk 9 held no_list refl refl refl (λ t. refl) (λ t k h. refl)

abbrev new : BlockMeta
new = record { pin = false; last_used = 0; synced = false }

new-Holds :
    Holds lmdb_crates codec single_laws multi_laws
      (store stored blk 9 new no_list)
      (contents stored blk new)
unfolding codec member no_list
new-Holds = store-Holds stored blk 9 new no_list refl refl refl (λ t. refl) (λ t k h. refl)

alone :
    (m : BlockMeta) (now : ℕ)
    → Last lmdb_crates codec single_laws multi_laws (contents stored blk m) now stored
unfolding Last contents only
alone m now j other there = absurd (nothing (rw other at there))
  where
    nothing : false ≢ true
    nothing e = cc

get-Holds_example :
    (s' : LmdbRepoStore (List (Bytes × Bytes)) Entries) × (get lmdb_crates codec single multi 6
        idle_store name
      ≡ (answer ((contents stored blk idle).blocks (codec.id_to_vec name)), s'))
    × Holds lmdb_crates codec single_laws multi_laws s' (
        after_get 6
          (codec.id_to_vec name)
          (contents stored blk idle)
          ((contents stored blk idle).blocks (codec.id_to_vec name)))
unfolding codec
get-Holds_example =
    get-Holds lmdb_crates codec single_laws multi_laws 6 idle_store (contents stored blk idle) name
      idle-Holds refl (alone idle 6)

set_pin-Holds_example :
    (s' : LmdbRepoStore (List (Bytes × Bytes)) Entries) × (set_pin lmdb_crates codec single multi
        idle_store name true
      ≡ ok s')
    × Holds lmdb_crates codec single_laws multi_laws s'
        (update_meta (pinned_as true) (codec.id_to_vec name) (contents stored blk idle))
unfolding codec LastOnUnpin
set_pin-Holds_example =
    set_pin-Holds lmdb_crates codec single_laws multi_laws true idle_store
      (contents stored blk idle) name idle-Holds (λ m found e. alone idle m.last_used)

has_been_synced-Holds_example :
    (s' : LmdbRepoStore (List (Bytes × Bytes)) Entries) × (has_been_synced lmdb_crates codec single
        multi 6
        (store stored blk 9 new no_list)
        name
        (some 6)
      ≡ ok s')
    × Holds lmdb_crates codec single_laws multi_laws s'
        (update_meta (synced_at 6) (codec.id_to_vec name) (contents stored blk new))
unfolding codec
has_been_synced-Holds_example =
    has_been_synced-Holds lmdb_crates codec single_laws multi_laws 6 6
      (store stored blk 9 new no_list) (contents stored blk new) name new-Holds refl (alone new 6)

put-Holds_example :
    (s' : LmdbRepoStore (List (Bytes × Bytes)) Entries) × (put lmdb_crates codec single multi
        idle_store blk
      ≡ ok (Block.id lmdb_crates blk, s'))
    × Holds lmdb_crates codec single_laws multi_laws s'
        (store_block (codec.id_to_vec (Block.id lmdb_crates blk)) blk (contents stored blk idle))
unfolding SameExpiry contents only codec Block.id
put-Holds_example =
    put-Holds lmdb_crates codec single_laws multi_laws idle_store (contents stored blk idle) blk
      idle-Holds refl
      (λ b found. ap Block.expiry (sym (some-injective _ _ (rw (beq_refl stored) at found))))

del-Holds_example :
    (((contents stored blk idle).blocks (codec.id_to_vec name) ≡ none)
      × (del lmdb_crates codec single multi idle_store name ≡ err not_found))
    ⊎ ((b : Block) × (s' : LmdbRepoStore (List (Bytes × Bytes)) Entries) × ((contents stored blk
              idle).blocks
            (codec.id_to_vec name)
          ≡ some b)
        × (del lmdb_crates codec single multi idle_store name
            ≡ ok ((skip_block b, length (lmdb_crates.block_to_vec b)), s'))
        × Holds lmdb_crates codec single_laws multi_laws s'
            (forget (codec.id_to_vec name) (contents stored blk idle)))
unfolding Removable contents only codec
del-Holds_example =
    del-Holds lmdb_crates codec single_laws multi_laws idle_store (contents stored blk idle) name
      idle-Holds
      (λ m found h.
        ap (λ (n : BlockMeta). n.pin) (sym (some-injective _ _ (rw (beq_refl stored) at found))))

del_pinned_example :
    del lmdb_crates codec single multi (store stored blk 9 held no_list) name ≡ panic
unfolding contents only codec
del_pinned_example =
    del_pinned lmdb_crates codec single_laws multi_laws (store stored blk 9 held no_list)
      (contents stored blk held) name blk held held-Holds (if_true _ (beq_refl stored))
      (if_true _ (beq_refl stored)) refl refl

has_block :
    (k : Bytes)
    → (bytes_eq stored k ≡ true) ⊎ (bytes_eq stored k ≡ false)
    → (m : BlockMeta) → only stored idle k ≡ some m
    → (b : Block) × (only stored blk k ≡ some b)
unfolding only
has_block k (inl p) m found = (blk, if_true _ p)
has_block k (inr p) m found = absurd (nothing (rw p at found))
  where
    nothing : {n : BlockMeta} → none ≢ some n
    nothing e = cc

remove_least_used-reclaim_example :
    (s' : LmdbRepoStore (List (Bytes × Bytes)) Entries) × (remove_least_used lmdb_crates codec
        single multi idle_store 1000
      ≡ ok (
        (reclaim lmdb_crates codec single_laws multi_laws 1000 0
            (contents stored blk idle)
            (multi_laws.entries in_list)).0,
        s',
      ))
    × Holds lmdb_crates codec single_laws multi_laws s'
        (reclaim lmdb_crates codec single_laws multi_laws 1000 0
          (contents stored blk idle)
          (multi_laws.entries in_list)).1
    × ((1000
          ≤ (reclaim lmdb_crates codec single_laws multi_laws 1000 0
              (contents stored blk idle)
              (multi_laws.entries in_list)).0)
        ⊎ ((t : ℕ) (k : Bytes) → multi_laws.has s'.recently_used_store t k ≡ false))
unfolding store Stored contents only
remove_least_used-reclaim_example =
    remove_least_used-reclaim lmdb_crates codec single_laws multi_laws 1000 idle_store
      (contents stored blk idle) idle-Holds
      (λ k m found. has_block k (Bool-cases (bytes_eq stored k)) m found)

-- An identifier that comes before the one that is stored.
abbrev earlier : BlockId
earlier = record { blake3_digest32 = [] }

stored_lem : bytes_eq stored [] ≡ false
unfolding lmdb_crates Block.get_id lofire_rs.Tests.Crate.crates bytes_eq
stored_lem = let (n, l, same) = write_block-cons blk in rw same

unknown : (contents stored blk idle).metas (codec.id_to_vec earlier) ≡ none
unfolding contents only codec
unknown = if_false _ stored_lem

in_use : tracked ((contents stored blk idle).metas stored) 5 ≡ true
unfolding contents only
in_use = rw (beq_refl stored)

before_nothing : (k : Bytes) → before k [] ≡ false
unfolding before
before_nothing [] = refl
before_nothing (a ∷ k) = refl

out_of_order : multi_laws.before stored (codec.id_to_vec earlier) ≡ false
unfolding multi_laws codec
out_of_order = before_nothing stored

has_been_synced_unordered_example :
    has_been_synced lmdb_crates codec single multi 5 idle_store earlier (some 5) ≡ panic
has_been_synced_unordered_example =
    has_been_synced_unordered lmdb_crates codec single_laws multi_laws 5 5 idle_store
      (contents stored blk idle) earlier stored idle-Holds unknown in_use out_of_order
