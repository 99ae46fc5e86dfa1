-- ===== src/Lmdb/RepoStore/Blocks.antt =====
-- lofire-store-lmdb/src/repostore.rs: `put` and `del`.
use mathlib.Core.Option.{some-injective}
use lofire_rs.Common.{
  ℕ, ◌≡◌, Bytes, bytes_eq, bytes_eq_iff, bytes_has_eq, ◌&&◌, ◌||◌, Option, some, none, ok,
  Bool-cases, inl, inr, arith, sym, ap, ◌∙◌, refl, if◌then◌else◌, nat_has_eq,
}
use lofire_rs.Types.{Block, Timestamp}
use lofire_rs.Crates.{Crates}
use lofire_rs.Block
use lofire_rs.Lmdb.Rkv.{SingleStore, SingleStoreLaws, MultiIntegerStore, MultiIntegerStoreLaws}
use lofire_rs.Lmdb.RepoStore.{LmdbRepoStore, Codec, put_expiry, put}
use lofire_rs.Lmdb.RepoStore.Abstract.{
  Contents, set, at_time, expires, option_map, Holds, store_block,
}

-- A block that is stored again has the expiry that it had.
unfoldable pub SameExpiry : Option Block → Block → Type 0
SameExpiry o b = (b' : Block) → o ≡ some b' → Block.expiry b' ≡ Block.expiry b

same_expiry :
    (o : Option Block) (b : Block) (t : ℕ)
    → SameExpiry o b
    → (at_time (Block.expiry b) t || expires o t) ≡ at_time (Block.expiry b) t
unfolding SameExpiry
same_expiry none b t same = ground arith
same_expiry (some b') b t same = rw (same b' refl) (ground arith)

module _ (x : Crates) (c : Codec x) {M I : Type 0} {single : SingleStore M}
    {multi : MultiIntegerStore I} (sl : SingleStoreLaws single)
    (ml : MultiIntegerStoreLaws multi) where
  Expiring : I → (Bytes → Option Block) → Type 0
  Expiring i f = (t : ℕ) (k : Bytes) → ml.has i t k ≡ expires (f k) t

  put_expiry_with :
      (e : Option Timestamp) (i : I) (k : Bytes)
      → (n : I) × (put_expiry x c single multi i k e ≡ ok n)
        × ((t : ℕ) (j : Bytes) → ml.has n t j ≡ ((bytes_eq k j && at_time e t) || ml.has i t j))
  put_expiry_with none i k = (i, refl, λ t j. ground arith)
  put_expiry_with (some e) i k =
      let (n, added, has) = ml.put_has i e k in (n, rw added, λ t j. has t j ∙ ground arith)

  put-Expiring :
      (i : I) (f : Bytes → Option Block) (k : Bytes) (b : Block)
      → Expiring i f
      → SameExpiry (f k) b
      → (n : I) × (put_expiry x c single multi i k (Block.expiry b) ≡ ok n)
        × Expiring n (set k (some b) f)
  unfolding Expiring
  put-Expiring i f k b lists same =
      let (n, added, has) = put_expiry_with (Block.expiry b) i k in
      (n, added, λ t j. has t j ∙ after t j)
    where
      after :
          (t : ℕ) (j : Bytes)
          → ((bytes_eq k j && at_time (Block.expiry b) t) || ml.has i t j)
            ≡ expires (set k (some b) f j) t
      after t j = elim (Bool-cases (bytes_eq k j)) [
        | inl e ↦ rw (e, lists t j, sym ((bytes_eq_iff k j).0 e)) (same_expiry (f k) b t same)
        | inr e ↦ rw (e, lists t j)
      ]

  -- `put` stores the block under its identifier and lists its expiry. The identifier that the block
  -- carries, if any, is the computed one, and a block that is stored again has the expiry that it had.
  pub put-Holds :
      (s : LmdbRepoStore M I) (a : Contents) (b : Block)
      → Holds x c sl ml s a
      → Block.id x b ≡ Block.get_id x b
      → SameExpiry (a.blocks (c.id_to_vec (Block.id x b))) b
      → (s' : LmdbRepoStore M I) × (put x c single multi s b ≡ ok (Block.id x b, s'))
        × Holds x c sl ml s' (store_block (c.id_to_vec (Block.id x b)) b a)
  unfolding put Expiring
  put-Holds s a b h known same =
      let (m, written, view) =
        sl.put_view s.main_store (c.id_to_vec (Block.id x b)) (x.block_to_vec b) in
      let (i, listed, expiring) =
        put-Expiring s.expiry_store a.blocks (c.id_to_vec (Block.id x b)) b h.expiring same in
      (
        record s { main_store = m; expiry_store = i },
        rw (written, listed),
        record {
          main = λ j. view j ∙ main j;
          meta = h.meta;
          used = h.used;
          expiring = expiring;
          named = named;
          stamps = h.stamps;
        },
      )
    where
      main :
          (j : Bytes)
          → (if bytes_eq (c.id_to_vec (Block.id x b)) j
              then some (x.block_to_vec b)
              else sl.view s.main_store j)
            ≡ option_map x.block_to_vec (set (c.id_to_vec (Block.id x b)) (some b) a.blocks j)
      main j = elim (Bool-cases (bytes_eq (c.id_to_vec (Block.id x b)) j)) [
        | inl e ↦ rw e
        | inr e ↦ rw e (h.main j)
      ]

      named :
          (j : Bytes) (b' : Block)
          → set (c.id_to_vec (Block.id x b)) (some b) a.blocks j ≡ some b'
          → c.id_to_vec (Block.get_id x b') ≡ j
      named j b' there = elim (Bool-cases (bytes_eq (c.id_to_vec (Block.id x b)) j)) [
        | inl e ↦
            ap (λ (d : Block). c.id_to_vec (Block.get_id x d))
              (sym (some-injective _ _ (rw e at there)))
            ∙ ap c.id_to_vec (sym known)
            ∙ (bytes_eq_iff (c.id_to_vec (Block.id x b)) j).0 e
        | inr e ↦ h.named j b' (rw e at there)
      ]
