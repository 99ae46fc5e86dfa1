-- ===== src/Lmdb/RepoStore/Lists.antt =====
-- lofire-store-lmdb/src/repostore.rs: the list of use, as `remove_from_lru` and `add_to_lru` change it.
use lofire_rs.Common.{
  ℕ, ◌≡◌, Bytes, bytes_eq, bytes_has_eq, beq_refl, true, false, not, ◌&&◌, ◌||◌, Option, some, none,
  ok, Bool-cases, inl, inr, ◌==◌, arith, sym, ap, ==_iff, bytes_eq_iff, nat_has_eq, ◌∙◌,
}
use lofire_rs.Crates.{Crates}
use lofire_rs.Lmdb.Rkv.{SingleStore, MultiIntegerStore, MultiIntegerStoreLaws}
use lofire_rs.Lmdb.RepoStore.{BlockMeta, Codec, remove_from_lru, add_to_lru}
use lofire_rs.Lmdb.RepoStore.Abstract.{tracked, set, live}

module _ (x : Crates) (c : Codec x) {M I : Type 0} (single : SingleStore M)
    {multi : MultiIntegerStore I} (ml : MultiIntegerStoreLaws multi) where
  unfoldable pub Lists : I → (Bytes → Option BlockMeta) → Type 0
  Lists i f = (t : ℕ) (k : Bytes) → ml.has i t k ≡ tracked (f k) t

  live-tracked : (m : BlockMeta) → live m ≡ true → tracked (some m) m.last_used ≡ true
  live-tracked m h = ground (arith, ==_iff m.last_used m.last_used)

  live_time : (m : BlockMeta) (t : ℕ) → live m ≡ true → tracked (some m) t ≡ (m.last_used == t)
  live_time m t h = ground arith

  time_at :
      (i : I) (f : Bytes → Option BlockMeta) (k j : Bytes) (m : BlockMeta) (t : ℕ)
      → Lists i f
      → f k ≡ some m
      → live m ≡ true
      → bytes_eq k j ≡ true
      → ml.has i t j ≡ (m.last_used == t)
  unfolding Lists
  time_at i f k j m t lists found alive same =
      lists t j
      ∙ ap (λ o. tracked o t) (ap f (sym ((bytes_eq_iff k j).0 same)) ∙ found)
      ∙ live_time m t alive

  -- A block leaves the list.
  pub remove_from_lru-Lists :
      (i : I) (f : Bytes → Option BlockMeta) (k : Bytes) (m : BlockMeta)
      → Lists i f
      → f k ≡ some m
      → live m ≡ true
      → (n : I) × (remove_from_lru x c single multi i k m.last_used ≡ ok n) × Lists n (set k none f)
  unfolding Lists remove_from_lru
  remove_from_lru-Lists i f k m lists found alive =
      let (n, deleted, has) = ml.delete_has i m.last_used k there in
      (n, deleted, λ t j. has t j ∙ after t j)
    where
      there : ml.has i m.last_used k ≡ true
      there = time_at i f k k m m.last_used lists found alive (beq_refl k) ∙ beq_refl m.last_used

      after :
          (t : ℕ) (j : Bytes)
          → (not (m.last_used == t && bytes_eq k j) && ml.has i t j) ≡ tracked (set k none f j) t
      after t j = elim (Bool-cases (bytes_eq k j)) [
        | inl same ↦ rw (same, time_at i f k j m t lists found alive same) (ground arith)
        | inr other ↦ rw (other, lists t j) (ground arith)
      ]

  -- A block that is not in the list enters it, after the others of that minute.
  pub add_to_lru-Lists :
      (i : I) (f : Bytes → Option BlockMeta) (k : Bytes) (m : BlockMeta)
      → Lists i f
      → ((t : ℕ) → tracked (f k) t ≡ false)
      → live m ≡ true
      → ((j : Bytes) → tracked (f j) m.last_used ≡ true → ml.before j k ≡ true)
      → (n : I) × (add_to_lru x c single multi i k m.last_used ≡ ok n) × Lists n (set k (some m) f)
  unfolding Lists add_to_lru
  add_to_lru-Lists i f k m lists absent alive last =
      let (n, added, has) =
        ml.append_has i m.last_used k (λ j h. last j (sym (lists m.last_used j) ∙ h)) in
      (n, added, λ t j. has t j ∙ after t j)
    where
      after :
          (t : ℕ) (j : Bytes)
          → ((m.last_used == t && bytes_eq k j) || ml.has i t j) ≡ tracked (set k (some m) f j) t
      after t j = elim (Bool-cases (bytes_eq k j)) [
        | inl same ↦
            rw (same, lists t j, sym ((bytes_eq_iff k j).0 same), absent t, live_time m t alive)
              (ground arith)
        | inr other ↦ rw (other, lists t j) (ground arith)
      ]

  -- A meta that changes where its block is in no list, before and after.
  pub set-Lists :
      (i : I) (f : Bytes → Option BlockMeta) (k : Bytes) (o : Option BlockMeta)
      → Lists i f
      → ((t : ℕ) → tracked o t ≡ tracked (f k) t)
      → Lists i (set k o f)
  unfolding Lists
  set-Lists i f k o lists agree t j = elim (Bool-cases (bytes_eq k j)) [
    | inl same ↦ rw (same, agree t, (bytes_eq_iff k j).0 same) (lists t j)
    | inr other ↦ rw (other) (lists t j)
  ]

  -- The second change of a meta replaces the first.
  pub set-set-Lists :
      (i : I) (f : Bytes → Option BlockMeta) (k : Bytes) (o o' : Option BlockMeta)
      → Lists i (set k o (set k o' f))
      → Lists i (set k o f)
  unfolding Lists
  set-set-Lists i f k o o' lists t j = elim (Bool-cases (bytes_eq k j)) [
    | inl same ↦ rw (lists t j, same)
    | inr other ↦ rw (lists t j, other)
  ]
