-- ===== src/Tests/Rkv.antt =====
-- A stand-in for the rkv crate: a database is a list of its entries.
use lofire_rs.Common.{
  ℕ, Bytes, List, [], ◌∷◌, map, Option, none, some, Bool, true, false, not, ◌&&◌, ◌||◌, Outcome, ok,
  err, ◌≡◌, refl, if◌then◌else◌, lookup, insert, remove, lookup-insert, lookup-remove, bytes_eq,
  bytes_has_eq, ◌==◌, ltb, leb, Bool-cases, inl, inr, arith, eq_of_beq, nat_has_eq, if_true,
  if_false, beq_refl, ap, sym, ◌∙◌, ◌⊎◌,
}
use lofire_rs.Lmdb.Rkv.{
  SingleStore, SingleStoreLaws, MultiIntegerStore, MultiIntegerStoreLaws, StoreError, store_error,
  member, Distinct,
}

delete_at : Option Bytes → List (Bytes × Bytes) → Outcome StoreError (List (Bytes × Bytes))
delete_at none m = err store_error
delete_at (some v) m = ok m

unfoldable pub single : SingleStore (List (Bytes × Bytes))
unfolding delete_at
single = record {
  get = λ m k. ok (lookup k m);
  put = λ m k v. ok (insert k v m);
  delete = λ m k. delete_at (lookup k m) (remove k m);
}

unfoldable pub single_laws : SingleStoreLaws single
unfolding single delete_at
single_laws = record {
  view = λ m k. lookup k m;
  get_view = λ m k. refl;
  put_view = λ m k v. (insert k v m, refl, λ j. lookup-insert k j v m);
  delete_view = λ m k v found. (remove k m, rw found, λ j. lookup-remove k j m);
}

-- The order of bytes in memory.
unfoldable pub before : Bytes → Bytes → Bool
before [] [] = false
before [] (b ∷ bs) = true
before (a ∷ as') [] = false
before (a ∷ as') (b ∷ bs) = ltb a b || (a == b && before as' bs)

-- A list without repetitions.
abbrev pub Entries : Type 0
Entries = (l : List (ℕ × Bytes)) × Distinct l

unfoldable pub without : ℕ → Bytes → List (ℕ × Bytes) → List (ℕ × Bytes)
without t k [] = []
without t k ((u, j) ∷ l) =
    let rest = without t k l in if u == t && bytes_eq j k then rest else (u, j) ∷ rest

pub member-without :
    (t : ℕ) (k : Bytes) (l : List (ℕ × Bytes)) (u : ℕ) (j : Bytes)
    → member u j (without t k l) ≡ (not (t == u && bytes_eq k j) && member u j l)
unfolding without member
member-without t k [] u j = ground arith
member-without t k ((v, i) ∷ l) u j = ground (
  arith,
  member-without t k l u j,
  bytes_has_eq.beq_iff i k,
  bytes_has_eq.beq_iff i j,
  bytes_has_eq.beq_iff k j,
)

pub Distinct-without :
    (t : ℕ) (k : Bytes) (l : List (ℕ × Bytes)) → Distinct l → Distinct (without t k l)
unfolding Distinct without
Distinct-without t k [] distinct = tt
Distinct-without t k ((u, j) ∷ l) distinct = elim (Bool-cases (u == t && bytes_eq j k)) [
  | inl e ↦ rw (if_true _ e) (Distinct-without t k l distinct.1)
  | inr e ↦
      rw (if_false _ e) (
        rw (member-without t k l u j, distinct.0) (ground arith),
        Distinct-without t k l distinct.1,
      )
]

pub put_entry : (i : Entries) (t : ℕ) (k : Bytes) (b : Bool) → member t k i.0 ≡ b → Entries
unfolding Distinct
put_entry i t k true e = i
put_entry i t k false e = ((t, k) ∷ i.0, (e, i.1))

pub put_entry_lem :
    (i : Entries) (t : ℕ) (k : Bytes) (b : Bool) (e : member t k i.0 ≡ b) (u : ℕ) (j : Bytes)
    → member u j (put_entry i t k b e).0 ≡ ((t == u && bytes_eq k j) || member u j i.0)
unfolding put_entry member
put_entry_lem i t k true e u j = elim (Bool-cases (t == u && bytes_eq k j)) [
  | inl same ↦ rw same (there (both same))
  | inr other ↦ rw other
]
  where
    both : (t == u && bytes_eq k j) ≡ true → (t ≡ u) × (k ≡ j)
    both h = (ground arith, (bytes_has_eq.beq_iff k j).0 (ground arith))

    there : (t ≡ u) × (k ≡ j) → member u j i.0 ≡ true
    there (p, q) = ap (λ v. member v j i.0) (sym p) ∙ ap (λ v. member t v i.0) (sym q) ∙ e
put_entry_lem i t k false e u j = refl

-- Does the value come after the others under its number?
pub comes_last : ℕ → Bytes → List (ℕ × Bytes) → Bool
comes_last t k [] = true
comes_last t k ((u, j) ∷ l) = (not (u == t) || before j k) && comes_last t k l

pub comes_last_lem :
    (t : ℕ) (k : Bytes) (l : List (ℕ × Bytes))
    → ((j : Bytes) → member t j l ≡ true → before j k ≡ true)
    → comes_last t k l ≡ true
unfolding comes_last member
comes_last_lem t k [] h = refl
comes_last_lem t k ((u, j) ∷ l) h =
    rw (comes_last_lem t k l (λ i m. h i (rw m (ground arith)))) (first (Bool-cases (u == t)))
  where
    first : ((u == t) ≡ true) ⊎ ((u == t) ≡ false) → ((not (u == t) || before j k) && true) ≡ true
    first (inl e) = rw (e, h j (rw (e, beq_refl j)))
    first (inr e) = rw e

pub comes_last_not :
    (t : ℕ) (k : Bytes) (l : List (ℕ × Bytes)) (j : Bytes)
    → member t j l ≡ true
    → before j k ≡ false
    → comes_last t k l ≡ false
unfolding comes_last member
comes_last_not t k [] j m b = sym m
comes_last_not t k ((u, i) ∷ l) j m b = elim (Bool-cases (member t j l)) [
  | inl later ↦ rw (comes_last_not t k l j later b) (ground arith)
  | inr here ↦ rw (
    is_true (u == t) (bytes_eq i j) (member t j l) m here,
    (ap (λ v. before v k) (eq_of_beq i j (is_second (u == t) (bytes_eq i j) (member t j l) m here))
        ∙ b),
  )
]
  where
    is_true : (a c d : Bool) → ((a && c) || d) ≡ true → d ≡ false → a ≡ true
    is_true a c d h e = ground arith

    is_second : (a c d : Bool) → ((a && c) || d) ≡ true → d ≡ false → c ≡ true
    is_second a c d h e = ground arith

pub until : ℕ → List (ℕ × Bytes) → List (ℕ × Bytes)
until t [] = []
until t ((u, j) ∷ l) = let rest = until t l in if leb u t then (u, j) ∷ rest else rest

unfoldable pub multi : MultiIntegerStore Entries
unfolding put_entry
multi = record {
  put = λ i t k. ok (put_entry i t k (member t k i.0) refl);
  put_with_flags = λ i t k.
      if comes_last t k i.0 then ok (put_entry i t k (member t k i.0) refl) else err store_error;
  delete = λ i t k.
      if member t k i.0
      then ok (without t k i.0, Distinct-without t k i.0 i.1)
      else err store_error;
  iter_start = λ i. ok (map ok i.0);
  iter_prev_dup_from = λ i t. ok (ok (map ok (until t i.0)) ∷ []);
}

unfoldable pub multi_laws : MultiIntegerStoreLaws multi
unfolding multi
multi_laws = record {
  has = λ i t k. member t k i.0;
  before = before;
  entries = λ i. i.0;
  has_entries = λ i t k. refl;
  entries_distinct = λ i. i.1;
  iter_entries = λ i. refl;
  put_has = λ i t k. (put_entry i t k (member t k i.0) refl, refl, put_entry_lem i t k _ refl);
  append_has = λ i t k last. (
    put_entry i t k (member t k i.0) refl,
    if_true _ (comes_last_lem t k i.0 last),
    put_entry_lem i t k _ refl,
  );
  append_unordered = λ i t k j there late. if_false _ (comes_last_not t k i.0 j there late);
  delete_has = λ i t k there.
      ((without t k i.0, Distinct-without t k i.0 i.1), if_true _ there, member-without t k i.0);
  delete_missing = λ i t k missing. if_false _ missing;
}
