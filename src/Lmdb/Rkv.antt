-- ===== src/Lmdb/Rkv.antt =====
-- What the stores take from the rkv crate (LMDB) and from serde_bare. The databases of one
-- environment are separate, so each has a state of its own; a transaction works on copies of the
-- states, and a writer that is dropped before `commit` leaves the committed ones.
use lofire_rs.Common.{
  ℕ, Bytes, Bool, true, false, not, ◌&&◌, ◌||◌, Option, some, none, List, [], ◌∷◌, map, Outcome, ok,
  err, bytes_eq, if◌then◌else◌, ◌==◌, ◌≡◌, refl,
}

-- `rkv::StoreError`: the code never looks into it.
pub data StoreError : Type 0 where
  store_error : StoreError

-- `SingleStore`: one value under a key
pub record SingleStore (M : Type 0) : Type 0 where
  pub get : M → Bytes → Outcome StoreError (Option Bytes)
  pub put : M → Bytes → Bytes → Outcome StoreError M
  pub delete : M → Bytes → Outcome StoreError M

-- A store that has room: what `get` finds, `put` writes and `delete` needs.
pub record SingleStoreLaws {M : Type 0} (r : SingleStore M) : Type 0 where
  pub view : M → Bytes → Option Bytes
  pub get_view : (m : M) (k : Bytes) → r.get m k ≡ ok (view m k)
  pub put_view :
      (m : M) (k v : Bytes)
      → (n : M) × (r.put m k v ≡ ok n)
        × ((j : Bytes) → view n j ≡ (if bytes_eq k j then some v else view m j))
  pub delete_view :
      (m : M) (k v : Bytes)
      → view m k ≡ some v
      → (n : M) × (r.delete m k ≡ ok n)
        × ((j : Bytes) → view n j ≡ (if bytes_eq k j then none else view m j))

-- An iteration ends at its first failure: `while let Some(Ok(entry)) = iter.next()`.
abbrev pub oks : {A : Type 0} → List (Outcome StoreError A) → List A
oks [] = []
oks (ok a ∷ rest) = a ∷ oks rest
oks (_ ∷ rest) = []

pub oks-map : {A : Type 0} (l : List A) → oks (map ok l) ≡ l
oks-map [] = refl
oks-map (a ∷ l) = rw (oks-map l)

-- `MultiIntegerStore`: sorted values under a number. `put_with_flags` is called with APPEND_DUP.
pub record MultiIntegerStore (I : Type 0) : Type 0 where
  pub put : I → ℕ → Bytes → Outcome StoreError I
  pub put_with_flags : I → ℕ → Bytes → Outcome StoreError I
  pub delete : I → ℕ → Bytes → Outcome StoreError I
  pub iter_start : I → Outcome StoreError (List (Outcome StoreError (ℕ × Bytes)))
  pub iter_prev_dup_from :
      I → ℕ → Outcome StoreError (List (Outcome StoreError (List (Outcome StoreError (ℕ × Bytes)))))

-- Is the entry one of the list?
unfoldable pub member : ℕ → Bytes → List (ℕ × Bytes) → Bool
member t k [] = false
member t k ((u, j) ∷ rest) = (u == t && bytes_eq j k) || member t k rest

unfoldable pub Distinct : List (ℕ × Bytes) → Type 0
Distinct [] = Unit
Distinct ((t, k) ∷ rest) = (member t k rest ≡ false) × Distinct rest

-- A value that is appended has to come after the others under its number, and an entry that is
-- deleted has to be there.
pub record MultiIntegerStoreLaws {I : Type 0} (r : MultiIntegerStore I) : Type 0 where
  pub has : I → ℕ → Bytes → Bool
  pub before : Bytes → Bytes → Bool
  pub entries : I → List (ℕ × Bytes)
  pub has_entries : (i : I) (t : ℕ) (k : Bytes) → has i t k ≡ member t k (entries i)
  pub entries_distinct : (i : I) → Distinct (entries i)
  pub iter_entries : (i : I) → r.iter_start i ≡ ok (map ok (entries i))
  pub put_has :
      (i : I) (t : ℕ) (k : Bytes)
      → (n : I) × (r.put i t k ≡ ok n)
        × ((u : ℕ) (j : Bytes) → has n u j ≡ ((t == u && bytes_eq k j) || has i u j))
  pub append_has :
      (i : I) (t : ℕ) (k : Bytes)
      → ((j : Bytes) → has i t j ≡ true → before j k ≡ true)
      → (n : I) × (r.put_with_flags i t k ≡ ok n)
        × ((u : ℕ) (j : Bytes) → has n u j ≡ ((t == u && bytes_eq k j) || has i u j))
  pub append_unordered :
      (i : I) (t : ℕ) (k j : Bytes)
      → has i t j ≡ true
      → before j k ≡ false
      → r.put_with_flags i t k ≡ err store_error
  pub delete_has :
      (i : I) (t : ℕ) (k : Bytes)
      → has i t k ≡ true
      → (n : I) × (r.delete i t k ≡ ok n)
        × ((u : ℕ) (j : Bytes) → has n u j ≡ (not (t == u && bytes_eq k j) && has i u j))
  pub delete_missing :
      (i : I) (t : ℕ) (k : Bytes) → has i t k ≡ false → r.delete i t k ≡ err store_error
