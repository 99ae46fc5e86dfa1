-- ===== src/Tests/Multi.antt =====
-- A stand-in for rkv's MultiStore: the values of every key.
use lofire_rs.Common.{
  Bytes, List, [], ◌∷◌, map, false, not, ◌&&◌, Outcome, ok, err, ◌≡◌, refl, contains, bytes_eq,
  bytes_has_eq, beq_refl, if◌then◌else◌, if_true, if_false, ap, ◌∙◌, arith,
}
use lofire_rs.Lmdb.Rkv.{StoreError, store_error}
use lofire_rs.Lmdb.BrokerStore.{MultiStore, MultiStoreLaws}

abbrev pub Values : Type 0
Values = Bytes → List Bytes

abbrev pub at : Bytes → List Bytes → Values → Values
at k l m j = if bytes_eq k j then l else m j

unfoldable pub without : Bytes → List Bytes → List Bytes
without v [] = []
without v (w ∷ l) = let rest = without v l in if bytes_eq v w then rest else w ∷ rest

pub contains-without :
    (v : Bytes) (l : List Bytes) (w : Bytes)
    → contains w (without v l) ≡ (not (bytes_eq v w) && contains w l)
unfolding without contains
contains-without v [] w = ground arith
contains-without v (u ∷ l) w = ground (
  arith,
  contains-without v l w,
  bytes_has_eq.beq_iff v u,
  bytes_has_eq.beq_iff u w,
  bytes_has_eq.beq_iff v w,
)

abbrev unless_empty : List Bytes → Values → Outcome StoreError Values
unless_empty [] m = err store_error
unless_empty (_ ∷ _) m = ok m

unfoldable pub multi : MultiStore Values
multi = record {
  get = λ m k. ok (map ok (m k));
  get_key_value = λ m k v. ok (contains v (m k));
  put = λ m k v. ok (at k (v ∷ m k) m);
  delete = λ m k v. if contains v (m k) then ok (at k (without v (m k)) m) else err store_error;
  delete_all = λ m k. unless_empty (m k) (at k [] m);
}

pub at_itself : (k : Bytes) (l : List Bytes) (m : Values) → at k l m k ≡ l
at_itself k l m = if_true _ (beq_refl k)

pub at_other : (k j : Bytes) (l : List Bytes) (m : Values) → bytes_eq k j ≡ false → at k l m j ≡ m j
at_other k j l m h = if_false _ h

unfoldable pub multi_laws : MultiStoreLaws multi
unfolding multi contains
multi_laws = record {
  values = λ m k. m k;
  get_values = λ m k. refl;
  has_values = λ m k v. refl;
  put_values = λ m k v. (
    at k (v ∷ m k) m,
    refl,
    record {
      among = λ w. ap (contains w) (at_itself k (v ∷ m k) m);
      alone = λ empty. at_itself k (v ∷ m k) m ∙ ap (λ l. v ∷ l) empty;
    },
    λ j other. at_other k j (v ∷ m k) m other,
  );
  delete_values = λ m k v there. (
    at k (without v (m k)) m,
    if_true _ there,
    λ w. ap (contains w) (at_itself k (without v (m k)) m) ∙ contains-without v (m k) w,
    λ j other. at_other k j (without v (m k)) m other,
  );
  delete_all_values = λ m k w ws there. (
    at k [] m,
    ap (λ l. unless_empty l (at k [] m)) there,
    at_itself k [] m,
    λ j other. at_other k j [] m other,
  );
  delete_all_missing = λ m k empty. ap (λ l. unless_empty l (at k [] m)) empty;
}
