-- ===== src/Broker/Properties.antt =====
-- lofire-store-lmdb/src/brokerstore.rs: `compute_property`, and reads of one property.
use lofire_rs.Common.{
  ℕ, Bytes, Bool, true, false, ◌&&◌, Option, some, none, List, [], ◌∷◌, ◌++◌, ok, err, ◌≡◌, refl,
  ap, ◌∙◌, bytes_eq, bytes_eq_iff, nat_has_eq, ◌==◌, length, eq_of_beq, arith,
}
use mathlib.Core.Path.{ap₂}
use lofire_rs.Store.{not_found}
use lofire_rs.Broker.Store.{
  BrokerStore, BrokerStoreLaws, compute_property, first_value, suffix_bytes,
}

first : (c d : Bool) → (c && d) ≡ true → c ≡ true
first c d h = ground arith

second : (c d : Bool) → (c && d) ≡ true → d ≡ true
second c d h = ground arith

-- Two strings of the same length, each with something after it.
same_parts :
    (k j : Bytes) (x y : Option ℕ)
    → length k ≡ length j
    → bytes_eq (k ++ suffix_bytes x) (j ++ suffix_bytes y) ≡ true
    → (k ≡ j) × (x ≡ y)
unfolding bytes_eq
same_parts [] [] none none l h = (refl, refl)
same_parts [] [] none (some y) l h = cc
same_parts [] [] (some x) none l h = cc
same_parts [] [] (some x) (some y) l h = (refl, ap some (eq_of_beq x y (ground arith)))
same_parts [] (b ∷ j) x y l h = (ground arith)
same_parts (a ∷ k) [] x y l h = (ground arith)
same_parts (a ∷ k) (b ∷ j) x y l h =
    let (rest, suffixes) = same_parts k j x y (omega (arith, l)) (second (a == b) _ h) in
    (ap₂ ◌∷◌ (eq_of_beq a b (first (a == b) _ h)) rest, suffixes)

-- With keys of one length, a property is the place of one prefix, key and suffix.
pub compute_property-injective :
    (p q : ℕ) (k j : Bytes) (x y : Option ℕ)
    → length k ≡ length j
    → compute_property p k x ≡ compute_property q j y
    → (p ≡ q) × (k ≡ j) × (x ≡ y)
unfolding compute_property bytes_eq
compute_property-injective p q k j x y l h =
    let split : (p == q && bytes_eq (k ++ suffix_bytes x) (j ++ suffix_bytes y)) ≡ true =
      (bytes_eq_iff (p ∷ k ++ suffix_bytes x) (q ∷ j ++ suffix_bytes y)).1 h in
    let (keys, suffixes) = same_parts k j x y l (second (p == q) _ split) in
    (eq_of_beq p q (first (p == q) _ split), keys, suffixes)

apart :
    (k : Bytes) (x y : ℕ)
    → (x == y) ≡ false
    → bytes_eq (k ++ suffix_bytes (some x)) (k ++ suffix_bytes (some y)) ≡ false
unfolding bytes_eq
apart [] x y other = rw other
apart (a ∷ k) x y other = rw (apart k x y other) (ground arith)

pub other_suffix :
    (p : ℕ) (k : Bytes) (x y : ℕ)
    → (x == y) ≡ false
    → bytes_eq (compute_property p k (some x)) (compute_property p k (some y)) ≡ false
unfolding compute_property bytes_eq
other_suffix p k x y other = rw (apart k x y other) (ground arith)

module _ {S : Type 0} {b : BrokerStore S} (l : BrokerStoreLaws b) where
  pub get_first :
      (s : S) (p : ℕ) (k : Bytes) (x : ℕ) (v : Bytes) (vs : List Bytes)
      → l.values s (compute_property p k (some x)) ≡ v ∷ vs
      → b.get s p k (some x) ≡ ok v
  get_first s p k x v vs h = l.get_values s p k (some x) ∙ ap first_value h

  pub get_missing :
      (s : S) (p : ℕ) (k : Bytes) (x : ℕ)
      → l.values s (compute_property p k (some x)) ≡ []
      → b.get s p k (some x) ≡ err not_found
  get_missing s p k x h = l.get_values s p k (some x) ∙ ap first_value h
