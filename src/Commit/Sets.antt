-- ===== src/Commit/Sets.antt =====
-- The sets of identifiers that the walks of commit.rs and branch.rs keep, what they add to them, and
-- how many of a list are still to be added.
use lofire_rs.Common.{
  ℕ, suc, ◌≤◌, ◌<◌, List, [], ◌∷◌, length, contains, beq, beq_refl, eq_of_beq, contains-cons,
  contains-tail, Bool, true, false, Bool-cases, Outcome, ok, err, panic, out_of_fuel, ◌>>=◌,
  if◌then◌else◌, ◌≡◌, ◌≢◌, refl, sym, ◌⊎◌, inl, inr, arith,
}
use mathlib.Core.Path.{subst}
use lofire_rs.Types.{ObjectId, digest_has_eq}
use lofire_rs.Commit.Load.{add, extend}

abbrev pub Sub : List ObjectId → List ObjectId → Type 0
Sub V W = (i : ObjectId) → contains i V ≡ true → contains i W ≡ true

pub impossible : {b : Bool} → b ≡ true → b ≡ false → ⊥
impossible h k = cc

pub contains-cons-cases :
    (j i : ObjectId) (V : List ObjectId)
    → contains i (j ∷ V) ≡ true
    → (j ≡ i) ⊎ (contains i V ≡ true)
unfolding contains
contains-cons-cases j i V h = elim (Bool-cases (beq j i)) [
  | inl e ↦ inl (eq_of_beq j i e)
  | inr e ↦ inr (rw e at h)
]

pub contains-add :
    (j i : ObjectId) (V : List ObjectId)
    → contains i (add j V) ≡ true
    → (j ≡ i) ⊎ (contains i V ≡ true)
contains-add j i V h = elim (Bool-cases (contains j V)) [
  | inl old ↦ inr (rw old at h)
  | inr new ↦ contains-cons-cases j i V (rw new at h)
]

pub add-here : (j : ObjectId) (V : List ObjectId) → contains j (add j V) ≡ true
add-here j V = elim (Bool-cases (contains j V)) [
  | inl old ↦ rw old old
  | inr new ↦ rw new (contains-cons j j V (beq_refl j))
]

pub add-tail : (j : ObjectId) (V : List ObjectId) → Sub V (add j V)
add-tail j V i h = elim (Bool-cases (contains j V)) [
  | inl old ↦ rw old h
  | inr new ↦ rw new (contains-tail j i V h)
]

pub contains-extend :
    (V W : List ObjectId) (i : ObjectId)
    → contains i (extend V W) ≡ true
    → (contains i V ≡ true) ⊎ (contains i W ≡ true)
contains-extend V [] i h = inl h
contains-extend V (j ∷ W) i h = elim (contains-extend (add j V) W i h) [
  | inr tail ↦ inr (contains-tail j i W tail)
  | inl added ↦ elim (contains-add j i V added) [
    | inl same ↦
        inr (subst (λ t. contains t (j ∷ W) ≡ true) same (contains-cons j j W (beq_refl j)))
    | inr old ↦ inl old
  ]
]

pub extend-left : (V W : List ObjectId) → Sub V (extend V W)
extend-left V [] i h = h
extend-left V (j ∷ W) i h = extend-left (add j V) W i (add-tail j V i h)

pub extend-right : (V W : List ObjectId) → Sub W (extend V W)
unfolding contains
extend-right V [] i h = absurd (impossible h refl)
extend-right V (j ∷ W) i h = elim (contains-cons-cases j i W h) [
  | inl same ↦
      extend-left (add j V) W i (subst (λ t. contains t (add j V) ≡ true) same (add-here j V))
  | inr tail ↦ extend-right (add j V) W i tail
]

-- How many of `U` are not in `V`.
unfoldable pub fresh : List ObjectId → List ObjectId → ℕ
fresh [] V = 0
fresh (i ∷ U) V = let n = fresh U V in if contains i V then n else suc n

pub fresh-length : (U V : List ObjectId) → fresh U V ≤ length U
unfolding fresh
fresh-length [] V = omega arith
fresh-length (i ∷ U) V = ground (arith, fresh-length U V)

pub fresh-Sub : (U V W : List ObjectId) → Sub V W → fresh U W ≤ fresh U V
unfolding fresh
fresh-Sub [] V W sub = omega arith
fresh-Sub (i ∷ U) V W sub = ground (arith, fresh-Sub U V W sub, sub i)

pub fresh-smaller :
    (k : ObjectId) (U V W : List ObjectId)
    → Sub V W
    → contains k U ≡ true
    → contains k V ≡ false
    → contains k W ≡ true
    → fresh U W < fresh U V
unfolding fresh contains
fresh-smaller k [] V W sub listed new old = absurd (impossible listed refl)
fresh-smaller k (i ∷ U) V W sub listed new old = elim (contains-cons-cases i k U listed) [
  | inl same ↦
      let new' = subst (λ t. contains t V ≡ false) (sym same) new in
      let old' = subst (λ t. contains t W ≡ true) (sym same) old in
      ground (arith, fresh-Sub U V W sub, new', old')
  | inr tail ↦ ground (arith, fresh-smaller k U V W sub tail new old, sub i)
]

-- The code does not run out of fuel.
abbrev pub Ends {ℓ} : {E : Type 0} {A : Type ℓ} → Outcome E A → Type ℓ
Ends m = m ≢ out_of_fuel

pub Ends->>= {ℓ κ} :
    {E : Type 0} {A : Type ℓ} {B : Type κ} (m : Outcome E A) (f : A → Outcome E B)
    → Ends m
    → ((a : A) → m ≡ ok a → Ends (f a))
    → Ends (m >>= f)
Ends->>= (ok a) f h k = k a refl
Ends->>= (err e) f h k = λ p. cc
Ends->>= panic f h k = λ p. cc
Ends->>= out_of_fuel f h k = absurd (h refl)
