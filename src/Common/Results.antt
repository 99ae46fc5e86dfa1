-- ===== src/Common/Results.antt =====
-- What a call of the source comes to: a value, an error value, or a panic (`unwrap` of nothing, an
-- index out of bounds, `panic!`). A call that is given fuel may also run out of it.
use mathlib.Core.Path.{◌≡◌, refl, ap}
use mathlib.Core.Option.{Option, none, some}
use mathlib.Core.Logic.{◌⊎◌, inl, inr}
use mathlib.Core.Bool.{Bool, true, false}
use lofire_rs.Common.Tests.{if◌then◌else◌}

pub data Outcome {ℓ} (E : Type 0) (A : Type ℓ) : Type ℓ where
  ok : A → Outcome E A
  err : E → Outcome E A
  panic : Outcome E A
  out_of_fuel : Outcome E A

-- `?`
infixl 5 ◌>>=◌ ◌>>◌
abbrev pub ◌>>=◌ {ℓ κ} :
    {E : Type 0} {A : Type ℓ} {B : Type κ} → Outcome E A → (A → Outcome E B) → Outcome E B
ok a >>= f = f a
err e >>= f = err e
panic >>= f = panic
out_of_fuel >>= f = out_of_fuel

abbrev pub ◌>>◌ {ℓ κ} :
    {E : Type 0} {A : Type ℓ} {B : Type κ} → Outcome E A → Outcome E B → Outcome E B
m >> k = m >>= λ _. k

-- `map_err`
abbrev pub map_err {ℓ} : {E F : Type 0} {A : Type ℓ} → (E → F) → Outcome E A → Outcome F A
map_err f (ok a) = ok a
map_err f (err e) = err (f e)
map_err f panic = panic
map_err f out_of_fuel = out_of_fuel

-- `Option::unwrap`
abbrev pub unwrap {ℓ} : {E : Type 0} {A : Type ℓ} → Option A → Outcome E A
unwrap none = panic
unwrap (some a) = ok a

-- `Option::ok_or`
abbrev pub ok_or {ℓ} : {E : Type 0} {A : Type ℓ} → E → Option A → Outcome E A
ok_or e none = err e
ok_or e (some a) = ok a

-- `Result::unwrap`
abbrev pub unwrap_ok {ℓ} : {E F : Type 0} {A : Type ℓ} → Outcome E A → Outcome F A
unwrap_ok (ok a) = ok a
unwrap_ok (err e) = panic
unwrap_ok panic = panic
unwrap_ok out_of_fuel = out_of_fuel

-- A bind that gives a value has run both of its parts.
pub >>=-eq-ok {ℓ κ} :
    {E : Type 0} {A : Type ℓ} {B : Type κ} {r : B} (first : Outcome E A) (next : A → Outcome E B)
    → (first >>= next) ≡ ok r
    → (v : A) × (first ≡ ok v) × (next v ≡ ok r)
>>=-eq-ok (ok v) next returns = (v, refl, returns)
>>=-eq-ok (err e) next returns = cc
>>=-eq-ok panic next returns = cc
>>=-eq-ok out_of_fuel next returns = cc

value_or {ℓ} : {E : Type 0} {A : Type ℓ} → A → Outcome E A → A
value_or d (ok a) = a
value_or d (err e) = d
value_or d panic = d
value_or d out_of_fuel = d

pub ok-injective {ℓ} :
    {E : Type 0} {A : Type ℓ} (a b : A) → ◌≡◌ {A = Outcome E A} (ok a) (ok b) → a ≡ b
unfolding value_or
ok-injective a b h = ap (value_or a) h

pub Outcome-cases {ℓ} :
    {E : Type 0} {A : Type ℓ} (m : Outcome E A)
    → ((a : A) × (m ≡ ok a)) ⊎ (((e : E) × (m ≡ err e)) ⊎ ((m ≡ panic) ⊎ (m ≡ out_of_fuel)))
Outcome-cases (ok a) = inl (a, refl)
Outcome-cases (err e) = inr (inl (e, refl))
Outcome-cases panic = inr (inr (inl refl))
Outcome-cases out_of_fuel = inr (inr (inr refl))

error_or {ℓ} : {E : Type 0} {A : Type ℓ} → E → Outcome E A → E
error_or d (ok a) = d
error_or d (err e) = e
error_or d panic = d
error_or d out_of_fuel = d

pub err-injective {ℓ} :
    {E : Type 0} {A : Type ℓ} (d e : E) → ◌≡◌ {A = Outcome E A} (err d) (err e) → d ≡ e
unfolding error_or
err-injective d e h = ap (error_or d) h

-- What a conditional first part of a bind gives, on either branch.
module _ {ℓ κ} {E : Type 0} {A : Type ℓ} {B : Type κ} {b : Bool} {v : A} {r : Outcome E B} where
  pub then->>= :
      {m : Outcome E A} (n : Outcome E A) (f : A → Outcome E B)
      → b ≡ true
      → m ≡ ok v
      → f v ≡ r
      → ((if b then m else n) >>= f) ≡ r
  then->>= n f holds first next = rw (holds, first) next

  pub else->>= :
      {n : Outcome E A} (m : Outcome E A) (f : A → Outcome E B)
      → b ≡ false
      → n ≡ ok v
      → f v ≡ r
      → ((if b then m else n) >>= f) ≡ r
  else->>= m f fails first next = rw (fails, first) next
