-- ===== src/Broker/Calls.antt =====
-- Calls on a shared store: what a call comes to, and the state that it leaves, also when it fails.
use lofire_rs.Common.{Bool, true, false, Outcome, ok, err, panic, out_of_fuel, if◌then◌else◌}

abbrev pub Call : Type 0 → Type 0 → Type 0 → Type 0
Call S E A = S → Outcome E A × S

module _ {S E : Type 0} where
  abbrev pub after : {A B : Type 0} → Outcome E A × S → (A → Call S E B) → Outcome E B × S
  after (ok a, s) f = f a s
  after (err e, s) f = (err e, s)
  after (panic, s) f = (panic, s)
  after (out_of_fuel, s) f = (out_of_fuel, s)

  -- `?`
  infixl 5 ◌>>=◌ ◌>>◌
  abbrev pub ◌>>=◌ : {A B : Type 0} → Call S E A → (A → Call S E B) → Call S E B
  (m >>= f) s = after (m s) f

  abbrev pub ◌>>◌ : {A B : Type 0} → Call S E A → Call S E B → Call S E B
  (m >> n) s = after (m s) (λ _. n)

  abbrev pub returns : {A : Type 0} → A → Call S E A
  returns a s = (ok a, s)

  abbrev pub fails : {A : Type 0} → E → Call S E A
  fails e s = (err e, s)

  -- A call that only reads.
  abbrev pub reading : {A : Type 0} → (S → Outcome E A) → Call S E A
  reading f s = (f s, s)

  -- `if !test { return Err(e) }`
  abbrev pub requires : Bool → E → Call S E Unit
  requires test e s = if test then (ok tt, s) else (err e, s)

-- `is_ok`
abbrev pub is_ok : {E F A : Type 0} → Outcome E A → Outcome F Bool
is_ok (ok a) = ok true
is_ok (err e) = ok false
is_ok panic = panic
is_ok out_of_fuel = out_of_fuel
