-- ===== src/Common/Lists.antt =====
-- Lists under native lengths and indices, and slices cut into chunks.
use Prim.Native.Nat.{ℕ, zero, suc, ◌+◌, ◌-◌, ◌≤◌, ◌<◌}
use mathlib.Core.Path.{◌≡◌, refl, ap, sym, ◌∙◌, subst}
use mathlib.Core.Logic.{◌≢◌, ◌⊎◌, inl, inr}
use mathlib.Core.List.{List, [], ◌∷◌, ◌++◌, map}
use mathlib.Core.Option.{Option, none, some}
use native.Mathlib.Omega.{arith}
use native.Mathlib.Nat.{add-zero, add-suc, suc-add}
use mathlib.Core.List.{append-nil, append_assoc, map-append, reverse, reverse-append}

module _ {ℓ} {A : Type ℓ} where
  abbrev pub length : List A → ℕ
  length [] = 0
  length (x ∷ xs) = suc (length xs)

  abbrev pub get_elem? : List A → ℕ → Option A
  get_elem? [] i = none
  get_elem? (x ∷ xs) zero = some x
  get_elem? (x ∷ xs) (suc i) = get_elem? xs i

  abbrev pub take : ℕ → List A → List A
  take zero xs = []
  take (suc n) [] = []
  take (suc n) (x ∷ xs) = x ∷ take n xs

  abbrev pub drop : ℕ → List A → List A
  drop zero xs = xs
  drop (suc n) [] = []
  drop (suc n) (x ∷ xs) = drop n xs

  -- `Vec::last`
  abbrev pub get_last? : List A → Option A
  get_last? [] = none
  get_last? (x ∷ []) = some x
  get_last? (x ∷ y ∷ xs) = get_last? (y ∷ xs)

  abbrev pub concat : List (List A) → List A
  concat [] = []
  concat (xs ∷ xss) = xs ++ concat xss

  abbrev pub All {κ} : (A → Type κ) → List A → Type κ
  All P [] = Unit
  All P (x ∷ xs) = P x × All P xs

  pub length-append : (xs ys : List A) → length (xs ++ ys) ≡ length xs + length ys
  length-append [] ys = omega arith
  length-append (x ∷ xs) ys = omega (arith, length-append xs ys)

  pub length-take-drop : (n : ℕ) (xs : List A) → length (take n xs) + length (drop n xs) ≡ length xs
  length-take-drop zero xs = omega arith
  length-take-drop (suc n) [] = omega arith
  length-take-drop (suc n) (x ∷ xs) = omega (arith, length-take-drop n xs)

  pub take-append-drop : (n : ℕ) (xs : List A) → take n xs ++ drop n xs ≡ xs
  take-append-drop zero xs = refl
  take-append-drop (suc n) [] = refl
  take-append-drop (suc n) (x ∷ xs) = rw (take-append-drop n xs)

  pub length-drop : (n : ℕ) (xs : List A) → length (drop n xs) ≡ length xs - n
  length-drop zero xs = omega arith
  length-drop (suc n) [] = omega arith
  length-drop (suc n) (x ∷ xs) = omega (arith, length-drop n xs)

  pub get_elem?-append :
      (pre : List A) (x : A) (post : List A) → get_elem? (pre ++ x ∷ post) (length pre) ≡ some x
  get_elem?-append [] x post = refl
  get_elem?-append (y ∷ pre) x post = get_elem?-append pre x post

  pub get_last?-append : (xs ys : List A) → 0 < length ys → get_last? (xs ++ ys) ≡ get_last? ys
  get_last?-append [] ys h = refl
  get_last?-append (x ∷ []) [] h = absurd (omega arith)
  get_last?-append (x ∷ []) (y ∷ ys) h = refl
  get_last?-append (x ∷ z ∷ xs) ys h = get_last?-append (z ∷ xs) ys h

  pub concat-append : (xss yss : List (List A)) → concat (xss ++ yss) ≡ concat xss ++ concat yss
  concat-append [] yss = refl
  concat-append (xs ∷ xss) yss = simp (concat-append xss yss, append_assoc)

  append-singleton-ne : (xs : List A) (y : A) → xs ++ y ∷ [] ≢ []
  append-singleton-ne [] y h = cc
  append-singleton-ne (x ∷ xs) y h = cc

  pub reverse-ne : (xs : List A) → 0 < length xs → reverse xs ≢ []
  reverse-ne [] h = absurd (omega arith)
  reverse-ne (x ∷ xs) h =
      λ e. append-singleton-ne (reverse xs) x (sym (reverse-append (x ∷ []) xs) ∙ e)

  pub List-cases : (xs : List A) → (xs ≡ []) ⊎ ((x : A) × (rest : List A) × (xs ≡ x ∷ rest))
  List-cases [] = inl refl
  List-cases (x ∷ xs) = inr (x, xs, refl)

module _ {ℓ κ} {A : Type ℓ} (P : A → Type κ) where
  pub All-of : (xs : List A) → ((a : A) → P a) → All P xs
  All-of [] f = tt
  All-of (x ∷ xs) f = (f x, All-of xs f)

  pub All-take : (n : ℕ) (xs : List A) → All P xs → All P (take n xs)
  All-take zero xs h = tt
  All-take (suc n) [] h = tt
  All-take (suc n) (x ∷ xs) h = (h.0, All-take n xs h.1)

  pub All-drop : (n : ℕ) (xs : List A) → All P xs → All P (drop n xs)
  All-drop zero xs h = h
  All-drop (suc n) [] h = tt
  All-drop (suc n) (x ∷ xs) h = All-drop n xs h.1

  pub All-append : (xs ys : List A) → All P xs → All P ys → All P (xs ++ ys)
  All-append [] ys h k = k
  All-append (x ∷ xs) ys h k = (h.0, All-append xs ys h.1 k)

  pub All-left : (xs ys : List A) → All P (xs ++ ys) → All P xs
  All-left [] ys h = tt
  All-left (x ∷ xs) ys h = (h.0, All-left xs ys h.1)

  pub All-right : (xs ys : List A) → All P (xs ++ ys) → All P ys
  All-right [] ys h = h
  All-right (x ∷ xs) ys h = All-right xs ys h.1

  pub All-reverse : (xs : List A) → All P xs → All P (reverse xs)
  All-reverse [] h = tt
  All-reverse (x ∷ xs) h =
      subst (All P) (sym (reverse-append (x ∷ []) xs))
        (All-append (reverse xs) (x ∷ []) (All-reverse xs h.1) (h.0, tt))

module _ {ℓ κ} {A : Type ℓ} (P Q : A → Type κ) where
  pub All-map : (xs : List A) → ((a : A) → P a → Q a) → All P xs → All Q xs
  All-map [] f h = tt
  All-map (x ∷ xs) f h = (f x h.0, All-map xs f h.1)

module _ {ℓ κ} {A : Type ℓ} (P Q R : A → Type κ) where
  pub All-map₂ : (xs : List A) → ((a : A) → P a → Q a → R a) → All P xs → All Q xs → All R xs
  All-map₂ [] f h k = tt
  All-map₂ (x ∷ xs) f h k = (f x h.0 k.0, All-map₂ xs f h.1 k.1)

module _ {ℓ κ} {A : Type ℓ} {B : Type κ} where
  pub map-reverse : (f : A → B) (xs : List A) → map f (reverse xs) ≡ reverse (map f xs)
  map-reverse f [] = refl
  map-reverse f (x ∷ xs) = simp (
    reverse-append (x ∷ []) xs,
    map-append,
    map-reverse f xs,
    reverse-append (f x ∷ []) (map f xs),
  )

  abbrev pub zip : List A → List B → List (A × B)
  zip [] ys = []
  zip (x ∷ xs) [] = []
  zip (x ∷ xs) (y ∷ ys) = (x, y) ∷ zip xs ys

  pub length-map : (f : A → B) (xs : List A) → length (map f xs) ≡ length xs
  length-map f [] = refl
  length-map f (x ∷ xs) = ap suc (length-map f xs)

module _ {ℓ} {A : Type ℓ} where
  -- `slice::chunks`; every round takes an element, so the length is fuel enough.
  unfoldable pub chunks_fuel : ℕ → ℕ → List A → List (List A)
  chunks_fuel zero n xs = []
  chunks_fuel (suc f) n [] = []
  chunks_fuel (suc f) n (x ∷ xs) = take n (x ∷ xs) ∷ chunks_fuel f n (drop n (x ∷ xs))

  unfoldable pub chunks : ℕ → List A → List (List A)
  chunks n xs = chunks_fuel (length xs) n xs

  concat-chunks_fuel :
      (f n : ℕ) (xs : List A) → length xs ≤ f → 0 < n → concat (chunks_fuel f n xs) ≡ xs
  unfolding chunks_fuel
  concat-chunks_fuel zero n [] h p = refl
  concat-chunks_fuel zero n (x ∷ xs) h p = absurd (omega arith)
  concat-chunks_fuel (suc f) n [] h p = refl
  concat-chunks_fuel (suc f) zero (x ∷ xs) h p = absurd (omega arith)
  concat-chunks_fuel (suc f) (suc n) (x ∷ xs) h p = ap (◌∷◌ x) (
      rw (concat-chunks_fuel f (suc n) (drop n xs) (omega (arith, length-drop n xs)) p)
        (take-append-drop n xs))

  pub concat-chunks : (n : ℕ) (xs : List A) → 0 < n → concat (chunks n xs) ≡ xs
  unfolding chunks
  concat-chunks n xs p = concat-chunks_fuel (length xs) n xs (omega arith) p

  -- Chunks of two or more at least halve the number of elements.
  length-chunks_fuel :
      (f n : ℕ) (xs : List A)
      → 2 ≤ n
      → length (chunks_fuel f n xs) + length (chunks_fuel f n xs) ≤ suc (length xs)
  unfolding chunks_fuel
  length-chunks_fuel zero n xs h = omega arith
  length-chunks_fuel (suc f) n [] h = omega arith
  length-chunks_fuel (suc f) n (x ∷ []) h =
      omega (arith, length-chunks_fuel f n (drop n (x ∷ [])) h, length-drop n (x ∷ []))
  length-chunks_fuel (suc f) n (x ∷ y ∷ xs) h =
      omega (arith, length-chunks_fuel f n (drop n (x ∷ y ∷ xs)) h, length-drop n (x ∷ y ∷ xs))

  pub length-chunks :
      (n : ℕ) (xs : List A) → 2 ≤ n → length (chunks n xs) + length (chunks n xs) ≤ suc (length xs)
  unfolding chunks
  length-chunks n xs h = length-chunks_fuel (length xs) n xs h

  pub chunks-nonempty : (n : ℕ) (xs : List A) → 0 < length xs → 0 < length (chunks n xs)
  unfolding chunks chunks_fuel
  chunks-nonempty n [] h = absurd (omega arith)
  chunks-nonempty n (x ∷ xs) h = omega arith

module _ {ℓ κ} {A : Type ℓ} (P : A → Type κ) where
  All-chunks_fuel : (f n : ℕ) (xs : List A) → All P xs → All (All P) (chunks_fuel f n xs)
  unfolding chunks_fuel
  All-chunks_fuel zero n xs h = tt
  All-chunks_fuel (suc f) n [] h = tt
  All-chunks_fuel (suc f) n (x ∷ xs) h =
      (All-take P n (x ∷ xs) h, All-chunks_fuel f n (drop n (x ∷ xs)) (All-drop P n (x ∷ xs) h))

  pub All-chunks : (n : ℕ) (xs : List A) → All P xs → All (All P) (chunks n xs)
  unfolding chunks
  All-chunks n xs h = All-chunks_fuel (length xs) n xs h

-- The elements of a list that stand at an index of another.
module _ {ℓ} {A : Type ℓ} where
  abbrev pub At : List A → ℕ → List A → Type ℓ
  At B i [] = Unit
  At B i (x ∷ xs) = (get_elem? B i ≡ some x) × At B (suc i) xs

  At-cons : (b : A) (B : List A) (i : ℕ) (xs : List A) → At B i xs → At (b ∷ B) (suc i) xs
  At-cons b B i [] h = tt
  At-cons b B i (x ∷ xs) h = (h.0, At-cons b B (suc i) xs h.1)

  pub At-zero : (xs post : List A) → At (xs ++ post) 0 xs
  At-zero [] post = tt
  At-zero (x ∷ xs) post = (refl, At-cons x (xs ++ post) 0 xs (At-zero xs post))

  pub At-append : (pre xs post : List A) → At (pre ++ (xs ++ post)) (length pre) xs
  At-append [] xs post = At-zero xs post
  At-append (b ∷ pre) xs post =
      At-cons b (pre ++ (xs ++ post)) (length pre) xs (At-append pre xs post)

  pub At-end : (pre xs : List A) → At (pre ++ xs) (length pre) xs
  At-end pre xs = rw append-nil at (At-append pre xs [])

  -- A part of what stands at an index.
  pub At-left : (B : List A) (i : ℕ) (xs ys : List A) → At B i (xs ++ ys) → At B i xs
  At-left B i [] ys h = tt
  At-left B i (x ∷ xs) ys h = (h.0, At-left B (suc i) xs ys h.1)

  pub At-right : (B : List A) (i : ℕ) (xs ys : List A) → At B i (xs ++ ys) → At B (i + length xs) ys
  At-right B i [] ys h = rw add-zero h
  At-right B i (x ∷ xs) ys h = rw add-suc (rw suc-add at (At-right B (suc i) xs ys h.1))

module _ {ℓ κ} {A : Type ℓ} {B : Type κ} where
  pub concat-map : (f : A → B) (xss : List (List A)) → concat (map (map f) xss) ≡ map f (concat xss)
  concat-map f [] = refl
  concat-map f (xs ∷ xss) = rw (concat-map f xss, map-append)
