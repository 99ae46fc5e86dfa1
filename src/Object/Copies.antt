-- ===== src/Object/Copies.antt =====
-- lofire/src/object.rs: `collect_leaves` on two lists of blocks that agree in identifiers, children
-- and content.
use lofire_rs.Common.{
  ℕ, zero, suc, ◌-◌, Bytes, List, [], ◌∷◌, length, get_elem?, Option, none, some, Outcome, ok, err,
  panic, out_of_fuel, ◌>>=◌, >>=-eq-ok, ◌≡◌, refl, arith, ap, ◌⊎◌, inl, inr, unwrap, sym,
}
use mathlib.Core.Path.{subst}
use lofire_rs.Types.{Block, internal_node, data_chunk, BlockContentV0, SymKey}
use lofire_rs.Crates.{Crates}
use lofire_rs.Block
use lofire_rs.Object.Read.{Ref, Collected, parse_content, visit, visit_parents, collect_leaves}

pub record IsCopy (x : Crates) (b b' : Block) : Type 0 where
  pub same_id : Block.id x b' ≡ Block.id x b
  pub same_children : Block.children b' ≡ Block.children b
  pub same_content : Block.content b' ≡ Block.content b

abbrev pub Copies : Crates → List Block → List Block → Type 0
Copies x [] [] = Unit
Copies x [] (b' ∷ bs') = ⊥
Copies x (b ∷ bs) [] = ⊥
Copies x (b ∷ bs) (b' ∷ bs') = IsCopy x b b' × Copies x bs bs'

bind-ext {ℓ κ} :
    {E : Type 0} {A : Type ℓ} {B : Type κ} (m : Outcome E A) (f g : A → Outcome E B)
    → ((a : A) → m ≡ ok a → f a ≡ g a)
    → (m >>= f) ≡ (m >>= g)
bind-ext (ok a) f g h = h a refl
bind-ext (err e) f g h = refl
bind-ext panic f g h = refl
bind-ext out_of_fuel f g h = refl

module _ (x : Crates) where
  pub length-Copies : (B B' : List Block) → Copies x B B' → length B' ≡ length B
  length-Copies [] [] h = refl
  length-Copies [] (b' ∷ bs') h = absurd h
  length-Copies (b ∷ bs) [] h = absurd h
  length-Copies (b ∷ bs) (b' ∷ bs') h = ap suc (length-Copies bs bs' h.1)

  get-Copies :
      (B B' : List Block) (i : ℕ)
      → Copies x B B'
      → (get_elem? B i ≡ none) × (get_elem? B' i ≡ none)
        ⊎ ((b : Block) × (b' : Block) × (get_elem? B i ≡ some b)
            × (get_elem? B' i ≡ some b')
            × IsCopy x b b')
  get-Copies [] [] i h = inl (refl, refl)
  get-Copies [] (b' ∷ bs') i h = absurd h
  get-Copies (b ∷ bs) [] i h = absurd h
  get-Copies (b ∷ bs) (b' ∷ bs') zero h = inr (b, b', refl, refl, h.0)
  get-Copies (b ∷ bs) (b' ∷ bs') (suc i) h = get-Copies bs bs' i h.1

  abbrev no_leaves : Option Bytes → Collected
  no_leaves c = record { leaves = none; obj_content = c }

  parse-copy :
      (b b' : Block) (k : SymKey) (children : List Ref) (c : Option Bytes)
      → IsCopy x b b'
      → (parsed : BlockContentV0)
      → parse_content x b' k parsed children (no_leaves c)
        ≡ parse_content x b k parsed children (no_leaves c)
  unfolding parse_content
  parse-copy b b' k children c h (internal_node keys) = rw (h.same_children)
  parse-copy b b' k children c h (data_chunk chunk) = refl

  visit-copy :
      (b b' : Block) (p : Ref) (children : List Ref) (c : Option Bytes)
      → IsCopy x b b'
      → visit x b' p children (no_leaves c) ≡ visit x b p children (no_leaves c)
  unfolding visit
  visit-copy b b' p children c h =
      simp (h.same_id, h.same_content, parse-copy b b' p.1 children c h)

  -- A visit that is given no list of leaves gives none.
  visit-no_leaves :
      (b : Block) (p : Ref) (children : List Ref) (c : Option Bytes) (r : List Ref × Collected)
      → visit x b p children (no_leaves c) ≡ ok r
      → r.1 ≡ no_leaves r.1.obj_content
  unfolding visit parse_content
  visit-no_leaves b p children c r h = ground arith

  visit_parents-Copies :
      (B B' : List Block) (ps : List Ref) (i : ℕ) (children : List Ref) (c : Option Bytes)
      → Copies x B B'
      → visit_parents x B' ps i children (no_leaves c)
        ≡ visit_parents x B ps i children (no_leaves c)
  unfolding visit_parents
  visit_parents-Copies B B' [] i children c h = refl
  visit_parents-Copies B B' (p ∷ ps) i children c h = elim (get-Copies B B' i h) [
    | inl (outside, outside') ↦ simp (outside, outside')
    | inr (b, b', here, here', copy) ↦
        simp (here, here', visit-copy b b' p children c copy)
          (bind-ext (visit x b p children (no_leaves c)) _ _ (λ r e.
            subst (λ s. visit_parents x B' ps (suc i) r.0 s ≡ visit_parents x B ps (suc i) r.0 s)
              (sym (visit-no_leaves b p children c r e))
              (visit_parents-Copies B B' ps (suc i) r.0 r.1.obj_content h)))
  ]

  visit_parents-no_leaves :
      (B : List Block) (ps : List Ref) (i : ℕ) (children : List Ref) (c : Option Bytes)
      (r : List Ref × Collected)
      → visit_parents x B ps i children (no_leaves c) ≡ ok r
      → r.1 ≡ no_leaves r.1.obj_content
  unfolding visit_parents
  visit_parents-no_leaves B [] i children c r h = ground arith
  visit_parents-no_leaves B (p ∷ ps) i children c r h =
      let (b, here, visited) = >>=-eq-ok (unwrap (get_elem? B i)) _ h in
      let (s, e, rest) = >>=-eq-ok (visit x b p children (no_leaves c)) _ visited in
      visit_parents-no_leaves B ps (suc i) s.0 s.1.obj_content r (
        subst (λ t. visit_parents x B ps (suc i) s.0 t ≡ ok r) (visit-no_leaves b p children c s e)
          rest)

  pub collect_leaves-Copies :
      (fuel : ℕ) (B B' : List Block) (ps : List Ref) (i : ℕ) (c : Option Bytes)
      → Copies x B B'
      → collect_leaves x fuel B' ps i (no_leaves c) ≡ collect_leaves x fuel B ps i (no_leaves c)
  unfolding collect_leaves
  collect_leaves-Copies zero B B' ps i c h = refl
  collect_leaves-Copies (suc fuel) B B' ps i c h = rw (visit_parents-Copies B B' ps i [] c h) (
      bind-ext (visit_parents x B ps i [] (no_leaves c)) _ _ (λ r e. rw (
        subst
          (λ s.
            collect_leaves x fuel B' r.0 (i - length r.0) s
            ≡ collect_leaves x fuel B r.0 (i - length r.0) s)
          (sym (visit_parents-no_leaves B ps i [] c r e))
          (collect_leaves-Copies fuel B B' r.0 (i - length r.0) r.1.obj_content h))))
