-- ===== src/Commit/Missing.antt =====
-- lofire/src/commit.rs: the errors of `Commit::load` and `load_body`, and what follows them in
-- `verify_deps`.
use lofire_rs.Common.{
  ℕ, List, [], ◌∷◌, contains, beq, Bool, Bool-cases, some, Outcome, ok, err, panic, out_of_fuel,
  ok-injective, err-injective, map_err, ◌≡◌, refl, ap, ◌∙◌, inl, inr,
}
use mathlib.Core.Path.{subst}
use lofire_rs.Types.{
  Commit, CommitBody, CommitType, ObjectContent, ObjectId, ObjectRef, commit_type_has_eq,
  digest_has_eq,
}
use lofire_rs.Crates.{Crates}
use lofire_rs.Object.{ObjectParseError}
use lofire_rs.Object.Read
use lofire_rs.Object.Persist.{Getter}
use lofire_rs.Object.Missing
use lofire_rs.Object.Missing.{FailsWith, FailsWith->>=, err-FailsWith}
use lofire_rs.Commit.{
  CommitLoadError, missing_blocks, object_parse_error, deserialize_error, to_type,
}
use lofire_rs.Commit.Load.{
  of_load_error, commit_of, body_of, Walked, add, extend, check_body, with_dep, load, load_body,
}

-- An error that is not the empty list of missing blocks.
abbrev pub SaysWhy : CommitLoadError → Type 0
SaysWhy (missing_blocks []) = ⊥
SaysWhy (missing_blocks (_ ∷ _)) = Unit
SaysWhy object_parse_error = Unit
SaysWhy deserialize_error = Unit

empty : {i : ObjectId} {s : List ObjectId} → i ∷ s ≡ [] → ⊥
empty h = cc

add-nonempty : (i : ObjectId) (s : List ObjectId) → add i s ≡ [] → ⊥
unfolding contains
add-nonempty i [] h = cc
add-nonempty i (j ∷ s) h = elim (Bool-cases (contains i (j ∷ s))) [
  | inl e ↦ absurd (empty (rw e at h))
  | inr e ↦ absurd (empty (rw e at h))
]

extend-nonempty : (s m : List ObjectId) → extend s m ≡ [] → (s ≡ []) × (m ≡ [])
extend-nonempty s [] h = (h, refl)
extend-nonempty s (i ∷ is) h =
    let (added, _) = extend-nonempty (add i s) is h in absurd (add-nonempty i s added)

pub check_body-ok :
    (m : Outcome CommitLoadError CommitBody) (s : Walked) (root : Bool) (s' : Walked)
    → FailsWith SaysWhy m
    → check_body m s ≡ ok (root, s')
    → s'.missing ≡ []
    → (body : CommitBody) × (m ≡ ok body) × (beq (to_type body) CommitType.branch ≡ root) × (s ≡ s')
unfolding check_body
check_body-ok (ok body) s root s' why h nothing =
    let same = ok-injective _ _ h in
    (body, refl, ap (λ (r : Bool × Walked). r.0) same, ap (λ (r : Bool × Walked). r.1) same)
check_body-ok (err (missing_blocks [])) s root s' why h nothing = absurd (why _ refl)
check_body-ok (err (missing_blocks (i ∷ is))) s root s' why h nothing =
    let same = ok-injective _ _ h in
    absurd (
      empty (
        (extend-nonempty s.missing (i ∷ is)
          (ap (λ (r : Bool × Walked). r.1.missing) same ∙ nothing)).1))
check_body-ok (err object_parse_error) s root s' why h nothing = cc
check_body-ok (err deserialize_error) s root s' why h nothing = cc
check_body-ok panic s root s' why h nothing = cc
check_body-ok out_of_fuel s root s' why h nothing = cc

pub with_dep-ok :
    (visit : Commit → Walked → Outcome CommitLoadError Walked) (m : Outcome CommitLoadError Commit)
    (s s' : Walked)
    → FailsWith SaysWhy m
    → with_dep visit m s ≡ ok s'
    → s'.missing ≡ []
    → (c : Commit) × (m ≡ ok c) × (visit c s ≡ ok s')
unfolding with_dep
with_dep-ok visit (ok c) s s' why h nothing = (c, refl, h)
with_dep-ok visit (err (missing_blocks [])) s s' why h nothing = absurd (why _ refl)
with_dep-ok visit (err (missing_blocks (i ∷ is))) s s' why h nothing =
    let same = ok-injective _ _ h in
    absurd (
      empty
        ((extend-nonempty s.missing (i ∷ is) (ap (λ (w : Walked). w.missing) same ∙ nothing)).1))
with_dep-ok visit (err object_parse_error) s s' why h nothing = cc
with_dep-ok visit (err deserialize_error) s s' why h nothing = cc
with_dep-ok visit panic s s' why h nothing = cc
with_dep-ok visit out_of_fuel s s' why h nothing = cc

map_err-FailsWith {ℓ} :
    {E F : Type 0} {A : Type ℓ} (P : E → Type 0) (Q : F → Type 0) (f : E → F) (m : Outcome E A)
    → ((e : E) → P e → Q (f e))
    → FailsWith P m
    → FailsWith Q (map_err f m)
map_err-FailsWith P Q f (ok a) keeps h e p = cc
map_err-FailsWith P Q f (err d) keeps h e p = subst Q (err-injective (f d) e p) (keeps d (h d refl))
map_err-FailsWith P Q f panic keeps h e p = cc
map_err-FailsWith P Q f out_of_fuel keeps h e p = cc

of_load_error-SaysWhy : (e : ObjectParseError) → Missing.SaysWhy e → SaysWhy (of_load_error e)
of_load_error-SaysWhy (ObjectParseError.missing_blocks []) h = absurd h
of_load_error-SaysWhy (ObjectParseError.missing_blocks (_ ∷ _)) h = tt
of_load_error-SaysWhy ObjectParseError.missing_root_key h = tt
of_load_error-SaysWhy ObjectParseError.invalid_block_id h = tt
of_load_error-SaysWhy ObjectParseError.invalid_children h = tt
of_load_error-SaysWhy ObjectParseError.invalid_keys h = tt
of_load_error-SaysWhy ObjectParseError.invalid_deps h = tt
of_load_error-SaysWhy ObjectParseError.block_deserialize_error h = tt
of_load_error-SaysWhy ObjectParseError.object_deserialize_error h = tt

-- Errors other than missing blocks say why.
parse_error-SaysWhy {ℓ} :
    {E : Type 0} {A : Type ℓ} (m : Outcome E A)
    → FailsWith SaysWhy (map_err (λ _. object_parse_error) m)
parse_error-SaysWhy {E} m = map_err-FailsWith (λ _. Unit) SaysWhy _ m (λ e h. tt) (λ e h. tt)

commit_of-SaysWhy : (c : ObjectContent) → FailsWith SaysWhy (commit_of c)
commit_of-SaysWhy (ObjectContent.commit _) = λ e p. cc
commit_of-SaysWhy (ObjectContent.commit_body _) = err-FailsWith SaysWhy _ tt
commit_of-SaysWhy (ObjectContent.file _) = err-FailsWith SaysWhy _ tt
commit_of-SaysWhy (ObjectContent.dep_list _) = err-FailsWith SaysWhy _ tt

body_of-SaysWhy : (c : ObjectContent) → FailsWith SaysWhy (body_of c)
body_of-SaysWhy (ObjectContent.commit _) = err-FailsWith SaysWhy _ tt
body_of-SaysWhy (ObjectContent.commit_body _) = λ e p. cc
body_of-SaysWhy (ObjectContent.file _) = err-FailsWith SaysWhy _ tt
body_of-SaysWhy (ObjectContent.dep_list _) = err-FailsWith SaysWhy _ tt

module _ (x : Crates) (get : Getter) (fuel : ℕ) where
  pub load-SaysWhy : (r : ObjectRef) → FailsWith SaysWhy (load x get fuel r)
  unfolding load
  load-SaysWhy r =
      FailsWith->>= SaysWhy _ _
        (map_err-FailsWith Missing.SaysWhy SaysWhy _ _ of_load_error-SaysWhy
          (Missing.load-SaysWhy x get fuel r.id (some r.key)))
        (λ o.
          FailsWith->>= SaysWhy _ _ (parse_error-SaysWhy (Read.content x o))
            (λ c. FailsWith->>= SaysWhy _ _ (commit_of-SaysWhy c) (λ d e p. cc)))

  pub load_body-SaysWhy : (c : Commit) → FailsWith SaysWhy (load_body x get fuel c)
  unfolding load_body
  load_body-SaysWhy c =
      FailsWith->>= SaysWhy _ _
        (map_err-FailsWith Missing.SaysWhy SaysWhy _ _ of_load_error-SaysWhy
          (Missing.load-SaysWhy x get fuel _ _))
        (λ o. FailsWith->>= SaysWhy _ _ (parse_error-SaysWhy (Read.content x o)) body_of-SaysWhy)
