-- ===== src/Branch/Walk.antt =====
-- lofire/src/branch.rs: what `load_branch` of `Branch::sync_req` visits.
use lofire_rs.Common.{
  ℕ, zero, suc, List, [], ◌∷◌, contains, beq_refl, contains-cons, contains-tail, Bool, true, false,
  ◌||◌, Bool-cases, none, Outcome, ok, err, panic, out_of_fuel, >>=-eq-ok, ok-injective,
  Outcome-cases, ◌≡◌, refl, sym, ap, ◌∙◌, ◌⊎◌, inl, inr,
}
use mathlib.Core.Path.{subst}
use lofire_rs.Types.{ObjectId, digest_has_eq}
use lofire_rs.Crates.{Crates}
use lofire_rs.Object
use lofire_rs.Object.{Object, ObjectParseError}
use lofire_rs.Object.Build.{is_empty}
use lofire_rs.Object.Persist
use lofire_rs.Object.Persist.{Getter}
use lofire_rs.Commit.Load.{Walked, add}
use lofire_rs.Commit.Sets.{Sub, impossible, contains-cons-cases, contains-add, add-here, add-tail}
use lofire_rs.Branch.Sync.{Visit, with_dep, load_deps, load_branch}

not_both :
    {e : ObjectParseError} {o : Object}
    → ◌≡◌ {A = Outcome ObjectParseError Object} (err e) (ok o)
    → ⊥
not_both h = cc

panic_is_no_value :
    {r : Bool × Walked} → ◌≡◌ {A = Outcome ObjectParseError (Bool × Walked)} panic (ok r) → ⊥
panic_is_no_value h = cc

fuel_is_no_value :
    {r : Bool × Walked} → ◌≡◌ {A = Outcome ObjectParseError (Bool × Walked)} out_of_fuel (ok r) → ⊥
fuel_is_no_value h = cc

ended : (a b : Bool) → a ≡ false → b ≡ false → (a || b) ≡ true → ⊥
ended true b h k e = cc
ended false true h k e = cc
ended false false h k e = cc

not_root : (a b : Bool) → (a || b) ≡ false → a ≡ false
not_root true b e = cc
not_root false b e = refl

not_stopped : (a b : Bool) → (a || b) ≡ false → b ≡ false
not_stopped true b e = cc
not_stopped false b e = e

-- With an error the loop goes on, if at all, with what was visited.
with_dep-err :
    (visit : Visit) (i : ObjectId) (e : ObjectParseError) (found : Bool) (s : Walked)
    (r : Bool × Walked)
    → with_dep visit i (err e) found s ≡ ok r
    → s.visited ≡ r.1.visited
unfolding with_dep
with_dep-err visit i (ObjectParseError.missing_blocks m) found s r h =
    ap (λ (q : Bool × Walked). q.1.visited) (ok-injective _ r h)
with_dep-err visit i ObjectParseError.missing_root_key found s r h = cc
with_dep-err visit i ObjectParseError.invalid_block_id found s r h = cc
with_dep-err visit i ObjectParseError.invalid_children found s r h = cc
with_dep-err visit i ObjectParseError.invalid_keys found s r h = cc
with_dep-err visit i ObjectParseError.invalid_deps found s r h = cc
with_dep-err visit i ObjectParseError.block_deserialize_error found s r h = cc
with_dep-err visit i ObjectParseError.object_deserialize_error found s r h = cc

module _ (x : Crates) (get : Getter) (fuel : ℕ) where
  abbrev pub Loads : ObjectId → Object → Type 0
  Loads k o = Persist.load x get fuel k none ≡ ok o

  -- What is loaded under an identifier has that identifier.
  abbrev pub Honest : Type 0
  Honest = (k : ObjectId) (o : Object) → Loads k o → Object.id {E = ObjectParseError} x o ≡ ok k

  -- The walk goes on from an object that has dependencies and is not one of `stop`.
  abbrev pub Inner : List ObjectId → ObjectId → Object → Type 0
  Inner stop k o = (contains k stop ≡ false) × (is_empty o.deps ≡ false)

  -- The objects that a walk from `roots` comes to.
  pub data From (roots stop : List ObjectId) : ObjectId → Object → Type 0 where
    head : {k : ObjectId} {o : Object} → contains k roots ≡ true → Loads k o → From roots stop k o
    dep :
        {k j : ObjectId} {o p : Object}
        → From roots stop k o
        → Inner stop k o
        → contains j o.deps ≡ true
        → Loads j p
        → From roots stop j p

  -- The walk comes to an object with this identifier, and goes on from it.
  abbrev pub Met : List ObjectId → List ObjectId → ObjectId → Type 0
  Met roots stop k = (o : Object) × From roots stop k o × Inner stop k o

  module _ (roots stop : List ObjectId) where
    -- The set `V` has the next objects after `k`.
    abbrev pub Closed : List ObjectId → ObjectId → Type 0
    Closed V k =
        (o : Object)
        → Loads k o
        → (j : ObjectId) (p : Object) → contains j o.deps ≡ true
        → Loads j p
        → Inner stop j p
        → contains j V ≡ true

    abbrev pub NewMet : List ObjectId → List ObjectId → Type 0
    NewMet V W = (i : ObjectId) → contains i W ≡ true → (contains i V ≡ true) ⊎ Met roots stop i

    abbrev pub NewClosed : List ObjectId → List ObjectId → Type 0
    NewClosed V W = (i : ObjectId) → contains i W ≡ true → (contains i V ≡ true) ⊎ Closed W i

    pub record After (k : ObjectId) (o : Object) (V W : List ObjectId) : Type 0 where
      pub grows : Sub V W
      pub met : NewMet V W
      pub closed : NewClosed V W
      pub here : Inner stop k o → contains k W ≡ true

    abbrev pub Visits : Visit → Type 0
    Visits visit =
        (k : ObjectId) (o : Object) (s : Walked) (r : Bool × Walked)
        → Loads k o
        → From roots stop k o
        → visit o s ≡ ok r
        → After k o s.visited r.1.visited

    record AfterDeps (deps V W : List ObjectId) : Type 0 where
      grows : Sub V W
      met : NewMet V W
      closed : NewClosed V W
      here :
          (j : ObjectId) (p : Object)
          → contains j deps ≡ true
          → Loads j p
          → Inner stop j p
          → contains j W ≡ true

    pub Closed-Sub : (V W : List ObjectId) (k : ObjectId) → Sub V W → Closed V k → Closed W k
    Closed-Sub V W k sub h o loads j p d l inner = sub j (h o loads j p d l inner)

    NewMet-trans : (U V W : List ObjectId) → NewMet U V → NewMet V W → NewMet U W
    NewMet-trans U V W h k i e = elim (k i e) [ inl before ↦ h i before | inr met ↦ inr met ]

    NewClosed-trans :
        (U V W : List ObjectId) → Sub V W → NewClosed U V → NewClosed V W → NewClosed U W
    NewClosed-trans U V W sub h k i e = elim (k i e) [
      | inr closed ↦ inr closed
      | inl before ↦ elim (h i before) [
        | inl old ↦ inl old
        | inr closed ↦ inr (Closed-Sub V W i sub closed)
      ]
    ]

    -- Nothing was visited.
    same-After :
        (k : ObjectId) (o : Object) (V : List ObjectId)
        → (Inner stop k o → contains k V ≡ true)
        → After k o V V
    same-After k o V h = record {
      grows = λ i e. e;
      met = λ i e. inl e;
      closed = λ i e. inl e;
      here = h;
    }

    -- What one dependency of the loop adds.
    pub record AfterDep (j : ObjectId) (V W : List ObjectId) : Type 0 where
      pub grows : Sub V W
      pub met : NewMet V W
      pub closed : NewClosed V W
      pub here : (p : Object) → Loads j p → Inner stop j p → contains j W ≡ true

    same-AfterDep :
        (j : ObjectId) (V W : List ObjectId)
        → V ≡ W
        → ((p : Object) → Loads j p → Inner stop j p → contains j V ≡ true)
        → AfterDep j V W
    same-AfterDep j V W same h =
        subst (λ U. AfterDep j V U) same
          (record { grows = λ i e. e; met = λ i e. inl e; closed = λ i e. inl e; here = h })

    with_dep-loaded :
        (visit : Visit)
        → Visits visit
        → (j : ObjectId) (o : Object) (found : Bool) (s : Walked) (r : Bool × Walked) → Loads j o
        → From roots stop j o
        → with_dep visit j (ok o) found s ≡ ok r
        → AfterDep j s.visited r.1.visited
    unfolding with_dep
    with_dep-loaded visit visits j o found s r loads from h =
        elim (Bool-cases (contains j s.visited)) [
          | inl old ↦
              same-AfterDep j s.visited r.1.visited
                (ap (λ (q : Bool × Walked). q.1.visited) (ok-injective _ r (rw old at h)))
                (λ p l i. old)
          | inr new ↦
              let (q, visited, same) = >>=-eq-ok (visit o s) _ (rw new at h) in
              let after = visits j o s q loads from visited in
              subst (λ (t : Bool × Walked). AfterDep j s.visited t.1.visited)
                (ok-injective _ r same)
                (record {
                  grows = after.grows;
                  met = after.met;
                  closed = after.closed;
                  here = λ p l i.
                      after.here (subst (λ t. Inner stop j t) (ok-injective p o (sym l ∙ loads)) i);
                })
        ]

    pub with_dep-After :
        (visit : Visit)
        → Visits visit
        → (j : ObjectId) (found : Bool) (s : Walked) (r : Bool × Walked)
        → ((o : Object) → Loads j o → From roots stop j o)
        → with_dep visit j (Persist.load x get fuel j none) found s ≡ ok r
        → AfterDep j s.visited r.1.visited
    unfolding with_dep
    with_dep-After visit visits j found s r from h =
        elim (Outcome-cases (Persist.load x get fuel j none)) [
          | inl (o, e) ↦ with_dep-loaded visit visits j o found s r e (from o e) (rw e at h)
          | inr (inl (e, fails)) ↦
              same-AfterDep j s.visited r.1.visited
                (with_dep-err visit j e found s r (rw fails at h))
                (λ p l i. absurd (not_both (sym fails ∙ l)))
          | inr (inr (inl e)) ↦ absurd (panic_is_no_value (rw (e, with_dep) at h))
          | inr (inr (inr e)) ↦ absurd (fuel_is_no_value (rw (e, with_dep) at h))
        ]

    load_deps-After :
        (visit : Visit)
        → Visits visit
        → (deps : List ObjectId) (found : Bool) (s : Walked) (r : Bool × Walked)
        → ((j : ObjectId) (o : Object) → contains j deps ≡ true → Loads j o → From roots stop j o)
        → load_deps x get fuel visit deps found s ≡ ok r
        → AfterDeps deps s.visited r.1.visited
    unfolding load_deps contains
    load_deps-After visit visits [] found s r from h =
        subst (λ (t : Bool × Walked). AfterDeps [] s.visited t.1.visited) (ok-injective _ r h)
          (record {
            grows = λ i e. e;
            met = λ i e. inl e;
            closed = λ i e. inl e;
            here = λ j p d l i. absurd (impossible d refl);
          })
    load_deps-After visit visits (j ∷ deps) found s r from h =
        let (q, first, others) =
          >>=-eq-ok (with_dep visit j (Persist.load x get fuel j none) found s) _ h in
        let one =
          with_dep-After visit visits j found s q
            (λ o l. from j o (contains-cons j j deps (beq_refl j)) l) first in
        let rest =
          load_deps-After visit visits deps q.0 q.1 r
            (λ i o d l. from i o (contains-tail j i deps d) l) others in
        record {
          grows = λ i e. rest.grows i (one.grows i e);
          met = NewMet-trans _ _ _ one.met rest.met;
          closed = NewClosed-trans _ _ _ rest.grows one.closed rest.closed;
          here = λ i p d l inner. elim (contains-cons-cases j i deps d) [
            | inl e ↦
                subst (λ t. contains t r.1.visited ≡ true) e
                  (rest.grows j (
                    one.here p (subst (λ t. Loads t p) (sym e) l)
                      (subst (λ t. Inner stop t p) (sym e) inner)))
            | inr tail ↦ rest.here i p tail l inner
          ];
        }

    -- With an object itself and what follows its dependencies, all that is new is met and closed.
    Inner-After :
        (k : ObjectId) (o : Object) (V W : List ObjectId)
        → Loads k o
        → From roots stop k o
        → Inner stop k o
        → AfterDeps o.deps (add k V) W
        → After k o V W
    Inner-After k o V W loads from inner after = record {
      grows = λ i e. after.grows i (add-tail k V i e);
      met = λ i e. elim (after.met i e) [
        | inr met ↦ inr met
        | inl before ↦ elim (contains-add k i V before) [
          | inl same ↦ inr (subst (Met roots stop) same (o, from, inner))
          | inr old ↦ inl old
        ]
      ];
      closed = λ i e. elim (after.closed i e) [
        | inr closed ↦ inr closed
        | inl before ↦ elim (contains-add k i V before) [
          | inl same ↦ inr (
              subst (Closed W) same (λ o' l j p d. after.here j p (
                subst (λ (t : Object). contains j t.deps ≡ true) (ok-injective o' o (sym l ∙ loads))
                  d)))
          | inr old ↦ inl old
        ]
      ];
      here = λ _. after.grows k (add-here k V);
    }

    pub load_branch-After : Honest → (depth : ℕ) → Visits (load_branch x get fuel depth stop)
    unfolding load_branch
    load_branch-After honest zero k o s r loads from h = cc
    load_branch-After honest (suc depth) k o s r loads from h =
        let named = honest k o loads in
        elim (Bool-cases (is_empty o.deps || contains k stop)) [
          | inl ends ↦
              let same = ok-injective _ r (rw (named, ends) at h) in
              subst (λ (t : Bool × Walked). After k o s.visited t.1.visited) same
                (same-After k o s.visited (λ inner. absurd (ended _ _ inner.1 inner.0 ends)))
          | inr goes_on ↦
              let inner : Inner stop k o = (not_stopped _ _ goes_on, not_root _ _ goes_on) in
              let after =
                load_deps-After (load_branch x get fuel depth stop) (load_branch-After honest depth)
                  o.deps (contains k stop) (record s { visited = add k s.visited }) r
                  (λ j p d l. dep from inner d l) (rw (named, goes_on) at h) in
              Inner-After k o s.visited r.1.visited loads from inner after
        ]
