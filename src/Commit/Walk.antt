-- ===== src/Commit/Walk.antt =====
-- lofire/src/commit.rs: what the walk of `verify_deps` knows of the commits that it has visited.
use lofire_rs.Common.{
  ℕ, List, [], ◌∷◌, contains, beq, true, some, Outcome, ok, >>=-eq-ok, ok-injective, map_err, ◌≡◌,
  sym, ap, ◌∙◌, ◌⊎◌, inl, inr, All, All-map,
}
use mathlib.Core.Path.{subst}
use mathlib.Core.Option.{some-injective}
use lofire_rs.Types.{
  Commit, CommitBody, CommitContentV0, CommitType, ObjectId, ObjectRef, commit_type_has_eq,
  digest_has_eq,
}
use lofire_rs.Crates.{Crates}
use lofire_rs.Object.Read
use lofire_rs.Object.Persist
use lofire_rs.Object.Persist.{Getter}
use lofire_rs.Commit.{CommitLoadError, object_parse_error, to_type, id, deps_acks, set_id, set_key}
use lofire_rs.Commit.Load.{of_load_error, commit_of, Walked, with_dep, load, load_body, load_deps}
use lofire_rs.Commit.Missing.{with_dep-ok, load-SaysWhy}

with_content : Commit → CommitContentV0 → Commit
with_content c k = record { v0 = record c.v0 { content = k } }

module _ (x : Crates) (get : Getter) (fuel : ℕ) where
  -- A commit that was loaded has the identifier by which it was loaded.
  pub id-load : (r : ObjectRef) (c : Commit) → load x get fuel r ≡ ok c → id c ≡ some r.id
  unfolding load set_id set_key
  id-load r c h =
      let (o, _, h') =
        >>=-eq-ok (map_err of_load_error (Persist.load x get fuel r.id (some r.key))) _ h in
      let (content, _, h'') =
        >>=-eq-ok (map_err (λ _. object_parse_error) (Read.content x o)) _ h' in
      let (c', _, same) = >>=-eq-ok (commit_of content) _ h'' in
      ap (λ (d : Commit). id d) (sym (ok-injective _ c same))

  abbrev pub SameCommit : Commit → Commit → Type 0
  SameCommit c d = c.v0.content ≡ d.v0.content

  -- Two references with one identifier do not load two commits.
  abbrev pub OneCommit : Type 0
  OneCommit =
      (r r' : ObjectRef) (c c' : Commit)
      → r.id ≡ r'.id
      → load x get fuel r ≡ ok c
      → load x get fuel r' ≡ ok c'
      → SameCommit c c'

  -- A commit, which may not be in the store, is the one in the store under its identifier.
  abbrev pub Own : Commit → Type 0
  Own c =
      (r : ObjectRef) (d : Commit) → id c ≡ some r.id → load x get fuel r ≡ ok d → SameCommit c d

  -- A dependency loads, and is in the set `V`.
  abbrev pub DepIn : List ObjectId → ObjectRef → Type 0
  DepIn V r = (e : Commit) × (load x get fuel r ≡ ok e) × (contains r.id V ≡ true)

  -- The body loads and so do, but for the root of a branch, the dependencies, all in the set `V`.
  abbrev pub Settled : List ObjectId → Commit → Type 0
  Settled V c =
      (body : CommitBody) × (load_body x get fuel c ≡ ok body)
      × ((beq (to_type body) CommitType.branch ≡ true) ⊎ All (DepIn V) (deps_acks c))

  abbrev pub SettledId : List ObjectId → ObjectId → Type 0
  SettledId V i = (r : ObjectRef) (c : Commit) → r.id ≡ i → load x get fuel r ≡ ok c → Settled V c

  abbrev pub Sub : List ObjectId → List ObjectId → Type 0
  Sub V W = (i : ObjectId) → contains i V ≡ true → contains i W ≡ true

  abbrev pub New : List ObjectId → List ObjectId → Type 0
  New V W = (i : ObjectId) → contains i W ≡ true → (contains i V ≡ true) ⊎ SettledId W i

  pub Settled-Sub : (V W : List ObjectId) (c : Commit) → Sub V W → Settled V c → Settled W c
  Settled-Sub V W c sub (body, loads, inl root) = (body, loads, inl root)
  Settled-Sub V W c sub (body, loads, inr deps) =
      (body, loads, inr (All-map _ _ _ (λ r d. (d.0, d.1, sub r.id d.2)) deps))

  pub Settled-same : (V : List ObjectId) (c d : Commit) → SameCommit c d → Settled V c → Settled V d
  unfolding load_body deps_acks with_content
  Settled-same V c d same h = subst (λ (k : CommitContentV0). Settled V (with_content c k)) same h

  New-trans : (U V W : List ObjectId) → Sub V W → New U V → New V W → New U W
  New-trans U V W sub h k i here = elim (k i here) [
    | inr settled ↦ inr settled
    | inl before ↦ elim (h i before) [
      | inl old ↦ inl old
      | inr settled ↦ inr (λ r c e loads. Settled-Sub V W c sub (settled r c e loads))
    ]
  ]

  -- What a visit of a commit does, if nothing is missing in the end.
  pub record After (c : Commit) (s s' : Walked) : Type 0 where
    pub none_missing : s.missing ≡ []
    pub grows : Sub s.visited s'.visited
    pub settles : New s.visited s'.visited
    pub here : (i : ObjectId) → id c ≡ some i → contains i s'.visited ≡ true

  abbrev pub Visits : (Commit → Walked → Outcome CommitLoadError Walked) → Type 0
  Visits visit =
      (c : Commit) (s s' : Walked) → Own c → visit c s ≡ ok s' → s'.missing ≡ [] → After c s s'

  pub record AfterDeps (rs : List ObjectRef) (s s' : Walked) : Type 0 where
    pub none_missing : s.missing ≡ []
    pub grows : Sub s.visited s'.visited
    pub settles : New s.visited s'.visited
    pub here : All (DepIn s'.visited) rs

  pub Own-load : OneCommit → (r : ObjectRef) (c : Commit) → load x get fuel r ≡ ok c → Own c
  Own-load one r c loads r' d e loads' =
      one r r' c d (some-injective _ _ (sym (id-load r c loads) ∙ e)) loads loads'

  pub load_deps-After :
      (visit : Commit → Walked → Outcome CommitLoadError Walked)
      → OneCommit
      → Visits visit
      → (rs : List ObjectRef) (s s' : Walked) → load_deps x get fuel visit rs s ≡ ok s'
      → s'.missing ≡ []
      → AfterDeps rs s s'
  unfolding load_deps
  load_deps-After visit one visits [] s s' h nothing =
      subst (λ w. AfterDeps [] s w) (ok-injective s s' h)
        (record {
          none_missing = ap (λ (w : Walked). w.missing) (ok-injective s s' h) ∙ nothing;
          grows = λ i e. e;
          settles = λ i e. inl e;
          here = tt;
        })
  load_deps-After visit one visits (r ∷ rs) s s' h nothing =
      let (s1, first, others) = >>=-eq-ok (with_dep visit (load x get fuel r) s) _ h in
      let rest = load_deps-After visit one visits rs s1 s' others nothing in
      let (c, loads, visited) =
        with_dep-ok visit _ s s1 (load-SaysWhy x get fuel r) first rest.none_missing in
      let after = visits c s s1 (Own-load one r c loads) visited rest.none_missing in
      record {
        none_missing = after.none_missing;
        grows = λ i e. rest.grows i (after.grows i e);
        settles = New-trans _ _ _ rest.grows after.settles rest.settles;
        here = ((c, loads, rest.grows r.id (after.here r.id (id-load r c loads))), rest.here);
      }
