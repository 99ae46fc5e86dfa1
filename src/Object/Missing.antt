-- ===== src/Object/Missing.antt =====
-- lofire/src/object.rs: the errors of `Object::load` and `Object::content`.
use lofire_rs.Common.{
  ℕ, zero, suc, List, [], ◌∷◌, get_last?, Bool, Bool-cases, inl, inr, none, some, Option, Outcome,
  ok, err, panic, out_of_fuel, ◌>>=◌, Outcome-cases, err-injective, unwrap, ok_or, if◌then◌else◌,
  ◌≡◌,
}
use mathlib.Core.Path.{subst}
use lofire_rs.Types.{
  Block, BlockContentV0, internal_node, data_chunk, ObjectContent, ObjectDeps, object_id_list,
  dep_list_ref, ObjectId, ObjectRef, SymKey,
}
use lofire_rs.Crates.{Crates}
use lofire_rs.Block
use lofire_rs.Object.{
  Object, ObjectParseError, missing_blocks, missing_root_key, invalid_block_id, invalid_children,
  invalid_keys, invalid_deps, block_deserialize_error, object_deserialize_error, id, key, root,
}
use lofire_rs.Object.Read.{
  Ref, Collected, parse_content, visit, visit_parents, collect_leaves, collect, content,
}
use lofire_rs.Object.Persist.{
  Getter, Loaded, load_parents, load_tree, set_root_key, dep_list_of, load,
}

-- An error that is not the empty list of missing blocks.
abbrev pub SaysWhy : ObjectParseError → Type 0
SaysWhy (missing_blocks []) = ⊥
SaysWhy (missing_blocks (_ ∷ _)) = Unit
SaysWhy missing_root_key = Unit
SaysWhy invalid_block_id = Unit
SaysWhy invalid_children = Unit
SaysWhy invalid_keys = Unit
SaysWhy invalid_deps = Unit
SaysWhy block_deserialize_error = Unit
SaysWhy object_deserialize_error = Unit

abbrev pub FailsWith {ℓ} : {E : Type 0} {A : Type ℓ} → (E → Type 0) → Outcome E A → Type ℓ
FailsWith {E} P m = (e : E) → m ≡ err e → P e

pub FailsWith->>= {ℓ κ} :
    {E : Type 0} {A : Type ℓ} {B : Type κ} (P : E → Type 0) (m : Outcome E A) (f : A → Outcome E B)
    → FailsWith P m
    → ((a : A) → FailsWith P (f a))
    → FailsWith P (m >>= f)
FailsWith->>= P (ok a) f h k = k a
FailsWith->>= P (err e) f h k = λ e' p. h e' (cc)
FailsWith->>= P panic f h k = λ e p. cc
FailsWith->>= P out_of_fuel f h k = λ e p. cc

ok-FailsWith {ℓ} : {E : Type 0} {A : Type ℓ} (P : E → Type 0) (a : A) → FailsWith P (ok a)
ok-FailsWith P a e p = cc

pub err-FailsWith {ℓ} :
    {E : Type 0} {A : Type ℓ} (P : E → Type 0) (e : E) → P e → FailsWith {A = A} P (err e)
err-FailsWith P e h e' p = subst P (err-injective e e' p) h

FailsWith-unwrap {ℓ} :
    {E : Type 0} {A : Type ℓ} (P : E → Type 0) (a : Option A) → FailsWith P (unwrap {E = E} a)
FailsWith-unwrap P none e p = cc
FailsWith-unwrap P (some a) e p = cc

FailsWith-ok_or {ℓ} :
    {E : Type 0} {A : Type ℓ} (P : E → Type 0) (e : E) (a : Option A)
    → P e
    → FailsWith P (ok_or e a)
FailsWith-ok_or P e none h = err-FailsWith P e h
FailsWith-ok_or P e (some a) h = ok-FailsWith P a

FailsWith-if {ℓ} :
    {E : Type 0} {A : Type ℓ} (P : E → Type 0) (b : Bool) (m n : Outcome E A)
    → FailsWith P m
    → FailsWith P n
    → FailsWith P (if b then m else n)
FailsWith-if P b m n h k = elim (Bool-cases b) [ inl e ↦ rw e h | inr e ↦ rw e k ]

module _ (x : Crates) where
  parse_content-SaysWhy :
      (b : Block) (k : SymKey) (c : BlockContentV0) (children : List Ref) (s : Collected)
      → FailsWith SaysWhy (parse_content x b k c children s)
  unfolding parse_content
  parse_content-SaysWhy b k (internal_node keys) children s =
      FailsWith-if SaysWhy _ _ _ (ok-FailsWith SaysWhy _) (err-FailsWith SaysWhy _ tt)
  parse_content-SaysWhy b k (data_chunk chunk) children s = ok-FailsWith SaysWhy _

  visit-SaysWhy :
      (b : Block) (p : Ref) (children : List Ref) (s : Collected)
      → FailsWith SaysWhy (visit x b p children s)
  unfolding visit
  visit-SaysWhy b p children s =
      FailsWith-if SaysWhy _ _ _
        (FailsWith->>= SaysWhy _ _ (FailsWith-ok_or SaysWhy _ _ tt)
          (λ c. parse_content-SaysWhy b p.1 c children s))
        (err-FailsWith SaysWhy _ tt)

  visit_parents-SaysWhy :
      (bs : List Block) (ps : List Ref) (i : ℕ) (children : List Ref) (s : Collected)
      → FailsWith SaysWhy (visit_parents x bs ps i children s)
  unfolding visit_parents
  visit_parents-SaysWhy bs [] i children s = ok-FailsWith SaysWhy _
  visit_parents-SaysWhy bs (p ∷ ps) i children s =
      FailsWith->>= SaysWhy _ _ (FailsWith-unwrap SaysWhy _) (λ b.
        FailsWith->>= SaysWhy _ _ (visit-SaysWhy b p children s)
          (λ r. visit_parents-SaysWhy bs ps (suc i) r.0 r.1))

  collect_leaves-SaysWhy :
      (fuel : ℕ) (bs : List Block) (ps : List Ref) (i : ℕ) (s : Collected)
      → FailsWith SaysWhy (collect_leaves x fuel bs ps i s)
  unfolding collect_leaves
  collect_leaves-SaysWhy zero bs ps i s = λ e p. cc
  collect_leaves-SaysWhy (suc fuel) bs ps i s =
      FailsWith->>= SaysWhy _ _ (visit_parents-SaysWhy bs ps i [] s) (λ r.
        FailsWith-if SaysWhy _ _ _ (ok-FailsWith SaysWhy _) (
          FailsWith-if SaysWhy _ _ _ (err-FailsWith SaysWhy _ tt)
            (collect_leaves-SaysWhy fuel bs r.0 _ r.1)))

  id-SaysWhy : (o : Object) → FailsWith SaysWhy (id x o)
  unfolding id root
  id-SaysWhy o =
      FailsWith->>= SaysWhy _ _ (FailsWith-unwrap SaysWhy _) (λ b. ok-FailsWith SaysWhy _)

  key-SaysWhy : (o : Object) → FailsWith SaysWhy (key o)
  unfolding key root
  key-SaysWhy o =
      FailsWith->>= SaysWhy _ _ (FailsWith-unwrap SaysWhy _) (λ b. ok-FailsWith SaysWhy _)

  collect-SaysWhy : (o : Object) (k : SymKey) (s : Collected) → FailsWith SaysWhy (collect x o k s)
  unfolding collect
  collect-SaysWhy o k s =
      FailsWith->>= SaysWhy _ _ (id-SaysWhy o) (λ i. collect_leaves-SaysWhy _ o.blocks _ _ s)

  pub content-SaysWhy : (o : Object) → FailsWith SaysWhy (content x o)
  unfolding content
  content-SaysWhy o = FailsWith->>= SaysWhy _ _ (key-SaysWhy o) (λ k.
      FailsWith->>= SaysWhy _ _ (FailsWith-ok_or SaysWhy _ _ tt) (λ k'.
        FailsWith->>= SaysWhy _ _ (collect-SaysWhy o k' _) (λ s.
          FailsWith->>= SaysWhy _ _ (FailsWith-unwrap SaysWhy s.obj_content) (λ c.
            FailsWith-ok_or SaysWhy object_deserialize_error (x.object_content_from_slice c) tt))))

next_level-SaysWhy :
    (f : List ObjectId → Outcome ObjectParseError Loaded) (s : Loaded)
    → ((cs : List ObjectId) → FailsWith SaysWhy (f cs))
    → (children : List ObjectId)
    → FailsWith {A = Loaded} SaysWhy (elim children [ [] ↦ ok s | c ∷ cs ↦ f (c ∷ cs) ])
next_level-SaysWhy f s h [] = ok-FailsWith SaysWhy _
next_level-SaysWhy f s h (c ∷ cs) = h (c ∷ cs)

module _ (get : Getter) where
  load_parents-SaysWhy :
      (ids children : List ObjectId) (s : Loaded)
      → FailsWith SaysWhy (load_parents get ids children s)
  unfolding load_parents
  load_parents-SaysWhy [] children s = ok-FailsWith SaysWhy _
  load_parents-SaysWhy (i ∷ ids) children s = elim (Outcome-cases (get i)) [
    | inl (block, e) ↦ rw (e, load_parents) (load_parents-SaysWhy ids _ _)
    | inr (inl (_, e)) ↦ rw (e, load_parents) (load_parents-SaysWhy ids children _)
    | inr (inr (inl e)) ↦ rw (e, load_parents) (λ e p. cc)
    | inr (inr (inr e)) ↦ rw (e, load_parents) (λ e p. cc)
  ]

  load_tree-SaysWhy :
      (fuel : ℕ) (ids : List ObjectId) (s : Loaded) → FailsWith SaysWhy (load_tree get fuel ids s)
  unfolding load_tree
  load_tree-SaysWhy zero ids s = λ e p. cc
  load_tree-SaysWhy (suc fuel) ids s =
      FailsWith->>= SaysWhy _ _ (load_parents-SaysWhy ids [] s) (λ r.
        next_level-SaysWhy (λ cs. load_tree get fuel cs r.1) r.1
          (λ cs. load_tree-SaysWhy fuel cs r.1) r.0)

dep_list_of-SaysWhy : (c : ObjectContent) → FailsWith SaysWhy (dep_list_of c)
dep_list_of-SaysWhy (ObjectContent.commit _) = err-FailsWith SaysWhy _ tt
dep_list_of-SaysWhy (ObjectContent.commit_body _) = err-FailsWith SaysWhy _ tt
dep_list_of-SaysWhy (ObjectContent.file _) = err-FailsWith SaysWhy _ tt
dep_list_of-SaysWhy (ObjectContent.dep_list _) = ok-FailsWith SaysWhy _

deps_of-SaysWhy :
    (f : ObjectRef → Outcome ObjectParseError (List ObjectId))
    (h : (r : ObjectRef) → FailsWith SaysWhy (f r)) (d : ObjectDeps)
    → FailsWith {A = List ObjectId} SaysWhy
        (elim d [ object_id_list deps_vec ↦ ok deps_vec | dep_list_ref r ↦ f r ])
deps_of-SaysWhy f h (object_id_list deps_vec) = ok-FailsWith SaysWhy _
deps_of-SaysWhy f h (dep_list_ref r) = h r

unless_missing-SaysWhy :
    (missing : List ObjectId) (m : Outcome ObjectParseError Object)
    → FailsWith SaysWhy m
    → FailsWith {A = Object} SaysWhy
        (elim missing [ i ∷ is ↦ err (missing_blocks (i ∷ is)) | [] ↦ m ])
unless_missing-SaysWhy [] m h = h
unless_missing-SaysWhy (i ∷ is) m h = err-FailsWith SaysWhy _ tt

-- Where `load` reports missing blocks, their list is not empty.
pub load-SaysWhy :
    (x : Crates) (get : Getter) (fuel : ℕ) (i : ObjectId) (k : Option SymKey)
    → FailsWith SaysWhy (load x get fuel i k)
unfolding load
load-SaysWhy x get zero i k = λ e p. cc
load-SaysWhy x get (suc fuel) i k =
    FailsWith->>= SaysWhy _ _ (load_tree-SaysWhy get (suc fuel) _ _) (λ s.
      unless_missing-SaysWhy s.missing _ (
        FailsWith->>= SaysWhy _ _ (FailsWith-unwrap SaysWhy (get_last? (set_root_key k s.blocks)))
          (λ root.
            FailsWith->>= SaysWhy _ _
              (deps_of-SaysWhy _
                (λ r.
                  FailsWith->>= SaysWhy _ _ (load-SaysWhy x get fuel r.id (some r.key))
                    (λ obj. FailsWith->>= SaysWhy _ _ (content-SaysWhy x obj) dep_list_of-SaysWhy))
                (Block.deps root))
              (λ deps. ok-FailsWith SaysWhy _))))
