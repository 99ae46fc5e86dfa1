-- ===== src/Object/Loading.antt =====
-- `Object::load` on a store that holds the blocks of an object.
use lofire_rs.Common.{
  ℕ, zero, suc, ◌+◌, ◌-◌, ◌≤◌, ◌<◌, Bytes, List, [], ◌∷◌, ◌++◌, map, length, concat, get_last?,
  get_last?-append, Option, none, some, ok, All, All-left, All-right, All-reverse, ◌≡◌, refl, arith,
  ◌∙◌, sym, ap, length-append, map-reverse, concat-append,
}
use mathlib.Core.Path.{subst}
use mathlib.Core.List.{append-nil, map-append, reverse, reverse-append, reverse-reverse}
use mathlib.Core.Option
use mathlib.Core.Option.{some-injective}
use lofire_rs.Types.{Block, ObjectId, ObjectDeps, object_id_list, SymKey, Timestamp}
use lofire_rs.Crates.{Crates}
use lofire_rs.Block
use lofire_rs.Object.Build.{make_block, make_leaf}
use lofire_rs.Object.Persist.{Getter, load_tree, set_root_key, load}
use lofire_rs.Object.Shape.{BlocksOf, single, leaves, leaves_of, single_root}
use lofire_rs.Object.Tree.Loading.{
  Stored, with_blocks, load_parents-Stored, load_tree-last, TreeOf-Loads,
}

module _ (x : Crates) (conv_key : Bytes) (obj_deps : ObjectDeps) (expiry : Option Timestamp) where
  children-leaves :
      (cs : List Bytes)
      → concat (
          map (λ b. reverse (Block.children b)) (reverse (leaves_of x conv_key obj_deps expiry cs)))
        ≡ []
  unfolding make_leaf make_block Block.new
  children-leaves [] = refl
  children-leaves (c ∷ cs) = simp (
    reverse-append (make_leaf x conv_key expiry c ∷ []) (leaves_of x conv_key obj_deps expiry cs),
    map-append,
    concat-append,
    children-leaves cs,
  )

  module _ (get : Getter) (stored : Block → Block) where
    load_tree-leaves :
        (cs : List Bytes) (bs : List Block) (fuel : ℕ)
        → All (Stored x get stored) (leaves_of x conv_key obj_deps expiry cs)
        → load_tree get
            (suc fuel)
            (reverse (map (Block.id x) (leaves_of x conv_key obj_deps expiry cs)))
            (with_blocks bs)
          ≡ ok (with_blocks (map stored (leaves_of x conv_key obj_deps expiry cs) ++ bs))
    load_tree-leaves cs bs fuel held =
        let lvs = leaves_of x conv_key obj_deps expiry cs in
        load_tree-last x get stored fuel _ (with_blocks bs) _ (
          rw (sym (map-reverse (Block.id x) lvs)) (
            load_parents-Stored x get stored (reverse lvs) [] (with_blocks bs)
              (All-reverse _ lvs held)
            ∙ simp (children-leaves cs, reverse-reverse)))

    load_tree-single :
        (bytes : Bytes) (fuel : ℕ)
        → All (Stored x get stored) (single_root x conv_key obj_deps expiry bytes ∷ [])
        → load_tree get
            (suc fuel)
            (Block.id x (single_root x conv_key obj_deps expiry bytes) ∷ [])
            (with_blocks [])
          ≡ ok (with_blocks (stored (single_root x conv_key obj_deps expiry bytes) ∷ []))
    unfolding make_block Block.new
    load_tree-single bytes fuel held = load_tree-last x get stored fuel _ (with_blocks []) _ (
        load_parents-Stored x get stored (single_root x conv_key obj_deps expiry bytes ∷ []) []
          (with_blocks []) held)

    -- With as much fuel as there are blocks, `load_tree` gives the stored blocks, in their order.
    pub BlocksOf-load_tree :
        {bytes : Bytes} {blocks : List Block} (n : ℕ) (root : Block)
        → BlocksOf x conv_key obj_deps expiry bytes blocks
        → get_last? blocks ≡ some root
        → All (Stored x get stored) blocks
        → length blocks ≤ n
        → load_tree get n (Block.id x root ∷ []) (with_blocks [])
          ≡ ok (with_blocks (map stored blocks))
    BlocksOf-load_tree zero root single last held enough = absurd (omega arith)
    BlocksOf-load_tree {bytes} (suc n) root single last held enough =
        subst
          (λ r.
            load_tree get (suc n) (Block.id x r ∷ []) (with_blocks [])
            ≡ ok (with_blocks (map stored (single_root x conv_key obj_deps expiry bytes ∷ []))))
          (some-injective _ _ last) (load_tree-single bytes n held)
    BlocksOf-load_tree {blocks} n root (leaves {tree} arity cs pos some_leaf same shape split) last
          held enough =
        let lvs = leaves_of x conv_key obj_deps expiry cs in
        let w = TreeOf-Loads x conv_key obj_deps expiry get stored arity pos some_leaf shape in
        let both : All (Stored x get stored) (lvs ++ tree) =
          subst (All (Stored x get stored)) split held in
        let fuel = n - w.levels - 1 in
        let size : length blocks ≡ length lvs + length tree = rw split (length-append lvs tree) in
        let total : n ≡ w.levels + suc fuel = omega (arith, w.levels-le) in
        let same_root : w.root ≡ root = some-injective _ _ (
          sym w.last
          ∙ (sym (get_last?-append lvs tree w.nonempty) ∙ (ap get_last? (sym split) ∙ last))) in
        rw (← same_root) (
          w.loads n (suc fuel) [] total (All-right _ lvs tree both)
          ∙ load_tree-leaves cs (map stored tree ++ []) fuel (All-left _ lvs tree both)
          ∙ simp (split, map-append, append-nil))

-- The key that `load` sets on the root.
abbrev pub with_key : Option SymKey → Block → Block
with_key none b = b
with_key (some k) b = Block.set_key (some k) b

pub length-set_root_key :
    (k : Option SymKey) (bs : List Block) → length (set_root_key k bs) ≡ length bs
unfolding set_root_key
length-set_root_key none bs = refl
length-set_root_key (some k) [] = refl
length-set_root_key (some k) (b ∷ []) = refl
length-set_root_key (some k) (b ∷ c ∷ bs) = ap suc (length-set_root_key (some k) (c ∷ bs))

pub get_last?-set_root_key :
    (k : Option SymKey) (bs : List Block) (root : Block)
    → get_last? bs ≡ some root
    → get_last? (set_root_key k bs) ≡ some (with_key k root)
unfolding set_root_key
get_last?-set_root_key none bs root h = h
get_last?-set_root_key (some k) [] root h = cc
get_last?-set_root_key (some k) (b ∷ []) root h = ap (Option.map (Block.set_key (some k))) h
get_last?-set_root_key (some k) (b ∷ c ∷ bs) root h =
    get_last?-append (b ∷ []) (set_root_key (some k) (c ∷ bs))
      (omega (arith, length-set_root_key (some k) (c ∷ bs)))
    ∙ get_last?-set_root_key (some k) (c ∷ bs) root h

pub nonempty_of_last : (bs : List Block) (root : Block) → get_last? bs ≡ some root → 0 < length bs
nonempty_of_last [] root h = cc
nonempty_of_last (b ∷ bs) root h = omega arith

pub deps-with_key : (k : Option SymKey) (b : Block) → Block.deps (with_key k b) ≡ Block.deps b
unfolding Block.set_key
deps-with_key none b = refl
deps-with_key (some k) b = refl

pub get_last?-map :
    (f : Block → Block) (bs : List Block) (root : Block)
    → get_last? bs ≡ some root
    → get_last? (map f bs) ≡ some (f root)
get_last?-map f [] root h = cc
get_last?-map f (b ∷ []) root h = ap (Option.map f) h
get_last?-map f (b ∷ c ∷ bs) root h = get_last?-map f (c ∷ bs) root h

-- What `load` gives for an object whose blocks the store holds and whose root lists its
-- dependencies.
pub load-Stored :
    (x : Crates) (conv_key : Bytes) (deps : List ObjectId) (expiry : Option Timestamp)
    (get : Getter) (stored : Block → Block) {bytes : Bytes} {blocks : List Block} (n : ℕ)
    (root : Block) (key : Option SymKey)
    → BlocksOf x conv_key (object_id_list deps) expiry bytes blocks
    → get_last? blocks ≡ some root
    → All (Stored x get stored) blocks
    → Block.deps (stored root) ≡ object_id_list deps
    → length blocks ≤ n
    → load x get n (Block.id x root) key
      ≡ ok (record { blocks = set_root_key key (map stored blocks); deps = deps })
unfolding load
load-Stored x conv_key deps expiry get stored {blocks = blocks} zero root key built last held listed
      enough =
    absurd (omega (arith, nonempty_of_last blocks root last))
load-Stored x conv_key deps expiry get stored {blocks = blocks} (suc n) root key built last held
      listed enough =
    let last' =
      get_last?-set_root_key key (map stored blocks) (stored root)
        (get_last?-map stored blocks root last) in
    simp (
      BlocksOf-load_tree x conv_key (object_id_list deps) expiry get stored (suc n) root built last
          held enough,
      last',
      deps-with_key key (stored root),
      listed,
    )
