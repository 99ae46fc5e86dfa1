-- ===== src/Object/Shape.antt =====
-- The blocks that `Object::new` makes: one root with all the content, or leaves under a tree.
use lofire_rs.Common.{
  ℕ, suc, ◌+◌, ◌-◌, ◌*◌, ◌≤◌, ◌<◌, Bytes, List, [], ◌∷◌, ◌++◌, map, length, concat, chunks, leb,
  get_last?, get_last?-append, Option, some, ok, All, ◌≡◌, refl, arith, ◌∙◌, sym, length-map,
  length-append, ap, concat-chunks, chunks-nonempty, Bool-cases, inl, inr, true,
}
use mathlib.Core.Path.{subst}
use mathlib.Core.Option.{some-injective}
use lofire_rs.Types.{Block, data_chunk, ObjectContent, ObjectDeps, object_id_list, Timestamp}
use lofire_rs.Crates.{Crates}
use lofire_rs.Block
use lofire_rs.Store.{min_size}
use lofire_rs.Object.Build.{make_block, make_leaf, make_blocks, arity_of, slice_chunks-pos}
use lofire_rs.Object.Tree.{
  HasKey, make_block-HasKey, make_tree-TreeOf, TreeOf, one, more, level, parents_of, parent_of,
}

abbrev head_deps : List Block → ObjectDeps
head_deps [] = object_id_list []
head_deps (b ∷ _) = Block.deps b

module _ (x : Crates) (conv_key : Bytes) (expiry : Option Timestamp) where
  pub leaves-HasKey : (cs : List Bytes) → All HasKey (map (make_leaf x conv_key expiry) cs)
  unfolding make_leaf
  leaves-HasKey [] = tt
  leaves-HasKey (c ∷ cs) = (make_block-HasKey x _ conv_key _ _ expiry, leaves-HasKey cs)

module _ (x : Crates) (conv_key : Bytes) (obj_deps : ObjectDeps) (expiry : Option Timestamp) where
  abbrev pub single_root : Bytes → Block
  single_root bytes =
      make_block x (x.block_content_to_vec (data_chunk bytes)) conv_key [] obj_deps expiry

  abbrev pub leaves_of : List Bytes → List Block
  leaves_of = map (make_leaf x conv_key expiry)

  -- The two shapes of the blocks that hold some bytes.
  pub data BlocksOf (bytes : Bytes) : List Block → Type 0 where
    single : BlocksOf bytes (single_root bytes ∷ [])
    leaves :
        {blocks tree : List Block} (arity : ℕ) (cs : List Bytes)
        → 0 < arity
        → 0 < length (leaves_of cs)
        → concat cs ≡ bytes
        → TreeOf x conv_key obj_deps expiry arity (leaves_of cs) tree
        → blocks ≡ leaves_of cs ++ tree
        → BlocksOf bytes blocks

  -- `make_blocks` always returns blocks of such a shape.
  pub make_blocks-BlocksOf :
      {E : Type 0} (c : ObjectContent) (n size : ℕ)
      → 0 < length (x.object_content_to_vec c)
      → min_size ≤ size
      → (blocks : List Block) × (make_blocks x {E = E} c n obj_deps expiry size conv_key
          ≡ ok blocks)
        × BlocksOf (x.object_content_to_vec c) blocks
  unfolding make_blocks arity_of
  make_blocks-BlocksOf {E} c n size tagged big =
      let ser = x.object_content_to_vec c in
      let data_chunk_size = size - 12 - 4 in
      let cs = chunks data_chunk_size ser in
      elim (Bool-cases (leb (12 + 4 + 33 * n + length ser) size)) [
        | inl fits ↦ (single_root ser ∷ [], simp fits, single)
        | inr large ↦
            let some_leaf : 0 < length (leaves_of cs) = omega (
              arith,
              length-map (make_leaf x conv_key expiry) cs,
              chunks-nonempty data_chunk_size ser tagged,
            ) in
            let wide : 2 ≤ arity_of size = omega arith in
            let (tree, made, shape) =
              make_tree-TreeOf x conv_key obj_deps expiry {E = E} (suc (length (leaves_of cs)))
                (arity_of size) (leaves_of cs) wide some_leaf (omega arith)
                (leaves-HasKey x conv_key expiry cs) in
            (
              leaves_of cs ++ tree,
              simp (large, slice_chunks-pos data_chunk_size ser (omega arith), made),
              leaves (arity_of size) cs (omega arith) some_leaf
                  (concat-chunks data_chunk_size ser (omega arith)) shape refl,
            )
      ]

  -- The last block has the dependencies of the object.
  deps-parents_of :
      (it : List (List Block)) (p : Block)
      → parents_of x conv_key obj_deps expiry true it ≡ p ∷ []
      → Block.deps p ≡ obj_deps
  unfolding parents_of parent_of make_block Block.new
  deps-parents_of [] p h = cc
  deps-parents_of (nodes ∷ []) p h = sym (ap head_deps h)
  deps-parents_of (nodes ∷ more_nodes ∷ it) p h = cc

  TreeOf-nonempty :
      (arity : ℕ) {nodes tree : List Block}
      → TreeOf x conv_key obj_deps expiry arity nodes tree
      → 0 < length tree
  TreeOf-nonempty arity (one p is_single) = omega arith
  TreeOf-nonempty arity {nodes} (more {rest} many shape split) =
      rw split (omega (arith, length-append (level x conv_key obj_deps expiry arity nodes) rest))

  TreeOf-deps :
      (arity : ℕ) {nodes tree : List Block} (root : Block)
      → TreeOf x conv_key obj_deps expiry arity nodes tree
      → get_last? tree ≡ some root
      → Block.deps root ≡ obj_deps
  TreeOf-deps arity {nodes} root (one p is_single) last =
      subst (λ (r : Block). Block.deps r ≡ obj_deps) (some-injective _ _ last)
        (deps-parents_of (chunks arity nodes) p is_single)
  TreeOf-deps arity {nodes} root (more {rest} many shape split) last =
      TreeOf-deps arity root shape (
        sym (
          get_last?-append (level x conv_key obj_deps expiry arity nodes) rest
            (TreeOf-nonempty arity shape))
        ∙ (ap get_last? (sym split) ∙ last))

  pub BlocksOf-deps :
      {bytes : Bytes} {blocks : List Block} (root : Block)
      → BlocksOf bytes blocks
      → get_last? blocks ≡ some root
      → Block.deps root ≡ obj_deps
  unfolding make_block Block.new
  BlocksOf-deps root single last = ap (λ (r : Block). Block.deps r) (sym (some-injective _ _ last))
  BlocksOf-deps root (leaves {tree} arity cs pos some_leaf same shape split) last =
      TreeOf-deps arity root shape (
        sym (get_last?-append (leaves_of cs) tree (TreeOf-nonempty arity shape))
        ∙ (ap get_last? (sym split) ∙ last))
