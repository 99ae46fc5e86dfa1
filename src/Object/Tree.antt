-- ===== src/Object/Tree.antt =====
-- The shape of the trees that `make_tree` builds.
pub mod Walk
pub mod Loading
use lofire_rs.Common.{
  ℕ, zero, suc, ◌+◌, ◌≤◌, ◌<◌, Bytes, List, [], ◌∷◌, ◌++◌, map, length, chunks, zip, get_last?, ltb,
  if◌then◌else◌, Bool, true, false, ◌&&◌, Option, none, some, Outcome, ok, ◌>>=◌, All, ◌≡◌, refl,
  arith, length-chunks, chunks-nonempty, All-chunks, Bool-cases, inl, inr, ltb→lt, ap,
}
use lofire_rs.Types.{Block, internal_node, ObjectDeps, object_id_list, SymKey, Timestamp}
use lofire_rs.Crates.{Crates}
use lofire_rs.Block
use lofire_rs.Object.Build.{
  unwrap_keys, make_block, make_parents, make_tree, is_empty, slice_chunks,
}
use lofire_rs.Object.Read.{Ref}

-- The key of a block that has one.
unfoldable pub key_of : Block → SymKey
key_of b = elim (Block.key b) [ none ↦ record { chacha20_key = [] } | some k ↦ k ]

abbrev pub HasKey : Block → Type 0
HasKey b = Block.key b ≡ some (key_of b)

unfoldable pub ref : Crates → Block → Ref
ref x b = (Block.id x b, key_of b)

pub unwrap_keys-eq :
    {E : Type 0} (nodes : List Block)
    → All HasKey nodes
    → unwrap_keys {E = E} nodes ≡ ok (map key_of nodes)
unfolding unwrap_keys
unwrap_keys-eq [] h = refl
unwrap_keys-eq {E} (b ∷ bs) h = simp (h.0, unwrap_keys-eq {E = E} bs h.1)

pub zip-refs :
    (x : Crates) (nodes : List Block)
    → zip (map (Block.id x) nodes) (map key_of nodes) ≡ map (ref x) nodes
unfolding ref
zip-refs x [] = refl
zip-refs x (b ∷ bs) = ap (◌∷◌ (ref x b)) (zip-refs x bs)

pub make_block-HasKey :
    (x : Crates) (content conv_key : Bytes) (children : List _) (deps : ObjectDeps)
    (expiry : Option Timestamp)
    → HasKey (make_block x content conv_key children deps expiry)
unfolding make_block key_of Block.new
make_block-HasKey x content conv_key children deps expiry = refl

singleton_of {ℓ} :
    {A : Type ℓ} (xs : List A) → 0 < length xs → ltb 1 (length xs) ≡ false → (p : A) × (xs ≡ p ∷ [])
singleton_of [] h e = absurd (omega arith)
singleton_of (p ∷ []) h e = (p, refl)
singleton_of (p ∷ q ∷ xs) h e = absurd (ground arith)

module _ (x : Crates) (conv_key : Bytes) (root_deps : ObjectDeps) (expiry : Option Timestamp) where
  unfoldable pub parent_of : ObjectDeps → List Block → Block
  parent_of deps nodes =
      make_block x (x.block_content_to_vec (internal_node (map key_of nodes))) conv_key
        (map (Block.id x) nodes) deps expiry

  unfoldable pub parents_of : Bool → List (List Block) → List Block
  unfolding parent_of
  parents_of first [] = []
  parents_of first (nodes ∷ it) =
      parent_of (if first && is_empty it then root_deps else object_id_list []) nodes
      ∷ parents_of false it

  make_parents-eq :
      {E : Type 0} (first : Bool) (it : List (List Block))
      → All (All HasKey) it
      → make_parents x {E = E} conv_key root_deps expiry first it ≡ ok (parents_of first it)
  unfolding make_parents parents_of
  make_parents-eq first [] h = refl
  make_parents-eq {E} first (nodes ∷ it) h =
      simp (unwrap_keys-eq {E = E} nodes h.0, make_parents-eq {E = E} false it h.1)

  pub length-parents_of :
      (first : Bool) (it : List (List Block)) → length (parents_of first it) ≡ length it
  unfolding parents_of
  length-parents_of first [] = refl
  length-parents_of first (nodes ∷ it) = ap suc (length-parents_of false it)

  pub parents_of-HasKey : (first : Bool) (it : List (List Block)) → All HasKey (parents_of first it)
  unfolding parents_of
  parents_of-HasKey first [] = tt
  parents_of-HasKey first (nodes ∷ it) =
      (make_block-HasKey x _ conv_key _ _ expiry, parents_of-HasKey false it)

  abbrev pub level : ℕ → List Block → List Block
  level arity nodes = parents_of true (chunks arity nodes)

  -- The levels over some nodes, from the lowest to the root.
  pub data TreeOf (arity : ℕ) : List Block → List Block → Type 0 where
    one :
        {nodes : List Block} (p : Block) → level arity nodes ≡ p ∷ [] → TreeOf arity nodes (p ∷ [])
    more :
        {nodes rest tree : List Block}
        → 1 < length (level arity nodes)
        → TreeOf arity (level arity nodes) rest
        → tree ≡ level arity nodes ++ rest
        → TreeOf arity nodes tree

  -- With an arity of at least 2, at least one node, a key in every node and as much fuel as there
  -- are nodes, `make_tree` returns: level by level, a parent for each chunk of `arity` nodes of the
  -- level below, up to a level with one parent.
  pub make_tree-TreeOf :
      {E : Type 0} (fuel arity : ℕ) (nodes : List Block)
      → 2 ≤ arity
      → 0 < length nodes
      → length nodes ≤ fuel
      → All HasKey nodes
      → (tree : List Block) × (make_tree x {E = E} conv_key root_deps expiry fuel arity nodes
          ≡ ok tree)
        × TreeOf arity nodes tree
  unfolding make_tree
  make_tree-TreeOf zero arity nodes big some_node enough keys = absurd (omega arith)
  make_tree-TreeOf (suc fuel) zero nodes big some_node enough keys = absurd (omega arith)
  make_tree-TreeOf {E} (suc fuel) (suc arity) nodes big some_node enough keys =
      let n = length-chunks (suc arity) nodes big in
      let first_level =
        make_parents-eq {E = E} true (chunks (suc arity) nodes)
          (All-chunks HasKey (suc arity) nodes keys) in
      let same = length-parents_of true (chunks (suc arity) nodes) in
      elim (Bool-cases (ltb 1 (length (level (suc arity) nodes)))) [
        | inl many ↦
            let more_than_one = ltb→lt 1 (length (level (suc arity) nodes)) many in
            let (rest, eq, shape) =
              make_tree-TreeOf {E = E} fuel (suc arity) (level (suc arity) nodes) big (omega arith)
                (omega arith) (parents_of-HasKey true (chunks (suc arity) nodes)) in
            (
              level (suc arity) nodes ++ rest,
              simp (first_level, many, eq),
              more more_than_one shape refl,
            )
        | inr few ↦
            let (p, single) =
              singleton_of (level (suc arity) nodes)
                (omega (arith, chunks-nonempty (suc arity) nodes some_node)) few in
            (p ∷ [], simp (first_level, single), one p single)
      ]
