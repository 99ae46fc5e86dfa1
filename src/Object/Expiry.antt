-- ===== src/Object/Expiry.antt =====
-- lofire/src/object.rs: the expiry of the blocks of an object.
use lofire_rs.Common.{
  ℕ, Bytes, List, [], ◌∷◌, map, Bool, true, false, Option, ◌≡◌, refl, sym, All, All-append, chunks,
}
use mathlib.Core.Path.{subst}
use lofire_rs.Types.{Block, ObjectDeps, Timestamp}
use lofire_rs.Crates.{Crates}
use lofire_rs.Block
use lofire_rs.Object.Build.{make_block, make_leaf}
use lofire_rs.Object.Shape.{BlocksOf, single, leaves}
use lofire_rs.Object.Tree.{TreeOf, one, more, level, parents_of, parent_of}

abbrev pub Expires : Option Timestamp → Block → Type 0
Expires expiry b = Block.expiry b ≡ expiry

module _ (x : Crates) (conv_key : Bytes) (obj_deps : ObjectDeps) (expiry : Option Timestamp) where
  leaves-Expires : (cs : List Bytes) → All (Expires expiry) (map (make_leaf x conv_key expiry) cs)
  unfolding make_leaf make_block Block.new Block.new_v0
  leaves-Expires [] = tt
  leaves-Expires (c ∷ cs) = (refl, leaves-Expires cs)

  parents_of-Expires :
      (first : Bool) (it : List (List Block))
      → All (Expires expiry) (parents_of x conv_key obj_deps expiry first it)
  unfolding parents_of parent_of make_block Block.new Block.new_v0
  parents_of-Expires first [] = tt
  parents_of-Expires first (nodes ∷ it) = (refl, parents_of-Expires false it)

  TreeOf-Expires :
      (arity : ℕ) {nodes tree : List Block}
      → TreeOf x conv_key obj_deps expiry arity nodes tree
      → All (Expires expiry) tree
  TreeOf-Expires arity {nodes} (one p is_single) =
      subst (All (Expires expiry)) is_single (parents_of-Expires true (chunks arity nodes))
  TreeOf-Expires arity {nodes} (more {rest} many shape split) =
      subst (All (Expires expiry)) (sym split) (
        All-append _ (level x conv_key obj_deps expiry arity nodes) rest
          (parents_of-Expires true (chunks arity nodes)) (TreeOf-Expires arity shape))

  -- All blocks of an object expire when it does.
  pub BlocksOf-Expires :
      {bytes : Bytes} {blocks : List Block}
      → BlocksOf x conv_key obj_deps expiry bytes blocks
      → All (Expires expiry) blocks
  unfolding make_block Block.new Block.new_v0
  BlocksOf-Expires single = (refl, tt)
  BlocksOf-Expires (leaves {tree} arity cs pos some_leaf same shape split) =
      subst (All (Expires expiry)) (sym split) (
        All-append _ (map (make_leaf x conv_key expiry) cs) tree (leaves-Expires cs)
          (TreeOf-Expires arity shape))
