-- ===== src/Object/RoundTrip.antt =====
-- lofire/src/object.rs: `Object::content` on what `Object::new` makes.
use lofire_rs.Common.{
  ℕ, zero, suc, ◌+◌, ◌-◌, ◌<◌, Bytes, List, [], ◌∷◌, ◌++◌, map, length, concat, get_last?, Option,
  none, some, ok, ◌≡◌, refl, arith, At, At-zero, At-end, length-append, sym, ◌∙◌, Bool-cases, inl,
  inr, leb, get_last?-append,
}
use mathlib.Core.Path.{subst}
use native.Mathlib.Nat.{zero-add}
use mathlib.Core.List.{append_assoc, append-nil}
use lofire_rs.Types.{
  Block, data_chunk, ObjectContent, ObjectDeps, object_id_list, dep_list_ref, ObjectId, PubKey,
  SymKey, Timestamp,
}
use lofire_rs.Crates.{Crates}
use lofire_rs.Block
use lofire_rs.Store.{store_valid_value_size}
use lofire_rs.Store.Sizes.{store_valid_value_size_bounds}
use lofire_rs.Object.{Object, id, key, root}
use lofire_rs.Object.Build.{make_block, make_leaf, make_deps, new, convergence_key}
use lofire_rs.Object.Read.{
  Collected, parse_content, visit_parents, collect_leaves, collect, content,
}
use lofire_rs.Object.Tree.{HasKey, key_of, ref, make_block-HasKey}
use lofire_rs.Object.Shape.{BlocksOf, single, leaves, make_blocks-BlocksOf}
use lofire_rs.Object.Tree.Walk.{visit-make_block, Walks, TreeOf-Walks}

-- The accumulators of `content`.
abbrev pub content_so_far : Bytes → Collected
content_so_far acc = record { leaves = none; obj_content = some acc }

module _ (x : Crates) (conv_key : Bytes) (expiry : Option Timestamp) where
  visit_parents-leaves :
      (B : List Block) (i : ℕ) (cs : List Bytes) (acc : Bytes)
      → At B i (map (make_leaf x conv_key expiry) cs)
      → visit_parents x B
          (map (ref x) (map (make_leaf x conv_key expiry) cs))
          i
          []
          (content_so_far acc)
        ≡ ok ([], content_so_far (acc ++ concat cs))
  unfolding visit_parents make_leaf
  visit_parents-leaves B i [] acc h = simp append-nil
  visit_parents-leaves B i (c ∷ cs) acc h = simp (
    h.0,
    visit-make_block x (data_chunk c) conv_key [] (object_id_list []) expiry,
    parse_content,
    visit_parents-leaves B (suc i) cs (acc ++ c) h.1,
    append_assoc,
  )

  collect-leaves :
      (B : List Block) (i fuel : ℕ) (cs : List Bytes)
      → At B i (map (make_leaf x conv_key expiry) cs)
      → i < fuel
      → collect_leaves x fuel B
          (map (ref x) (map (make_leaf x conv_key expiry) cs))
          i
          (content_so_far [])
        ≡ ok (content_so_far (concat cs))
  unfolding collect_leaves
  collect-leaves B i zero cs h enough = absurd (omega arith)
  collect-leaves B i (suc fuel) cs h enough = simp (visit_parents-leaves B i cs [] h)

-- Blocks from whose last one the walk of `content` collects some bytes.
pub record Holds (x : Crates) (blocks : List Block) (bytes : Bytes) : Type 0 where
  pub root : Block
  pub last : get_last? blocks ≡ some root
  pub has_key : HasKey root
  pub reads :
      collect_leaves x
        (length blocks)
        blocks
        (ref x root ∷ [])
        (length blocks - 1)
        (content_so_far [])
      ≡ ok (content_so_far bytes)

module _ (x : Crates) (conv_key : Bytes) (obj_deps : ObjectDeps) (expiry : Option Timestamp) where
  single-Holds :
      (bytes : Bytes)
      → Holds x
          (make_block x (x.block_content_to_vec (data_chunk bytes)) conv_key [] obj_deps expiry
            ∷ [])
          bytes
  unfolding collect_leaves visit_parents
  single-Holds bytes = record {
    root = make_block x (x.block_content_to_vec (data_chunk bytes)) conv_key [] obj_deps expiry;
    last = refl;
    has_key = make_block-HasKey x _ conv_key _ _ expiry;
    reads = simp (visit-make_block x (data_chunk bytes) conv_key [] obj_deps expiry, parse_content);
  }

  tree-Holds :
      (cs : List Bytes) (tree : List Block)
      → Walks x conv_key obj_deps expiry (map (make_leaf x conv_key expiry) cs) tree
      → Holds x (map (make_leaf x conv_key expiry) cs ++ tree) (concat cs)
  tree-Holds cs tree w =
      let lvs = map (make_leaf x conv_key expiry) cs in
      let size = length-append lvs tree in
      record {
        root = w.root;
        last = get_last?-append lvs tree w.nonempty ∙ w.last;
        has_key = w.has_key;
        reads = rw size (
            rw zero-add at (
              w.walk (lvs ++ tree) 0 (length lvs + length tree) (content_so_far [])
                (ok (content_so_far (concat cs))) (At-zero lvs tree) (rw zero-add (At-end lvs tree))
                (λ f h. collect-leaves x conv_key expiry (lvs ++ tree) 0 f cs (At-zero lvs tree) h)
                (omega arith)));
      }

  pub BlocksOf-Holds :
      {bytes : Bytes} {blocks : List Block}
      → BlocksOf x conv_key obj_deps expiry bytes blocks
      → Holds x blocks bytes
  BlocksOf-Holds {bytes} single = single-Holds bytes
  BlocksOf-Holds (leaves {tree} arity cs pos some_leaf same shape split) = subst (Holds x _) same (
      subst (λ bs. Holds x bs (concat cs)) (sym split)
        (tree-Holds cs tree (TreeOf-Walks x conv_key obj_deps expiry arity pos some_leaf shape)))

pub content-Holds :
    (x : Crates) (o : Object) {bytes : Bytes} {c : ObjectContent}
    → Holds x o.blocks bytes
    → x.object_content_from_slice bytes ≡ some c
    → content x o ≡ ok c
unfolding content collect id key root ref
content-Holds x o h read_back = simp (h.last, h.has_key, h.reads, read_back)

module _ (x : Crates) (tagged : (c : ObjectContent) → 0 < length (x.object_content_to_vec c)) where
  make_deps_total :
      {E : Type 0} (deps : List ObjectId) (size : ℕ) (repo_pubkey : PubKey) (repo_secret : SymKey)
      → (d : ObjectDeps) × (make_deps x {E = E} deps size repo_pubkey repo_secret ≡ ok d)
  unfolding make_deps id key root
  make_deps_total {E} deps size repo_pubkey repo_secret = elim (Bool-cases (leb (length deps) 8)) [
    | inl few ↦ (object_id_list deps, simp few)
    | inr many ↦
        let list = ObjectContent.dep_list (record { v0 = deps }) in
        let conv_key = convergence_key x repo_pubkey repo_secret in
        let (blocks, made, built) =
          make_blocks-BlocksOf x conv_key (object_id_list []) none {E = E} list 0
            (store_valid_value_size size) (tagged list) (store_valid_value_size_bounds size).0 in
        let h = BlocksOf-Holds x conv_key (object_id_list []) none built in
        (
          dep_list_ref (record { id = Block.id x h.root; key = key_of h.root }),
          simp (many, made, h.last, h.has_key),
        )
  ]

  -- `new` always returns an object, and `content` reads from it what serde reads back from the
  -- bytes that it wrote of the content.
  pub content-new :
      {E : Type 0} (c c' : ObjectContent) (deps : List ObjectId) (expiry : Option Timestamp)
      (block_size : ℕ) (repo_pubkey : PubKey) (repo_secret : SymKey)
      → x.object_content_from_slice (x.object_content_to_vec c) ≡ some c'
      → (o : Object) × (new x {E = E} c deps expiry block_size repo_pubkey repo_secret ≡ ok o)
        × (o.deps ≡ deps)
        × (content x o ≡ ok c')
  unfolding new
  content-new {E} c c' deps expiry block_size repo_pubkey repo_secret read_back =
      let size = store_valid_value_size block_size in
      let (d, deps_made) = make_deps_total {E = E} deps size repo_pubkey repo_secret in
      let conv_key = convergence_key x repo_pubkey repo_secret in
      let (blocks, made, built) =
        make_blocks-BlocksOf x conv_key d expiry {E = E} c (length deps) size (tagged c)
          (store_valid_value_size_bounds block_size).0 in
      (
        record { blocks = blocks; deps = deps },
        simp (deps_made, made),
        refl,
        content-Holds x (record { blocks = blocks; deps = deps })
            (BlocksOf-Holds x conv_key d expiry built) read_back,
      )
