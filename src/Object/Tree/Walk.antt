-- ===== src/Object/Tree/Walk.antt =====
-- lofire/src/object.rs: `collect_leaves` on the blocks of a tree, from the root down.
use lofire_rs.Common.{
  ℕ, zero, suc, ◌+◌, ◌-◌, ◌≤◌, ◌<◌, Bytes, List, [], ◌∷◌, ◌++◌, map, length, concat, chunks,
  get_last?, Bool, true, false, Option, some, Outcome, ok, ◌≡◌, refl, arith, At, At-left, At-right,
  length-map, length-append, concat-chunks, chunks-nonempty, beq_refl, ==_iff, ◌∙◌, sym,
  get_last?-append,
}
use mathlib.Core.Path.{subst}
use mathlib.Core.List.{append_assoc, append-nil, map-append}
use lofire_rs.Types.{
  Block, BlockContentV0, internal_node, ObjectDeps, SymKey, Timestamp, digest_has_eq,
}
use lofire_rs.Crates.{Crates}
use lofire_rs.Block
use lofire_rs.Object.{ObjectParseError}
use lofire_rs.Object.Build.{make_block}
use lofire_rs.Object.Read.{Ref, Collected, parse_content, visit, visit_parents, collect_leaves}
use lofire_rs.Object.Tree.{
  HasKey, key_of, ref, parent_of, parents_of, level, TreeOf, one, more, zip-refs, length-parents_of,
  parents_of-HasKey,
}

module _ (x : Crates) where
  -- A block that `make_block` made, visited with its own reference, is parsed.
  pub visit-make_block :
      (c : BlockContentV0) (conv_key : Bytes) (kids : List _) (deps : ObjectDeps)
      (expiry : Option Timestamp) (children : List Ref) (s : Collected)
      → let b = make_block x (x.block_content_to_vec c) conv_key kids deps expiry in
        visit x b (ref x b) children s ≡ parse_content x b (key_of b) c children s
  unfolding visit ref key_of make_block Block.new
  visit-make_block c conv_key kids deps expiry children s =
      simp (beq_refl, x.apply_keystream_twice, x.block_content_round_trip)

module _ (x : Crates) (conv_key : Bytes) (root_deps : ObjectDeps) (expiry : Option Timestamp) where
  parse-parent_of :
      (deps : ObjectDeps) (nodes : List Block) (k : SymKey) (children : List Ref) (s : Collected)
      → parse_content x
          (parent_of x conv_key root_deps expiry deps nodes)
          k
          (internal_node (map key_of nodes))
          children
          s
        ≡ ok (children ++ map (ref x) nodes, s)
  unfolding parent_of parse_content make_block Block.new
  parse-parent_of deps nodes k children s =
      simp (length-map, (==_iff (length nodes) (length nodes)).1 refl, zip-refs)

  visited-parent_of :
      (deps : ObjectDeps) (nodes : List Block) (children : List Ref) (s : Collected)
      → let p = parent_of x conv_key root_deps expiry deps nodes in
        visit x p (ref x p) children s
        ≡ parse_content x p (key_of p) (internal_node (map key_of nodes)) children s
  unfolding parent_of
  visited-parent_of deps nodes children s =
      visit-make_block x (internal_node (map key_of nodes)) conv_key (map (Block.id x) nodes) deps
        expiry children s

  visit-parent_of :
      (deps : ObjectDeps) (nodes : List Block) (children : List Ref) (s : Collected)
      → let p = parent_of x conv_key root_deps expiry deps nodes in
        visit x p (ref x p) children s ≡ ok (children ++ map (ref x) nodes, s)
  visit-parent_of deps nodes children s =
      visited-parent_of deps nodes children s ∙ parse-parent_of deps nodes _ children s

  visit_parents-parents_of :
      (B : List Block) (i : ℕ) (first : Bool) (it : List (List Block)) (children : List Ref)
      (s : Collected)
      → At B i (parents_of x conv_key root_deps expiry first it)
      → visit_parents x B
          (map (ref x) (parents_of x conv_key root_deps expiry first it))
          i
          children
          s
        ≡ ok (children ++ map (ref x) (concat it), s)
  unfolding parents_of visit_parents
  visit_parents-parents_of B i first [] children s h = simp append-nil
  visit_parents-parents_of B i first (nodes ∷ it) children s h = simp (
    h.0,
    visit-parent_of,
    visit_parents-parents_of B (suc i) false it (children ++ map (ref x) nodes) s h.1,
    append_assoc,
    map-append,
  )

  -- From the parents of some nodes the walk goes to the nodes.
  collect-level :
      (arity : ℕ) (nodes B : List Block) (i fuel : ℕ) (s : Collected)
      (R : Outcome ObjectParseError Collected)
      → 0 < arity
      → 0 < length nodes
      → At B (i + length nodes) (level x conv_key root_deps expiry arity nodes)
      → collect_leaves x fuel B (map (ref x) nodes) i s ≡ R
      → collect_leaves x
          (suc fuel)
          B
          (map (ref x) (level x conv_key root_deps expiry arity nodes))
          (i + length nodes)
          s
        ≡ R
  unfolding collect_leaves
  collect-level arity nodes B i fuel s R pos some_node at next =
      let back : i + length nodes - length nodes ≡ i = omega arith in
      simp
        (
          visit_parents-parents_of B (i + length nodes) true (chunks arity nodes) [] s at,
          concat-chunks arity nodes pos,
          length-map,
          back,
        )
        (ground arith)

  collect-below :
      (arity : ℕ) (nodes B : List Block) (i fuel : ℕ) (s : Collected)
      (R : Outcome ObjectParseError Collected)
      → 0 < arity
      → 0 < length nodes
      → At B (i + length nodes) (level x conv_key root_deps expiry arity nodes)
      → ((f : ℕ) → i < f → collect_leaves x f B (map (ref x) nodes) i s ≡ R)
      → i + length nodes < fuel
      → collect_leaves x fuel B
          (map (ref x) (level x conv_key root_deps expiry arity nodes))
          (i + length nodes)
          s
        ≡ R
  collect-below arity nodes B i zero s R pos some_node there down enough = absurd (omega arith)
  collect-below arity nodes B i (suc fuel) s R pos some_node there down enough =
      collect-level arity nodes B i fuel s R pos some_node there (down fuel (omega arith))

  length-level :
      (arity : ℕ) (nodes : List Block)
      → 0 < length nodes
      → 0 < length (level x conv_key root_deps expiry arity nodes)
  length-level arity nodes h = omega (
    arith,
    length-parents_of x conv_key root_deps expiry true (chunks arity nodes),
    chunks-nonempty arity nodes h,
  )

  -- The last block of a tree over some nodes, and the walk from it to those nodes.
  pub record Walks (nodes tree : List Block) : Type 1 where
    pub root : Block
    pub last : get_last? tree ≡ some root
    pub has_key : HasKey root
    pub nonempty : 0 < length tree
    pub walk :
        (B : List Block) (i fuel : ℕ) (s : Collected) (R : Outcome ObjectParseError Collected)
        → At B i nodes
        → At B (i + length nodes) tree
        → ((f : ℕ) → i < f → collect_leaves x f B (map (ref x) nodes) i s ≡ R)
        → i + length nodes + length tree ≤ fuel
        → collect_leaves x fuel B (ref x root ∷ []) (i + length nodes + length tree - 1) s ≡ R

  pub TreeOf-Walks :
      (arity : ℕ) {nodes tree : List Block}
      → 0 < arity
      → 0 < length nodes
      → TreeOf x conv_key root_deps expiry arity nodes tree
      → Walks nodes tree
  TreeOf-Walks arity {nodes} pos some_node (one p single) = record {
    root = p;
    last = refl;
    has_key =
        (rw single at (parents_of-HasKey x conv_key root_deps expiry true (chunks arity nodes))).0;
    nonempty = omega arith;
    walk = λ B i fuel s R here there down enough.
        let back : i + length nodes + 1 - 1 ≡ i + length nodes = omega arith in
        rw back (
          subst (λ ps. collect_leaves x fuel B (map (ref x) ps) (i + length nodes) s ≡ R) single
            (collect-below arity nodes B i fuel s R pos some_node
              (subst (At B (i + length nodes)) (sym single) there) down (omega arith)));
  }
  TreeOf-Walks arity {nodes} {tree} pos some_node (more {rest} many shape split) =
      let lvl = level x conv_key root_deps expiry arity nodes in
      let w = TreeOf-Walks arity pos (omega arith) shape in
      let size : length tree ≡ length lvl + length rest = rw split (length-append lvl rest) in
      record {
        root = w.root;
        last = rw split (get_last?-append lvl rest w.nonempty ∙ w.last);
        has_key = w.has_key;
        nonempty = omega arith;
        walk = λ B i fuel s R here there down enough.
            let both : At B (i + length nodes) (lvl ++ rest) =
              subst (At B (i + length nodes)) split there in
            let low = At-left B (i + length nodes) lvl rest both in
            let same : i + length nodes + length tree
                ≡ i + length nodes + length lvl + length rest =
              omega arith in
            rw same (
              w.walk B (i + length nodes) fuel s R low (At-right B (i + length nodes) lvl rest both)
                (λ f below. collect-below arity nodes B i f s R pos some_node low down below)
                (omega arith));
      }
