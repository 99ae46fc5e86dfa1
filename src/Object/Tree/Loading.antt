-- ===== src/Object/Tree/Loading.antt =====
-- lofire/src/object.rs: `load_tree` on a store that holds the blocks of a tree.
use lofire_rs.Common.{
  ℕ, suc, ◌+◌, ◌≤◌, ◌<◌, Bytes, List, [], ◌∷◌, ◌++◌, map, length, concat, chunks, get_last?, Bool,
  true, false, ◌&&◌, Option, some, ok, All, ◌≡◌, refl, arith, length-append, concat-chunks, sym,
  ◌∙◌, ◌≢◌, concat-append, reverse-ne, All-left, All-right, All-reverse, map-reverse, length-map,
  get_last?-append, if◌then◌else◌,
}
use mathlib.Core.Path.{subst}
use mathlib.Core.List.{
  append_assoc, append-nil, map-append, reverse, reverse-append, reverse-reverse,
}
use lofire_rs.Types.{Block, BlockId, ObjectDeps, object_id_list, Timestamp}
use lofire_rs.Crates.{Crates}
use lofire_rs.Block
use lofire_rs.Object.Build.{make_block, is_empty}
use lofire_rs.Object.Persist.{Getter, Loaded, load_parents, load_tree}
use lofire_rs.Object.Tree.{parent_of, parents_of, level, TreeOf, one, more}

module _ (x : Crates) (get : Getter) (stored : Block → Block) where
  -- The store gives `stored b` under the identifier of `b`, and it has the same children.
  abbrev pub Stored : Block → Type 0
  Stored b = (get (Block.id x b) ≡ ok (stored b)) × (Block.children (stored b) ≡ Block.children b)

  pub load_parents-Stored :
      (ms : List Block) (children : List BlockId) (s : Loaded)
      → All Stored ms
      → load_parents get (map (Block.id x) ms) children s
        ≡ ok (
          children ++ concat (map (λ b. reverse (Block.children b)) ms),
          record s { blocks = map stored (reverse ms) ++ s.blocks },
        )
  unfolding load_parents
  load_parents-Stored [] children s h = simp append-nil
  load_parents-Stored (m ∷ ms) children s h = simp (
    h.0.0,
    h.0.1,
    load_parents-Stored ms (children ++ reverse (Block.children m))
        (record s { blocks = stored m ∷ s.blocks }) h.1,
    append_assoc,
    reverse-append (m ∷ []) ms,
    map-append,
  )

  load_tree-step :
      (fuel : ℕ) (ps children : List BlockId) (s s' : Loaded)
      → load_parents get ps [] s ≡ ok (children, s')
      → children ≢ []
      → load_tree get (suc fuel) ps s ≡ load_tree get fuel children s'
  unfolding load_tree
  load_tree-step fuel ps [] s s' h ne = absurd (ne refl)
  load_tree-step fuel ps (c ∷ cs) s s' h ne = simp h

  pub load_tree-last :
      (fuel : ℕ) (ps : List BlockId) (s s' : Loaded)
      → load_parents get ps [] s ≡ ok ([], s')
      → load_tree get (suc fuel) ps s ≡ ok s'
  unfolding load_tree
  load_tree-last fuel ps s s' h = simp h

-- What was loaded before, with some blocks in front.
abbrev pub with_blocks : List Block → Loaded
with_blocks bs = record { blocks = bs; missing = [] }

module _ (x : Crates) (conv_key : Bytes) (root_deps : ObjectDeps) (expiry : Option Timestamp) where
  children-parents_of :
      (first : Bool) (it : List (List Block))
      → concat (
          map
            (λ b. reverse (Block.children b))
            (reverse (parents_of x conv_key root_deps expiry first it)))
        ≡ reverse (map (Block.id x) (concat it))
  unfolding parents_of parent_of make_block Block.new
  children-parents_of first [] = refl
  children-parents_of first (nodes ∷ it) =
      let p =
        parent_of x conv_key root_deps expiry
          (if first && is_empty it then root_deps else object_id_list []) nodes in
      let ps = parents_of x conv_key root_deps expiry false it in
      simp (
        reverse-append (p ∷ []) ps,
        map-append,
        concat-append,
        children-parents_of false it,
        append-nil,
        reverse-append,
      )

  module _ (get : Getter) (stored : Block → Block) where
    -- A round over the parents of some nodes goes on with the nodes, in reverse order.
    load_tree-level :
        (arity : ℕ) (nodes bs : List Block) (fuel : ℕ)
        → 0 < arity
        → 0 < length nodes
        → All (Stored x get stored) (level x conv_key root_deps expiry arity nodes)
        → load_tree get
            (suc fuel)
            (reverse (map (Block.id x) (level x conv_key root_deps expiry arity nodes)))
            (with_blocks bs)
          ≡ load_tree get fuel
              (reverse (map (Block.id x) nodes))
              (with_blocks (map stored (level x conv_key root_deps expiry arity nodes) ++ bs))
    load_tree-level arity nodes bs fuel pos some_node held =
        let lvl = level x conv_key root_deps expiry arity nodes in
        load_tree-step x get stored fuel _ (reverse (map (Block.id x) nodes)) (with_blocks bs) _
          (rw (sym (map-reverse (Block.id x) lvl)) (
            load_parents-Stored x get stored (reverse lvl) [] (with_blocks bs)
              (All-reverse _ lvl held)
            ∙ simp (
              children-parents_of true (chunks arity nodes),
              concat-chunks arity nodes pos,
              reverse-reverse,
            )))
          (reverse-ne (map (Block.id x) nodes) (omega (arith, length-map (Block.id x) nodes)))

    -- From the root of a tree over some nodes the loading goes down to the nodes.
    pub record Loads (nodes tree : List Block) : Type 0 where
      pub root : Block
      pub last : get_last? tree ≡ some root
      pub nonempty : 0 < length tree
      pub levels : ℕ
      pub levels-le : levels ≤ length tree
      pub loads :
          (n fuel : ℕ) (bs : List Block)
          → n ≡ levels + fuel
          → All (Stored x get stored) tree
          → load_tree get n (Block.id x root ∷ []) (with_blocks bs)
            ≡ load_tree get fuel
                (reverse (map (Block.id x) nodes))
                (with_blocks (map stored tree ++ bs))

    pub TreeOf-Loads :
        (arity : ℕ) {nodes tree : List Block}
        → 0 < arity
        → 0 < length nodes
        → TreeOf x conv_key root_deps expiry arity nodes tree
        → Loads nodes tree
    TreeOf-Loads arity {nodes} pos some_node (one p single) = record {
      root = p;
      last = refl;
      nonempty = omega arith;
      levels = 1;
      levels-le = omega arith;
      loads = λ n fuel bs size held.
          let suc_n : n ≡ suc fuel = omega arith in
          rw suc_n (
            subst
              (λ ps.
                load_tree get (suc fuel) (reverse (map (Block.id x) ps)) (with_blocks bs)
                ≡ load_tree get fuel (reverse (map (Block.id x) nodes))
                    (with_blocks (map stored ps ++ bs)))
              single
              (load_tree-level arity nodes bs fuel pos some_node
                (subst (All (Stored x get stored)) (sym single) held)));
    }
    TreeOf-Loads arity {nodes} {tree} pos some_node (more {rest} many shape split) =
        let lvl = level x conv_key root_deps expiry arity nodes in
        let w = TreeOf-Loads arity pos (omega arith) shape in
        let size : length tree ≡ length lvl + length rest = rw split (length-append lvl rest) in
        record {
          root = w.root;
          last = rw split (get_last?-append lvl rest w.nonempty ∙ w.last);
          nonempty = omega arith;
          levels = suc w.levels;
          levels-le = omega (arith, w.levels-le);
          loads = λ n fuel bs total held.
              let both : All (Stored x get stored) (lvl ++ rest) =
                subst (All (Stored x get stored)) split held in
              rw split (
                w.loads n (suc fuel) bs (omega arith) (All-right _ lvl rest both)
                ∙ load_tree-level arity nodes (map stored rest ++ bs) fuel pos some_node
                    (All-left _ lvl rest both)
                ∙ simp (map-append, append_assoc));
        }
