-- ===== src/Object/Persist.antt =====
-- lofire/src/object.rs: `Object::load`, `Object::save` and `to_hashmap`.
use lofire_rs.Common.{
  ℕ, zero, suc, List, [], ◌∷◌, ◌++◌, contains, insert, if◌then◌else◌, Option, none, some, Outcome,
  ok, err, panic, out_of_fuel, ◌>>=◌, unwrap, get_last?,
}
use mathlib.Core.List.{reverse}
use lofire_rs.Types.{
  Block, BlockId, ObjectContent, object_id_list, dep_list_ref, ObjectId, SymKey, digest_has_eq,
}
use lofire_rs.Crates.{Crates}
use lofire_rs.Block
use lofire_rs.Store.{StorageError, RepoStore}
use lofire_rs.Object.{Object, ObjectParseError, missing_blocks, invalid_deps}
use lofire_rs.Object.Read.{content}

-- What `load_tree` accumulates.
pub record Loaded : Type 0 where
  pub blocks : List Block
  pub missing : List BlockId

-- `get` of the store that is read.
abbrev pub Getter : Type 0
Getter = BlockId → Outcome StorageError Block

module _ (get : Getter) where
  -- The `for` loop of `load_tree`, with the children that it collects.
  unfoldable pub load_parents :
      List BlockId → List BlockId → Loaded → Outcome ObjectParseError (List BlockId × Loaded)
  load_parents [] children s = ok (children, s)
  load_parents (id ∷ parents) children s = elim (get id) [
    | ok block ↦
        load_parents parents (children ++ reverse (Block.children block))
          (record s { blocks = block ∷ s.blocks })
    | err _ ↦ load_parents parents children (record s { missing = s.missing ++ id ∷ [] })
    | panic ↦ panic
    | out_of_fuel ↦ out_of_fuel
  ]

  -- A round for each level of the tree.
  unfoldable pub load_tree : ℕ → List BlockId → Loaded → Outcome ObjectParseError Loaded
  unfolding load_parents
  load_tree zero parents s = out_of_fuel
  load_tree (suc fuel) parents s = do
    (children, s') ← load_parents parents [] s
    elim children [ [] ↦ ok s' | c ∷ cs ↦ load_tree fuel (c ∷ cs) s' ]

-- `root.set_key(key)` on the last block, if there is a key
unfoldable pub set_root_key : Option SymKey → List Block → List Block
set_root_key none blocks = blocks
set_root_key (some k) [] = []
set_root_key (some k) (b ∷ []) = Block.set_key (some k) b ∷ []
set_root_key (some k) (b ∷ c ∷ bs) = b ∷ set_root_key (some k) (c ∷ bs)

abbrev pub dep_list_of : ObjectContent → Outcome ObjectParseError (List ObjectId)
dep_list_of (ObjectContent.dep_list l) = ok l.v0
dep_list_of (ObjectContent.commit _) = err invalid_deps
dep_list_of (ObjectContent.commit_body _) = err invalid_deps
dep_list_of (ObjectContent.file _) = err invalid_deps

module _ (x : Crates) (get : Getter) where
  -- `Object::load`; the fuel bounds the levels of a tree and the lists of dependencies in turn.
  unfoldable pub load : ℕ → ObjectId → Option SymKey → Outcome ObjectParseError Object
  load zero id key = out_of_fuel
  load (suc fuel) id key = do
    s ← load_tree get (suc fuel) (id ∷ []) (record { blocks = []; missing = [] })
    elim s.missing [
      | m ∷ ms ↦ err (missing_blocks (m ∷ ms))
      | [] ↦ (do
        let blocks = set_root_key key s.blocks
        root ← unwrap (get_last? blocks)
        deps ← elim (Block.deps root) [
          | object_id_list deps_vec ↦ ok deps_vec
          | dep_list_ref r ↦ (do
            obj ← load fuel r.id (some r.key)
            c ← content x obj
            dep_list_of c)
        ]
        ok (record { blocks = blocks; deps = deps }))
    ]

module _ (x : Crates) {S : Type 0} (store : RepoStore S) where
  -- The loop of `save`, with the identifiers saved so far.
  unfoldable pub save_blocks : List Block → List ObjectId → S → Outcome StorageError S
  save_blocks [] deduplicated s = ok s
  save_blocks (block ∷ blocks) deduplicated s =
      let id = Block.id x block in
      let rest = save_blocks blocks deduplicated s in
      let saved = (do (_, s') ← store.put s block; save_blocks blocks (id ∷ deduplicated) s') in
      if contains id deduplicated then rest else saved

  -- `Object::save`
  unfoldable pub save : Object → S → Outcome StorageError S
  unfolding save_blocks
  save o s = save_blocks o.blocks [] s

module _ (x : Crates) where
  unfoldable pub hashmap_of : List Block → List (BlockId × Block) → List (BlockId × Block)
  hashmap_of [] m = m
  hashmap_of (block ∷ blocks) m = hashmap_of blocks (insert (Block.id x block) block m)

  -- `Object::to_hashmap`
  unfoldable pub to_hashmap : Object → List (BlockId × Block)
  unfolding hashmap_of
  to_hashmap o = hashmap_of o.blocks []
