-- ===== src/Object/Read.antt =====
-- lofire/src/object.rs: `collect_leaves`, `leaves`, `content` and `copy`.
use lofire_rs.Common.{
  ℕ, zero, suc, ◌-◌, Bytes, List, [], ◌∷◌, ◌++◌, map, length, zip, get_elem?, ltb, ◌==◌,
  if◌then◌else◌, Option, none, some, Outcome, ok, err, out_of_fuel, ◌>>=◌, unwrap, map_err, ok_or,
  beq,
}
use lofire_rs.Types.{
  Block, BlockContentV0, internal_node, data_chunk, ObjectContent, ObjectId, PubKey, SymKey,
  Timestamp, digest_has_eq,
}
use lofire_rs.Crates.{Crates}
use lofire_rs.Block
use lofire_rs.Object.{
  Object, ObjectParseError, missing_root_key, invalid_block_id, invalid_children, invalid_keys,
  block_deserialize_error, object_deserialize_error, ObjectCopyError, parse_error, root, id, key,
}
use lofire_rs.Object.Build.{nonce, convergence_key, make_tree, arity_of}
use lofire_rs.Store.{store_valid_value_size}

-- A child or parent to visit, with the key that its parent holds.
abbrev pub Ref : Type 0
Ref = ObjectId × SymKey

-- The two optional accumulators, `leaves` and `obj_content`.
pub record Collected : Type 0 where
  pub leaves : Option (List Block)
  pub obj_content : Option Bytes

-- `leaves.push`, if leaves are wanted
abbrev pub push_leaf : Block → Option (List Block) → Option (List Block)
push_leaf leaf none = none
push_leaf leaf (some l) = some (l ++ leaf ∷ [])

-- `obj_content.extend_from_slice`, if content is wanted
abbrev pub extend_content : Bytes → Option Bytes → Option Bytes
extend_content chunk none = none
extend_content chunk (some c) = some (c ++ chunk)

module _ (x : Crates) where
  -- The parsed content of a block: what it adds to the children, and to the accumulators.
  unfoldable pub parse_content :
      Block
      → SymKey
      → BlockContentV0
      → List Ref
      → Collected
      → Outcome ObjectParseError (List Ref × Collected)
  parse_content block k (internal_node keys) children s =
      if length keys == length (Block.children block)
      then ok (children ++ zip (Block.children block) keys, s)
      else err invalid_keys
  parse_content block k (data_chunk chunk) children s = ok (
    children,
    record {
      leaves = push_leaf (Block.set_key (some k) block) s.leaves;
      obj_content = extend_content chunk s.obj_content;
    },
  )

  -- The body of the `for` loop: verify the identifier, decrypt, deserialize, parse.
  unfoldable pub visit :
      Block → Ref → List Ref → Collected → Outcome ObjectParseError (List Ref × Collected)
  unfolding parse_content
  visit block (i, k) children s =
      if beq i (Block.id x block)
      then (do
        let content_dec = x.apply_keystream k.chacha20_key nonce (Block.content block)
        content ← ok_or block_deserialize_error (x.block_content_from_slice content_dec)
        parse_content block k content children s)
      else err invalid_block_id

  unfoldable pub visit_parents :
      List Block
      → List Ref
      → ℕ
      → List Ref
      → Collected
      → Outcome ObjectParseError (List Ref × Collected)
  unfolding visit
  visit_parents blocks [] i children s = ok (children, s)
  visit_parents blocks (p ∷ ps) i children s = do
    block ← unwrap (get_elem? blocks i)
    (children', s') ← visit block p children s
    visit_parents blocks ps (suc i) children' s'

  -- Each call has a smaller `parent_index`, so `suc parent_index` rounds are enough.
  unfoldable pub collect_leaves :
      ℕ → List Block → List Ref → ℕ → Collected → Outcome ObjectParseError Collected
  unfolding visit_parents
  collect_leaves zero blocks parents parent_index s = out_of_fuel
  collect_leaves (suc fuel) blocks parents parent_index s = do
    (children, s') ← visit_parents blocks parents parent_index [] s
    let n = length children
    let rest = collect_leaves fuel blocks children (parent_index - n) s'
    if n == 0 then ok s' else if ltb parent_index n then err invalid_children else rest

  -- The walk from the root, which is the last block.
  unfoldable pub collect : Object → SymKey → Collected → Outcome ObjectParseError Collected
  unfolding collect_leaves id
  collect o k s = do
    i ← id x o
    collect_leaves (length o.blocks) o.blocks ((i, k) ∷ []) (length o.blocks - 1) s

  -- `Object::leaves`
  unfoldable pub leaves : Object → Outcome ObjectParseError (List Block)
  unfolding collect key
  leaves o = do
    k ← key o
    k' ← unwrap k
    s ← collect o k' (record { leaves = some []; obj_content = none })
    unwrap s.leaves

  -- `Object::content`
  unfoldable pub content : Object → Outcome ObjectParseError ObjectContent
  unfolding collect key
  content o = do
    k ← key o
    k' ← ok_or missing_root_key k
    s ← collect o k' (record { leaves = none; obj_content = some [] })
    obj_content ← unwrap s.obj_content
    ok_or object_deserialize_error (x.object_content_from_slice obj_content)

  -- `Object::copy`
  unfoldable pub copy : Object → Option Timestamp → PubKey → SymKey → Outcome ObjectCopyError Object
  unfolding leaves make_tree root convergence_key
  copy o expiry repo_pubkey repo_secret = do
    leaves ← map_err (λ _. parse_error) (leaves o)
    let conv_key = convergence_key x repo_pubkey repo_secret
    first ← unwrap (get_elem? leaves 0)
    let valid_block_size = store_valid_value_size (length (Block.content first))
    let blocks = map (Block.set_expiry expiry) leaves
    root ← root o
    parents ←
        make_tree x conv_key (Block.deps root) expiry (suc (length blocks))
          (arity_of valid_block_size) blocks
    ok (record { blocks = blocks ++ parents; deps = o.deps })
