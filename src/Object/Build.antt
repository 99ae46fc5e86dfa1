-- ===== src/Object/Build.antt =====
-- lofire/src/object.rs: `make_block`, `make_tree`, `make_deps` and `Object::new`.
use lofire_rs.Common.{
  ◌≡◌, ◌<◌, refl, arith, ℕ, zero, suc, ◌+◌, ◌-◌, ◌*◌, ◌/◌, Bytes, List, [], ◌∷◌, ◌++◌, map, length,
  chunks, leb, ltb, if◌then◌else◌, Bool, true, false, ◌&&◌, Option, none, some, Outcome, ok, panic,
  out_of_fuel, ◌>>=◌, unwrap,
}
use lofire_rs.Types.{
  Block, internal_node, data_chunk, ObjectContent, ObjectDeps, object_id_list, dep_list_ref,
  ObjectId, PubKey, SymKey, Timestamp,
}
use lofire_rs.Crates.{Crates}
use lofire_rs.Block
use lofire_rs.Store.{store_valid_value_size}
use lofire_rs.Object.{
  Object, empty_block_size, block_id_size, block_key_size, big_varint_extra, data_varint_extra,
  max_deps_size, id, key,
}

-- The nonce of the cipher, twelve zeros.
abbrev pub nonce : Bytes
nonce = 0 ∷ 0 ∷ 0 ∷ 0 ∷ 0 ∷ 0 ∷ 0 ∷ 0 ∷ 0 ∷ 0 ∷ 0 ∷ 0 ∷ []

-- `slice::chunks` panics at chunks of size 0.
abbrev pub slice_chunks {ℓ} : {E : Type 0} {A : Type ℓ} → ℕ → List A → Outcome E (List (List A))
slice_chunks zero xs = panic
slice_chunks (suc n) xs = ok (chunks (suc n) xs)

pub slice_chunks-pos {ℓ} :
    {E : Type 0} {A : Type ℓ} (n : ℕ) (xs : List A)
    → 0 < n
    → slice_chunks {E = E} n xs ≡ ok (chunks n xs)
slice_chunks-pos zero xs h = absurd (omega arith)
slice_chunks-pos (suc n) xs h = refl

abbrev pub is_empty {ℓ} : {A : Type ℓ} → List A → Bool
is_empty [] = true
is_empty (_ ∷ _) = false

-- The keys of the blocks, each unwrapped.
unfoldable pub unwrap_keys : {E : Type 0} → List Block → Outcome E (List SymKey)
unwrap_keys [] = ok []
unwrap_keys (b ∷ bs) = do k ← unwrap (Block.key b); ks ← unwrap_keys bs; ok (k ∷ ks)

module _ (x : Crates) where
  unfoldable pub convergence_key : PubKey → SymKey → Bytes
  convergence_key repo_pubkey repo_secret =
      x.derive_key "LoFiRe Data BLAKE3 key"
        (repo_pubkey.ed25519_pub_key ++ repo_secret.chacha20_key)

  unfoldable pub make_block : Bytes → Bytes → List ObjectId → ObjectDeps → Option Timestamp → Block
  make_block content conv_key children deps expiry =
      let key = x.keyed_hash conv_key content in
      let content_enc = x.apply_keystream key nonce content in
      Block.new x children deps expiry content_enc (some (record { chacha20_key = key }))

module _ (x : Crates) {E : Type 0} (conv_key : Bytes) (root_deps : ObjectDeps)
    (expiry : Option Timestamp) where
  -- The `while` loop of `make_tree`: `first` says that no parent was made yet.
  unfoldable pub make_parents : Bool → List (List Block) → Outcome E (List Block)
  unfolding unwrap_keys
  make_parents first [] = ok []
  make_parents first (nodes ∷ it) = do
    keys ← unwrap_keys nodes
    let children = map (Block.id x) nodes
    let content_ser = x.block_content_to_vec (internal_node keys)
    let deps = if first && is_empty it then root_deps else object_id_list []
    let parent = make_block x content_ser conv_key children deps expiry
    parents ← make_parents false it
    ok (parent ∷ parents)

  -- Each level of parents is shorter than the last if the arity is at least 2.
  unfoldable pub make_tree : ℕ → ℕ → List Block → Outcome E (List Block)
  unfolding make_parents
  make_tree zero arity leaves = out_of_fuel
  make_tree (suc fuel) arity leaves = do
    it ← slice_chunks arity leaves
    parents ← make_parents true it
    let great_parents = make_tree fuel arity parents
    if ltb 1 (length parents) then (do rest ← great_parents; ok (parents ++ rest)) else ok parents

-- The largest number of references that fit an internal node of this size.
unfoldable pub arity_of : ℕ → ℕ
arity_of valid_block_size =
    (valid_block_size - empty_block_size - big_varint_extra * 2 - max_deps_size)
    / (block_id_size + block_key_size)

module _ (x : Crates) where
  -- A leaf for each chunk of the content.
  unfoldable pub make_leaf : Bytes → Option Timestamp → Bytes → Block
  make_leaf conv_key expiry chunk =
      make_block x (x.block_content_to_vec (data_chunk chunk)) conv_key [] (object_id_list [])
        expiry

module _ (x : Crates) {E : Type 0} where
  -- `Object::new` after the dependencies: the blocks of the tree.
  unfoldable pub make_blocks :
      ObjectContent → ℕ → ObjectDeps → Option Timestamp → ℕ → Bytes → Outcome E (List Block)
  make_blocks content deps_len obj_deps expiry valid_block_size conv_key =
      let data_chunk_size = valid_block_size - empty_block_size - data_varint_extra in
      let content_ser = x.object_content_to_vec content in
      let root =
        make_block x (x.block_content_to_vec (data_chunk content_ser)) conv_key [] obj_deps
          expiry in
      let size =
        empty_block_size + data_varint_extra + block_id_size * deps_len + length content_ser in
      if leb size valid_block_size then ok (root ∷ []) else (do
        data_chunks ← slice_chunks data_chunk_size content_ser
        let blocks = map (make_leaf x conv_key expiry) data_chunks
        parents ←
            make_tree x conv_key obj_deps expiry (suc (length blocks)) (arity_of valid_block_size)
              blocks
        ok (blocks ++ parents))

  -- `make_deps`. The object of the list has no dependencies itself, so the call of `Object::new`
  -- there takes the first branch for them.
  unfoldable pub make_deps : List ObjectId → ℕ → PubKey → SymKey → Outcome E ObjectDeps
  make_deps deps_vec object_size repo_pubkey repo_secret =
      if leb (length deps_vec) 8 then ok (object_id_list deps_vec) else (do
        let content = ObjectContent.dep_list (record { v0 = deps_vec })
        let conv_key = convergence_key x repo_pubkey repo_secret
        blocks ←
            make_blocks content 0 (object_id_list []) none (store_valid_value_size object_size)
              conv_key
        let dep_obj : Object = record { blocks = blocks; deps = [] }
        dep_id ← id x dep_obj
        k ← key dep_obj
        dep_key ← unwrap k
        ok (dep_list_ref (record { id = dep_id; key = dep_key })))

  -- `Object::new`
  unfoldable pub new :
      ObjectContent → List ObjectId → Option Timestamp → ℕ → PubKey → SymKey → Outcome E Object
  new content deps expiry block_size repo_pubkey repo_secret = do
    let valid_block_size = store_valid_value_size block_size
    let conv_key = convergence_key x repo_pubkey repo_secret
    obj_deps ← make_deps deps valid_block_size repo_pubkey repo_secret
    blocks ← make_blocks content (length deps) obj_deps expiry valid_block_size conv_key
    ok (record { blocks = blocks; deps = deps })
