-- ===== src/Tests/Objects.antt =====
-- Objects that are made, saved, loaded and read.
use lofire_rs.Common.{
  ℕ, zero, suc, Bytes, List, [], ◌∷◌, length, none, some, ok, err, Outcome, ◌>>=◌, ◌≡◌, refl, ap,
  arith, ◌≢◌, All,
}
use lofire_rs.Types.{
  Block, data_chunk, BlockId, ObjectContent, ObjectId, ObjectRef, object_id_list, dep_list_ref,
  PubKey, SymKey,
}
use lofire_rs.Tests.Crate.{crates, tagged, file_of}
use lofire_rs.Block
use lofire_rs.Store.{store_valid_value_size}
use lofire_rs.Store.HashMap
use lofire_rs.Store.HashMap.{HashMapRepoStore, hash_map_repo_store}
use lofire_rs.Object.{Object, ObjectParseError, missing_blocks, id, key, root}
use lofire_rs.Object.Build.{
  new, make_deps, convergence_key, make_leaf, make_tree, make_block, make_blocks,
}
use lofire_rs.Object.Read.{content}
use lofire_rs.Object.Persist.{save, load}
use lofire_rs.Object.Tree.{key_of, HasKey, make_block-HasKey, TreeOf, make_tree-TreeOf}
use lofire_rs.Object.RoundTrip.{content-new}
use lofire_rs.Object.SaveLoad.{load-save, save-Held, Held}
use lofire_rs.Object.ManyDeps.{list_blocks, load-save_many_deps}

repeat : ℕ → Bytes
repeat zero = []
repeat (suc n) = 7 ∷ repeat n

abbrev repo_pubkey : PubKey
repo_pubkey = record { ed25519_pub_key = 1 ∷ 2 ∷ [] }

abbrev repo_secret : SymKey
repo_secret = record { chacha20_key = 3 ∷ [] }

abbrev object_id : ℕ → ObjectId
object_id n = record { blake3_digest32 = n ∷ [] }

-- Ten thousand bytes need a tree of three leaves.
content-new_example :
    (o : Object) × (new crates {E = ObjectParseError}
        (file_of (repeat 10000))
        (object_id 1 ∷ [])
        none
        4000
        repo_pubkey
        repo_secret
      ≡ ok o)
    × (o.deps ≡ object_id 1 ∷ [])
    × (content crates o ≡ ok (file_of (repeat 10000)))
unfolding crates file_of
content-new_example =
    content-new crates tagged (file_of (repeat 10000)) (file_of (repeat 10000)) (object_id 1 ∷ [])
      none 4000 repo_pubkey repo_secret refl

no_blocks : HashMapRepoStore
no_blocks = record { blocks = [] }

-- The one block of a small file.
abbrev small_object : Object
small_object = record {
  blocks =
      make_block crates
        (crates.block_content_to_vec
          (data_chunk (crates.object_content_to_vec (file_of (5 ∷ 6 ∷ [])))))
        (convergence_key crates repo_pubkey repo_secret) [] (object_id_list (object_id 1 ∷ []))
        (some 9)
      ∷ [];
  deps = object_id 1 ∷ [];
}

new-small_object :
    new crates {E = ObjectParseError}
      (file_of (5 ∷ 6 ∷ []))
      (object_id 1 ∷ [])
      (some 9)
      4000
      repo_pubkey
      repo_secret
    ≡ ok small_object
unfolding new make_deps make_blocks crates file_of store_valid_value_size
new-small_object = refl

load-save_example :
    (s' : HashMapRepoStore) × (o' : Object) × (save crates
        (hash_map_repo_store crates 4096)
        small_object
        no_blocks
      ≡ ok s')
    × ((do i ← id crates small_object; k ← key small_object; load crates (HashMap.get s') 3 i k)
        ≡ ok o')
    × (o'.deps ≡ object_id 1 ∷ [])
    × (content crates o' ≡ ok (file_of (5 ∷ 6 ∷ [])))
unfolding crates file_of
load-save_example =
    load-save crates tagged 4096 (file_of (5 ∷ 6 ∷ [])) (file_of (5 ∷ 6 ∷ [])) (object_id 1 ∷ [])
      (some 9) 4000 repo_pubkey repo_secret no_blocks small_object 3 refl (omega arith)
      new-small_object (((λ _. refl), tt), tt) (omega arith)

abbrev nine_deps : List ObjectId
nine_deps =
    object_id 1
    ∷ object_id 2
    ∷ object_id 3
    ∷ object_id 4
    ∷ object_id 5
    ∷ object_id 6
    ∷ object_id 7
    ∷ object_id 8
    ∷ object_id 9
    ∷ []

abbrev dep_block : Block
dep_block =
    make_block crates
      (crates.block_content_to_vec (
        data_chunk
          (crates.object_content_to_vec (ObjectContent.dep_list (record { v0 = nine_deps })))))
      (convergence_key crates repo_pubkey repo_secret) [] (object_id_list []) none

abbrev dep_ref : ObjectRef
dep_ref = record { id = Block.id crates dep_block; key = key_of dep_block }

abbrev big_deps_object : Object
big_deps_object = record {
  blocks =
      make_block crates
        (crates.block_content_to_vec
          (data_chunk (crates.object_content_to_vec (file_of (5 ∷ 6 ∷ [])))))
        (convergence_key crates repo_pubkey repo_secret) [] (dep_list_ref dep_ref) (some 9)
      ∷ [];
  deps = nine_deps;
}

make_deps-nine_deps :
    make_deps crates {E = ObjectParseError} nine_deps
      (store_valid_value_size 4000)
      repo_pubkey
      repo_secret
    ≡ ok (dep_list_ref dep_ref)
unfolding make_deps make_blocks id key root crates store_valid_value_size make_block key_of
    Block.new Block.new_v0
make_deps-nine_deps = refl

new-big_deps_object :
    new crates {E = ObjectParseError}
      (file_of (5 ∷ 6 ∷ []))
      nine_deps
      (some 9)
      4000
      repo_pubkey
      repo_secret
    ≡ ok big_deps_object
unfolding new make_blocks crates file_of store_valid_value_size
new-big_deps_object = simp (make_deps-nine_deps)

other_id :
    Block.id crates (
      make_block crates
        (crates.block_content_to_vec
          (data_chunk (crates.object_content_to_vec (file_of (5 ∷ 6 ∷ [])))))
        (convergence_key crates repo_pubkey repo_secret)
        []
        (dep_list_ref dep_ref)
        (some 9))
    ≢ dep_ref.id
unfolding crates file_of make_block Block.id Block.get_id Block.new Block.new_v0
other_id h =
    let longer : ◌≡◌ {A = ℕ} 4 2 = ap (λ (d : BlockId). length d.blake3_digest32) h in
    absurd (omega (arith, longer))

list_made :
    list_blocks crates tagged 4096 nine_deps
      (store_valid_value_size 4000)
      (convergence_key crates repo_pubkey repo_secret)
    ≡ ok (dep_block ∷ [])
unfolding make_blocks crates store_valid_value_size
list_made = refl

load-save_many_deps_example :
    (s' : HashMapRepoStore) × (save crates
        (hash_map_repo_store crates 4096)
        big_deps_object
        no_blocks
      ≡ ok s')
    × ((do
      i ← id crates big_deps_object
      k ← key big_deps_object
      load crates (HashMap.get s') 3 i k)
        ≡ err (missing_blocks (dep_ref.id ∷ [])))
unfolding crates file_of HashMap.get no_blocks lofire_rs.Common.lookup
load-save_many_deps_example =
    load-save_many_deps crates tagged 4096 (file_of (5 ∷ 6 ∷ [])) nine_deps 9 4000 repo_pubkey
      repo_secret no_blocks dep_ref big_deps_object (dep_block ∷ []) 2 make_deps-nine_deps list_made
      new-big_deps_object (((λ _. refl), tt), tt) (((λ h. absurd (other_id h)), tt), tt) refl
      (omega arith) (omega arith)

abbrev three_leaves : List Block
three_leaves =
    make_leaf crates [] none (1 ∷ [])
    ∷ make_leaf crates [] none (2 ∷ [])
    ∷ make_leaf crates [] none (3 ∷ [])
    ∷ []

three_keys : All HasKey three_leaves
unfolding make_leaf
three_keys = (
  make_block-HasKey crates _ [] _ _ _,
  (make_block-HasKey crates _ [] _ _ _, (make_block-HasKey crates _ [] _ _ _, tt)),
)

make_tree-TreeOf_example :
    (tree : List Block) × (make_tree crates {E = ObjectParseError} []
        (object_id_list [])
        none
        3
        2
        three_leaves
      ≡ ok tree)
    × TreeOf crates [] (object_id_list []) none 2 three_leaves tree
make_tree-TreeOf_example =
    make_tree-TreeOf crates [] (object_id_list []) none {E = ObjectParseError} 3 2 three_leaves
      (omega arith) (omega arith) (omega arith) three_keys

save-Held_example :
    (s' : HashMapRepoStore) × (save crates (hash_map_repo_store crates 4096) small_object no_blocks
      ≡ ok s')
    × All (Held crates s') small_object.blocks
save-Held_example = save-Held crates 4096 small_object no_blocks (((λ _. refl), tt), tt)
