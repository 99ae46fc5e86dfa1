-- ===== src/Tests/Stores.antt =====
-- The in-memory store, and sizes of stored values.
use lofire_rs.Types.{Block, object_id_list, digest_has_eq}
use lofire_rs.Block
use lofire_rs.Store.HashMap
use lofire_rs.Store.HashMap.{HashMapRepoStore, get, put, del}
use lofire_rs.Store.Laws.{get-put, get-del}
use lofire_rs.Tests.Crate.{crates}
use lofire_rs.Common.{
  [], ◌∷◌, none, some, ok, err, beq, if◌then◌else◌, ◌⊎◌, ◌+◌, ◌%◌, ◌≤◌, ◌<◌, ◌≡◌, arith,
}
use lofire_rs.Store.{
  not_found, store_valid_value_size, store_max_value_size, header, page_size, min_size,
}
use lofire_rs.Store.Sizes.{store_valid_value_size_bounds, store_valid_value_size_least}

store_valid_value_size_bounds_example :
    (min_size ≤ store_valid_value_size 5000)
    × (store_valid_value_size 5000 ≤ store_max_value_size)
    × ((store_valid_value_size 5000 + header) % page_size ≡ 0)
store_valid_value_size_bounds_example = store_valid_value_size_bounds 5000

store_valid_value_size_least_example :
    (5000 ≤ store_valid_value_size 5000)
    × ((store_valid_value_size 5000 + header) % page_size ≡ 0)
    × (store_valid_value_size 5000 ≤ 12264)
    × (store_valid_value_size 5000 < 5000 + page_size)
unfolding store_max_value_size
store_valid_value_size_least_example =
    store_valid_value_size_least 5000 12264 (omega arith) (omega arith) (omega arith)

abbrev block : Block
block =
    Block.new crates [] (object_id_list []) none (4 ∷ []) (some (record { chacha20_key = 1 ∷ [] }))

get-put_example :
    (s' : HashMapRepoStore) × (put crates HashMap.new block ≡ ok (Block.id crates block, s'))
    × (get s' (Block.id crates block) ≡ (
        if beq (Block.id crates block) (Block.id crates block)
        then ok (Block.set_key none block)
        else get HashMap.new (Block.id crates block)))
get-put_example = get-put crates HashMap.new block (Block.id crates block)

abbrev one_block : HashMapRepoStore
one_block = record { blocks = (Block.id crates block, block) ∷ [] }

get-del_example :
    ((get one_block (Block.id crates block) ≡ err not_found)
      × (del 64 one_block (Block.id crates block) ≡ err not_found))
    ⊎ ((b : Block) × (s' : HashMapRepoStore) × (get one_block (Block.id crates block) ≡ ok b)
        × (del 64 one_block (Block.id crates block) ≡ ok ((b, 64), s'))
        × (get s' (Block.id crates block) ≡ (
            if beq (Block.id crates block) (Block.id crates block)
            then err not_found
            else get one_block (Block.id crates block))))
get-del_example = get-del 64 one_block (Block.id crates block) (Block.id crates block)
