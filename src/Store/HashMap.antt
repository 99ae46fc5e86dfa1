-- ===== src/Store/HashMap.antt =====
-- lofire/src/store.rs: `HashMapRepoStore`. The lock around the map is taken for one call at a time.
use lofire_rs.Common.{
  ℕ, none, List, [], map, length, lookup, insert, remove, Outcome, ok, ok_or, ◌>>=◌,
}
use lofire_rs.Types.{Block, BlockId, digest_has_eq}
use lofire_rs.Crates.{Crates}
use lofire_rs.Block
use lofire_rs.Store.{RepoStore, StorageError, not_found}

pub record HashMapRepoStore : Type 0 where
  pub blocks : List (BlockId × Block)

unfoldable pub new : HashMapRepoStore
new = record { blocks = [] }

unfoldable pub get_len : HashMapRepoStore → ℕ
get_len s = length s.blocks

unfoldable pub get_all : HashMapRepoStore → List Block
get_all s = map (λ e. e.1) s.blocks

unfoldable pub get : HashMapRepoStore → BlockId → Outcome StorageError Block
get s id = ok_or not_found (lookup id s.blocks)

module _ (x : Crates) where
  unfoldable pub put : HashMapRepoStore → Block → Outcome StorageError (BlockId × HashMapRepoStore)
  put s block =
      let id = Block.id x block in
      ok (id, record { blocks = insert id (Block.set_key none block) s.blocks })

-- `size_of_val` of a block is the size of the type, a constant of the compiler.
module _ (size_of_block : ℕ) where
  unfoldable pub del :
      HashMapRepoStore → BlockId → Outcome StorageError ((Block × ℕ) × HashMapRepoStore)
  del s id = do
    block ← ok_or not_found (lookup id s.blocks)
    ok ((block, size_of_block), record { blocks = remove id s.blocks })

abbrev pub hash_map_repo_store : Crates → ℕ → RepoStore HashMapRepoStore
hash_map_repo_store x size_of_block = record { get = get; put = put x; del = del size_of_block }
