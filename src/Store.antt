-- ===== src/Store.antt =====
-- lofire/src/store.rs: the trait of block stores, its errors and the sizes of stored values.
pub mod HashMap
pub mod Sizes
pub mod Laws
use lofire_rs.Common.{ℕ, ◌+◌, ◌-◌, ◌*◌, ◌/◌, min, Outcome, ◌≡◌}
use lofire_rs.Types.{Block, BlockId}

pub data StorageError : Type 0 where
  not_found invalid_value backend_error serialization_error : StorageError

-- `RepoStore`, over the states `S` of the store. A store is shared and its methods take `&self`:
-- each method gives the state that it leaves.
pub record RepoStore (S : Type 0) : Type 0 where
  pub get : S → BlockId → Outcome StorageError Block
  pub put : S → Block → Outcome StorageError (BlockId × S)
  pub del : S → BlockId → Outcome StorageError ((Block × ℕ) × S)

abbrev pub min_size : ℕ
min_size = 4072

abbrev pub page_size : ℕ
page_size = 4096

abbrev pub header : ℕ
header = page_size - min_size

abbrev pub max_factor : ℕ
max_factor = 512

-- The source divides as f32 and rounds up. Below 2 ^ 24 every number is an f32 and a division by
-- 2 ^ 12 is exact; above, the quotient stays above `max_factor`. So the result is the one of whole
-- numbers. A `usize` so great that `size + HEADER` overflows is left out.
unfoldable pub store_valid_value_size : ℕ → ℕ
store_valid_value_size size =
    min ((size + header + (page_size - 1)) / page_size) max_factor * page_size - header

unfoldable pub store_max_value_size : ℕ
store_max_value_size = max_factor * page_size - header
