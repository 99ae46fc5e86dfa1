-- ===== src/Store/Sizes.antt =====
-- The sizes that `store_valid_value_size` gives.
use lofire_rs.Common.{ℕ, ◌+◌, ◌%◌, ◌≤◌, ◌<◌, ◌≡◌, arith}
use lofire_rs.Store.{store_valid_value_size, store_max_value_size, header, page_size, min_size}

-- A valid size is whole pages less a header, at least `min_size` and at most the maximum.
pub store_valid_value_size_bounds :
    (size : ℕ)
    → (min_size ≤ store_valid_value_size size)
      × (store_valid_value_size size ≤ store_max_value_size)
      × ((store_valid_value_size size + header) % page_size ≡ 0)
unfolding store_valid_value_size store_max_value_size
store_valid_value_size_bounds size = omega arith

-- Up to the maximum, the valid size holds the wanted size, is whole pages less a header, and no other
-- size `other` of whole pages less a header that holds the wanted size is smaller.
pub store_valid_value_size_least :
    (size other : ℕ)
    → size ≤ store_max_value_size
    → size ≤ other
    → (other + header) % page_size ≡ 0
    → (size ≤ store_valid_value_size size)
      × ((store_valid_value_size size + header) % page_size ≡ 0)
      × (store_valid_value_size size ≤ other)
      × (store_valid_value_size size < size + page_size)
unfolding store_valid_value_size store_max_value_size
store_valid_value_size_least size other small holds whole = omega arith
