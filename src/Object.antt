-- ===== src/Object.antt =====
-- lofire/src/object.rs: objects, Merkle trees of encrypted blocks.
-- `Build` makes them, `Read` takes the content out of them, `Persist` loads and saves them.
pub mod Build
pub mod Read
pub mod Persist
pub mod Tree
pub mod Shape
pub mod Loading
pub mod RoundTrip
pub mod Expiry
pub mod ManyDeps
pub mod SaveLoad
pub mod Copies
pub mod Missing
use lofire_rs.Common.{
  ℕ, ◌-◌, ◌*◌, Bytes, List, get_last?, Option, none, some, Outcome, ok, panic, ◌>>=◌, unwrap,
}
use lofire_rs.Types.{Block, BlockId, ObjectId, ObjectRef, SymKey, Timestamp}
use lofire_rs.Crates.{Crates}
use lofire_rs.Block

-- Sizes of serialized parts.
abbrev pub empty_block_size : ℕ
empty_block_size = 12

abbrev pub block_id_size : ℕ
block_id_size = 33

abbrev pub block_key_size : ℕ
block_key_size = 33

abbrev pub big_varint_extra : ℕ
big_varint_extra = 3

abbrev pub data_varint_extra : ℕ
data_varint_extra = 4

abbrev pub max_deps_size : ℕ
max_deps_size = 8 * block_id_size

pub record Object : Type 0 where
  pub blocks : List Block
  pub deps : List ObjectId

pub data ObjectParseError : Type 0 where
  missing_blocks : List BlockId → ObjectParseError
  missing_root_key invalid_block_id invalid_children invalid_keys : ObjectParseError
  invalid_deps block_deserialize_error object_deserialize_error : ObjectParseError

pub data ObjectCopyError : Type 0 where
  not_found parse_error : ObjectCopyError

abbrev pub ref_of : Option SymKey → ObjectId → Option ObjectRef
ref_of none i = none
ref_of (some k) i = some (record { id = i; key = k })

module _ {E : Type 0} where
  -- `Object::root`: the last block
  unfoldable pub root : Object → Outcome E Block
  root o = unwrap (get_last? o.blocks)

  -- `Object::id`
  unfoldable pub id : Crates → Object → Outcome E ObjectId
  unfolding root
  id x o = do block ← root o; ok (Block.id x block)

  -- `Object::key`
  unfoldable pub key : Object → Outcome E (Option SymKey)
  unfolding root
  key o = do block ← root o; ok (Block.key block)

  -- `Object::expiry`
  unfoldable pub expiry : Object → Outcome E (Option Timestamp)
  unfolding root
  expiry o = do block ← root o; ok (Block.expiry block)

  -- `Object::reference`
  unfoldable pub reference : Crates → Object → Outcome E (Option ObjectRef)
  unfolding id key
  reference x o = do k ← key o; i ← id x o; ok (ref_of k i)
