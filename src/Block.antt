-- ===== src/Block.antt =====
-- lofire/src/block.rs: construction, identifiers and accessors of blocks.
pub mod Ids
use lofire_rs.Common.{Bytes, Option, none, some, List}
use lofire_rs.Types.{Block, BlockId, BlockV0, ObjectDeps, SymKey, Timestamp}
use lofire_rs.Crates.{Crates}

-- `Block::get_id`
unfoldable pub get_id : Crates → Block → BlockId
get_id x b = record { blake3_digest32 = x.hash (x.block_to_vec b) }

abbrev pub known_or : Option BlockId → BlockId → BlockId
known_or (some i) computed = i
known_or none computed = computed

-- `Block::id`: the identifier that is already known, or else the computed one
unfoldable pub id : Crates → Block → BlockId
id x b = known_or b.v0.id (get_id x b)

-- `BlockV0::new`
unfoldable pub new_v0 :
    Crates → List BlockId → ObjectDeps → Option Timestamp → Bytes → Option SymKey → BlockV0
unfolding get_id
new_v0 x children deps expiry content key =
    let b : BlockV0 = record {
      id = none;
      key = key;
      children = children;
      deps = deps;
      expiry = expiry;
      content = content;
    } in
    record b { id = some (get_id x (record { v0 = b })) }

-- `Block::new`
unfoldable pub new :
    Crates → List BlockId → ObjectDeps → Option Timestamp → Bytes → Option SymKey → Block
unfolding new_v0
new x children deps expiry content key = record { v0 = new_v0 x children deps expiry content key }

-- `Block::content`, `children`, `deps`, `expiry`, `key`
abbrev pub content : Block → Bytes
content b = b.v0.content

abbrev pub children : Block → List BlockId
children b = b.v0.children

abbrev pub deps : Block → ObjectDeps
deps b = b.v0.deps

abbrev pub expiry : Block → Option Timestamp
expiry b = b.v0.expiry

abbrev pub key : Block → Option SymKey
key b = b.v0.key

-- `Block::set_expiry`
unfoldable pub set_expiry : Option Timestamp → Block → Block
set_expiry e b = record { v0 = record b.v0 { id = none; expiry = e } }

-- `Block::set_key`
unfoldable pub set_key : Option SymKey → Block → Block
set_key k b = record { v0 = record b.v0 { key = k } }
