-- ===== src/Crates.antt =====
-- What the repository code takes from the blake3, chacha20 and serde_bare crates.
use Prim.Native.String.{String}
use lofire_rs.Common.{Bytes, ◌≡◌, Option, none, some}
use lofire_rs.Types.{Block, BlockContentV0, ObjectContent}

-- What serde writes of a block: the fields marked `serde(skip)` are left out.
abbrev pub skip_block : Block → Block
skip_block b = record { v0 = record b.v0 { id = none; key = none } }

pub record Crates : Type 0 where
  -- `blake3::hash`, `blake3::keyed_hash`, and `blake3::derive_key` with its context string
  pub hash : Bytes → Bytes
  pub keyed_hash : Bytes → Bytes → Bytes
  pub derive_key : String → Bytes → Bytes
  -- `ChaCha20::new` with a key and a nonce, then `apply_keystream`: an exclusive or
  pub apply_keystream : Bytes → Bytes → Bytes → Bytes
  pub apply_keystream_twice :
      (key nonce buf : Bytes) → apply_keystream key nonce (apply_keystream key nonce buf) ≡ buf
  -- `serde_bare::to_vec` and `from_slice` at the types that are written; skipped fields are not
  pub block_to_vec : Block → Bytes
  pub block_to_vec_skip : (b : Block) → block_to_vec (skip_block b) ≡ block_to_vec b
  pub block_content_to_vec : BlockContentV0 → Bytes
  pub block_content_from_slice : Bytes → Option BlockContentV0
  pub block_content_round_trip :
      (c : BlockContentV0) → block_content_from_slice (block_content_to_vec c) ≡ some c
  pub object_content_to_vec : ObjectContent → Bytes
  pub object_content_from_slice : Bytes → Option ObjectContent
