-- ===== src/Block/Ids.antt =====
-- lofire/src/block.rs: the identifier of a block whose key is set.
use lofire_rs.Common.{◌≡◌, ap, ◌∙◌, sym, Option}
use lofire_rs.Types.{Block, Digest, SymKey}
use lofire_rs.Crates.{Crates}
use lofire_rs.Block.{known_or, get_id, id, set_key}

module _ (x : Crates) (k : Option SymKey) (b : Block) where
  get_id-set_key : get_id x (set_key k b) ≡ get_id x b
  unfolding get_id set_key
  get_id-set_key =
      ap (λ bytes. let d : Digest = record { blake3_digest32 = x.hash bytes } in d)
        (sym (x.block_to_vec_skip (set_key k b)) ∙ x.block_to_vec_skip b)

  pub id-set_key : id x (set_key k b) ≡ id x b
  unfolding id set_key
  id-set_key = ap (known_or b.v0.id) get_id-set_key
