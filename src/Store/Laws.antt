-- ===== src/Store/Laws.antt =====
-- lofire/src/store.rs: `put`, `get` and `del` of `HashMapRepoStore`, one after the other.
use lofire_rs.Common.{
  ℕ, Bool-cases, inl, inr, none, Option-cases, lookup, insert, remove, lookup-insert, lookup-remove,
  ok, err, beq, ◌⊎◌, if◌then◌else◌, ◌≡◌, refl,
}
use lofire_rs.Types.{Block, BlockId, digest_has_eq}
use lofire_rs.Crates.{Crates}
use lofire_rs.Block
use lofire_rs.Store.{not_found}
use lofire_rs.Store.HashMap.{HashMapRepoStore, get, put, del}

-- `put` returns the block's identifier; afterwards `get` gives the block without its key under that
-- identifier, and under any other what it gave before.
pub get-put :
    (x : Crates) (s : HashMapRepoStore) (b : Block) (j : BlockId)
    → (s' : HashMapRepoStore) × (put x s b ≡ ok (Block.id x b, s'))
      × (get s' j ≡ (if beq (Block.id x b) j then ok (Block.set_key none b) else get s j))
unfolding put get
get-put x s b j = (
  record { blocks = insert (Block.id x b) (Block.set_key none b) s.blocks },
  refl,
  elim (Bool-cases (beq (Block.id x b) j)) [
    | inl e ↦ simp (lookup-insert, e)
    | inr e ↦ simp (lookup-insert, e)
  ],
)

-- `del` fails if `get` does; where `get` gives a block, `del` returns it with the size of blocks, and
-- afterwards `get` finds nothing under the identifier and under any other what it gave before.
pub get-del :
    (size_of_block : ℕ) (s : HashMapRepoStore) (i j : BlockId)
    → ((get s i ≡ err not_found) × (del size_of_block s i ≡ err not_found))
      ⊎ ((b : Block) × (s' : HashMapRepoStore) × (get s i ≡ ok b)
          × (del size_of_block s i ≡ ok ((b, size_of_block), s'))
          × (get s' j ≡ (if beq i j then err not_found else get s j)))
unfolding del get
get-del size_of_block s i j = elim (Option-cases (lookup i s.blocks)) [
  | inl missing ↦ inl (simp missing, simp missing)
  | inr (b, found) ↦ inr (
    b,
    record { blocks = remove i s.blocks },
    simp found,
    simp found,
    elim (Bool-cases (beq i j)) [
      | inl e ↦ simp (lookup-remove, e)
      | inr e ↦ simp (lookup-remove, e)
    ],
  )
]
