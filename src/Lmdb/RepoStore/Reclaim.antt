-- ===== src/Lmdb/RepoStore/Reclaim.antt =====
-- lofire-store-lmdb/src/repostore.rs: `del` on every branch.
use lofire_rs.Common.{
  ◌≡◌, ◌⊎◌, bytes_has_eq, true, false, not, some, none, ok, err, panic, Option-cases, inl, inr,
  ◌==◌, length, nat_has_eq,
}
use lofire_rs.Types.{Block, BlockId}
use lofire_rs.Crates.{Crates, skip_block}
use lofire_rs.Store.{not_found}
use lofire_rs.Lmdb.Rkv.{SingleStore, SingleStoreLaws, MultiIntegerStore, MultiIntegerStoreLaws}
use lofire_rs.Lmdb.RepoStore.{LmdbRepoStore, BlockMeta, Codec, del_meta, del, remove_from_lru}
use lofire_rs.Lmdb.RepoStore.Abstract.{Contents, Holds, forget}
use lofire_rs.Lmdb.RepoStore.Metas.{read}
use lofire_rs.Lmdb.RepoStore.Deletion.{Removable, del-found}

module _ (x : Crates) (c : Codec x) {M I : Type 0} {single : SingleStore M}
    {multi : MultiIntegerStore I} (sl : SingleStoreLaws single)
    (ml : MultiIntegerStoreLaws multi) where
  -- `del` of a block that is not pinned once synced: an unknown block is not found, a known one is
  -- returned with its size, and block and meta are gone from the databases and from both lists.
  pub del-Holds :
      (s : LmdbRepoStore M I) (a : Contents) (i : BlockId)
      → Holds x c sl ml s a
      → Removable (a.metas (c.id_to_vec i))
      → ((a.blocks (c.id_to_vec i) ≡ none) × (del x c single multi s i ≡ err not_found))
        ⊎ ((b : Block) × (s' : LmdbRepoStore M I) × (a.blocks (c.id_to_vec i) ≡ some b)
            × (del x c single multi s i ≡ ok ((skip_block b, length (x.block_to_vec b)), s'))
            × Holds x c sl ml s' (forget (c.id_to_vec i) a))
  unfolding del
  del-Holds s a i h removable = elim (Option-cases (a.blocks (c.id_to_vec i))) [
    | inl missing ↦ inl (missing, rw (sl.get_view, h.main, missing))
    | inr (b, found) ↦
        let (s', deleted, holds) = del-found x c sl ml s a i b h removable found in
        inr (b, s', found, deleted, holds)
  ]

  -- `del` of a stored block that is pinned and synced panics: it is in no list of use, and the
  -- entry that is to be removed is not found.
  pub del_pinned :
      (s : LmdbRepoStore M I) (a : Contents) (i : BlockId) (b : Block) (m : BlockMeta)
      → Holds x c sl ml s a
      → a.blocks (c.id_to_vec i) ≡ some b
      → a.metas (c.id_to_vec i) ≡ some m
      → m.synced ≡ true
      → m.pin ≡ true
      → del x c single multi s i ≡ panic
  unfolding del del_meta remove_from_lru
  del_pinned s a i b m h stored found is_synced pinned = rw (
    sl.get_view s.main_store (c.id_to_vec i),
    h.main (c.id_to_vec i),
    stored,
    c.block_round_trip b,
    (read x c sl ml s a (c.id_to_vec i) m h found).0,
    c.meta_round_trip m,
    used,
    ml.delete_missing s.recently_used_store m.last_used (c.id_to_vec i) absent,
  )
    where
      used : not (m.last_used == 0) ≡ true
      used = rw is_synced at (read x c sl ml s a (c.id_to_vec i) m h found).1

      absent : ml.has s.recently_used_store m.last_used (c.id_to_vec i) ≡ false
      absent = rw (h.used m.last_used (c.id_to_vec i), found, is_synced, pinned)
