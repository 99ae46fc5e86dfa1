-- ===== src/Lmdb/RepoStore/Unordered.antt =====
-- lofire-store-lmdb/src/repostore.rs: `add_to_lru` appends, and a block that enters the list of use at a
-- minute has to come after the others of that minute.
use lofire_rs.Common.{ℕ, ◌≡◌, Bytes, true, false, some, none, panic, bytes_eq, ap, ◌∙◌, if_false}
use lofire_rs.Types.{Block, BlockId, ObjectId}
use lofire_rs.Crates.{Crates}
use lofire_rs.Lmdb.Rkv.{SingleStore, SingleStoreLaws, MultiIntegerStore, MultiIntegerStoreLaws}
use lofire_rs.Lmdb.RepoStore.{
  LmdbRepoStore, BlockMeta, Codec, add_to_lru, use_now, touch, get, repin, repin_synced, set_pin,
  resync, has_been_synced,
}
use lofire_rs.Lmdb.RepoStore.Abstract.{Contents, Holds, tracked}
use lofire_rs.Lmdb.RepoStore.Lists.{remove_from_lru-Lists, Lists}
use lofire_rs.Lmdb.RepoStore.Metas.{read, read_none}

module _ (x : Crates) (c : Codec x) {M I : Type 0} {single : SingleStore M}
    {multi : MultiIntegerStore I} (sl : SingleStoreLaws single)
    (ml : MultiIntegerStoreLaws multi) where
  -- `has_been_synced` of a block without a meta panics, where another block of the list of use was used
  -- at the minute that is given and does not come before it.
  pub has_been_synced_unordered :
      (clock now : ℕ) (s : LmdbRepoStore M I) (a : Contents) (i : BlockId) (j : Bytes)
      → Holds x c sl ml s a
      → a.metas (c.id_to_vec i) ≡ none
      → tracked (a.metas j) now ≡ true
      → ml.before j (c.id_to_vec i) ≡ false
      → has_been_synced x c single multi clock s i (some now) ≡ panic
  unfolding has_been_synced resync add_to_lru
  has_been_synced_unordered clock now s a i j h missing there unordered = rw (
    read_none x c sl ml s a (c.id_to_vec i) h missing,
    ml.append_unordered s.recently_used_store now (c.id_to_vec i) j (h.used now j ∙ there)
        unordered,
  )

  -- `set_pin` that unpins a synced block panics, where another block of the list of use was used at
  -- the minute of its last use and does not come before it.
  pub set_pin_unordered :
      (s : LmdbRepoStore M I) (a : Contents) (i : ObjectId) (m : BlockMeta) (j : Bytes)
      → Holds x c sl ml s a
      → a.metas (c.id_to_vec i) ≡ some m
      → m.synced ≡ true
      → m.pin ≡ true
      → tracked (a.metas j) m.last_used ≡ true
      → ml.before j (c.id_to_vec i) ≡ false
      → set_pin x c single multi s i false ≡ panic
  unfolding set_pin repin repin_synced add_to_lru
  set_pin_unordered s a i m j h found is_synced pinned there unordered = rw (
    (read x c sl ml s a (c.id_to_vec i) m h found).0,
    c.meta_round_trip m,
    pinned,
    is_synced,
    ml.append_unordered s.recently_used_store m.last_used (c.id_to_vec i) j
        (h.used m.last_used j ∙ there) unordered,
  )

  -- `get` of a synced block that is not pinned panics, where another block of the list of use was used
  -- at this minute and does not come before it.
  pub get_unordered :
      (now : ℕ) (s : LmdbRepoStore M I) (a : Contents) (i : BlockId) (b : Block) (m : BlockMeta)
      (j : Bytes)
      → Holds x c sl ml s a
      → a.blocks (c.id_to_vec i) ≡ some b
      → a.metas (c.id_to_vec i) ≡ some m
      → m.synced ≡ true
      → m.pin ≡ false
      → bytes_eq (c.id_to_vec i) j ≡ false
      → tracked (a.metas j) now ≡ true
      → ml.before j (c.id_to_vec i) ≡ false
      → get x c single multi now s i ≡ (panic, s)
  unfolding get touch use_now add_to_lru Lists
  get_unordered now s a i b m j h stored found is_synced unpinned other there unordered =
      let k = c.id_to_vec i in
      let (n, removed, lists) =
        remove_from_lru-Lists x c single ml s.recently_used_store a.metas k m h.used found
          (rw (is_synced, unpinned)) in
      let still = lists now j ∙ ap (λ o. tracked o now) (if_false _ other) ∙ there in
      rw (
        sl.get_view s.main_store k,
        h.main k,
        stored,
        (read x c sl ml s a k m h found).0,
        c.meta_round_trip m,
        is_synced,
        unpinned,
        removed,
        ml.append_unordered n now k j still unordered,
      )
