-- ===== src/Lmdb/RepoStore/Deletion.antt =====
-- lofire-store-lmdb/src/repostore.rs: `del`.
use lofire_rs.Common.{
  ℕ, ◌≡◌, ◌≢◌, ◌⊎◌, Bytes, bytes_eq, bytes_eq_iff, beq_refl, bytes_has_eq, true, false, not, ◌&&◌,
  Option, some, none, ok, unwrap_ok, Bool-cases, Option-cases, inl, inr, ◌==◌, arith, sym, ap, ◌∙◌,
  refl, ◌>>=◌, if_true, if_false, if◌then◌else◌, length, nat_has_eq,
}
use lofire_rs.Types.{Block, BlockId, Timestamp}
use lofire_rs.Crates.{Crates, skip_block}
use lofire_rs.Block
use lofire_rs.Store.{StorageError}
use lofire_rs.Lmdb.Rkv.{SingleStore, SingleStoreLaws, MultiIntegerStore, MultiIntegerStoreLaws}
use lofire_rs.Lmdb.RepoStore.{
  LmdbRepoStore, BlockMeta, Codec, del_meta, del_expiry, del, remove_from_lru,
}
use lofire_rs.Lmdb.RepoStore.Abstract.{Contents, set, expires, option_map, stamped, Holds, forget}
use lofire_rs.Lmdb.RepoStore.Lists.{Lists, remove_from_lru-Lists, set-Lists}
use lofire_rs.Lmdb.RepoStore.Metas.{read, read_none, same_meta}

-- A pinned block has not been synced.
unfoldable pub Removable : Option BlockMeta → Type 0
Removable o = (m : BlockMeta) → o ≡ some m → m.synced ≡ true → m.pin ≡ false

module _ (x : Crates) (c : Codec x) {M I : Type 0} {single : SingleStore M}
    {multi : MultiIntegerStore I} (sl : SingleStoreLaws single)
    (ml : MultiIntegerStoreLaws multi) where
  -- A value that is there is deleted.
  delete_some :
      {A : Type 0} (to_vec : A → Bytes) (m : M) (f : Bytes → Option A) (k : Bytes) (v : A)
      → ((j : Bytes) → sl.view m j ≡ option_map to_vec (f j))
      → f k ≡ some v
      → (n : M) × (single.delete m k ≡ ok n)
        × ((j : Bytes) → sl.view n j ≡ option_map to_vec (set k none f j))
  delete_some to_vec m f k v same found =
      let (n, deleted, view) =
        sl.delete_view m k (to_vec v) (same k ∙ ap (option_map to_vec) found) in
      (n, deleted, λ j. view j ∙ after j)
    where
      after :
          (j : Bytes)
          → (if bytes_eq k j then none else sl.view m j) ≡ option_map to_vec (set k none f j)
      after j = elim (Bool-cases (bytes_eq k j)) [ inl e ↦ rw e | inr e ↦ rw e (same j) ]

  write_forget :
      (s : LmdbRepoStore M I) (a : Contents) (k : Bytes) (m : BlockMeta) (lru : I)
      → Holds x c sl ml s a
      → a.metas k ≡ some m
      → Lists x c single ml lru (set k none a.metas)
      → (n : M) × (single.delete s.meta_store k ≡ ok n)
        × Holds x c sl ml
            (record s { meta_store = n; recently_used_store = lru })
            (record a { metas = set k none a.metas })
  unfolding Lists
  write_forget s a k m lru h found lists =
      let (n, deleted, view) = delete_some c.meta_to_vec s.meta_store a.metas k m h.meta found in
      (
        n,
        deleted,
        record {
          main = h.main;
          meta = view;
          used = lists;
          expiring = h.expiring;
          named = h.named;
          stamps = stamps;
        },
      )
    where
      stamps : (j : Bytes) → stamped (set k none a.metas j) ≡ true
      stamps j = elim (Bool-cases (bytes_eq k j)) [ inl e ↦ rw e | inr e ↦ rw e (h.stamps j) ]

  stamped_synced : (m : BlockMeta) → stamped (some m) ≡ true → not (m.last_used == 0) ≡ m.synced
  stamped_synced m good = elim (Bool-cases m.synced) [
    | inl e ↦ rw e (rw e at good)
    | inr e ↦ rw (e, (rw e at good))
  ]

  del_meta-Holds :
      (s : LmdbRepoStore M I) (a : Contents) (k : Bytes)
      → Holds x c sl ml s a
      → Removable (a.metas k)
      → (s' : LmdbRepoStore M I) × ((unwrap_ok (single.get s.meta_store k)
            >>= del_meta x c single multi s k)
          ≡ ok s')
        × Holds x c sl ml s' (record a { metas = set k none a.metas })
        × (s'.main_store ≡ s.main_store)
        × (s'.expiry_store ≡ s.expiry_store)
  unfolding del_meta Removable Lists
  del_meta-Holds s a k h removable = elim (Option-cases (a.metas k)) [
    | inl missing ↦ (
      s,
      rw (read_none x c sl ml s a k h missing),
      same_meta x c sl ml s a k none h missing,
      refl,
      refl,
    )
    | inr (m, found) ↦ some_meta m found (Bool-cases m.synced)
  ]
    where
      finish :
          (m : BlockMeta) (lru : I)
          → a.metas k ≡ some m
          → (if not (m.last_used == 0)
              then unwrap_ok {F = StorageError}
                  (remove_from_lru x c single multi s.recently_used_store k m.last_used)
              else ok s.recently_used_store)
            ≡ ok lru
          → Lists x c single ml lru (set k none a.metas)
          → (s' : LmdbRepoStore M I) × ((unwrap_ok (single.get s.meta_store k)
                >>= del_meta x c single multi s k)
              ≡ ok s')
            × Holds x c sl ml s' (record a { metas = set k none a.metas })
            × (s'.main_store ≡ s.main_store)
            × (s'.expiry_store ≡ s.expiry_store)
      finish m lru found listed lists =
          let (n, deleted, holds) = write_forget s a k m lru h found lists in
          (
            record s { meta_store = n; recently_used_store = lru },
            rw ((read x c sl ml s a k m h found).0, c.meta_round_trip m, listed, deleted),
            holds,
            refl,
            refl,
          )

      some_meta :
          (m : BlockMeta)
          → a.metas k ≡ some m
          → (m.synced ≡ true) ⊎ (m.synced ≡ false)
          → (s' : LmdbRepoStore M I) × ((unwrap_ok (single.get s.meta_store k)
                >>= del_meta x c single multi s k)
              ≡ ok s')
            × Holds x c sl ml s' (record a { metas = set k none a.metas })
            × (s'.main_store ≡ s.main_store)
            × (s'.expiry_store ≡ s.expiry_store)
      some_meta m found (inl is_synced) =
          let (i, removed, lists) =
            remove_from_lru-Lists x c single ml s.recently_used_store a.metas k m h.used found
              (rw (is_synced, removable m found is_synced)) in
          finish m i found
            (if_true _ (stamped_synced m (read x c sl ml s a k m h found).1 ∙ is_synced)
              ∙ ap unwrap_ok removed)
            lists
      some_meta m found (inr unsynced) =
          finish m s.recently_used_store found
            (if_false _ (stamped_synced m (read x c sl ml s a k m h found).1 ∙ unsynced))
            (set-Lists x c single ml s.recently_used_store a.metas k none h.used
              (λ t. rw (found, unsynced)))

  delete_expiring :
      (e : Option Timestamp) (i : I) (f : Bytes → Option Block) (k : Bytes) (b : Block)
      → ((t : ℕ) (j : Bytes) → ml.has i t j ≡ expires (f j) t)
      → f k ≡ some b
      → Block.expiry b ≡ e
      → (n : I) × (del_expiry x c single multi i k e ≡ ok n)
        × ((t : ℕ) (j : Bytes) → ml.has n t j ≡ expires (set k none f j) t)
  delete_expiring none i f k b lists found never = (i, refl, λ t j. lists t j ∙ after t j)
    where
      after : (t : ℕ) (j : Bytes) → expires (f j) t ≡ expires (set k none f j) t
      after t j = elim (Bool-cases (bytes_eq k j)) [
        | inl e ↦ rw (e, sym ((bytes_eq_iff k j).0 e), found, never)
        | inr e ↦ rw e
      ]
  delete_expiring (some e) i f k b lists found once =
      let (n, deleted, has) = ml.delete_has i e k (lists e k ∙ there e ∙ beq_refl e) in
      (n, rw deleted, λ t j. has t j ∙ after t j)
    where
      there : (t : ℕ) → expires (f k) t ≡ (e == t)
      there t = rw (found, once)

      after :
          (t : ℕ) (j : Bytes)
          → (not (e == t && bytes_eq k j) && ml.has i t j) ≡ expires (set k none f j) t
      after t j = elim (Bool-cases (bytes_eq k j)) [
        | inl same ↦ rw (same, lists t j, sym ((bytes_eq_iff k j).0 same), there t) (ground arith)
        | inr other ↦ rw (other, lists t j) (ground arith)
      ]

  pub del-found :
      (s : LmdbRepoStore M I) (a : Contents) (i : BlockId) (b : Block)
      → Holds x c sl ml s a
      → Removable (a.metas (c.id_to_vec i))
      → a.blocks (c.id_to_vec i) ≡ some b
      → (s' : LmdbRepoStore M I) × (del x c single multi s i
          ≡ ok ((skip_block b, length (x.block_to_vec b)), s'))
        × Holds x c sl ml s' (forget (c.id_to_vec i) a)
  unfolding del
  del-found s a i b h removable found =
      let k = c.id_to_vec i in
      let (s', metas_deleted, holds, same_main, same_expiry) = del_meta-Holds s a k h removable in
      let (m, deleted, view) = delete_some x.block_to_vec s.main_store a.blocks k b h.main found in
      let (e, expiry_deleted, expiring) =
        delete_expiring (Block.expiry b) s.expiry_store a.blocks k b h.expiring found refl in
      (
        record s' { main_store = m; expiry_store = e },
        rw (
          sl.get_view s.main_store k,
          h.main k,
          found,
          c.block_round_trip b,
          sl.get_view s.meta_store k,
          (rw (sl.get_view s.meta_store k) at metas_deleted),
          ap (λ n. single.delete n k) same_main ∙ deleted,
          ap (λ n. del_expiry x c single multi n k (Block.expiry b)) same_expiry ∙ expiry_deleted,
        ),
        record {
          main = view;
          meta = holds.meta;
          used = holds.used;
          expiring = expiring;
          named = λ j b' there. named j b' there (Bool-cases (bytes_eq k j));
          stamps = holds.stamps;
        },
      )
    where
      none_is_not_some : {b' : Block} → none ≢ some b'
      none_is_not_some h = cc

      named :
          (j : Bytes) (b' : Block)
          → set (c.id_to_vec i) none a.blocks j ≡ some b'
          → (bytes_eq (c.id_to_vec i) j ≡ true) ⊎ (bytes_eq (c.id_to_vec i) j ≡ false)
          → c.id_to_vec (Block.get_id x b') ≡ j
      named j b' there (inl e) = absurd (none_is_not_some (rw e at there))
      named j b' there (inr e) = h.named j b' (rw e at there)
