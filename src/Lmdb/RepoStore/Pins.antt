-- ===== src/Lmdb/RepoStore/Pins.antt =====
-- lofire-store-lmdb/src/repostore.rs: `set_pin` and `has_been_synced`.
use lofire_rs.Common.{
  ℕ, ◌≡◌, Bytes, Bool, true, false, not, Option, some, none, Outcome, ok, unwrap_ok, beq_refl,
  bytes_has_eq, Bool-cases, Option-cases, inl, inr, ◌==◌, arith, sym, ap, ◌∙◌, refl, ◌>>=◌, if_true,
  if_false, then->>=, else->>=,
}
use lofire_rs.Types.{BlockId, ObjectId}
use lofire_rs.Crates.{Crates}
use lofire_rs.Store.{StorageError}
use lofire_rs.Lmdb.Rkv.{SingleStore, SingleStoreLaws, MultiIntegerStore, MultiIntegerStoreLaws}
use lofire_rs.Lmdb.RepoStore.{
  LmdbRepoStore, BlockMeta, Codec, write_meta, repin, repin_synced, set_pin, resync, resync_new,
  has_been_synced, bool_eq,
}
use lofire_rs.Lmdb.RepoStore.Abstract.{
  Contents, set, Holds, Last, pinned_as, synced_at, update_meta,
}
use lofire_rs.Lmdb.RepoStore.Lists.{Lists, remove_from_lru-Lists, set-Lists, set-set-Lists}
use lofire_rs.Lmdb.RepoStore.Metas.{write_meta-Holds, enter, read, read_none, same_meta}

bool_eq_lem : (a b : Bool) → bool_eq a b ≡ true → a ≡ b
bool_eq_lem true b h = sym h
bool_eq_lem false b h = ground arith

module _ (x : Crates) (c : Codec x) {M I : Type 0} {single : SingleStore M}
    {multi : MultiIntegerStore I} (sl : SingleStoreLaws single)
    (ml : MultiIntegerStoreLaws multi) where
  decided :
      (s : LmdbRepoStore M I) (k : Bytes) {e : Outcome StorageError (Option (BlockMeta × I))}
      {change : Option (BlockMeta × I)} {s' : LmdbRepoStore M I}
      → e ≡ ok change
      → write_meta x c single multi s k change ≡ ok s'
      → (e >>= write_meta x c single multi s k) ≡ ok s'
  decided s k choice written = ap (λ o. o >>= write_meta x c single multi s k) choice ∙ written

  -- Where an unpinned block stands in the list of use again, it comes after the others.
  unfoldable pub LastOnUnpin : Contents → Bytes → Bool → Type 0
  LastOnUnpin a k add =
      (m : BlockMeta) → a.metas k ≡ some m → add ≡ false → Last x c sl ml a m.last_used k

  flip :
      (add : Bool) (s : LmdbRepoStore M I) (a : Contents) (k : Bytes) (m : BlockMeta)
      → Holds x c sl ml s a
      → a.metas k ≡ some m
      → bool_eq add m.pin ≡ false
      → LastOnUnpin a k add
      → (s' : LmdbRepoStore M I) × ((repin_synced x c single multi s k add m
            >>= write_meta x c single multi s k)
          ≡ ok s')
        × Holds x c sl ml s' (record a { metas = set k (some (record m { pin = add })) a.metas })
  unfolding repin_synced Lists LastOnUnpin
  flip true s a k m h found unpinned last = elim (Bool-cases m.synced) [
    | inl is_synced ↦
        let (i, removed, without) =
          remove_from_lru-Lists x c single ml s.recently_used_store a.metas k m h.used found
            (rw (is_synced, unpinned)) in
        let (s', written, holds) =
          write_meta-Holds x c sl ml s a k (record m { pin = true }) i h
            (set-set-Lists x c single ml i a.metas k _ none (
              set-Lists x c single ml i (set k none a.metas) k (some (record m { pin = true }))
                without (λ t. rw (beq_refl k) (ground arith))))
            (read x c sl ml s a k m h found).1 in
        (
          s',
          decided s k
              (then->>= _ (λ lru. ok (some (record m { pin = true }, lru))) is_synced
                (ap unwrap_ok removed) refl)
              written,
          holds,
        )
    | inr unsynced ↦
        let (s', written, holds) =
          write_meta-Holds x c sl ml s a k (record m { pin = true }) s.recently_used_store h
            (set-Lists x c single ml s.recently_used_store a.metas k _ h.used
              (λ t. rw (found, unsynced)))
            (read x c sl ml s a k m h found).1 in
        (
          s',
          decided s k
              (else->>= _ (λ lru. ok (some (record m { pin = true }, lru))) unsynced refl refl)
              written,
          holds,
        )
  ]
  flip false s a k m h found unpinned last = elim (Bool-cases m.synced) [
    | inl is_synced ↦
        let (i, added, lists) =
          enter x c sl ml a k (record m { pin = false }) s.recently_used_store
            (set-Lists x c single ml s.recently_used_store a.metas k none h.used
              (λ t. rw found (ground arith)))
            (rw is_synced) (last m found refl) in
        let (s', written, holds) =
          write_meta-Holds x c sl ml s a k (record m { pin = false }) i h lists
            (read x c sl ml s a k m h found).1 in
        (
          s',
          decided s k
              (then->>= _ (λ lru. ok (some (record m { pin = false }, lru))) is_synced
                (ap unwrap_ok added) refl)
              written,
          holds,
        )
    | inr unsynced ↦
        let (s', written, holds) =
          write_meta-Holds x c sl ml s a k (record m { pin = false }) s.recently_used_store h
            (set-Lists x c single ml s.recently_used_store a.metas k _ h.used
              (λ t. rw (found, unsynced)))
            (read x c sl ml s a k m h found).1 in
        (
          s',
          decided s k
              (else->>= _ (λ lru. ok (some (record m { pin = false }, lru))) unsynced refl refl)
              written,
          holds,
        )
  ]

  -- `set_pin` pins or unpins the block, and creates the meta of a block that is pinned without one. A
  -- block that is unpinned comes after the others of its minute of last use.
  pub set_pin-Holds :
      (add : Bool) (s : LmdbRepoStore M I) (a : Contents) (i : ObjectId)
      → Holds x c sl ml s a
      → LastOnUnpin a (c.id_to_vec i) add
      → (s' : LmdbRepoStore M I) × (set_pin x c single multi s i add ≡ ok s')
        × Holds x c sl ml s' (update_meta (pinned_as add) (c.id_to_vec i) a)
  unfolding set_pin repin Lists
  set_pin-Holds add s a i h last = elim (Option-cases (a.metas (c.id_to_vec i))) [
    | inl missing ↦ without add missing
    | inr (m, found) ↦ elim (Bool-cases (bool_eq add m.pin)) [
      | inl same ↦ (
        s,
        rw ((read x c sl ml s a (c.id_to_vec i) m h found).0, c.meta_round_trip m)
            (decided s (c.id_to_vec i) (if_true _ same) refl),
        rw found (
            same_meta x c sl ml s a (c.id_to_vec i) (some (record m { pin = add })) h
              (found ∙ ap (λ p. some (record m { pin = p })) (sym (bool_eq_lem add m.pin same)))),
      )
      | inr differs ↦
          let (s', flipped, holds) = flip add s a (c.id_to_vec i) m h found differs last in
          (
            s',
            rw ((read x c sl ml s a (c.id_to_vec i) m h found).0, c.meta_round_trip m)
                (ap (λ o. o >>= write_meta x c single multi s (c.id_to_vec i)) (if_false _ differs)
                  ∙ flipped),
            rw found holds,
          )
    ]
  ]
    where
      without :
          (add : Bool)
          → a.metas (c.id_to_vec i) ≡ none
          → (s' : LmdbRepoStore M I) × (set_pin x c single multi s i add ≡ ok s')
            × Holds x c sl ml s' (update_meta (pinned_as add) (c.id_to_vec i) a)
      without true missing =
          let (s', written, holds) =
            write_meta-Holds x c sl ml s a (c.id_to_vec i)
              (record { pin = true; synced = false; last_used = 0 }) s.recently_used_store h
              (set-Lists x c single ml s.recently_used_store a.metas (c.id_to_vec i) _ h.used
                (λ t. rw missing))
              refl in
          (s', rw (read_none x c sl ml s a (c.id_to_vec i) h missing) written, rw missing holds)
      without false missing = (
        s,
        rw (read_none x c sl ml s a (c.id_to_vec i) h missing),
        rw missing (same_meta x c sl ml s a (c.id_to_vec i) none h missing),
      )

  resync_new-Holds :
      (now : ℕ) (s : LmdbRepoStore M I) (a : Contents) (k : Bytes) (m : BlockMeta)
      → Holds x c sl ml s a
      → a.metas k ≡ some m
      → m.synced ≡ false
      → (now == 0) ≡ false
      → Last x c sl ml a now k
      → (s' : LmdbRepoStore M I) × ((resync_new x c single multi s k now m
            >>= write_meta x c single multi s k)
          ≡ ok s')
        × Holds x c sl ml s' (record a {
          metas = set k (some (record m { synced = true; last_used = now })) a.metas;
        })
  unfolding resync_new Lists
  resync_new-Holds now s a k m h found unsynced late last = elim (Bool-cases (not m.pin)) [
    | inl unpinned ↦
        let (i, added, lists) =
          enter x c sl ml a k (record m { synced = true; last_used = now }) s.recently_used_store
            (set-Lists x c single ml s.recently_used_store a.metas k none h.used
              (λ t. rw (found, unsynced)))
            unpinned last in
        let (s', written, holds) =
          write_meta-Holds x c sl ml s a k (record m { synced = true; last_used = now }) i h lists
            (rw late) in
        (
          s',
          decided s k
              (then->>= _ (λ lru. ok (some (record m { synced = true; last_used = now }, lru)))
                unpinned (ap unwrap_ok added) refl)
              written,
          holds,
        )
    | inr pinned ↦
        let (s', written, holds) =
          write_meta-Holds x c sl ml s a k (record m { synced = true; last_used = now })
            s.recently_used_store h
            (set-Lists x c single ml s.recently_used_store a.metas k _ h.used
              (λ t. rw (found, unsynced, pinned)))
            (rw late) in
        (
          s',
          decided s k
              (else->>= _ (λ lru. ok (some (record m { synced = true; last_used = now }, lru)))
                pinned refl refl)
              written,
          holds,
        )
  ]

  -- `has_been_synced` marks the block as synced and used at the minute that is given, unless it is
  -- synced already. The minute is not 0, and the block comes after the others that were used then.
  pub has_been_synced-Holds :
      (clock now : ℕ) (s : LmdbRepoStore M I) (a : Contents) (i : BlockId)
      → Holds x c sl ml s a
      → (now == 0) ≡ false
      → Last x c sl ml a now (c.id_to_vec i)
      → (s' : LmdbRepoStore M I) × (has_been_synced x c single multi clock s i (some now) ≡ ok s')
        × Holds x c sl ml s' (update_meta (synced_at now) (c.id_to_vec i) a)
  unfolding has_been_synced resync Lists
  has_been_synced-Holds clock now s a i h late last =
      elim (Option-cases (a.metas (c.id_to_vec i))) [
        | inl missing ↦
            let (n, added, lists) =
              enter x c sl ml a (c.id_to_vec i)
                (record { pin = false; synced = true; last_used = now }) s.recently_used_store
                (set-Lists x c single ml s.recently_used_store a.metas (c.id_to_vec i) none h.used
                  (λ t. rw missing))
                refl last in
            let (s', written, holds) =
              write_meta-Holds x c sl ml s a (c.id_to_vec i)
                (record { pin = false; synced = true; last_used = now }) n h lists (rw late) in
            (
              s',
              rw (read_none x c sl ml s a (c.id_to_vec i) h missing, added) written,
              rw missing holds,
            )
        | inr (m, found) ↦ elim (Bool-cases m.synced) [
          | inl old ↦ (
            s,
            rw ((read x c sl ml s a (c.id_to_vec i) m h found).0, c.meta_round_trip m)
                (decided s (c.id_to_vec i) (if_true _ old) refl),
            rw (found, if_true _ old) (same_meta x c sl ml s a (c.id_to_vec i) (some m) h found),
          )
          | inr new ↦
              let (s', synced_now, holds) =
                resync_new-Holds now s a (c.id_to_vec i) m h found new late last in
              (
                s',
                rw ((read x c sl ml s a (c.id_to_vec i) m h found).0, c.meta_round_trip m)
                    (ap (λ o. o >>= write_meta x c single multi s (c.id_to_vec i)) (if_false _ new)
                      ∙ synced_now),
                rw (found, if_false _ new) holds,
              )
        ]
      ]
