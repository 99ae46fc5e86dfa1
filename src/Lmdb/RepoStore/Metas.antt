-- ===== src/Lmdb/RepoStore/Metas.antt =====
-- lofire-store-lmdb/src/repostore.rs: writing a meta, and `get`.
use lofire_rs.Common.{
  ℕ, ◌≡◌, ◌≢◌, Bytes, bytes_eq, bytes_has_eq, beq_refl, true, false, Option, some, none, ok,
  unwrap_ok, Bool-cases, Option-cases, inl, inr, ◌==◌, arith, sym, ap, bytes_eq_iff, beq,
  if◌then◌else◌, ◌∙◌, refl, ◌>>=◌, if_true, if_false, then->>=, else->>=,
}
use mathlib.Core.Option.{some-injective}
use mathlib.Core.Path.{subst}
use lofire_rs.Types.{Block, BlockId, digest_has_eq}
use lofire_rs.Crates.{Crates, skip_block}
use lofire_rs.Block
use lofire_rs.Lmdb.Rkv.{SingleStore, SingleStoreLaws, MultiIntegerStore, MultiIntegerStoreLaws}
use lofire_rs.Lmdb.RepoStore.{
  LmdbRepoStore, BlockMeta, Codec, add_to_lru, write_meta, use_now, touch, decode, get,
}
use lofire_rs.Lmdb.RepoStore.Abstract.{
  Contents, set, tracked, option_map, stamped, Holds, Last, used_at, update_meta, answer, after_get,
  live,
}
use lofire_rs.Lmdb.RepoStore.Lists.{
  Lists, remove_from_lru-Lists, add_to_lru-Lists, set-Lists, set-set-Lists,
}

pub set_self : {A : Type 0} (k : Bytes) (f : Bytes → A) → set k (f k) f ≡ f
set_self k f i j = same j i
  where
    same : (j : Bytes) → set k (f k) f j ≡ f j
    same j = elim (Bool-cases (bytes_eq k j)) [
      | inl e ↦ rw e (ap f ((bytes_eq_iff k j).0 e))
      | inr e ↦ rw e
    ]

module _ (x : Crates) (c : Codec x) {M I : Type 0} {single : SingleStore M}
    {multi : MultiIntegerStore I} (sl : SingleStoreLaws single)
    (ml : MultiIntegerStoreLaws multi) where
  pub write_meta-Holds :
      (s : LmdbRepoStore M I) (a : Contents) (k : Bytes) (m : BlockMeta) (lru : I)
      → Holds x c sl ml s a
      → Lists x c single ml lru (set k (some m) a.metas)
      → stamped (some m) ≡ true
      → (s' : LmdbRepoStore M I) × (write_meta x c single multi s k (some (m, lru)) ≡ ok s')
        × Holds x c sl ml s' (record a { metas = set k (some m) a.metas })
  unfolding Lists
  write_meta-Holds s a k m lru h lists good =
      let (n, written, view) = sl.put_view s.meta_store k (c.meta_to_vec m) in
      (
        record s { meta_store = n; recently_used_store = lru },
        rw written,
        record {
          main = h.main;
          meta = λ j. view j ∙ metas j;
          used = lists;
          expiring = h.expiring;
          named = h.named;
          stamps = stamps;
        },
      )
    where
      metas :
          (j : Bytes)
          → (if bytes_eq k j then some (c.meta_to_vec m) else sl.view s.meta_store j)
            ≡ option_map c.meta_to_vec (set k (some m) a.metas j)
      metas j = elim (Bool-cases (bytes_eq k j)) [ inl e ↦ rw e | inr e ↦ rw e (h.meta j) ]

      stamps : (j : Bytes) → stamped (set k (some m) a.metas j) ≡ true
      stamps j = elim (Bool-cases (bytes_eq k j)) [ inl e ↦ rw e good | inr e ↦ rw e (h.stamps j) ]

  -- The block is added to a list that it is not in.
  pub enter :
      (a : Contents) (k : Bytes) (m : BlockMeta) (lru : I)
      → Lists x c single ml lru (set k none a.metas)
      → live m ≡ true
      → Last x c sl ml a m.last_used k
      → (n : I) × (add_to_lru x c single multi lru k m.last_used ≡ ok n)
        × Lists x c single ml n (set k (some m) a.metas)
  unfolding Last
  enter a k m lru lists alive last =
      let (n, added, after) =
        add_to_lru-Lists x c single ml lru (set k none a.metas) k m lists (λ t. rw (beq_refl k))
          alive others in
      (n, added, set-set-Lists x c single ml n a.metas k (some m) none after)
    where
      nowhere : false ≢ true
      nowhere h = cc

      others :
          (j : Bytes) → tracked (set k none a.metas j) m.last_used ≡ true → ml.before j k ≡ true
      others j there = elim (Bool-cases (bytes_eq k j)) [
        | inl e ↦ absurd (nowhere (rw e at there))
        | inr e ↦ last j e (rw e at there)
      ]

  -- What a meta in the databases is read as.
  pub read :
      (s : LmdbRepoStore M I) (a : Contents) (k : Bytes) (m : BlockMeta)
      → Holds x c sl ml s a
      → a.metas k ≡ some m
      → (single.get s.meta_store k ≡ ok (some (c.meta_to_vec m))) × (stamped (some m) ≡ true)
  read s a k m h found = (
    sl.get_view s.meta_store k ∙ ap ok (h.meta k ∙ ap (option_map c.meta_to_vec) found),
    ap stamped (sym found) ∙ h.stamps k,
  )

  pub read_none :
      (s : LmdbRepoStore M I) (a : Contents) (k : Bytes)
      → Holds x c sl ml s a
      → a.metas k ≡ none
      → single.get s.meta_store k ≡ ok none
  read_none s a k h missing =
      sl.get_view s.meta_store k ∙ ap ok (h.meta k ∙ ap (option_map c.meta_to_vec) missing)

  -- A change that leaves a meta as it is.
  pub same_meta :
      (s : LmdbRepoStore M I) (a : Contents) (k : Bytes) (o : Option BlockMeta)
      → Holds x c sl ml s a
      → a.metas k ≡ o
      → Holds x c sl ml s (record a { metas = set k o a.metas })
  same_meta s a k o h found =
      subst (λ f. Holds x c sl ml s (record a { metas = f }))
        (sym (set_self k a.metas) ∙ ap (λ o. set k o a.metas) found) h

  use_now-Holds :
      (now : ℕ) (s : LmdbRepoStore M I) (a : Contents) (k : Bytes) (m : BlockMeta)
      → Holds x c sl ml s a
      → a.metas k ≡ some m
      → m.synced ≡ true
      → (now == 0) ≡ false
      → Last x c sl ml a now k
      → (s' : LmdbRepoStore M I) × (use_now x c single multi now s k m ≡ ok s')
        × Holds x c sl ml s'
            (record a { metas = set k (some (record m { last_used = now })) a.metas })
  unfolding use_now Lists
  use_now-Holds now s a k m h found is_synced late last = elim (Bool-cases m.pin) [
    | inl pinned ↦
        let (s', written, holds) =
          write_meta-Holds s a k (record m { last_used = now }) s.recently_used_store h
            (set-Lists x c single ml s.recently_used_store a.metas k _ h.used
              (λ t. rw (found, pinned) (ground arith)))
            (rw (is_synced, late)) in
        (s', then->>= _ _ pinned refl written, holds)
    | inr unpinned ↦
        let (i, removed, without) =
          remove_from_lru-Lists x c single ml s.recently_used_store a.metas k m h.used found
            (rw (is_synced, unpinned)) in
        let (n, added, lists) =
          enter a k (record m { last_used = now }) i without (rw (is_synced, unpinned)) last in
        let (s', written, holds) =
          write_meta-Holds s a k (record m { last_used = now }) n h lists (rw (is_synced, late)) in
        (s', else->>= _ _ unpinned (rw (removed, added)) written, holds)
  ]

  touch-Holds :
      (now : ℕ) (s : LmdbRepoStore M I) (a : Contents) (k : Bytes)
      → Holds x c sl ml s a
      → (now == 0) ≡ false
      → Last x c sl ml a now k
      → (s' : LmdbRepoStore M I) × ((unwrap_ok (single.get s.meta_store k)
            >>= touch x c single multi now s k)
          ≡ ok s')
        × Holds x c sl ml s' (update_meta (used_at now) k a)
  unfolding touch
  touch-Holds now s a k h late last = elim (Option-cases (a.metas k)) [
    | inl missing ↦ (s, rw (read_none s a k h missing), rw missing (same_meta s a k none h missing))
    | inr (m, found) ↦ elim (Bool-cases m.synced) [
      | inl is_synced ↦
          let (s', used, holds) = use_now-Holds now s a k m h found is_synced late last in
          (
            s',
            rw ((read s a k m h found).0, c.meta_round_trip m) (if_true _ is_synced ∙ used),
            rw (found, if_true _ is_synced) holds,
          )
      | inr unsynced ↦ (
        s,
        rw ((read s a k m h found).0, c.meta_round_trip m) (if_false _ unsynced),
        rw (found, if_false _ unsynced) (same_meta s a k (some m) h found),
      )
    ]
  ]

  id_to_vec-injective : (i j : BlockId) → c.id_to_vec i ≡ c.id_to_vec j → i ≡ j
  id_to_vec-injective i j e =
      some-injective _ _ (sym (c.id_round_trip i) ∙ ap c.id_from_slice e ∙ c.id_round_trip j)

  decode_lem :
      (i : BlockId) (b : Block)
      → c.id_to_vec (Block.get_id x b) ≡ c.id_to_vec i
      → decode x c single multi i (x.block_to_vec b) ≡ ok (skip_block b)
  unfolding decode Block.id Block.get_id
  decode_lem i b e = rw (c.block_round_trip b) (if_true _ named)
    where
      named : beq (Block.id x (skip_block b)) i ≡ true
      named =
          ap (λ h. beq (record { blake3_digest32 = x.hash h }) i) (x.block_to_vec_skip b)
          ∙ ap (λ d. beq d i) (id_to_vec-injective (Block.get_id x b) i e)
          ∙ beq_refl i

  -- `get` gives what is stored under the identifier and sets its minute of last use if the block is
  -- synced; a block that is not stored is not found and changes nothing. The minute is not 0, and the
  -- block comes after the others that were used at that minute.
  pub get-Holds :
      (now : ℕ) (s : LmdbRepoStore M I) (a : Contents) (i : BlockId)
      → Holds x c sl ml s a
      → (now == 0) ≡ false
      → Last x c sl ml a now (c.id_to_vec i)
      → (s' : LmdbRepoStore M I) × (get x c single multi now s i
          ≡ (answer (a.blocks (c.id_to_vec i)), s'))
        × Holds x c sl ml s' (after_get now (c.id_to_vec i) a (a.blocks (c.id_to_vec i)))
  unfolding get
  get-Holds now s a i h late last = elim (Option-cases (a.blocks (c.id_to_vec i))) [
    | inl missing ↦ (s, rw (sl.get_view, h.main, missing), rw missing h)
    | inr (b, found) ↦
        let (s', touched, holds) = touch-Holds now s a (c.id_to_vec i) h late last in
        (
          s',
          rw (sl.get_view, h.main, found, touched, decode_lem i b (h.named _ b found)),
          rw found holds,
        )
  ]
