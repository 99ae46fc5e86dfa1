-- ===== src/Lmdb/RepoStore/LeastUsed.antt =====
-- lofire-store-lmdb/src/repostore.rs: `remove_least_used`.
use mathlib.Core.Option.{some-injective}
use mathlib.Core.Path.{subst}
use lofire_rs.Common.{
  ℕ, ◌+◌, ◌≤◌, ◌≡◌, ◌≢◌, ◌⊎◌, Bytes, bytes_eq, bytes_eq_iff, beq_refl, bytes_has_eq, true, false,
  Option, some, none, List, [], ◌∷◌, ok, Bool-cases, inl, inr, ◌==◌, leb, leb→le, arith, sym, ap,
  ◌∙◌, refl, if_true, if_false, if◌then◌else◌, length, nat_has_eq, eq_of_beq,
}
use lofire_rs.Types.{Block, BlockId}
use lofire_rs.Crates.{Crates}
use lofire_rs.Block
use lofire_rs.Lmdb.Rkv.{
  SingleStore, SingleStoreLaws, MultiIntegerStore, MultiIntegerStoreLaws, member, Distinct, oks-map,
}
use lofire_rs.Lmdb.RepoStore.{
  LmdbRepoStore, BlockMeta, Codec, block_ids, del_until, remove_least_used,
}
use lofire_rs.Lmdb.RepoStore.Abstract.{Contents, set, tracked, Holds, forget}
use lofire_rs.Lmdb.RepoStore.Deletion.{Removable, del-found}

-- Only metas of stored blocks.
unfoldable pub Stored : Contents → Type 0
Stored a = (k : Bytes) (m : BlockMeta) → a.metas k ≡ some m → (b : Block) × (a.blocks k ≡ some b)

tracked-inv :
    (o : Option BlockMeta) (t : ℕ)
    → tracked o t ≡ true
    → (m : BlockMeta) × (o ≡ some m) × ((m.last_used == t) ≡ true)
tracked-inv none t h = absurd (no_truth h)
  where
    no_truth : false ≢ true
    no_truth e = cc
tracked-inv (some m) t h = (m, refl, ground arith)

same_time : (o : Option BlockMeta) (t u : ℕ) → tracked o t ≡ true → tracked o u ≡ true → t ≡ u
same_time o t u at_t at_u =
    let (m, found, last) = tracked-inv o t at_t in
    let (n, found', last') = tracked-inv o u at_u in
    sym (eq_of_beq m.last_used t last)
    ∙ ap (λ (k : BlockMeta). k.last_used) (some-injective _ _ (sym found ∙ found'))
    ∙ eq_of_beq n.last_used u last'

member-first : (t : ℕ) (k : Bytes) (l : List (ℕ × Bytes)) → member t k ((t, k) ∷ l) ≡ true
unfolding member
member-first t k l = rw (beq_refl t, beq_refl k)

member-rest :
    (u : ℕ) (j : Bytes) (t : ℕ) (k : Bytes) (l : List (ℕ × Bytes))
    → member u j l ≡ true
    → member u j ((t, k) ∷ l) ≡ true
unfolding member
member-rest u j t k l h = rw h (ground arith)

member-other :
    (u : ℕ) (j : Bytes) (t : ℕ) (k : Bytes) (l : List (ℕ × Bytes))
    → bytes_eq k j ≡ false
    → member u j ((t, k) ∷ l) ≡ member u j l
unfolding member
member-other u j t k l other = elim (Bool-cases (t == u)) [ inl e ↦ rw (e, other) | inr e ↦ rw e ]

module _ (x : Crates) (c : Codec x) {M I : Type 0} {single : SingleStore M}
    {multi : MultiIntegerStore I} (sl : SingleStoreLaws single)
    (ml : MultiIntegerStoreLaws multi) where
  abbrev pub block_size : Option Block → ℕ
  block_size none = 0
  block_size (some b) = length (x.block_to_vec b)

  -- Forgets the blocks of the list, one after the other, until `size` is reached.
  unfoldable pub reclaim : ℕ → ℕ → Contents → List (ℕ × Bytes) → ℕ × Contents
  reclaim size total a [] = (total, a)
  reclaim size total a ((t, k) ∷ rest) =
      let more = reclaim size (total + block_size (a.blocks k)) (forget k a) rest in
      if leb size (total + block_size (a.blocks k))
      then (total + block_size (a.blocks k), forget k a)
      else more

  -- The list is the list of use of the contents.
  UseOf : Contents → List (ℕ × Bytes) → Type 0
  UseOf a l = ((t : ℕ) (k : Bytes) → tracked (a.metas k) t ≡ member t k l) × Distinct l × Stored a

  forget-UseOf :
      (a : Contents) (t : ℕ) (k : Bytes) (rest : List (ℕ × Bytes))
      → UseOf a ((t, k) ∷ rest)
      → UseOf (forget k a) rest
  unfolding UseOf member Distinct Stored
  forget-UseOf a t k rest (same, distinct, stored) = (others, distinct.1, still)
    where
      there : tracked (a.metas k) t ≡ true
      there = same t k ∙ member-first t k rest

      once : (u : ℕ) → member u k rest ≡ false
      once u = elim (Bool-cases (member u k rest)) [
        | inl again ↦
            let both =
              same_time (a.metas k) t u there (same u k ∙ member-rest u k t k rest again) in
            ap (λ v. member v k rest) (sym both) ∙ distinct.0
        | inr never ↦ never
      ]

      others : (u : ℕ) (j : Bytes) → tracked (set k none a.metas j) u ≡ member u j rest
      others u j = elim (Bool-cases (bytes_eq k j)) [
        | inl e ↦ rw e (sym (ap (λ i. member u i rest) (sym ((bytes_eq_iff k j).0 e)) ∙ once u))
        | inr e ↦ rw e (same u j ∙ member-other u j t k rest e)
      ]

      none_is_not_some : {m : BlockMeta} → none ≢ some m
      none_is_not_some e = cc

      still :
          (j : Bytes) (m : BlockMeta)
          → set k none a.metas j ≡ some m
          → (b : Block) × (set k none a.blocks j ≡ some b)
      still j m h = elim (Bool-cases (bytes_eq k j)) [
        | inl e ↦ absurd (none_is_not_some (rw e at h))
        | inr e ↦ rw e (stored j m (rw e at h))
      ]

  -- The identifiers that the values of the list stand for.
  data Names : List (ℕ × Bytes) → List BlockId → Type 0 where
    none_left : Names [] []
    name :
        (t : ℕ) (i : BlockId) {l : List (ℕ × Bytes)} {ids : List BlockId}
        → Names l ids
        → Names ((t, c.id_to_vec i) ∷ l) (i ∷ ids)

  names :
      (l : List (ℕ × Bytes))
      → ((t : ℕ) (k : Bytes) → member t k l ≡ true → (i : BlockId) × (c.id_to_vec i ≡ k))
      → (ids : List BlockId) × (block_ids x c single multi l ≡ ok ids) × Names l ids
  unfolding block_ids
  names [] known = ([], refl, none_left)
  names ((t, k) ∷ l) known =
      let (i, named) = known t k (member-first t k l) in
      let (ids, read_all, all) = names l (λ u j h. known u j (member-rest u j t k l h)) in
      (
        i ∷ ids,
        rw (sym named, c.id_round_trip i, read_all),
        subst (λ j. Names ((t, j) ∷ l) (i ∷ ids)) named (name t i all),
      )

  removable :
      (a : Contents) (t : ℕ) (k : Bytes) → tracked (a.metas k) t ≡ true → Removable (a.metas k)
  unfolding Removable
  removable a t k there m found is_synced = ground (arith, rw found at there)

  reclaim-enough :
      (size total : ℕ) (a : Contents) (t : ℕ) (k : Bytes) (l : List (ℕ × Bytes)) (b : Block)
      → a.blocks k ≡ some b
      → leb size (total + length (x.block_to_vec b)) ≡ true
      → reclaim size total a ((t, k) ∷ l) ≡ (total + length (x.block_to_vec b), forget k a)
  unfolding reclaim
  reclaim-enough size total a t k l b found enough = rw found (if_true _ enough)

  reclaim-more :
      (size total : ℕ) (a : Contents) (t : ℕ) (k : Bytes) (l : List (ℕ × Bytes)) (b : Block)
      → a.blocks k ≡ some b
      → leb size (total + length (x.block_to_vec b)) ≡ false
      → reclaim size total a ((t, k) ∷ l)
        ≡ reclaim size (total + length (x.block_to_vec b)) (forget k a) l
  unfolding reclaim
  reclaim-more size total a t k l b found more = rw found (if_false _ more)

  Reclaimed : ℕ → ℕ → LmdbRepoStore M I → List BlockId → ℕ × Contents → Type 0
  Reclaimed size total s ids r =
      (s' : LmdbRepoStore M I) × (del_until x c single multi s size total ids ≡ ok (r.0, s'))
      × Holds x c sl ml s' r.1

  del_until-Holds :
      (size total : ℕ) (s : LmdbRepoStore M I) (a : Contents) (l : List (ℕ × Bytes))
      (ids : List BlockId)
      → Names l ids
      → Holds x c sl ml s a
      → UseOf a l
      → (s' : LmdbRepoStore M I) × (del_until x c single multi s size total ids
          ≡ ok ((reclaim size total a l).0, s'))
        × Holds x c sl ml s' (reclaim size total a l).1
  unfolding reclaim del_until UseOf Stored Reclaimed
  del_until-Holds size total s a _ _ none_left h use_of = (s, refl, h)
  del_until-Holds size total s a _ _ (name t i {l = l} {ids = ids} rest) h use_of =
      let there = use_of.0 t (c.id_to_vec i) ∙ member-first t (c.id_to_vec i) l in
      let (m, meta, _) = tracked-inv (a.metas (c.id_to_vec i)) t there in
      let (b, found) = use_of.2 (c.id_to_vec i) m meta in
      let (s₁, deleted, holds) =
        del-found x c sl ml s a i b h (removable a t (c.id_to_vec i) there) found in
      let freed = total + length (x.block_to_vec b) in
      let (s₂, others, all) =
        del_until-Holds size freed s₁ (forget (c.id_to_vec i) a) l ids rest holds
          (forget-UseOf a t (c.id_to_vec i) l use_of) in
      elim (Bool-cases (leb size freed)) [
        | inl enough ↦
            subst (Reclaimed size total s (i ∷ ids))
              (sym (reclaim-enough size total a t (c.id_to_vec i) l b found enough))
              (s₁, rw deleted (if_true _ enough), holds)
        | inr more ↦
            subst (Reclaimed size total s (i ∷ ids))
              (sym (reclaim-more size total a t (c.id_to_vec i) l b found more))
              (s₂, rw deleted (if_false _ more ∙ others), all)
      ]

  -- Either enough is reclaimed, or no block is left in the list of use.
  reclaim_lem :
      (size total : ℕ) (a : Contents) (l : List (ℕ × Bytes))
      → UseOf a l
      → (size ≤ (reclaim size total a l).0)
        ⊎ ((t : ℕ) (k : Bytes) → tracked ((reclaim size total a l).1.metas k) t ≡ false)
  unfolding reclaim UseOf member
  reclaim_lem size total a [] use_of = inr (λ t k. use_of.0 t k)
  reclaim_lem size total a ((t, k) ∷ l) use_of =
      elim (Bool-cases (leb size (total + block_size (a.blocks k)))) [
        | inl enough ↦ subst Done (sym (if_true _ enough)) (inl (leb→le _ _ enough))
        | inr more ↦ subst Done (sym (if_false _ more)) (
            reclaim_lem size (total + block_size (a.blocks k)) (forget k a) l
              (forget-UseOf a t k l use_of))
      ]
    where
      Done : ℕ × Contents → Type 0
      Done r = (size ≤ r.0) ⊎ ((u : ℕ) (j : Bytes) → tracked (r.1.metas j) u ≡ false)

  -- `remove_least_used` returns what the blocks that it removes take: they are the first of the list
  -- of use, as many as reach `size` or all of them. Every block with a meta is stored.
  pub remove_least_used-reclaim :
      (size : ℕ) (s : LmdbRepoStore M I) (a : Contents)
      → Holds x c sl ml s a
      → Stored a
      → (s' : LmdbRepoStore M I) × (remove_least_used x c single multi s size
          ≡ ok ((reclaim size 0 a (ml.entries s.recently_used_store)).0, s'))
        × Holds x c sl ml s' (reclaim size 0 a (ml.entries s.recently_used_store)).1
        × ((size ≤ (reclaim size 0 a (ml.entries s.recently_used_store)).0)
            ⊎ ((t : ℕ) (k : Bytes) → ml.has s'.recently_used_store t k ≡ false))
  unfolding remove_least_used UseOf Stored
  remove_least_used-reclaim size s a h stored =
      let l = ml.entries s.recently_used_store in
      let use_of : UseOf a l = (
        λ t k. sym (h.used t k) ∙ ml.has_entries s.recently_used_store t k,
        ml.entries_distinct s.recently_used_store,
        stored,
      ) in
      let (ids, read_all, named) = names l (λ t k there. entry t k (use_of.0 t k ∙ there)) in
      let (s', removed, holds) = del_until-Holds size 0 s a l ids named h use_of in
      (
        s',
        rw (ml.iter_entries s.recently_used_store, oks-map l, read_all) removed,
        holds,
        elim (reclaim_lem size 0 a l use_of) [
          | inl enough ↦ inl enough
          | inr nothing ↦ inr (λ t k. holds.used t k ∙ nothing t k)
        ],
      )
    where
      entry :
          (t : ℕ) (k : Bytes) → tracked (a.metas k) t ≡ true → (i : BlockId) × (c.id_to_vec i ≡ k)
      entry t k there =
          let (m, meta, _) = tracked-inv (a.metas k) t there in
          let (b, found) = stored k m meta in (Block.get_id x b, h.named k b found)
