-- ===== src/Branch/Answer.antt =====
-- lofire/src/branch.rs: the answer of `Branch::sync_req` and the walks behind it.
use lofire_rs.Common.{
  ℕ, Bytes, List, [], ◌∷◌, contains, beq_refl, contains-cons, contains-tail, Bool, true, false,
  none, ok, >>=-eq-ok, ok-injective, ◌≡◌, refl, sym, ◌∙◌, ◌↔◌, arith, inl, inr,
}
use mathlib.Core.Path.{subst}
use lofire_rs.Types.{BloomFilter, ObjectId, digest_has_eq}
use lofire_rs.Crates.{Crates}
use lofire_rs.Object.{Object}
use lofire_rs.Object.Persist
use lofire_rs.Object.Persist.{Getter}
use lofire_rs.Commit.Load.{Walked, extend}
use lofire_rs.Commit.Sets.{
  Sub, impossible, contains-cons-cases, contains-extend, extend-left, extend-right,
}
use lofire_rs.Branch.Sync.{load_branch, walk_heads, difference, remove_theirs, sync_req}
use lofire_rs.Branch.Walk.{
  Loads, Honest, Inner, From, head, dep, Met, Closed, Closed-Sub, After, load_branch-After,
}

difference-In :
    (V W : List ObjectId) (i : ObjectId)
    → (contains i (difference V W) ≡ true) ↔ ((contains i V ≡ true) × (contains i W ≡ false))
unfolding difference contains
difference-In [] W i = ((λ h. absurd (impossible h refl)), (λ h. h.0))
difference-In (j ∷ V) W i = ground (arith, digest_has_eq.beq_iff j i, difference-In V W i)

remove_theirs-In :
    (filter_contains : BloomFilter → Bytes → Bool) (filter : BloomFilter) (V : List ObjectId)
    (i : ObjectId)
    → (contains i (remove_theirs filter_contains filter V) ≡ true)
      ↔ ((contains i V ≡ true) × (filter_contains filter i.blake3_digest32 ≡ false))
unfolding remove_theirs contains
remove_theirs-In filter_contains filter [] i = ((λ h. absurd (impossible h refl)), (λ h. h.0))
remove_theirs-In filter_contains filter (j ∷ V) i =
    ground (arith, digest_has_eq.beq_iff j i, remove_theirs-In filter_contains filter V i)

module _ (x : Crates) (get : Getter) (fuel : ℕ) (roots stop : List ObjectId) where
  -- All of a set is met, all of a set is closed.
  abbrev AllMet : List ObjectId → Type 0
  AllMet V = (i : ObjectId) → contains i V ≡ true → Met x get fuel roots stop i

  abbrev AllClosed : List ObjectId → Type 0
  AllClosed V = (i : ObjectId) → contains i V ≡ true → Closed x get fuel roots stop V i

  record Visited (heads V W : List ObjectId) : Type 0 where
    grows : Sub V W
    met : AllMet W
    closed : AllClosed W
    here :
        (k : ObjectId) (o : Object)
        → contains k heads ≡ true
        → Loads x get fuel k o
        → Inner x get fuel stop k o
        → contains k W ≡ true

  AllMet-extend :
      (k : ObjectId) (o : Object) (V W : List ObjectId)
      → AllMet V
      → After x get fuel roots stop k o [] W
      → AllMet (extend V W)
  unfolding contains
  AllMet-extend k o V W met after i h = elim (contains-extend V W i h) [
    | inl old ↦ met i old
    | inr new ↦ elim (after.met i new) [
      | inl nowhere ↦ absurd (impossible nowhere refl)
      | inr found ↦ found
    ]
  ]

  AllClosed-extend :
      (k : ObjectId) (o : Object) (V W : List ObjectId)
      → AllClosed V
      → After x get fuel roots stop k o [] W
      → AllClosed (extend V W)
  unfolding contains
  AllClosed-extend k o V W closed after i h = elim (contains-extend V W i h) [
    | inl old ↦ Closed-Sub x get fuel roots stop V _ i (extend-left V W) (closed i old)
    | inr new ↦ elim (after.closed i new) [
      | inl nowhere ↦ absurd (impossible nowhere refl)
      | inr found ↦ Closed-Sub x get fuel roots stop W _ i (extend-right V W) found
    ]
  ]

  walk_heads-Visited :
      Honest x get fuel
      → (depth : ℕ) (heads : List ObjectId) (s r : Walked) → Sub heads roots
      → AllMet s.visited
      → AllClosed s.visited
      → walk_heads x get fuel depth stop heads s ≡ ok r
      → Visited heads s.visited r.visited
  unfolding walk_heads contains
  walk_heads-Visited honest depth [] s r sub met closed h =
      subst (λ (t : Walked). Visited [] s.visited t.visited) (ok-injective s r h)
        (record {
          grows = λ i e. e;
          met = met;
          closed = closed;
          here = λ k o e l i. absurd (impossible e refl);
        })
  walk_heads-Visited honest depth (k ∷ heads) s r sub met closed h =
      let (o, loads, h1) = >>=-eq-ok (Persist.load x get fuel k none) _ h in
      let (q, walked, h2) = >>=-eq-ok (load_branch x get fuel depth stop o _) _ h1 in
      let after =
        load_branch-After x get fuel roots stop honest depth k o
          (record { visited = []; missing = s.missing }) q loads
          (head (sub k (contains-cons k k heads (beq_refl k))) loads) walked in
      let rest =
        walk_heads-Visited honest depth heads
          (record { visited = extend s.visited q.1.visited; missing = q.1.missing }) r
          (λ i e. sub i (contains-tail k i heads e)) (AllMet-extend k o _ _ met after)
          (AllClosed-extend k o _ _ closed after) h2 in
      record {
        grows = λ i e. rest.grows i (extend-left s.visited q.1.visited i e);
        met = rest.met;
        closed = rest.closed;
        here = λ j p e l inner. elim (contains-cons-cases k j heads e) [
          | inr tail ↦ rest.here j p tail l inner
          | inl same ↦
              subst (λ t. contains t r.visited ≡ true) same
                (rest.grows k (
                  extend-right s.visited q.1.visited k (
                    after.here (
                      subst (λ (t : Object). Inner x get fuel stop k t)
                        (ok-injective p o
                          (sym (subst (λ t. Loads x get fuel t p) (sym same) l) ∙ loads))
                        (subst (λ t. Inner x get fuel stop t p) (sym same) inner)))))
        ];
      }

From-Visited :
    (x : Crates) (get : Getter) (fuel : ℕ) (roots stop W : List ObjectId)
    → Visited x get fuel roots stop roots [] W
    → (k : ObjectId) (o : Object) → From x get fuel roots stop k o
    → Loads x get fuel k o × (Inner x get fuel stop k o → contains k W ≡ true)
From-Visited x get fuel roots stop W v k o (head root loads) = (loads, v.here k o root loads)
From-Visited x get fuel roots stop W v j p (dep {k} {o = o} from inner d loads) =
    let (loads', reached) = From-Visited x get fuel roots stop W v k o from in
    (loads, v.closed k (reached inner) o loads' j p d loads)

-- The walk from all heads visits what it comes to and goes on from, and nothing else.
walk_heads-Met :
    (x : Crates) (get : Getter) (fuel depth : ℕ) (roots stop missing : List ObjectId) (r : Walked)
    → Honest x get fuel
    → walk_heads x get fuel depth stop roots (record { visited = []; missing = missing }) ≡ ok r
    → (i : ObjectId) → (contains i r.visited ≡ true) ↔ Met x get fuel roots stop i
unfolding contains
walk_heads-Met x get fuel depth roots stop missing r honest h i =
    let v =
      walk_heads-Visited x get fuel roots stop honest depth roots
        (record { visited = []; missing = missing }) r (λ j e. e)
        (λ j e. absurd (impossible e refl)) (λ j e. absurd (impossible e refl)) h in
    (v.met i, λ met. (From-Visited x get fuel roots stop r.visited v i met.0 met.1).1 met.2)

unless_true : (b : Bool) → (b ≡ false) ↔ (b ≡ true → ⊥)
unless_true true = ((λ h k. impossible k h), (λ h. absurd (h refl)))
unless_true false = ((λ h k. impossible k h), (λ h. refl))

-- Where `sync_req` returns identifiers, these are exactly those of the objects that a walk from our
-- heads over dependencies that load comes to and goes on from, stopping at their heads and at objects
-- without dependencies; that such a walk from their heads, stopping only at objects without
-- dependencies, does not; and that their filter does not contain. This supposes that what is loaded
-- under an identifier has that identifier.
pub sync_req-answer :
    (x : Crates) (filter_contains : BloomFilter → Bytes → Bool) (get : Getter) (fuel depth : ℕ)
    (our_heads their_heads : List ObjectId) (their_filter : BloomFilter) (ids : List ObjectId)
    → Honest x get fuel
    → sync_req x filter_contains get fuel depth our_heads their_heads their_filter ≡ ok ids
    → (i : ObjectId)
    → (contains i ids ≡ true) ↔ (
        Met x get fuel our_heads their_heads i
        × (Met x get fuel their_heads [] i → ⊥)
        × (filter_contains their_filter i.blake3_digest32 ≡ false))
unfolding sync_req
sync_req-answer x filter_contains get fuel depth our_heads their_heads their_filter ids honest h i =
    let (ours, walked, h1) = >>=-eq-ok (walk_heads x get fuel depth their_heads our_heads _) _ h in
    let (theirs, walked', answer) = >>=-eq-ok (walk_heads x get fuel depth [] their_heads _) _ h1 in
    let our = walk_heads-Met x get fuel depth our_heads their_heads [] ours honest walked i in
    let their =
      walk_heads-Met x get fuel depth their_heads [] ours.missing theirs honest walked' i in
    let differ = difference-In ours.visited theirs.visited i in
    let kept =
      remove_theirs-In filter_contains their_filter (difference ours.visited theirs.visited) i in
    let absent = unless_true (contains i theirs.visited) in
    subst
      (λ V. (contains i V ≡ true) ↔ (
        Met x get fuel our_heads their_heads i
        × (Met x get fuel their_heads [] i → ⊥)
        × (filter_contains their_filter i.blake3_digest32 ≡ false)))
      (ok-injective _ ids answer)
      (
        λ e.
            let (both, unfiltered) = kept.0 e in
            let (in_ours, not_theirs) = differ.0 both in
            (our.0 in_ours, (λ met. absent.0 not_theirs (their.1 met)), unfiltered),
        λ m. kept.1 (differ.1 (our.1 m.0, absent.1 (λ e. m.1 (their.0 e))), m.2),
      )
