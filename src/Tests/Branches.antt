-- ===== src/Tests/Branches.antt =====
-- A request for synchronization.
use lofire_rs.Common.{
  ℕ, Bytes, List, [], ◌∷◌, contains, Bool, true, false, beq, Bool-cases, inl, inr, none, some,
  Outcome, ok, err, ◌⊎◌, ◌≡◌, ◌↔◌, refl, sym, eq_of_beq, if◌then◌else◌, ok-injective, ◌==◌,
}
use mathlib.Core.Path.{subst}
use lofire_rs.Types.{Block, BloomFilter, data_chunk, ObjectId, object_id_list, digest_has_eq}
use lofire_rs.Block
use lofire_rs.Store.{not_found}
use lofire_rs.Object
use lofire_rs.Object.{Object, ObjectParseError}
use lofire_rs.Object.Build.{make_block}
use lofire_rs.Object.ManyDeps.{load-missing}
use lofire_rs.Object.Persist
use lofire_rs.Object.Persist.{Getter}
use lofire_rs.Branch.Sync.{sync_req}
use lofire_rs.Branch.Walk.{Loads, Honest, Met}
use lofire_rs.Branch.Answer.{sync_req-answer}
use lofire_rs.Commit.Sets.{Ends}
use lofire_rs.Tests.Crate.{crates}

-- The identifier of a block with this one byte.
abbrev id_of : ℕ → ObjectId
id_of b = record { blake3_digest32 = b ∷ 1 ∷ [] }

one_byte : ℕ → List ObjectId → Block
unfolding make_block
one_byte b deps =
    make_block crates (crates.block_content_to_vec (data_chunk (b ∷ []))) [] []
      (object_id_list deps) none

-- A root, a commit after it, and one after that.
abbrev get : Getter
get i =
    if beq (id_of 5) i
    then ok (one_byte 5 [])
    else if beq (id_of 6) i
    then ok (one_byte 6 (id_of 5 ∷ []))
    else if beq (id_of 7) i
    then ok (one_byte 7 (id_of 6 ∷ []))
    else err not_found

abbrev Named : ObjectId → Object → Type 0
Named k o = Object.id {E = ObjectParseError} crates o ≡ ok k

object_5 : (o : Object) → Loads crates get 2 (id_of 5) o → Named (id_of 5) o
unfolding Persist.load Persist.load_tree Persist.set_root_key one_byte crates
    lofire_rs.Common.bytes_eq Block.new Block.id Object.id
object_5 o h = subst (Named (id_of 5)) (ok-injective _ o h) refl

object_6 : (o : Object) → Loads crates get 2 (id_of 6) o → Named (id_of 6) o
unfolding Persist.load Persist.load_tree Persist.set_root_key one_byte crates
    lofire_rs.Common.bytes_eq Block.new Block.id Object.id
object_6 o h = subst (Named (id_of 6)) (ok-injective _ o h) refl

object_7 : (o : Object) → Loads crates get 2 (id_of 7) o → Named (id_of 7) o
unfolding Persist.load Persist.load_tree Persist.set_root_key one_byte crates
    lofire_rs.Common.bytes_eq Block.new Block.id Object.id
object_7 o h = subst (Named (id_of 7)) (ok-injective _ o h) refl

failed :
    {e : ObjectParseError} {o : Object}
    → ◌≡◌ {A = Outcome ObjectParseError Object} (err e) (ok o)
    → ⊥
failed h = cc

object_at :
    (j k : ObjectId) (o : Object)
    → ((p : Object) → Loads crates get 2 j p → Named j p)
    → beq j k ≡ true
    → Loads crates get 2 k o
    → Named k o
object_at j k o named e h =
    let same = eq_of_beq j k e in
    subst (λ t. Named t o) same (named o (subst (λ t. Loads crates get 2 t o) (sym same) h))

-- An identifier is one of the three, or nothing is stored under it.
get-cases :
    (k : ObjectId)
    → (beq (id_of 5) k ≡ true)
      ⊎ ((beq (id_of 6) k ≡ true) ⊎ ((beq (id_of 7) k ≡ true) ⊎ (get k ≡ err not_found)))
get-cases k = elim (Bool-cases (beq (id_of 5) k)) [
  | inl e ↦ inl e
  | inr e ↦ elim (Bool-cases (beq (id_of 6) k)) [
    | inl e1 ↦ inr (inl e1)
    | inr e1 ↦ elim (Bool-cases (beq (id_of 7) k)) [
      | inl e2 ↦ inr (inr (inl e2))
      | inr e2 ↦ inr (inr (inr (rw (e, e1, e2) refl)))
    ]
  ]
]

honest : Honest crates get 2
honest k o h = elim (get-cases k) [
  | inl e ↦ object_at (id_of 5) k o object_5 e h
  | inr (inl e) ↦ object_at (id_of 6) k o object_6 e h
  | inr (inr (inl e)) ↦ object_at (id_of 7) k o object_7 e h
  | inr (inr (inr e)) ↦ absurd (failed (rw (load-missing crates get 1 k none e) at h))
]

abbrev stock : List ObjectId
stock = id_of 5 ∷ id_of 6 ∷ id_of 7 ∷ []

abbrev filter : BloomFilter
filter = record { k = 1; f = 9 ∷ [] }

abbrev filter_contains : BloomFilter → Bytes → Bool
filter_contains f [] = false
filter_contains f (b ∷ bs) = b == 9

answered :
    sync_req crates filter_contains get 2 4 (id_of 7 ∷ []) (id_of 6 ∷ []) filter ≡ ok (id_of 7 ∷ [])
unfolding sync_req Persist.load Persist.load_tree Persist.set_root_key one_byte crates
    lofire_rs.Common.bytes_eq Block.new Block.id Object.id contains lofire_rs.Branch.Sync.difference
    lofire_rs.Branch.Sync.remove_theirs
answered = refl

sync_req-answer_example : (contains (id_of 7) (id_of 7 ∷ []) ≡ true) ↔ (
    Met crates get 2 (id_of 7 ∷ []) (id_of 6 ∷ []) (id_of 7)
    × (Met crates get 2 (id_of 6 ∷ []) [] (id_of 7) → ⊥)
    × (filter_contains filter (7 ∷ 1 ∷ []) ≡ false))
sync_req-answer_example =
    sync_req-answer crates filter_contains get 2 4 (id_of 7 ∷ []) (id_of 6 ∷ []) filter
      (id_of 7 ∷ []) honest answered (id_of 7)
