-- ===== src/Branch/Sync.antt =====
-- lofire/src/branch.rs: `Branch::sync_req`.
use lofire_rs.Common.{
  ℕ, zero, suc, Bytes, List, [], ◌∷◌, contains, Bool, ◌||◌, none, Outcome, ok, err, panic,
  out_of_fuel, ◌>>=◌, if◌then◌else◌,
}
use lofire_rs.Types.{BloomFilter, ObjectId, digest_has_eq}
use lofire_rs.Crates.{Crates}
use lofire_rs.Object
use lofire_rs.Object.{Object, ObjectParseError}
use lofire_rs.Object.Build.{is_empty}
use lofire_rs.Object.Persist
use lofire_rs.Object.Persist.{Getter}
use lofire_rs.Commit.Load.{Walked, add, extend}

abbrev pub Visit : Type 0
Visit = Object → Walked → Outcome ObjectParseError (Bool × Walked)

-- What the loop does with the dependency `id`, which was loaded or not.
unfoldable pub with_dep :
    Visit
    → ObjectId
    → Outcome ObjectParseError Object
    → Bool
    → Walked
    → Outcome ObjectParseError (Bool × Walked)
with_dep visit id (ok o) found s =
    let walk = (do (found_there, s') ← visit o s; ok (found_there || found, s')) in
    if contains id s.visited then ok (found, s) else walk
with_dep visit id (err (ObjectParseError.missing_blocks m)) found s =
    ok (found, record s { missing = extend s.missing m })
with_dep visit id (err ObjectParseError.missing_root_key) found s =
    err ObjectParseError.missing_root_key
with_dep visit id (err ObjectParseError.invalid_block_id) found s =
    err ObjectParseError.invalid_block_id
with_dep visit id (err ObjectParseError.invalid_children) found s =
    err ObjectParseError.invalid_children
with_dep visit id (err ObjectParseError.invalid_keys) found s = err ObjectParseError.invalid_keys
with_dep visit id (err ObjectParseError.invalid_deps) found s = err ObjectParseError.invalid_deps
with_dep visit id (err ObjectParseError.block_deserialize_error) found s =
    err ObjectParseError.block_deserialize_error
with_dep visit id (err ObjectParseError.object_deserialize_error) found s =
    err ObjectParseError.object_deserialize_error
with_dep visit id panic found s = panic
with_dep visit id out_of_fuel found s = out_of_fuel

-- `fuel` is that of `Object::load`.
module _ (x : Crates) (get : Getter) (fuel : ℕ) where
  -- The `for` loop of `load_branch`.
  unfoldable pub load_deps :
      Visit → List ObjectId → Bool → Walked → Outcome ObjectParseError (Bool × Walked)
  unfolding with_dep
  load_deps visit [] found s = ok (found, s)
  load_deps visit (id ∷ deps) found s = do
    (found', s') ← with_dep visit id (Persist.load x get fuel id none) found s
    load_deps visit deps found' s'

  -- `load_branch`, to a depth.
  unfoldable pub load_branch : ℕ → List ObjectId → Visit
  unfolding load_deps
  load_branch zero their_heads cobj s = out_of_fuel
  load_branch (suc depth) their_heads cobj s = do
    id ← Object.id x cobj
    let their_head_found = contains id their_heads
    let deps =
        load_deps (load_branch depth their_heads) cobj.deps their_head_found
          (record s { visited = add id s.visited })
    if is_empty cobj.deps || their_head_found then ok (their_head_found, s) else deps

  -- The loop over `our_heads` and the one over `their_heads`, with the commits collected so far.
  unfoldable pub walk_heads :
      ℕ → List ObjectId → List ObjectId → Walked → Outcome ObjectParseError Walked
  unfolding load_branch
  walk_heads depth their_heads [] s = ok s
  walk_heads depth their_heads (id ∷ heads) s = do
    cobj ← Persist.load x get fuel id none
    (_, s') ← load_branch depth their_heads cobj (record { visited = []; missing = s.missing })
    walk_heads depth their_heads heads
        (record { visited = extend s.visited s'.visited; missing = s'.missing })

-- `&ours - &theirs`
unfoldable pub difference : List ObjectId → List ObjectId → List ObjectId
difference [] theirs = []
difference (id ∷ ours) theirs =
    let rest = difference ours theirs in if contains id theirs then rest else id ∷ rest

-- The removal of what their filter contains; `filter_contains` is `Membership::contains` of the
-- fastbloom_rs filter that is made of the bytes and the `k` of a filter.
unfoldable pub remove_theirs :
    (BloomFilter → Bytes → Bool) → BloomFilter → List ObjectId → List ObjectId
remove_theirs filter_contains filter [] = []
remove_theirs filter_contains filter (id ∷ ids) =
    let rest = remove_theirs filter_contains filter ids in
    if filter_contains filter id.blake3_digest32 then rest else id ∷ rest

-- `Branch::sync_req`
unfoldable pub sync_req :
    Crates
    → (BloomFilter → Bytes → Bool)
    → Getter
    → ℕ
    → ℕ
    → List ObjectId
    → List ObjectId
    → BloomFilter
    → Outcome ObjectParseError (List ObjectId)
unfolding walk_heads
sync_req x filter_contains get fuel depth our_heads their_heads their_filter = do
  ours ← walk_heads x get fuel depth their_heads our_heads (record { visited = []; missing = [] })
  theirs ←
      walk_heads x get fuel depth [] their_heads (record { visited = []; missing = ours.missing })
  ok (remove_theirs filter_contains their_filter (difference ours.visited theirs.visited))
