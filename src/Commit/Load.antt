-- ===== src/Commit/Load.antt =====
-- lofire/src/commit.rs: `Commit::load`, `load_body` and the walk of `verify_deps`.
use lofire_rs.Common.{
  ℕ, zero, suc, List, [], ◌∷◌, contains, beq, Bool, false, Option, none, some, Outcome, ok, err,
  panic, out_of_fuel, ◌>>=◌, map_err, if◌then◌else◌,
}
use lofire_rs.Types.{
  BlockId, Commit, CommitBody, CommitType, ObjectContent, ObjectId, ObjectRef, commit_type_has_eq,
  digest_has_eq,
}
use lofire_rs.Crates.{Crates}
use lofire_rs.Object.{ObjectParseError}
use lofire_rs.Object.Read
use lofire_rs.Object.Persist
use lofire_rs.Object.Persist.{Getter}
use lofire_rs.Commit.{
  CommitLoadError, missing_blocks, object_parse_error, deserialize_error, to_type, id, deps_acks,
  set_id, set_key,
}

-- Errors of `Object::load` and of `Object::content`, as errors of loading a commit.
abbrev pub of_load_error : ObjectParseError → CommitLoadError
of_load_error (ObjectParseError.missing_blocks m) = missing_blocks m
of_load_error ObjectParseError.missing_root_key = object_parse_error
of_load_error ObjectParseError.invalid_block_id = object_parse_error
of_load_error ObjectParseError.invalid_children = object_parse_error
of_load_error ObjectParseError.invalid_keys = object_parse_error
of_load_error ObjectParseError.invalid_deps = object_parse_error
of_load_error ObjectParseError.block_deserialize_error = object_parse_error
of_load_error ObjectParseError.object_deserialize_error = object_parse_error

abbrev pub commit_of : ObjectContent → Outcome CommitLoadError Commit
commit_of (ObjectContent.commit c) = ok c
commit_of (ObjectContent.commit_body _) = err deserialize_error
commit_of (ObjectContent.file _) = err deserialize_error
commit_of (ObjectContent.dep_list _) = err deserialize_error

abbrev pub body_of : ObjectContent → Outcome CommitLoadError CommitBody
body_of (ObjectContent.commit _) = err deserialize_error
body_of (ObjectContent.commit_body b) = ok b
body_of (ObjectContent.file _) = err deserialize_error
body_of (ObjectContent.dep_list _) = err deserialize_error

-- The two sets of `verify_deps`, as lists without repetitions.
pub record Walked : Type 0 where
  pub visited : List ObjectId
  pub missing : List BlockId

-- `HashSet::insert` and `extend`
abbrev pub add : ObjectId → List ObjectId → List ObjectId
add i s = if contains i s then s else i ∷ s

abbrev pub extend : List ObjectId → List ObjectId → List ObjectId
extend s [] = s
extend s (i ∷ is) = extend (add i s) is

-- The commit was visited already: it has an identifier and that is in the set.
abbrev pub was_visited : Option ObjectId → List ObjectId → Bool
was_visited none visited = false
was_visited (some i) visited = contains i visited

abbrev pub mark : Option ObjectId → List ObjectId → List ObjectId
mark none visited = visited
mark (some i) visited = i ∷ visited

-- `is_root`: the body is that of the root of a branch; missing blocks are noted.
unfoldable pub check_body :
    Outcome CommitLoadError CommitBody → Walked → Outcome CommitLoadError (Bool × Walked)
check_body (ok body) s = ok (beq (to_type body) CommitType.branch, s)
check_body (err (missing_blocks m)) s = ok (false, record s { missing = extend s.missing m })
check_body (err object_parse_error) s = err object_parse_error
check_body (err deserialize_error) s = err deserialize_error
check_body panic s = panic
check_body out_of_fuel s = out_of_fuel

-- What the loop does with a dependency that was loaded or not.
unfoldable pub with_dep :
    (Commit → Walked → Outcome CommitLoadError Walked)
    → Outcome CommitLoadError Commit
    → Walked
    → Outcome CommitLoadError Walked
with_dep visit (ok c) s = visit c s
with_dep visit (err (missing_blocks m)) s = ok (record s { missing = extend s.missing m })
with_dep visit (err object_parse_error) s = err object_parse_error
with_dep visit (err deserialize_error) s = err deserialize_error
with_dep visit panic s = panic
with_dep visit out_of_fuel s = out_of_fuel

-- `fuel` is that of `Object::load`.
module _ (x : Crates) (get : Getter) (fuel : ℕ) where
  -- `Commit::load`
  unfoldable pub load : ObjectRef → Outcome CommitLoadError Commit
  unfolding set_id set_key
  load commit_ref = do
    obj ← map_err of_load_error (Persist.load x get fuel commit_ref.id (some commit_ref.key))
    content ← map_err (λ _. object_parse_error) (Read.content x obj)
    commit ← commit_of content
    ok (set_key commit_ref.key (set_id commit_ref.id commit))

  -- `Commit::load_body`
  unfoldable pub load_body : Commit → Outcome CommitLoadError CommitBody
  load_body c = do
    let body = c.v0.content.body
    obj ← map_err of_load_error (Persist.load x get fuel body.id (some body.key))
    content ← map_err (λ _. object_parse_error) (Read.content x obj)
    body_of content

  -- The `for` loop of `load_branch`.
  unfoldable pub load_deps :
      (Commit → Walked → Outcome CommitLoadError Walked)
      → List ObjectRef
      → Walked
      → Outcome CommitLoadError Walked
  unfolding with_dep load
  load_deps visit [] s = ok s
  load_deps visit (dep ∷ deps) s = do s' ← with_dep visit (load dep) s; load_deps visit deps s'

  -- `load_branch`, to a depth.
  unfoldable pub load_branch : ℕ → Commit → Walked → Outcome CommitLoadError Walked
  unfolding load_deps check_body load_body deps_acks
  load_branch zero commit s = out_of_fuel
  load_branch (suc depth) commit s =
      let walk = (do
        (is_root, s') ←
            check_body (load_body commit) (record s { visited = mark (id commit) s.visited })
        let deps = load_deps (load_branch depth) (deps_acks commit) s'
        if is_root then ok s' else deps) in
      if was_visited (id commit) s.visited then ok s else walk

  -- `Commit::verify_deps`
  unfoldable pub verify_deps : ℕ → Commit → Outcome CommitLoadError (List ObjectId)
  unfolding load_branch
  verify_deps depth commit = do
    s ← load_branch depth commit (record { visited = []; missing = [] })
    elim s.missing [ [] ↦ ok s.visited | m ∷ ms ↦ err (missing_blocks (m ∷ ms)) ]
