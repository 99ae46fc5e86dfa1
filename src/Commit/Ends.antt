-- ===== src/Commit/Ends.antt =====
-- lofire/src/commit.rs: the depth to which `verify_deps` walks.
use lofire_rs.Common.{ℕ, ◌<◌, List, contains, true, Outcome, ok, ◌≡◌}
use lofire_rs.Types.{Commit, ObjectId, ObjectRef, digest_has_eq}
use lofire_rs.Crates.{Crates}
use lofire_rs.Object.Persist.{Getter}
use lofire_rs.Commit.{CommitLoadError, id}
use lofire_rs.Commit.Load.{Walked, load, load_body}
use lofire_rs.Commit.Sets.{Sub, fresh, Ends}

abbrev Visit : Type 0
Visit = Commit → Walked → Outcome CommitLoadError Walked

-- A visit that returns leaves what was visited.
abbrev Grows : Visit → Type 0
Grows visit = (c : Commit) (s s' : Walked) → visit c s ≡ ok s' → Sub s.visited s'.visited

module _ (x : Crates) (get : Getter) (fuel : ℕ) where
  -- Loading commits and their bodies does not run out of fuel.
  abbrev pub LoadsEnd : Type 0
  LoadsEnd =
      ((r : ObjectRef) → Ends (load x get fuel r)) × ((c : Commit) → Ends (load_body x get fuel c))

  -- The commits that load have an identifier in `U`.
  abbrev pub Stock : List ObjectId → Type 0
  Stock U = (r : ObjectRef) (c : Commit) → load x get fuel r ≡ ok c → contains r.id U ≡ true

  module _ (U : List ObjectId) (ends : LoadsEnd) (stock : Stock U) where
    abbrev VisitEnds : ℕ → Visit → Type 0
    VisitEnds n visit =
        (r : ObjectRef) (c : Commit) (s : Walked)
        → load x get fuel r ≡ ok c
        → fresh U s.visited < n
        → Ends (visit c s)
