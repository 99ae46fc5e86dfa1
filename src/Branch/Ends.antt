-- ===== src/Branch/Ends.antt =====
-- lofire/src/branch.rs: the depth to which `Branch::sync_req` walks.
use lofire_rs.Common.{ℕ, ◌<◌, List, contains, true, false, none, ◌≡◌}
use lofire_rs.Types.{ObjectId, digest_has_eq}
use lofire_rs.Crates.{Crates}
use lofire_rs.Object.{Object}
use lofire_rs.Object.Persist
use lofire_rs.Object.Persist.{Getter}
use lofire_rs.Commit.Load.{Walked}
use lofire_rs.Commit.Sets.{fresh, Ends}
use lofire_rs.Branch.Sync.{Visit}
use lofire_rs.Branch.Walk.{Loads, Honest}

module _ (x : Crates) (get : Getter) (fuel : ℕ) where
  -- Loading an object does not run out of fuel.
  abbrev pub LoadsEnd : Type 0
  LoadsEnd = (k : ObjectId) → Ends (Persist.load x get fuel k none)

  -- The objects that load are among `U`.
  abbrev pub Stock : List ObjectId → Type 0
  Stock U = (k : ObjectId) (o : Object) → Loads x get fuel k o → contains k U ≡ true

  module _ (U stop : List ObjectId) (honest : Honest x get fuel) (ends : LoadsEnd)
      (stock : Stock U) where
    -- With fewer than `n` fresh objects a visit ends.
    abbrev VisitEnds : ℕ → Visit → Type 0
    VisitEnds n visit =
        (k : ObjectId) (o : Object) (s : Walked)
        → Loads x get fuel k o
        → contains k s.visited ≡ false
        → fresh U s.visited < n
        → Ends (visit o s)
