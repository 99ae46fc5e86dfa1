-- ===== src/Commit/Deps.antt =====
-- lofire/src/commit.rs: what a call of `Commit::verify_deps` that returns has found.
use lofire_rs.Common.{ℕ, get_elem?, beq, false, Option, some, ok, ◌≡◌}
use lofire_rs.Types.{Commit, CommitBody, CommitType, ObjectRef, commit_type_has_eq, digest_has_eq}
use lofire_rs.Crates.{Crates}
use lofire_rs.Object.Persist.{Getter}
use lofire_rs.Commit.{to_type, deps_acks}
use lofire_rs.Commit.Load.{load, load_body}

module _ (x : Crates) (get : Getter) (fuel : ℕ) where
  -- The commits that a commit reaches over dependencies that load.
  pub data Reach (c : Commit) : Commit → Type 0 where
    start : Reach c c
    step :
        {d e : Commit} (body : CommitBody) (n : ℕ) (r : ObjectRef)
        → Reach c d
        → load_body x get fuel d ≡ ok body
        → beq (to_type body) CommitType.branch ≡ false
        → get_elem? (deps_acks d) n ≡ some r
        → load x get fuel r ≡ ok e
        → Reach c e
