-- ===== src/Commit/Verify.antt =====
-- lofire/src/commit.rs: `Commit::verify_perm` and `Commit::verify`.
use lofire_rs.Common.{
  ℕ, none, some, Option, Outcome, ok, err, ◌>>=◌, ◌>>◌, map_err, Bool, false, if◌then◌else◌,
}
use lofire_rs.Types.{Branch, Commit, CommitBody, MemberV0}
use lofire_rs.Crates.{Crates}
use lofire_rs.Object.Persist.{Getter}
use lofire_rs.Branch.{get_member, has_perm}
use lofire_rs.Commit.{
  CommitVerifyError, Ed25519, invalid_signature, permission_denied, body_load_error, dep_load_error,
  to_type, verify_sig,
}
use lofire_rs.Commit.Load.{load_body, verify_deps}

-- A member that was found or not has the permission.
abbrev pub permits : Option MemberV0 → CommitBody → Bool
permits none body = false
permits (some m) body = has_perm m (to_type body)

-- `Commit::verify_perm`
unfoldable pub verify_perm : Commit → CommitBody → Branch → Outcome {0} CommitVerifyError Unit
unfolding get_member
verify_perm c body branch =
    if permits (get_member branch c.v0.content.author) body then ok tt else err permission_denied

-- `Commit::verify`
unfoldable pub verify :
    Ed25519 → Crates → Getter → ℕ → ℕ → Commit → Branch → Outcome {0} CommitVerifyError Unit
unfolding verify_sig load_body verify_deps verify_perm
verify ed x get fuel depth c branch = do
  map_err (λ _. invalid_signature) (verify_sig ed c)
  body ← map_err body_load_error (load_body x get fuel c)
  verify_perm c body branch
  map_err dep_load_error (verify_deps x get fuel depth c)
  ok tt
