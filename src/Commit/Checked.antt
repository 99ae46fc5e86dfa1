-- ===== src/Commit/Checked.antt =====
-- lofire/src/commit.rs: what `Commit::verify` has checked of a commit that it accepts.
use lofire_rs.Common.{ℕ, List, contains, get_elem?, true, some, ◌≡◌}
use lofire_rs.Types.{
  Branch, Commit, CommitBody, MemberV0, PubKey, commit_type_has_eq, pub_key_has_eq,
}
use lofire_rs.Crates.{Crates}
use lofire_rs.Commit.{to_type}

-- A member of the branch has this key and may make commits of this type.
abbrev pub MayMake : List MemberV0 → PubKey → CommitBody → Type 0
MayMake members author body =
    (n : ℕ) × (m : MemberV0) × (get_elem? members n ≡ some m)
    × (m.id ≡ author)
    × (contains (to_type body) m.commit_types ≡ true)
