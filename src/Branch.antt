-- ===== src/Branch.antt =====
-- lofire/src/branch.rs: members, branches and the answer to a request for synchronization.
pub mod Sync
pub mod Walk
pub mod Answer
pub mod Ends
use lofire_rs.Common.{
  ℕ, Bytes, List, [], ◌∷◌, Bool, true, false, contains, Option, none, some, beq, if◌then◌else◌,
}
use lofire_rs.Types.{
  Branch, BranchV0, CommitType, Member, MemberV0, PubKey, RelTime, SymKey, commit_type_has_eq,
  pub_key_has_eq,
}

-- `MemberV0::new`, `Member::new`
unfoldable pub new_member_v0 : PubKey → List CommitType → Bytes → MemberV0
new_member_v0 id commit_types metadata = record {
  id = id;
  commit_types = commit_types;
  metadata = metadata;
}

unfoldable pub new_member : PubKey → List CommitType → Bytes → Member
unfolding new_member_v0
new_member id commit_types metadata = record { v0 = new_member_v0 id commit_types metadata }

-- `MemberV0::has_perm`, `Member::has_perm`
unfoldable pub has_perm : MemberV0 → CommitType → Bool
has_perm m commit_type = contains commit_type m.commit_types

unfoldable pub member_has_perm : Member → CommitType → Bool
unfolding has_perm
member_has_perm m commit_type = has_perm m.v0 commit_type

-- `BranchV0::new`, `Branch::new`
unfoldable pub new_v0 :
    PubKey
    → PubKey
    → SymKey
    → List MemberV0
    → List (CommitType × ℕ)
    → RelTime
    → Bytes
    → Bytes
    → BranchV0
new_v0 id topic secret members quorum ack_delay tags metadata = record {
  id = id;
  topic = topic;
  secret = secret;
  members = members;
  quorum = quorum;
  ack_delay = ack_delay;
  tags = tags;
  metadata = metadata;
}

unfoldable pub new :
    PubKey
    → PubKey
    → SymKey
    → List MemberV0
    → List (CommitType × ℕ)
    → RelTime
    → Bytes
    → Bytes
    → Branch
unfolding new_v0
new id topic secret members quorum ack_delay tags metadata = record {
  v0 = new_v0 id topic secret members quorum ack_delay tags metadata;
}

-- The loop of `Branch::get_member`.
unfoldable pub find_member : PubKey → List MemberV0 → Option MemberV0
find_member id [] = none
find_member id (m ∷ ms) = if beq m.id id then some m else find_member id ms

-- `Branch::get_member`
unfoldable pub get_member : Branch → PubKey → Option MemberV0
unfolding find_member
get_member b id = find_member id b.v0.members
