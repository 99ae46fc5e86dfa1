-- ===== src/Repo.antt =====
-- lofire/src/repo.rs: the construction of repositories.
use lofire_rs.Common.{Bytes, List, Bool}
use lofire_rs.Types.{ObjectRef, PubKey, Repository, RepositoryV0}

-- `RepositoryV0::new`, `Repository::new`
unfoldable pub new_v0 : PubKey → List ObjectRef → Bool → Bytes → RepositoryV0
new_v0 id branches allow_ext_requests metadata = record {
  id = id;
  branches = branches;
  allow_ext_requests = allow_ext_requests;
  metadata = metadata;
}

unfoldable pub new : PubKey → List ObjectRef → Bool → Bytes → Repository
unfolding new_v0
new id branches allow_ext_requests metadata = record {
  v0 = new_v0 id branches allow_ext_requests metadata;
}
