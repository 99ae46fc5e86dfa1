-- ===== src/Net/External.antt =====
-- lofire-net/src/types.rs: external requests, authentication and links.
use lofire_rs.Common.{ℕ, Bytes, Bool, Option, List}
use lofire_rs.Types.{Digest, SymKey, PubKey, PrivKey, Sig, Timestamp, Block, ObjectId, ObjectRef}
use lofire_rs.Net.Overlay.{Event, BranchHeadsReq, BranchSyncReq, EventResp, PeerAdvert}

pub record ExtObjectGetV0 : Type 0 where
  pub repo : PubKey
  pub ids : List ObjectId
  pub include_children : Bool
  pub expiry : Option Timestamp

pub record ExtObjectGet : Type 0 where
  pub v0 : ExtObjectGetV0

abbrev pub ExtBranchHeadsReq : Type 0
ExtBranchHeadsReq = BranchHeadsReq

abbrev pub ExtBranchSyncReq : Type 0
ExtBranchSyncReq = BranchSyncReq

pub data ExtRequestContentV0 : Type 0 where
  ext_object_get : ExtObjectGet → ExtRequestContentV0
  ext_branch_heads_req : ExtBranchHeadsReq → ExtRequestContentV0
  ext_branch_sync_req : ExtBranchSyncReq → ExtRequestContentV0

pub record ExtRequestV0 : Type 0 where
  pub id : ℕ
  pub content : ExtRequestContentV0
  pub mac : Digest

pub record ExtRequest : Type 0 where
  pub v0 : ExtRequestV0

pub data ExtResponseContentV0 : Type 0 where
  block : Block → ExtResponseContentV0
  event_resp : EventResp → ExtResponseContentV0
  event : Event → ExtResponseContentV0

pub record ExtResponseV0 : Type 0 where
  pub id : ℕ
  pub result : ℕ
  pub content : Option ExtResponseContentV0

pub record ExtResponse : Type 0 where
  pub v0 : ExtResponseV0

pub data ClientHello : Type 0 where
  v0 : ClientHello

pub data StartProtocol : Type 0 where
  auth : ClientHello → StartProtocol
  ext : ExtRequest → StartProtocol

pub record ServerHelloV0 : Type 0 where
  pub nonce : Bytes

pub record ServerHello : Type 0 where
  pub v0 : ServerHelloV0

abbrev pub server_hello_nonce : ServerHello → Bytes
server_hello_nonce m = m.v0.nonce

pub record ClientAuthContentV0 : Type 0 where
  pub user : PubKey
  pub client : PubKey
  pub nonce : Bytes

pub record ClientAuthV0 : Type 0 where
  pub content : ClientAuthContentV0
  pub sig : Sig

pub record ClientAuth : Type 0 where
  pub v0 : ClientAuthV0

abbrev pub client_auth_content_v0 : ClientAuth → ClientAuthContentV0
client_auth_content_v0 m = m.v0.content

abbrev pub client_auth_sig : ClientAuth → Sig
client_auth_sig m = m.v0.sig

abbrev pub client_auth_user : ClientAuth → PubKey
client_auth_user m = m.v0.content.user

abbrev pub client_auth_client : ClientAuth → PubKey
client_auth_client m = m.v0.content.client

abbrev pub client_auth_nonce : ClientAuth → Bytes
client_auth_nonce m = m.v0.content.nonce

pub record AuthResultV0 : Type 0 where
  pub result : ℕ
  pub metadata : Bytes

pub record AuthResult : Type 0 where
  pub v0 : AuthResultV0

abbrev pub auth_result_result : AuthResult → ℕ
auth_result_result m = m.v0.result

abbrev pub auth_result_metadata : AuthResult → Bytes
auth_result_metadata m = m.v0.metadata

pub record RepoLinkV0 : Type 0 where
  pub id : PubKey
  pub secret : SymKey
  pub peers : List PeerAdvert

pub record RepoLink : Type 0 where
  pub v0 : RepoLinkV0

abbrev pub repo_link_id : RepoLink → PubKey
repo_link_id m = m.v0.id

abbrev pub repo_link_secret : RepoLink → SymKey
repo_link_secret m = m.v0.secret

abbrev pub repo_link_peers : RepoLink → List PeerAdvert
repo_link_peers m = m.v0.peers

pub record ObjectLinkV0 : Type 0 where
  pub req : ExtRequest
  pub keys : List ObjectRef

pub record ObjectLink : Type 0 where
  pub v0 : ObjectLinkV0

pub record RepoKeysV0 : Type 0 where
  pub key : PrivKey
  pub secret : SymKey
  pub peers : List PeerAdvert

pub record RepoKeys : Type 0 where
  pub v0 : RepoKeysV0
