-- ===== src/Net/Account.antt =====
-- lofire-net/src/types.rs: requests on user accounts and their answers.
use lofire_rs.Common.{ℕ}
use lofire_rs.Types.{PubKey, Sig}

pub record AddUserContentV0 : Type 0 where
  pub user : PubKey

pub record AddUserV0 : Type 0 where
  pub content : AddUserContentV0
  pub sig : Sig

pub record AddUser : Type 0 where
  pub v0 : AddUserV0

abbrev pub add_user_content_v0 : AddUser → AddUserContentV0
add_user_content_v0 m = m.v0.content

abbrev pub add_user_sig : AddUser → Sig
add_user_sig m = m.v0.sig

abbrev pub add_user_user : AddUser → PubKey
add_user_user m = m.v0.content.user

pub record DelUserContentV0 : Type 0 where
  pub user : PubKey

pub record DelUserV0 : Type 0 where
  pub content : DelUserContentV0
  pub sig : Sig

pub record DelUser : Type 0 where
  pub v0 : DelUserV0

abbrev pub del_user_content_v0 : DelUser → DelUserContentV0
del_user_content_v0 m = m.v0.content

abbrev pub del_user_sig : DelUser → Sig
del_user_sig m = m.v0.sig

abbrev pub del_user_user : DelUser → PubKey
del_user_user m = m.v0.content.user

pub record AddClientContentV0 : Type 0 where
  pub client : PubKey

pub record AddClientV0 : Type 0 where
  pub content : AddClientContentV0
  pub sig : Sig

pub record AddClient : Type 0 where
  pub v0 : AddClientV0

abbrev pub add_client_content_v0 : AddClient → AddClientContentV0
add_client_content_v0 m = m.v0.content

abbrev pub add_client_sig : AddClient → Sig
add_client_sig m = m.v0.sig

abbrev pub add_client_client : AddClient → PubKey
add_client_client m = m.v0.content.client

pub record DelClientContentV0 : Type 0 where
  pub client : PubKey

pub record DelClientV0 : Type 0 where
  pub content : DelClientContentV0
  pub sig : Sig

pub record DelClient : Type 0 where
  pub v0 : DelClientV0

abbrev pub del_client_content_v0 : DelClient → DelClientContentV0
del_client_content_v0 m = m.v0.content

abbrev pub del_client_sig : DelClient → Sig
del_client_sig m = m.v0.sig

abbrev pub del_client_client : DelClient → PubKey
del_client_client m = m.v0.content.client

pub data BrokerRequestContentV0 : Type 0 where
  add_user : AddUser → BrokerRequestContentV0
  del_user : DelUser → BrokerRequestContentV0
  add_client : AddClient → BrokerRequestContentV0
  del_client : DelClient → BrokerRequestContentV0

pub record BrokerRequestV0 : Type 0 where
  pub id : ℕ
  pub content : BrokerRequestContentV0

pub record BrokerRequest : Type 0 where
  pub v0 : BrokerRequestV0

abbrev pub broker_request_id : BrokerRequest → ℕ
broker_request_id m = m.v0.id

abbrev pub broker_request_content_v0 : BrokerRequest → BrokerRequestContentV0
broker_request_content_v0 m = m.v0.content

pub record BrokerResponseV0 : Type 0 where
  pub id : ℕ
  pub result : ℕ

pub record BrokerResponse : Type 0 where
  pub v0 : BrokerResponseV0

abbrev pub broker_response_id : BrokerResponse → ℕ
broker_response_id m = m.v0.id

abbrev pub broker_response_result : BrokerResponse → ℕ
broker_response_result m = m.v0.result
