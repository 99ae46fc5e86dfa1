-- ===== src/Net/Requests.antt =====
-- lofire-net/src/types.rs: the requests of a client within an overlay.
use lofire_rs.Common.{ℕ, Bool, Option, List}
use lofire_rs.Types.{SymKey, PubKey, Timestamp, Block, BlockId, ObjectId}
use lofire_rs.Net.Overlay.{
  OverlayConnect, TopicAdvert, Event, BranchHeadsReq, BranchSyncReq, PeerAdvert,
}

pub record OverlayJoinV0 : Type 0 where
  pub secret : SymKey
  pub repo_pubkey : Option PubKey
  pub peers : List PeerAdvert

pub record OverlayJoin : Type 0 where
  pub v0 : OverlayJoinV0

abbrev pub overlay_join_repo_pubkey : OverlayJoin → Option PubKey
overlay_join_repo_pubkey m = m.v0.repo_pubkey

abbrev pub overlay_join_secret : OverlayJoin → SymKey
overlay_join_secret m = m.v0.secret

abbrev pub overlay_join_peers : OverlayJoin → List PeerAdvert
overlay_join_peers m = m.v0.peers

pub data OverlayLeave : Type 0 where
  v0 : OverlayLeave

pub data OverlayStatusReq : Type 0 where
  v0 : OverlayStatusReq

pub record OverlayStatusRespV0 : Type 0 where
  pub joined : Bool
  pub peers : List PeerAdvert

pub record OverlayStatusResp : Type 0 where
  pub v0 : OverlayStatusRespV0

pub record BlockGetV0 : Type 0 where
  pub id : BlockId
  pub include_children : Bool
  pub topic : Option PubKey

pub record BlockGet : Type 0 where
  pub v0 : BlockGetV0

abbrev pub block_get_id : BlockGet → BlockId
block_get_id m = m.v0.id

abbrev pub block_get_include_children : BlockGet → Bool
block_get_include_children m = m.v0.include_children

abbrev pub block_get_topic : BlockGet → Option PubKey
block_get_topic m = m.v0.topic

pub record BlockPut : Type 0 where
  pub v0 : Block

abbrev pub block_put_block : BlockPut → Block
block_put_block m = m.v0

pub record ObjectPinV0 : Type 0 where
  pub id : ObjectId

pub record ObjectPin : Type 0 where
  pub v0 : ObjectPinV0

abbrev pub object_pin_id : ObjectPin → ObjectId
object_pin_id m = m.v0.id

pub record ObjectUnpinV0 : Type 0 where
  pub id : ObjectId

pub record ObjectUnpin : Type 0 where
  pub v0 : ObjectUnpinV0

abbrev pub object_unpin_id : ObjectUnpin → ObjectId
object_unpin_id m = m.v0.id

pub record ObjectCopyV0 : Type 0 where
  pub id : ObjectId
  pub expiry : Option Timestamp

pub record ObjectCopy : Type 0 where
  pub v0 : ObjectCopyV0

abbrev pub object_copy_id : ObjectCopy → ObjectId
object_copy_id m = m.v0.id

abbrev pub object_copy_expiry : ObjectCopy → Option Timestamp
object_copy_expiry m = m.v0.expiry

pub record ObjectDelV0 : Type 0 where
  pub id : ObjectId

pub record ObjectDel : Type 0 where
  pub v0 : ObjectDelV0

abbrev pub object_del_id : ObjectDel → ObjectId
object_del_id m = m.v0.id

pub record TopicSubV0 : Type 0 where
  pub topic : PubKey
  pub advert : Option TopicAdvert

pub record TopicSub : Type 0 where
  pub v0 : TopicSubV0

pub record TopicUnsubV0 : Type 0 where
  pub topic : PubKey

pub record TopicUnsub : Type 0 where
  pub v0 : TopicUnsubV0

pub record TopicConnectV0 : Type 0 where
  pub topic : PubKey

pub record TopicConnect : Type 0 where
  pub v0 : TopicConnectV0

pub record TopicDisconnectV0 : Type 0 where
  pub topic : PubKey

pub record TopicDisconnect : Type 0 where
  pub v0 : TopicDisconnectV0

pub data BrokerOverlayRequestContentV0 : Type 0 where
  overlay_connect : OverlayConnect → BrokerOverlayRequestContentV0
  overlay_status_req : OverlayStatusReq → BrokerOverlayRequestContentV0
  overlay_join : OverlayJoin → BrokerOverlayRequestContentV0
  overlay_leave : OverlayLeave → BrokerOverlayRequestContentV0
  topic_sub : TopicSub → BrokerOverlayRequestContentV0
  topic_unsub : TopicUnsub → BrokerOverlayRequestContentV0
  topic_connect : TopicConnect → BrokerOverlayRequestContentV0
  topic_disconnect : TopicDisconnect → BrokerOverlayRequestContentV0
  event : Event → BrokerOverlayRequestContentV0
  block_get : BlockGet → BrokerOverlayRequestContentV0
  block_put : BlockPut → BrokerOverlayRequestContentV0
  object_pin : ObjectPin → BrokerOverlayRequestContentV0
  object_unpin : ObjectUnpin → BrokerOverlayRequestContentV0
  object_copy : ObjectCopy → BrokerOverlayRequestContentV0
  object_del : ObjectDel → BrokerOverlayRequestContentV0
  branch_heads_req : BranchHeadsReq → BrokerOverlayRequestContentV0
  branch_sync_req : BranchSyncReq → BrokerOverlayRequestContentV0

pub record BrokerOverlayRequestV0 : Type 0 where
  pub id : ℕ
  pub content : BrokerOverlayRequestContentV0

pub record BrokerOverlayRequest : Type 0 where
  pub v0 : BrokerOverlayRequestV0

abbrev pub broker_overlay_request_id : BrokerOverlayRequest → ℕ
broker_overlay_request_id m = m.v0.id

abbrev pub broker_overlay_request_content_v0 : BrokerOverlayRequest → BrokerOverlayRequestContentV0
broker_overlay_request_content_v0 m = m.v0.content
