-- ===== src/Net/Overlay.antt =====
-- lofire-net/src/types.rs: the messages between the peers of an overlay.
use lofire_rs.Common.{ℕ, Bytes, Bool, Option, List}
use lofire_rs.Types.{
  Digest, SymKey, PubKey, Sig, BloomFilter, BloomFilter128, Block, BlockId, ObjectId,
}

abbrev pub PeerId : Type 0
PeerId = PubKey

abbrev pub OverlayId : Type 0
OverlayId = Digest

abbrev pub SessionId : Type 0
SessionId = ℕ

abbrev pub TopicId : Type 0
TopicId = PubKey

abbrev pub UserId : Type 0
UserId = PubKey

abbrev pub ClientId : Type 0
ClientId = PubKey

abbrev pub Ipv4 : Type 0
Ipv4 = Bytes

abbrev pub Ipv6 : Type 0
Ipv6 = Bytes

pub data Ip : Type 0 where
  ipv4 : Ipv4 → Ip
  ipv6 : Ipv6 → Ip

pub data IpTransportProtocol : Type 0 where
  tls : IpTransportProtocol
  quic : IpTransportProtocol

pub record IpTransportAddr : Type 0 where
  pub ip : Ip
  pub port : ℕ
  pub protocol : IpTransportProtocol

pub record NetAddr : Type 0 where
  pub ip_transport : IpTransportAddr

pub data OverlayConnect : Type 0 where
  v0 : OverlayConnect

pub data OverlayDisconnect : Type 0 where
  v0 : OverlayDisconnect

pub record TopicAdvertContentV0 : Type 0 where
  pub topic : TopicId
  pub peer : PeerId

pub record TopicAdvertV0 : Type 0 where
  pub content : TopicAdvertContentV0
  pub sig : Sig

pub record TopicAdvert : Type 0 where
  pub v0 : TopicAdvertV0

pub record SubReqV0 : Type 0 where
  pub id : ℕ
  pub topic : TopicId

pub record SubReq : Type 0 where
  pub v0 : SubReqV0

pub record SubAckV0 : Type 0 where
  pub id : ℕ

pub record SubAck : Type 0 where
  pub v0 : SubAckV0

pub record UnsubReqV0 : Type 0 where
  pub topic : TopicId

pub record UnsubReq : Type 0 where
  pub v0 : UnsubReqV0

pub record UnsubAckV0 : Type 0 where
  pub topic : TopicId

pub record UnsubAck : Type 0 where
  pub v0 : UnsubAckV0

pub record ChangeV0 : Type 0 where
  pub content : Block
  pub key : Option SymKey

pub data EventBodyV0 : Type 0 where
  sub_ack : EventBodyV0
  change : EventBodyV0

pub record EventContentV0 : Type 0 where
  pub topic : TopicId
  pub publisher : Bytes
  pub seq : ℕ
  pub body : EventBodyV0

pub record EventV0 : Type 0 where
  pub content : EventContentV0
  pub sig : Sig

pub record Event : Type 0 where
  pub v0 : EventV0

pub record BlockSearchTopicV0 : Type 0 where
  pub topic : TopicId
  pub ids : List ObjectId
  pub include_children : Bool
  pub path : List PeerId

pub record BlockSearchTopic : Type 0 where
  pub v0 : BlockSearchTopicV0

pub record BlockSearchRandomV0 : Type 0 where
  pub ids : List BlockId
  pub include_children : Bool
  pub fanout : ℕ
  pub path : List PeerId

pub record BlockSearchRandom : Type 0 where
  pub v0 : BlockSearchRandomV0

pub record BlockResultV0 : Type 0 where
  pub path : List PeerId
  pub payload : List Block

pub record BlockResult : Type 0 where
  pub v0 : BlockResultV0

pub record BranchHeadsReqV0 : Type 0 where
  pub topic : TopicId
  pub known_heads : List ObjectId

pub record BranchHeadsReq : Type 0 where
  pub v0 : BranchHeadsReqV0

pub record BranchSyncReqV0 : Type 0 where
  pub heads : List ObjectId
  pub known_heads : List ObjectId
  pub known_commits : BloomFilter

pub record BranchSyncReq : Type 0 where
  pub v0 : BranchSyncReqV0

abbrev pub branch_sync_req_heads : BranchSyncReq → List ObjectId
branch_sync_req_heads m = m.v0.heads

abbrev pub branch_sync_req_known_heads : BranchSyncReq → List ObjectId
branch_sync_req_known_heads m = m.v0.known_heads

abbrev pub branch_sync_req_known_commits : BranchSyncReq → BloomFilter
branch_sync_req_known_commits m = m.v0.known_commits

pub record NeedEventsV0 : Type 0 where
  pub publisher : Digest
  pub from : ℕ
  pub to : ℕ

pub record HaveEventsV0 : Type 0 where
  pub publisher : Digest
  pub from : ℕ
  pub to : ℕ

pub record EventReqV0 : Type 0 where
  pub topic : TopicId
  pub need : List NeedEventsV0

pub record EventReq : Type 0 where
  pub v0 : EventReqV0

pub record EventRespV0 : Type 0 where
  pub have : List HaveEventsV0

pub record EventResp : Type 0 where
  pub v0 : EventRespV0

pub data OverlayRequestContentV0 : Type 0 where
  event_req : EventReq → OverlayRequestContentV0
  branch_heads_req : BranchHeadsReq → OverlayRequestContentV0
  branch_sync_req : BranchSyncReq → OverlayRequestContentV0

pub record OverlayRequestV0 : Type 0 where
  pub id : ℕ
  pub content : OverlayRequestContentV0

pub record OverlayRequest : Type 0 where
  pub v0 : OverlayRequestV0

pub data OverlayResponseContentV0 : Type 0 where
  block : Block → OverlayResponseContentV0
  event_resp : EventResp → OverlayResponseContentV0
  event : Event → OverlayResponseContentV0

pub record OverlayResponseV0 : Type 0 where
  pub id : ℕ
  pub result : ℕ
  pub content : Option OverlayResponseContentV0

pub record OverlayResponse : Type 0 where
  pub v0 : OverlayResponseV0

pub record PeerAdvertContentV0 : Type 0 where
  pub peer : PeerId
  pub subs : BloomFilter128
  pub address : List NetAddr
  pub version : ℕ
  pub metadata : Bytes

pub record PeerAdvertV0 : Type 0 where
  pub content : PeerAdvertContentV0
  pub sig : Sig
  pub ttl : ℕ

pub record PeerAdvert : Type 0 where
  pub v0 : PeerAdvertV0

abbrev pub peer_advert_version : PeerAdvert → ℕ
peer_advert_version m = m.v0.content.version

abbrev pub peer_advert_peer : PeerAdvert → PeerId
peer_advert_peer m = m.v0.content.peer

pub data OverlayMessageContentV0 : Type 0 where
  overlay_connect : OverlayConnect → OverlayMessageContentV0
  overlay_disconnect : OverlayDisconnect → OverlayMessageContentV0
  peer_advert : PeerAdvert → OverlayMessageContentV0
  topic_advert : TopicAdvert → OverlayMessageContentV0
  sub_req : SubReq → OverlayMessageContentV0
  sub_ack : SubAck → OverlayMessageContentV0
  unsub_req : UnsubReq → OverlayMessageContentV0
  unsub_ack : UnsubAck → OverlayMessageContentV0
  event : Event → OverlayMessageContentV0
  block_search_topic : BlockSearchTopic → OverlayMessageContentV0
  block_search_random : BlockSearchRandom → OverlayMessageContentV0
  block_result : BlockResult → OverlayMessageContentV0
  overlay_request : OverlayRequest → OverlayMessageContentV0
  overlay_response : OverlayResponse → OverlayMessageContentV0

pub record OverlayMessageContentPaddedV0 : Type 0 where
  pub content : OverlayMessageContentV0
  pub padding : Bytes

pub record OverlayMessageV0 : Type 0 where
  pub overlay : OverlayId
  pub session : SessionId
  pub content : OverlayMessageContentPaddedV0
  pub mac : Digest

pub record OverlayMessage : Type 0 where
  pub v0 : OverlayMessageV0
