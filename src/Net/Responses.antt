-- ===== src/Net/Responses.antt =====
-- lofire-net/src/types.rs: the messages of the broker protocol.
use lofire_rs.Common.{ℕ, Bytes, Option}
use lofire_rs.Types.{Block, ObjectId}
use lofire_rs.Net.Overlay.{OverlayId, Event}
use lofire_rs.Net.Account.{BrokerRequest, BrokerResponse}
use lofire_rs.Net.Requests.{OverlayStatusResp, BrokerOverlayRequest}

pub data BrokerOverlayResponseContentV0 : Type 0 where
  block : Block → BrokerOverlayResponseContentV0
  object_id : ObjectId → BrokerOverlayResponseContentV0
  overlay_status_resp : OverlayStatusResp → BrokerOverlayResponseContentV0

pub record BrokerOverlayResponseV0 : Type 0 where
  pub id : ℕ
  pub result : ℕ
  pub content : Option BrokerOverlayResponseContentV0

pub record BrokerOverlayResponse : Type 0 where
  pub v0 : BrokerOverlayResponseV0

abbrev pub broker_overlay_response_id : BrokerOverlayResponse → ℕ
broker_overlay_response_id m = m.v0.id

abbrev pub broker_overlay_response_result : BrokerOverlayResponse → ℕ
broker_overlay_response_result m = m.v0.result

pub data BrokerOverlayMessageContentV0 : Type 0 where
  broker_overlay_request : BrokerOverlayRequest → BrokerOverlayMessageContentV0
  broker_overlay_response : BrokerOverlayResponse → BrokerOverlayMessageContentV0
  event : Event → BrokerOverlayMessageContentV0

pub record BrokerOverlayMessageV0 : Type 0 where
  pub overlay : OverlayId
  pub content : BrokerOverlayMessageContentV0

pub record BrokerOverlayMessage : Type 0 where
  pub v0 : BrokerOverlayMessageV0

abbrev pub broker_overlay_message_content_v0 : BrokerOverlayMessage → BrokerOverlayMessageContentV0
broker_overlay_message_content_v0 m = m.v0.content

abbrev pub broker_overlay_message_overlay_id : BrokerOverlayMessage → OverlayId
broker_overlay_message_overlay_id m = m.v0.overlay

pub data BrokerMessageContentV0 : Type 0 where
  broker_request : BrokerRequest → BrokerMessageContentV0
  broker_response : BrokerResponse → BrokerMessageContentV0
  broker_overlay_message : BrokerOverlayMessage → BrokerMessageContentV0

pub record BrokerMessageV0 : Type 0 where
  pub content : BrokerMessageContentV0
  pub padding : Bytes

pub data BrokerMessage : Type 0 where
  v0 : BrokerMessageV0 → BrokerMessage
  close : BrokerMessage
