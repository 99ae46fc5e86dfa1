-- ===== src/Net/Messages.antt =====
-- lofire-net/src/types.rs: the methods of the broker protocol's messages that look into a message.
-- `panic!` is a panic here too: the callers ask for a part that the message must have.
use lofire_rs.Common.{ℕ, Bool, true, false, Option, none, some, Outcome, ok, panic, ◌>>=◌}
use lofire_rs.Types.{Block, ObjectId}
use lofire_rs.Net.Account.{broker_request_id, broker_response_id, broker_response_result}
use lofire_rs.Net.Requests.{BrokerOverlayRequest, broker_overlay_request_id}
use lofire_rs.Net.Responses.{
  BrokerOverlayResponse, BrokerOverlayResponseContentV0, BrokerOverlayMessageContentV0,
  BrokerMessage, BrokerMessageContentV0, broker_overlay_response_id, broker_overlay_response_result,
  block, object_id, broker_overlay_request, broker_overlay_response, event, broker_request,
  broker_response, broker_overlay_message, v0, close,
}

abbrev pub overlay_is_request : BrokerOverlayMessageContentV0 → Bool
overlay_is_request (broker_overlay_request _) = true
overlay_is_request _ = false

abbrev pub overlay_is_response : BrokerOverlayMessageContentV0 → Bool
overlay_is_response (broker_overlay_response _) = true
overlay_is_response _ = false

abbrev pub content_is_request : BrokerMessageContentV0 → Bool
content_is_request (broker_overlay_message p) = overlay_is_request p.v0.content
content_is_request (broker_response _) = false
content_is_request (broker_request _) = true

abbrev pub content_is_response : BrokerMessageContentV0 → Bool
content_is_response (broker_overlay_message p) = overlay_is_response p.v0.content
content_is_response (broker_response _) = true
content_is_response (broker_request _) = false

abbrev pub content_is_overlay : BrokerMessageContentV0 → Bool
content_is_overlay (broker_overlay_message p) = true
content_is_overlay (broker_response r) = false
content_is_overlay (broker_request r) = false

module _ {E : Type 0} where
  abbrev pub content_block : Option BrokerOverlayResponseContentV0 → Outcome E (Option Block)
  content_block (some (block b)) = ok (some b)
  content_block (some _) = panic
  content_block none = ok none

  abbrev pub broker_overlay_response_block : BrokerOverlayResponse → Outcome E (Option Block)
  broker_overlay_response_block r = content_block r.v0.content

  abbrev pub content_object_id : Option BrokerOverlayResponseContentV0 → Outcome E ObjectId
  content_object_id (some (object_id i)) = ok i
  content_object_id (some _) = panic
  content_object_id none = panic

  abbrev pub broker_overlay_response_object_id : BrokerOverlayResponse → Outcome E ObjectId
  broker_overlay_response_object_id r = content_object_id r.v0.content

  -- `BrokerOverlayMessage`: each method matches on the content.
  abbrev pub overlay_request : BrokerOverlayMessageContentV0 → Outcome E BrokerOverlayRequest
  overlay_request (broker_overlay_request r) = ok r
  overlay_request _ = panic

  abbrev pub overlay_id : BrokerOverlayMessageContentV0 → Outcome E ℕ
  overlay_id (broker_overlay_response r) = ok (broker_overlay_response_id r)
  overlay_id (broker_overlay_request r) = ok (broker_overlay_request_id r)
  overlay_id (event _) = panic

  abbrev pub overlay_result : BrokerOverlayMessageContentV0 → Outcome E ℕ
  overlay_result (broker_overlay_response r) = ok (broker_overlay_response_result r)
  overlay_result (broker_overlay_request r) = panic
  overlay_result (event _) = panic

  abbrev pub overlay_block : BrokerOverlayMessageContentV0 → Outcome E (Option Block)
  overlay_block (broker_overlay_response r) = broker_overlay_response_block r
  overlay_block (broker_overlay_request r) = panic
  overlay_block (event _) = panic

  abbrev pub overlay_object_id : BrokerOverlayMessageContentV0 → Outcome E ObjectId
  overlay_object_id (broker_overlay_response r) = broker_overlay_response_object_id r
  overlay_object_id (broker_overlay_request r) = panic
  overlay_object_id (event _) = panic

-- `BrokerMessage`
abbrev pub is_close : BrokerMessage → Bool
is_close (v0 m) = false
is_close close = true

module _ {E : Type 0} where
  abbrev pub content : BrokerMessage → Outcome E BrokerMessageContentV0
  content (v0 m) = ok m.content
  content close = panic

  unfoldable pub is_request : BrokerMessage → Outcome E Bool
  is_request m = content m >>= λ c. ok (content_is_request c)

  unfoldable pub is_response : BrokerMessage → Outcome E Bool
  is_response m = content m >>= λ c. ok (content_is_response c)

  abbrev pub content_id : BrokerMessageContentV0 → Outcome E ℕ
  content_id (broker_overlay_message p) = overlay_id p.v0.content
  content_id (broker_response r) = ok (broker_response_id r)
  content_id (broker_request r) = ok (broker_request_id r)

  unfoldable pub id : BrokerMessage → Outcome E ℕ
  id m = content m >>= content_id

  abbrev pub content_result : BrokerMessageContentV0 → Outcome E ℕ
  content_result (broker_overlay_message p) = overlay_result p.v0.content
  content_result (broker_response r) = ok (broker_response_result r)
  content_result (broker_request _) = panic

  unfoldable pub result : BrokerMessage → Outcome E ℕ
  result m = content m >>= content_result

  unfoldable pub is_overlay : BrokerMessage → Outcome E Bool
  is_overlay m = content m >>= λ c. ok (content_is_overlay c)

  abbrev pub content_response_block : BrokerMessageContentV0 → Outcome E (Option Block)
  content_response_block (broker_overlay_message p) = overlay_block p.v0.content
  content_response_block (broker_response r) = panic
  content_response_block (broker_request _) = panic

  unfoldable pub response_block : BrokerMessage → Outcome E (Option Block)
  response_block m = content m >>= content_response_block

  abbrev pub content_response_object_id : BrokerMessageContentV0 → Outcome E ObjectId
  content_response_object_id (broker_overlay_message p) = overlay_object_id p.v0.content
  content_response_object_id (broker_response r) = panic
  content_response_object_id (broker_request _) = panic

  unfoldable pub response_object_id : BrokerMessage → Outcome E ObjectId
  response_object_id m = content m >>= content_response_object_id
