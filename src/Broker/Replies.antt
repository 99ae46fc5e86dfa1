-- ===== src/Broker/Replies.antt =====
-- lofire-broker/src/server.rs: the replies of a broker. A result is an error or a value.
use lofire_rs.Common.{
  ℕ, zero, suc, Bytes, true, Option, none, some, List, [], ◌∷◌, ◌++◌, map, Outcome, ok, err, ◌⊎◌,
  inl, inr, ◌≡◌, refl, ap,
}
use mathlib.Core.Path.{ap₂}
use lofire_rs.Types.{Block}
use lofire_rs.Net.Overlay.{OverlayId}
use lofire_rs.Net.Responses.{
  BrokerMessage, BrokerOverlayResponseContentV0, v0, broker_response, broker_overlay_message,
  broker_overlay_response, block,
}
use lofire_rs.Net.Messages.{is_response, result, is_overlay, response_block}
use lofire_rs.Net.Errors.{
  ProtocolError, code, partial_content, end_of_stream, to_unit, to_option_block, is_stream,
}

abbrev pub Result : Type 0 → Type 0
Result A = ProtocolError ⊎ A

-- `vec![0; n]`
abbrev pub zeros : ℕ → Bytes
zeros zero = []
zeros (suc n) = 0 ∷ zeros n

abbrev pub result_code : {A : Type 0} → Result A → ℕ
result_code (inr _) = 0
result_code (inl e) = code e

unfoldable pub prepare_reply_broker_message : Result Unit → ℕ → ℕ → BrokerMessage
prepare_reply_broker_message res id padding_size = v0 (record {
  padding = zeros padding_size;
  content = broker_response (record { v0 = record { id = id; result = result_code res } });
})

abbrev pub overlay_response :
    ℕ → ℕ → OverlayId → Option BrokerOverlayResponseContentV0 → ℕ → BrokerMessage
overlay_response id result overlay content padding_size = v0 (record {
  padding = zeros padding_size;
  content = broker_overlay_message (record {
    v0 = record {
      overlay = overlay;
      content =
          broker_overlay_response
            (record { v0 = record { id = id; result = result; content = content } });
    };
  });
})

abbrev pub block_content : Option Block → Option BrokerOverlayResponseContentV0
block_content none = none
block_content (some b) = some (block b)

unfoldable pub prepare_reply_broker_overlay_message :
    Result Unit → ℕ → OverlayId → Option Block → ℕ → BrokerMessage
prepare_reply_broker_overlay_message res id overlay b padding_size =
    overlay_response id (result_code res) overlay (block_content b) padding_size

abbrev pub stream_code : Result Block → ℕ
stream_code (inr b) = code partial_content
stream_code (inl e) = code e

abbrev pub stream_content : Result Block → Option BrokerOverlayResponseContentV0
stream_content (inr b) = some (block b)
stream_content (inl e) = none

unfoldable pub prepare_reply_broker_overlay_message_stream :
    Result Block → ℕ → OverlayId → ℕ → BrokerMessage
prepare_reply_broker_overlay_message_stream res id overlay padding_size =
    overlay_response id (stream_code res) overlay (stream_content res) padding_size

-- The first reply, and the frames that follow it on their own while the client takes them. The blocks are
-- all in the channel already, and its sender is gone.
unfoldable pub send_block_stream_response_to_client :
    Result (List Block) → ℕ → OverlayId → ℕ → BrokerMessage × List BrokerMessage
send_block_stream_response_to_client (inl e) id overlay padding_size =
    (prepare_reply_broker_overlay_message_stream (inl e) id overlay padding_size, [])
send_block_stream_response_to_client (inr []) id overlay padding_size =
    (prepare_reply_broker_overlay_message_stream (inl end_of_stream) id overlay padding_size, [])
send_block_stream_response_to_client (inr (one ∷ stream)) id overlay padding_size = (
  prepare_reply_broker_overlay_message_stream (inr one) id overlay padding_size,
  map (λ next. prepare_reply_broker_overlay_message_stream (inr next) id overlay padding_size)
        stream
      ++ prepare_reply_broker_overlay_message_stream (inl end_of_stream) id overlay padding_size
        ∷ [],
)

abbrev pub as_outcome : {A : Type 0} → Result A → Outcome ProtocolError A
as_outcome (inl e) = err e
as_outcome (inr a) = ok a

-- The client reads from a reply without content what the server put into it.
pub to_unit-prepare_reply :
    (res : Result Unit) (id n : ℕ) (overlay : OverlayId) (b : Option Block)
    → (to_unit (prepare_reply_broker_message res id n) ≡ as_outcome res)
      × (to_unit (prepare_reply_broker_overlay_message res id overlay b n) ≡ as_outcome res)
unfolding to_unit prepare_reply_broker_message prepare_reply_broker_overlay_message is_response
    result
to_unit-prepare_reply (inr u) id n overlay b = (refl, refl)
to_unit-prepare_reply (inl ProtocolError.write_error) id n overlay b = (refl, refl)
to_unit-prepare_reply (inl ProtocolError.actor_error) id n overlay b = (refl, refl)
to_unit-prepare_reply (inl ProtocolError.invalid_state) id n overlay b = (refl, refl)
to_unit-prepare_reply (inl ProtocolError.signature_error) id n overlay b = (refl, refl)
to_unit-prepare_reply (inl ProtocolError.invalid_signature) id n overlay b = (refl, refl)
to_unit-prepare_reply (inl ProtocolError.serialization_error) id n overlay b = (refl, refl)
to_unit-prepare_reply (inl ProtocolError.partial_content) id n overlay b = (refl, refl)
to_unit-prepare_reply (inl ProtocolError.access_denied) id n overlay b = (refl, refl)
to_unit-prepare_reply (inl ProtocolError.overlay_not_joined) id n overlay b = (refl, refl)
to_unit-prepare_reply (inl ProtocolError.overlay_not_found) id n overlay b = (refl, refl)
to_unit-prepare_reply (inl ProtocolError.broker_error) id n overlay b = (refl, refl)
to_unit-prepare_reply (inl ProtocolError.not_found) id n overlay b = (refl, refl)
to_unit-prepare_reply (inl ProtocolError.end_of_stream) id n overlay b = (refl, refl)
to_unit-prepare_reply (inl ProtocolError.store_error) id n overlay b = (refl, refl)
to_unit-prepare_reply (inl ProtocolError.missing_blocks) id n overlay b = (refl, refl)
to_unit-prepare_reply (inl ProtocolError.object_parse_error) id n overlay b = (refl, refl)
to_unit-prepare_reply (inl ProtocolError.invalid_value) id n overlay b = (refl, refl)
to_unit-prepare_reply (inl ProtocolError.user_already_exists) id n overlay b = (refl, refl)
to_unit-prepare_reply (inl ProtocolError.repo_id_required) id n overlay b = (refl, refl)
to_unit-prepare_reply (inl ProtocolError.closing) id n overlay b = (refl, refl)

read_error :
    (e : ProtocolError) (id : ℕ) (overlay : OverlayId) (n : ℕ)
    → is_stream e ≡ true
    → to_option_block (prepare_reply_broker_overlay_message_stream (inl e) id overlay n) ≡ ok none
unfolding to_option_block prepare_reply_broker_overlay_message_stream is_response result is_overlay
    response_block
read_error ProtocolError.partial_content id overlay n h = refl
read_error ProtocolError.end_of_stream id overlay n h = refl
read_error ProtocolError.write_error id overlay n h = cc
read_error ProtocolError.actor_error id overlay n h = cc
read_error ProtocolError.invalid_state id overlay n h = cc
read_error ProtocolError.signature_error id overlay n h = cc
read_error ProtocolError.invalid_signature id overlay n h = cc
read_error ProtocolError.serialization_error id overlay n h = cc
read_error ProtocolError.access_denied id overlay n h = cc
read_error ProtocolError.overlay_not_joined id overlay n h = cc
read_error ProtocolError.overlay_not_found id overlay n h = cc
read_error ProtocolError.broker_error id overlay n h = cc
read_error ProtocolError.not_found id overlay n h = cc
read_error ProtocolError.store_error id overlay n h = cc
read_error ProtocolError.missing_blocks id overlay n h = cc
read_error ProtocolError.object_parse_error id overlay n h = cc
read_error ProtocolError.invalid_value id overlay n h = cc
read_error ProtocolError.user_already_exists id overlay n h = cc
read_error ProtocolError.repo_id_required id overlay n h = cc
read_error ProtocolError.closing id overlay n h = cc

read_block :
    (b : Block) (id : ℕ) (overlay : OverlayId) (n : ℕ)
    → to_option_block (prepare_reply_broker_overlay_message_stream (inr b) id overlay n)
      ≡ ok (some b)
unfolding to_option_block prepare_reply_broker_overlay_message_stream is_response result is_overlay
    response_block
read_block b id overlay n = refl

read_blocks :
    (bs : List Block) (id : ℕ) (overlay : OverlayId) (n : ℕ)
    → map to_option_block (
        map (λ next. prepare_reply_broker_overlay_message_stream (inr next) id overlay n) bs
        ++ prepare_reply_broker_overlay_message_stream (inl end_of_stream) id overlay n ∷ [])
      ≡ map (λ b. ok (some b)) bs ++ ok none ∷ []
read_blocks [] id overlay n = ap (λ o. o ∷ []) (read_error end_of_stream id overlay n refl)
read_blocks (b ∷ bs) id overlay n =
    ap₂ ◌∷◌ (read_block b id overlay n) (read_blocks bs id overlay n)

abbrev pub frames : BrokerMessage × List BrokerMessage → List BrokerMessage
frames (first, later) = first ∷ later

-- A client that reads all the frames of a stream gets its blocks in order, and then nothing.
pub to_option_block-send_block_stream :
    (bs : List Block) (id : ℕ) (overlay : OverlayId) (n : ℕ)
    → map to_option_block (frames (send_block_stream_response_to_client (inr bs) id overlay n))
      ≡ map (λ b. ok (some b)) bs ++ ok none ∷ []
unfolding send_block_stream_response_to_client
to_option_block-send_block_stream [] id overlay n = read_blocks [] id overlay n
to_option_block-send_block_stream (b ∷ bs) id overlay n = read_blocks (b ∷ bs) id overlay n
