-- ===== src/Broker/Answers.antt =====
-- lofire-broker/src/server.rs: what a broker answers to the messages of a user.
use mathlib.Core.Path.{subst}
use lofire_rs.Common.{
  ℕ, true, Option, none, List, [], ◌∷◌, ◌++◌, map, Outcome, ok, err, panic, out_of_fuel, inl, inr,
  ◌≡◌, ◌≢◌, refl, ap, ok-injective, All,
}
use lofire_rs.Types.{Block, PubKey}
use lofire_rs.Net.Overlay.{OverlayId}
use lofire_rs.Net.Account.{broker_request_content_v0}
use lofire_rs.Net.Requests.{BrokerOverlayRequestContentV0, broker_overlay_request_content_v0}
use lofire_rs.Net.Responses.{
  BrokerMessage, BrokerMessageContentV0, BrokerOverlayMessageContentV0, broker_request,
  broker_response, broker_overlay_message, broker_overlay_request, broker_overlay_response, event,
}
use lofire_rs.Net.Messages
use lofire_rs.Net.Errors.{ProtocolError, invalid_state, end_of_stream}
use lofire_rs.Broker.Calls.{after, ◌>>=◌, returns, fails, reading}
use lofire_rs.Broker.Store.{BrokerStore}
use lofire_rs.Broker.Codec.{Codec}
use lofire_rs.Broker.Server.{BrokerServer, BlockStores, Serving}
use lofire_rs.Broker.Operations.{connect_overlay}
use lofire_rs.Broker.Replies.{
  Result, prepare_reply_broker_message, prepare_reply_broker_overlay_message,
  prepare_reply_broker_overlay_message_stream, send_block_stream_response_to_client, frames,
}
use lofire_rs.Broker.Protocol.{
  Reply, Surroundings, padding_size, settled, request, reply_to, stream_to, overlay_request,
  overlay_message, message_content, handle_incoming,
}

-- A response to the request of that number.
pub Answers : ℕ → BrokerMessage → Type 0
Answers i m =
    (Messages.id {E = ProtocolError} m ≡ ok i)
    × (Messages.is_response {E = ProtocolError} m ≡ ok true)

message-Answers : (res : Result Unit) (i n : ℕ) → Answers i (prepare_reply_broker_message res i n)
unfolding Answers prepare_reply_broker_message Messages.id Messages.is_response
message-Answers res i n = (refl, refl)

overlay-Answers :
    (res : Result Unit) (i : ℕ) (o : OverlayId) (b : Option Block) (n : ℕ)
    → Answers i (prepare_reply_broker_overlay_message res i o b n)
unfolding Answers prepare_reply_broker_overlay_message Messages.id Messages.is_response
overlay-Answers res i o b n = (refl, refl)

frame-Answers :
    (res : Result Block) (i : ℕ) (o : OverlayId) (n : ℕ)
    → Answers i (prepare_reply_broker_overlay_message_stream res i o n)
unfolding Answers prepare_reply_broker_overlay_message_stream Messages.id Messages.is_response
frame-Answers res i o n = (refl, refl)

later-Answers :
    (bs : List Block) (i : ℕ) (o : OverlayId) (n : ℕ)
    → All (Answers i) (
        map (λ next. prepare_reply_broker_overlay_message_stream (inr next) i o n) bs
        ++ prepare_reply_broker_overlay_message_stream (inl end_of_stream) i o n ∷ [])
later-Answers [] i o n = (frame-Answers (inl end_of_stream) i o n, tt)
later-Answers (b ∷ bs) i o n = (frame-Answers (inr b) i o n, later-Answers bs i o n)

stream-Answers :
    (res : Result (List Block)) (i : ℕ) (o : OverlayId) (n : ℕ)
    → All (Answers i) (frames (send_block_stream_response_to_client res i o n))
unfolding send_block_stream_response_to_client
stream-Answers (inl e) i o n = (frame-Answers (inl e) i o n, tt)
stream-Answers (inr []) i o n = (frame-Answers (inl end_of_stream) i o n, tt)
stream-Answers (inr (b ∷ bs)) i o n = (frame-Answers (inr b) i o n, later-Answers bs i o n)

-- A reply that is made of the result of a call.
after-Answers :
    {T A : Type 0} (i : ℕ) (f : Result A → Reply) (p : Outcome ProtocolError A × T)
    → ((res : Result A) → All (Answers i) (frames (f res)))
    → (r : Reply) (t : T) → after (settled p) (λ res. returns (f res)) ≡ (ok r, t)
    → All (Answers i) (frames r)
after-Answers i f (ok a, s) all r t h =
    subst (λ q. All (Answers i) (frames q)) (ok-injective _ r (ap (λ q. q.0) h)) (all (inr a))
after-Answers i f (err e, s) all r t h =
    subst (λ q. All (Answers i) (frames q)) (ok-injective _ r (ap (λ q. q.0) h)) (all (inl e))
after-Answers i f (panic, s) all r t h = absurd (not_ok (ap (λ q. q.0) h))
  where
    not_ok : {q : Reply} → ◌≢◌ {A = Outcome ProtocolError Reply} panic (ok q)
    not_ok e = cc
after-Answers i f (out_of_fuel, s) all r t h = absurd (not_ok (ap (λ q. q.0) h))
  where
    not_ok : {q : Reply} → ◌≢◌ {A = Outcome ProtocolError Reply} out_of_fuel (ok q)
    not_ok e = cc

module _ {S R : Type 0} (w : Surroundings) (b : BrokerStore S) (z : Codec)
    (blocks : BlockStores R) where
  AllAnswer : ℕ → Serving S R Reply → Type 0
  AllAnswer i c =
      (s : BrokerServer S R) (r : Reply) (s' : BrokerServer S R)
      → c s ≡ (ok r, s')
      → All (Answers i) (frames r)

  reply_to-AllAnswer :
      (i : ℕ) (o : OverlayId) (call : Serving S R Unit)
      → AllAnswer i (reply_to w b z blocks i o call)
  unfolding AllAnswer
  reply_to-AllAnswer i o call s r s' =
      after-Answers i (λ res. (prepare_reply_broker_overlay_message res i o none padding_size, []))
        (call s) (λ res. (overlay-Answers res i o none padding_size, tt)) r s'

  stream_to-AllAnswer :
      (i : ℕ) (o : OverlayId) (call : Serving S R (List Block))
      → AllAnswer i (stream_to w b z blocks i o call)
  unfolding AllAnswer
  stream_to-AllAnswer i o call s r s' =
      after-Answers i (λ res. send_block_stream_response_to_client res i o padding_size) (call s)
        (λ res. stream-Answers res i o padding_size) r s'

  overlay_request-AllAnswer :
      (user : PubKey) (i : ℕ) (o : OverlayId) (c : BrokerOverlayRequestContentV0)
      → AllAnswer i (overlay_request w b z blocks user i o c)
  overlay_request-AllAnswer user i o (BrokerOverlayRequestContentV0.overlay_connect a) =
      reply_to-AllAnswer i o (connect_overlay user o)
  overlay_request-AllAnswer user i o (BrokerOverlayRequestContentV0.overlay_status_req a) =
      reply_to-AllAnswer i o (fails invalid_state)
  overlay_request-AllAnswer user i o (BrokerOverlayRequestContentV0.overlay_join a) =
      reply_to-AllAnswer i o _
  overlay_request-AllAnswer user i o (BrokerOverlayRequestContentV0.overlay_leave a) =
      reply_to-AllAnswer i o (fails invalid_state)
  overlay_request-AllAnswer user i o (BrokerOverlayRequestContentV0.topic_sub a) =
      reply_to-AllAnswer i o (fails invalid_state)
  overlay_request-AllAnswer user i o (BrokerOverlayRequestContentV0.topic_unsub a) =
      reply_to-AllAnswer i o (fails invalid_state)
  overlay_request-AllAnswer user i o (BrokerOverlayRequestContentV0.topic_connect a) =
      reply_to-AllAnswer i o (fails invalid_state)
  overlay_request-AllAnswer user i o (BrokerOverlayRequestContentV0.topic_disconnect a) =
      reply_to-AllAnswer i o (fails invalid_state)
  overlay_request-AllAnswer user i o (BrokerOverlayRequestContentV0.event a) =
      reply_to-AllAnswer i o (fails invalid_state)
  overlay_request-AllAnswer user i o (BrokerOverlayRequestContentV0.object_pin a) =
      reply_to-AllAnswer i o _
  overlay_request-AllAnswer user i o (BrokerOverlayRequestContentV0.object_unpin a) =
      reply_to-AllAnswer i o _
  overlay_request-AllAnswer user i o (BrokerOverlayRequestContentV0.object_copy a) =
      reply_to-AllAnswer i o (fails invalid_state)
  overlay_request-AllAnswer user i o (BrokerOverlayRequestContentV0.object_del a) =
      reply_to-AllAnswer i o _
  overlay_request-AllAnswer user i o (BrokerOverlayRequestContentV0.block_put a) =
      reply_to-AllAnswer i o _
  overlay_request-AllAnswer user i o (BrokerOverlayRequestContentV0.branch_heads_req a) =
      reply_to-AllAnswer i o (fails invalid_state)
  overlay_request-AllAnswer user i o (BrokerOverlayRequestContentV0.block_get a) =
      stream_to-AllAnswer i o _
  overlay_request-AllAnswer user i o (BrokerOverlayRequestContentV0.branch_sync_req a) =
      stream_to-AllAnswer i o _

  content-AllAnswer :
      (user : PubKey) (i : ℕ) (c : BrokerMessageContentV0)
      → AllAnswer i (message_content w b z blocks user i c)
  unfolding AllAnswer
  content-AllAnswer user i (broker_request req) = λ s r s'.
      after-Answers i (λ res. (prepare_reply_broker_message res i padding_size, []))
        (request w b z blocks user (broker_request_content_v0 req) s)
        (λ res. (message-Answers res i padding_size, tt)) r s'
  content-AllAnswer user i (broker_response res) = λ s r s' h.
      subst (λ q. All (Answers i) (frames q)) (ok-injective _ r (ap (λ q. q.0) h))
        (message-Answers (inl invalid_state) i padding_size, tt)
  content-AllAnswer user i (broker_overlay_message omsg) =
      in_overlay omsg.v0.overlay omsg.v0.content
    where
      in_overlay :
          (o : OverlayId) (c : BrokerOverlayMessageContentV0)
          → AllAnswer i (overlay_message w b z blocks user i o c)
      in_overlay o (broker_overlay_request q) =
          overlay_request-AllAnswer user i o (broker_overlay_request_content_v0 q)
      in_overlay o (broker_overlay_response q) = reply_to-AllAnswer i o (fails invalid_state)
      in_overlay o (event e) = reply_to-AllAnswer i o (fails invalid_state)

  panic_not_ok : {q : Reply} → ◌≢◌ {A = Outcome ProtocolError Reply} panic (ok q)
  panic_not_ok e = cc

  err_not_ok :
      {e : ProtocolError} {q : Reply} → ◌≢◌ {A = Outcome ProtocolError Reply} (err e) (ok q)
  err_not_ok h = cc

  fuel_not_ok : {q : Reply} → ◌≢◌ {A = Outcome ProtocolError Reply} out_of_fuel (ok q)
  fuel_not_ok e = cc

  run-Answers :
      (user : PubKey) (number : Outcome ProtocolError ℕ)
      (content : Outcome ProtocolError BrokerMessageContentV0) (s : BrokerServer S R) (r : Reply)
      (s' : BrokerServer S R)
      → (reading (λ _. number) >>= λ i.
            reading (λ _. content) >>= λ c. message_content w b z blocks user i c)
          s
        ≡ (ok r, s')
      → (i : ℕ) × (number ≡ ok i) × All (Answers i) (frames r)
  unfolding AllAnswer
  run-Answers user (ok i) (ok c) s r s' h = (i, refl, content-AllAnswer user i c s r s' h)
  run-Answers user (ok i) (err e) s r s' h = absurd (err_not_ok (ap (λ q. q.0) h))
  run-Answers user (ok i) panic s r s' h = absurd (panic_not_ok (ap (λ q. q.0) h))
  run-Answers user (ok i) out_of_fuel s r s' h = absurd (fuel_not_ok (ap (λ q. q.0) h))
  run-Answers user (err e) content s r s' h = absurd (err_not_ok (ap (λ q. q.0) h))
  run-Answers user panic content s r s' h = absurd (panic_not_ok (ap (λ q. q.0) h))
  run-Answers user out_of_fuel content s r s' h = absurd (fuel_not_ok (ap (λ q. q.0) h))

  -- Every message that a broker sends in answer to a message, the frames that follow included, is a
  -- response with the number of that message.
  pub handle_incoming-Answers :
      (user : PubKey) (msg : BrokerMessage) (s : BrokerServer S R) (r : Reply)
      (s' : BrokerServer S R)
      → handle_incoming w b z blocks user msg s ≡ (ok r, s')
      → (i : ℕ) × (Messages.id {E = ProtocolError} msg ≡ ok i) × All (Answers i) (frames r)
  unfolding handle_incoming AllAnswer
  handle_incoming-Answers user msg s r s' h =
      run-Answers user (Messages.id msg) (Messages.content msg) s r s' h
