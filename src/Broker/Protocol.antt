-- ===== src/Broker/Protocol.antt =====
-- lofire-broker/src/server.rs: `BrokerProtocolHandler`, which answers the messages of a user.
use lofire_rs.Common.{
  ℕ, Bytes, Bool, none, List, [], Outcome, ok, err, panic, out_of_fuel, inl, inr,
}
use lofire_rs.Types.{Block, BloomFilter, PubKey, SymKey, Timestamp}
use lofire_rs.Crates.{Crates}
use lofire_rs.Commit.{Ed25519}
use lofire_rs.Net.Overlay.{
  OverlayId, branch_sync_req_heads, branch_sync_req_known_heads, branch_sync_req_known_commits,
}
use lofire_rs.Net.Account.{
  AddUserContentV0, BrokerRequestContentV0, broker_request_content_v0, add_user_user, add_user_sig,
  del_user_user, del_user_sig, add_client_client, add_client_sig, del_client_client, del_client_sig,
}
use lofire_rs.Net.Requests.{
  BrokerOverlayRequestContentV0, broker_overlay_request_content_v0, overlay_join_repo_pubkey,
  overlay_join_secret, overlay_join_peers, object_del_id, object_pin_id, object_unpin_id,
  block_put_block, block_get_id, block_get_include_children, block_get_topic,
}
use lofire_rs.Net.Responses.{
  BrokerMessage, BrokerMessageContentV0, BrokerOverlayMessageContentV0, broker_request,
  broker_response, broker_overlay_message, broker_overlay_request,
}
use lofire_rs.Net.Messages
use lofire_rs.Net.Errors.{ProtocolError, invalid_state}
use lofire_rs.Broker.Calls.{Call, ◌>>=◌, returns, fails, reading}
use lofire_rs.Broker.Store.{BrokerStore}
use lofire_rs.Broker.Codec.{Codec}
use lofire_rs.Broker.Server.{BrokerServer, BlockStores, Serving}
use lofire_rs.Broker.Operations.{
  del_object, pin_object, unpin_object, put_block, get_block, sync_branch, join_overlay, add_user,
  del_user, add_client, del_client, connect_overlay,
}
use lofire_rs.Broker.Replies.{
  Result, prepare_reply_broker_message, prepare_reply_broker_overlay_message,
  send_block_stream_response_to_client,
}

abbrev pub padding_size : ℕ
padding_size = 20

-- A reply, and the frames that follow it.
abbrev pub Reply : Type 0
Reply = BrokerMessage × List BrokerMessage

-- The result of a call as a value; a panic is passed on.
abbrev pub settled :
    {T A : Type 0} → Outcome ProtocolError A × T → Outcome ProtocolError (Result A) × T
settled (ok a, s) = (ok (inr a), s)
settled (err e, s) = (ok (inl e), s)
settled (panic, s) = (panic, s)
settled (out_of_fuel, s) = (out_of_fuel, s)

abbrev pub attempt : {T A : Type 0} → Call T ProtocolError A → Call T ProtocolError (Result A)
attempt call s = settled (call s)

-- What a call of the server needs besides its state: the crates, the random key and the time of the
-- call, and the fuel of loads.
pub record Surroundings : Type 1 where
  pub crates : Crates
  pub ed : Ed25519
  pub add_user_to_vec : AddUserContentV0 → Bytes
  pub filter_contains : BloomFilter → Bytes → Bool
  pub random_key : SymKey
  pub now : Timestamp
  pub fuel : ℕ
  pub depth : ℕ

module _ {S R : Type 0} (w : Surroundings) (b : BrokerStore S) (z : Codec)
    (blocks : BlockStores R) where
  abbrev pub request : PubKey → BrokerRequestContentV0 → Serving S R Unit
  request user (BrokerRequestContentV0.add_user cmd) =
      add_user b z w.ed w.add_user_to_vec user (add_user_user cmd) (add_user_sig cmd)
  request user (BrokerRequestContentV0.del_user cmd) =
      del_user user (del_user_user cmd) (del_user_sig cmd)
  request user (BrokerRequestContentV0.add_client cmd) =
      add_client user (add_client_client cmd) (add_client_sig cmd)
  request user (BrokerRequestContentV0.del_client cmd) =
      del_client user (del_client_client cmd) (del_client_sig cmd)

  abbrev pub reply_to :
      ℕ → OverlayId → Call (BrokerServer S R) ProtocolError Unit → Serving S R Reply
  reply_to id overlay call = attempt call >>= λ res.
      returns (prepare_reply_broker_overlay_message res id overlay none padding_size, [])

  abbrev pub stream_to :
      ℕ → OverlayId → Call (BrokerServer S R) ProtocolError (List Block) → Serving S R Reply
  stream_to id overlay call = attempt call >>= λ res.
      returns (send_block_stream_response_to_client res id overlay padding_size)

  abbrev pub overlay_request :
      PubKey → ℕ → OverlayId → BrokerOverlayRequestContentV0 → Serving S R Reply
  overlay_request user id overlay (BrokerOverlayRequestContentV0.overlay_connect _) =
      reply_to id overlay (connect_overlay user overlay)
  overlay_request user id overlay (BrokerOverlayRequestContentV0.overlay_join j) =
      reply_to id overlay (
        join_overlay b z w.random_key w.now user overlay (overlay_join_repo_pubkey j)
          (overlay_join_secret j) (overlay_join_peers j))
  overlay_request user id overlay (BrokerOverlayRequestContentV0.object_del op) =
      reply_to id overlay (del_object w.crates b z blocks w.fuel user overlay (object_del_id op))
  overlay_request user id overlay (BrokerOverlayRequestContentV0.object_pin op) =
      reply_to id overlay (pin_object w.crates b z blocks w.fuel user overlay (object_pin_id op))
  overlay_request user id overlay (BrokerOverlayRequestContentV0.object_unpin op) =
      reply_to id overlay
        (unpin_object w.crates b z blocks w.fuel user overlay (object_unpin_id op))
  overlay_request user id overlay (BrokerOverlayRequestContentV0.block_put p) =
      reply_to id overlay (put_block w.crates b z blocks user overlay (block_put_block p))
  overlay_request user id overlay (BrokerOverlayRequestContentV0.branch_sync_req r) =
      stream_to id overlay (
        sync_branch w.crates b z blocks w.filter_contains w.fuel w.depth user overlay
          (branch_sync_req_heads r) (branch_sync_req_known_heads r)
          (branch_sync_req_known_commits r))
  overlay_request user id overlay (BrokerOverlayRequestContentV0.block_get g) =
      stream_to id overlay (
        get_block w.crates b z blocks w.fuel user overlay (block_get_id g)
          (block_get_include_children g) (block_get_topic g))
  overlay_request user id overlay _ = reply_to id overlay (fails invalid_state)

  abbrev pub overlay_message :
      PubKey → ℕ → OverlayId → BrokerOverlayMessageContentV0 → Serving S R Reply
  overlay_message user id overlay (broker_overlay_request r) =
      overlay_request user id overlay (broker_overlay_request_content_v0 r)
  overlay_message user id overlay _ = reply_to id overlay (fails invalid_state)

  abbrev pub message_content : PubKey → ℕ → BrokerMessageContentV0 → Serving S R Reply
  message_content user id (broker_request req) =
      attempt (request user (broker_request_content_v0 req)) >>= λ res.
      returns (prepare_reply_broker_message res id padding_size, [])
  message_content user id (broker_response res) =
      returns (prepare_reply_broker_message (inl invalid_state) id padding_size, [])
  message_content user id (broker_overlay_message omsg) =
      overlay_message user id omsg.v0.overlay omsg.v0.content

  -- `BrokerProtocolHandler::handle_incoming`
  unfoldable pub handle_incoming : PubKey → BrokerMessage → Serving S R Reply
  handle_incoming user msg = do
    id ← reading (λ s. Messages.id msg)
    content ← reading (λ s. Messages.content msg)
    message_content user id content
