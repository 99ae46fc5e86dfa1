-- ===== src/Broker/Connections.antt =====
-- lofire-broker/src/server.rs: the user that a connection serves.
use lofire_rs.Common.{Bytes, Option, some, List, [], ◌∷◌, Outcome, ok, ◌≡◌, ◌⊎◌}
use lofire_rs.Types.{PubKey}
use lofire_rs.Net.Errors.{ProtocolError}
use lofire_rs.Broker.Auth
use lofire_rs.Broker.Auth.{AuthProtocolHandler}
use lofire_rs.Broker.Acceptance.{Accepts}
use lofire_rs.Broker.Store.{BrokerStore}
use lofire_rs.Broker.Codec.{Codec}
use lofire_rs.Broker.Server.{BrokerServer, BlockStores}
use lofire_rs.Broker.Protocol.{Surroundings}
use lofire_rs.Broker.Handler.{
  ProtocolHandler, protocol_handler, FrameCodec, Answer, handle_incoming,
}

-- The frames that a connection received and what came of them, the last one first.
abbrev pub Trace : Type 0
Trace = List (Bytes × Outcome ProtocolError Answer)

module _ (w : Surroundings) (f : FrameCodec) where
  -- The server's hello with that nonce was a reply.
  unfoldable pub Sent : Bytes → Trace → Type 0
  Sent nonce [] = ⊥
  Sent nonce ((frame, r) ∷ before) =
      ((answer : Answer) × (r ≡ ok answer)
        × (answer.reply
            ≡ f.auth_codec.server_hello_to_vec (record { v0 = record { nonce = nonce } })))
      ⊎ Sent nonce before

  -- A frame was a message of the user with a valid signature, and its nonce had been sent before.
  unfoldable pub Proven : PubKey → Trace → Type 0
  Proven u [] = ⊥
  Proven u ((frame, r) ∷ before) =
      ((nonce : Bytes) × Sent nonce before × Accepts w.ed f.auth_codec frame nonce u)
      ⊎ Proven u before

  Known : Trace → AuthProtocolHandler → Type 0
  Known t h =
      ((n : Bytes) → h.nonce ≡ some n → Sent n t) × ((u : PubKey) → h.user ≡ some u → Proven u t)

  -- The nonce of a connection has been sent, and its user has proven to be that user.
  Sound : Trace → ProtocolHandler → Type 0
  Sound t p =
      ((h : AuthProtocolHandler) → p.auth_protocol ≡ some h → Known t h)
      × ((u : PubKey) → p.broker_protocol ≡ some u → Proven u t)

  AfterStep : Bytes → Trace → Outcome ProtocolError Answer × ProtocolHandler → Type 0
  AfterStep frame t (r, p) = Sound ((frame, r) ∷ t) p

  module _ {S R : Type 0} (b : BrokerStore S) (z : Codec) (blocks : BlockStores R) where
    -- A connection from its start on, whatever frames arrive, with its trace.
    pub data Connection : Trace → ProtocolHandler × BrokerServer S R → Type 0 where
      opened : (s : BrokerServer S R) → Connection [] (protocol_handler, s)
      receive :
          (random_buf frame : Bytes) {t : Trace} {c : ProtocolHandler × BrokerServer S R}
          → Connection t c
          → Connection
              ((frame, (handle_incoming w f b z blocks random_buf frame c).0) ∷ t)
              (handle_incoming w f b z blocks random_buf frame c).1
