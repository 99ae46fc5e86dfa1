-- ===== src/Broker/Handler.antt =====
-- lofire-broker/src/server.rs: `ProtocolHandler`, the frames of one connection.
use lofire_rs.Common.{
  ℕ, Bytes, Option, none, some, List, [], map, Outcome, ok, err, panic, out_of_fuel,
}
use lofire_rs.Types.{PubKey}
use lofire_rs.Net.External.{StartProtocol}
use lofire_rs.Net.Responses.{BrokerMessage}
use lofire_rs.Net.Errors.{ProtocolError, serialization_error, invalid_state}
use lofire_rs.Broker.Auth
use lofire_rs.Broker.Auth.{AuthProtocolHandler, AuthCodec, get_user}
use lofire_rs.Broker.Store.{BrokerStore}
use lofire_rs.Broker.Codec.{Codec}
use lofire_rs.Broker.Server.{BrokerServer, BlockStores}
use lofire_rs.Broker.Protocol
use lofire_rs.Broker.Protocol.{Reply, Surroundings}

pub data ProtocolType : Type 0 where
  start auth broker ext p2p : ProtocolType

-- The handler of the broker protocol is the user that it serves.
pub record ProtocolHandler : Type 0 where
  pub protocol : ProtocolType
  pub auth_protocol : Option AuthProtocolHandler
  pub broker_protocol : Option PubKey

-- `BrokerServer::protocol_handler`
abbrev pub protocol_handler : ProtocolHandler
protocol_handler = record {
  protocol = ProtocolType.start;
  auth_protocol = none;
  broker_protocol = none;
}

-- The reply, the frames that follow it, and the result that closes the connection, if any.
pub record Answer : Type 0 where
  pub reply : Bytes
  pub later : List Bytes
  pub closing : Option ℕ

pub record FrameCodec : Type 0 where
  pub auth_codec : AuthCodec
  pub start_protocol_from_slice : Bytes → Option StartProtocol
  pub broker_message_from_slice : Bytes → Option BrokerMessage
  pub broker_message_to_vec : BrokerMessage → Bytes

module _ (w : Surroundings) (f : FrameCodec) where
  abbrev pub plain : Outcome ProtocolError Bytes → Outcome ProtocolError Answer
  plain (ok bytes) = ok (record { reply = bytes; later = []; closing = none })
  plain (err e) = err e
  plain panic = panic
  plain out_of_fuel = out_of_fuel

  abbrev pub authenticating :
      ProtocolHandler
      → Outcome ProtocolError Bytes × AuthProtocolHandler
      → Outcome ProtocolError Answer × ProtocolHandler
  authenticating p (result, h) =
      (plain result, record p { protocol = ProtocolType.auth; auth_protocol = some h })

  -- `ExtProtocolHandler::handle_incoming` is not implemented.
  abbrev pub on_start :
      Bytes
      → Option StartProtocol
      → ProtocolHandler
      → Outcome ProtocolError Answer × ProtocolHandler
  on_start random_buf none p = (err serialization_error, p)
  on_start random_buf (some (StartProtocol.auth hello)) p =
      authenticating p (Auth.handle_init w.ed f.auth_codec random_buf hello Auth.new)
  on_start random_buf (some (StartProtocol.ext request)) p =
      (panic, record p { protocol = ProtocolType.ext })

  abbrev pub serve :
      Bytes
      → AuthProtocolHandler
      → ProtocolHandler
      → Option PubKey
      → Outcome ProtocolError Answer × ProtocolHandler
  serve reply h p none =
      (panic, record p { protocol = ProtocolType.broker; auth_protocol = some h })
  serve reply h p (some user) = (
    plain (ok reply),
    record p { protocol = ProtocolType.broker; auth_protocol = none; broker_protocol = some user },
  )

  abbrev pub authenticated :
      ProtocolHandler
      → Outcome ProtocolError (Bytes × Option ℕ) × AuthProtocolHandler
      → Outcome ProtocolError Answer × ProtocolHandler
  authenticated p (ok (reply, none), h) = serve reply h p (get_user h)
  authenticated p (ok (reply, some e), h) = (
    ok (record { reply = reply; later = []; closing = some e }),
    record p { auth_protocol = some h },
  )
  authenticated p (err e, h) = (err e, record p { auth_protocol = some h })
  authenticated p (panic, h) = (panic, record p { auth_protocol = some h })
  authenticated p (out_of_fuel, h) = (out_of_fuel, record p { auth_protocol = some h })

  abbrev pub on_auth :
      Bytes
      → Option AuthProtocolHandler
      → ProtocolHandler
      → Outcome ProtocolError Answer × ProtocolHandler
  on_auth frame none p = (panic, p)
  on_auth frame (some h) p = authenticated p (Auth.handle_incoming w.ed f.auth_codec frame h)

  abbrev pub written : Outcome ProtocolError Reply → Outcome ProtocolError Answer
  written (ok (reply, later)) = ok (record {
    reply = f.broker_message_to_vec reply;
    later = map f.broker_message_to_vec later;
    closing = none;
  })
  written (err e) = err e
  written panic = panic
  written out_of_fuel = out_of_fuel

  module _ {S R : Type 0} (b : BrokerStore S) (z : Codec) (blocks : BlockStores R) where
    abbrev pub on_broker :
        Option PubKey
        → Option BrokerMessage
        → BrokerServer S R
        → Outcome ProtocolError Answer × BrokerServer S R
    on_broker user none s = (err serialization_error, s)
    on_broker none (some msg) s = (panic, s)
    on_broker (some user) (some msg) s =
        let (result, s') = Protocol.handle_incoming w b z blocks user msg s in (written result, s')

    abbrev pub beside :
        BrokerServer S R
        → Outcome ProtocolError Answer × ProtocolHandler
        → Outcome ProtocolError Answer × (ProtocolHandler × BrokerServer S R)
    beside s (result, p) = (result, (p, s))

    abbrev pub in_protocol :
        ProtocolType
        → Bytes
        → Bytes
        → ProtocolHandler
        → BrokerServer S R
        → Outcome ProtocolError Answer × (ProtocolHandler × BrokerServer S R)
    in_protocol ProtocolType.start random_buf frame p s =
        beside s (on_start random_buf (f.start_protocol_from_slice frame) p)
    in_protocol ProtocolType.auth random_buf frame p s = beside s (on_auth frame p.auth_protocol p)
    in_protocol ProtocolType.broker random_buf frame p s =
        let (result, s') = on_broker p.broker_protocol (f.broker_message_from_slice frame) s in
        (result, (p, s'))
    in_protocol ProtocolType.ext random_buf frame p s = (err invalid_state, (p, s))
    in_protocol ProtocolType.p2p random_buf frame p s = (panic, (p, s))

    -- `ProtocolHandler::handle_incoming`; the random bytes are an argument.
    unfoldable pub handle_incoming :
        Bytes
        → Bytes
        → ProtocolHandler × BrokerServer S R
        → Outcome ProtocolError Answer × (ProtocolHandler × BrokerServer S R)
    handle_incoming random_buf frame (p, s) = in_protocol p.protocol random_buf frame p s
