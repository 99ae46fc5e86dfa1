-- ===== src/Tests/Connections.antt =====
-- A broker on a concrete connection: the handshake, and the messages of a user.
use lofire_rs.Common.{
  ℕ, Bytes, List, [], ◌∷◌, Option, none, some, Bool, true, false, Outcome, ok, err, panic, ◌⊎◌, inl,
  inr, ◌≡◌, refl, All, lookup, map, contains, not, ◌&&◌, if◌then◌else◌,
}
use lofire_rs.Types.{Sig, digest_has_eq}
use lofire_rs.Block
use lofire_rs.Store.{backend_error}
use lofire_rs.Net.Overlay.{OverlayConnect}
use lofire_rs.Net.Requests.{BrokerOverlayRequestContentV0}
use lofire_rs.Net.Responses.{
  BrokerMessage, broker_overlay_message, broker_overlay_request, v0, close,
}
use lofire_rs.Net.Messages
use lofire_rs.Net.External.{ClientAuth, ClientHello, StartProtocol}
use lofire_rs.Net.Errors.{ProtocolError, overlay_not_joined, overlay_not_found}
use lofire_rs.Broker.Codec.{RepoStoreId, ConfigMode, local, core}
use lofire_rs.Broker.Server.{BrokerServer, BlockStores, repo_store_id_has_eq}
use lofire_rs.Broker.Account
use lofire_rs.Broker.Operations.{put_block, send_blocks}
use lofire_rs.Broker.Auth.{AuthCodec, AuthProtocolHandler, new}
use lofire_rs.Broker.Auth
use lofire_rs.Broker.Protocol.{Surroundings, Reply}
use lofire_rs.Broker.Protocol
use lofire_rs.Broker.Replies.{prepare_reply_broker_overlay_message, frames}
use lofire_rs.Broker.Answers.{Answers, handle_incoming-Answers}
use lofire_rs.Broker.Users.{put_block_in_core, keys, open_with, never_served}
use lofire_rs.Broker.Handler.{FrameCodec, ProtocolHandler, protocol_handler}
use lofire_rs.Broker.Handler
use lofire_rs.Broker.Streams.{times, one_if, send_blocks-times}
use lofire_rs.Tests.Crate.{crates}
use lofire_rs.Tests.Commits.{scheme}
use lofire_rs.Tests.Multi.{Values}
use lofire_rs.Tests.BrokerCodec.{codec}
use lofire_rs.Tests.Brokers.{store, laws, nothing, alice, bob, overlay, a_block}

abbrev nonce : Bytes
nonce = 4 ∷ 5 ∷ []

abbrev no_sig : Sig
no_sig = record { ed25519_sig = ([], []) }

abbrev alice_auth : ClientAuth
alice_auth = record {
  v0 = record { content = record { user = alice; client = bob; nonce = nonce }; sig = no_sig };
}

-- Every frame is alice's answer.
abbrev auth_codec : AuthCodec
auth_codec = record {
  server_hello_to_vec = λ m. m.v0.nonce;
  client_auth_from_slice = λ frame. some alice_auth;
  client_auth_content_to_vec = λ m. m.nonce;
  auth_result_to_vec = λ m. [];
}

abbrev greeted : AuthProtocolHandler
greeted = (Auth.handle_init scheme auth_codec nonce ClientHello.v0 new).1

abbrev served : AuthProtocolHandler
served = (Auth.handle_incoming scheme auth_codec [] greeted).1

abbrev surroundings : Surroundings
surroundings = record {
  crates = crates;
  ed = scheme;
  add_user_to_vec = λ c. c.user.ed25519_pub_key;
  filter_contains = λ f b. false;
  random_key = record { chacha20_key = 3 ∷ [] };
  now = 60;
  fuel = 2;
  depth = 3;
}

abbrev frame_codec : FrameCodec
frame_codec = record {
  auth_codec = auth_codec;
  start_protocol_from_slice = λ frame. some (StartProtocol.auth ClientHello.v0);
  broker_message_from_slice = λ frame. some close;
  broker_message_to_vec = λ m. [];
}

-- Stores of blocks that cannot be opened.
abbrev no_blocks : BlockStores Unit
no_blocks = record {
  get = λ i r. (err backend_error, r);
  put = λ i r. (err backend_error, r);
  del = λ i r. (err backend_error, r);
  set_pin = λ i p r. (err backend_error, r);
  open_store = λ i k. err ProtocolError.not_found;
}

abbrev server_in : ConfigMode → BrokerServer Values Unit
server_in mode = record {
  store = nothing;
  mode = mode;
  repo_stores = [];
  overlayid_to_repostore = [];
}

abbrev started : Outcome ProtocolError Handler.Answer × (ProtocolHandler × BrokerServer Values Unit)
started =
    Handler.handle_incoming surroundings frame_codec store codec no_blocks nonce []
      (protocol_handler, server_in local)

abbrev connected :
    Outcome ProtocolError Handler.Answer × (ProtocolHandler × BrokerServer Values Unit)
connected = Handler.handle_incoming surroundings frame_codec store codec no_blocks [] [] started.1

abbrev connect_message : BrokerMessage
connect_message = v0 (record {
  content = broker_overlay_message (record {
    v0 = record {
      overlay = overlay;
      content = broker_overlay_request (record {
        v0 = record {
          id = 5;
          content = BrokerOverlayRequestContentV0.overlay_connect OverlayConnect.v0;
        };
      });
    };
  });
  padding = [];
})

abbrev refused : Reply
refused = (prepare_reply_broker_overlay_message (inl overlay_not_joined) 5 overlay none 20, [])

refused_lem :
    Protocol.handle_incoming surroundings store codec no_blocks alice connect_message
      (server_in local)
    ≡ (ok refused, server_in local)
unfolding Protocol.handle_incoming Messages.id
refused_lem = refl

handle_incoming-Answers_example :
    (i : ℕ) × (Messages.id {E = ProtocolError} connect_message ≡ ok i)
    × All (Answers i) (frames refused)
handle_incoming-Answers_example =
    handle_incoming-Answers surroundings store codec no_blocks alice connect_message
      (server_in local) refused (server_in local) refused_lem

not_open : lookup (RepoStoreId.overlay overlay) (server_in core).repo_stores ≡ none
unfolding lookup
not_open = refl

put_block_in_core_example :
    ((keys crates codec laws no_blocks overlay nothing ≡ [])
      × (put_block crates store codec no_blocks alice overlay a_block (server_in core)
          ≡ (err overlay_not_found, server_in core)))
    ⊎ ((v : Bytes) × (vs : List Bytes) × (keys crates codec laws no_blocks overlay nothing ≡ v ∷ vs)
        × (put_block crates store codec no_blocks alice overlay a_block (server_in core)
            ≡ (never_served (open_with crates codec laws no_blocks overlay v), server_in core)))
put_block_in_core_example =
    put_block_in_core crates codec laws no_blocks alice overlay a_block (server_in core) refl
      not_open

send_blocks-times_example :
    (times overlay (
        map
          (Block.id crates)
          (send_blocks crates store codec no_blocks (a_block ∷ a_block ∷ []) []).0)
      ≡ one_if (
          contains overlay (map (Block.id crates) (a_block ∷ a_block ∷ []))
          && not (contains overlay [])))
    × (contains overlay (send_blocks crates store codec no_blocks (a_block ∷ a_block ∷ []) []).1 ≡ (
        if contains overlay []
        then true
        else contains overlay (map (Block.id crates) (a_block ∷ a_block ∷ []))))
send_blocks-times_example =
    send_blocks-times crates store codec no_blocks (a_block ∷ a_block ∷ []) [] overlay
