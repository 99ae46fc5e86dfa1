-- ===== src/Broker/Auth.antt =====
-- lofire-broker/src/auth.rs: the handshake of a client with a broker.
use lofire_rs.Common.{
  ℕ, Bytes, not, Option, none, some, [], Outcome, ok, err, panic, out_of_fuel, map_err, unwrap,
  ok_or, if◌then◌else◌, beq, bytes_has_eq,
}
use lofire_rs.Types.{PubKey}
use lofire_rs.Commit.{Ed25519}
use lofire_rs.Utils.{verify}
use lofire_rs.Net.External.{
  ClientHello, ClientAuth, ClientAuthContentV0, ServerHello, AuthResult, client_auth_content_v0,
  client_auth_sig, client_auth_user, client_auth_nonce, auth_result_result,
}
use lofire_rs.Net.Errors.{ProtocolError, code, serialization_error, invalid_state, access_denied}
use lofire_rs.Broker.Calls.{Call, ◌>>=◌, ◌>>◌, returns, fails, reading}

-- `AuthProtocolClient`
pub data AuthProtocolClientState : Type 0 where
  ready client_hello_sent server_hello_received client_auth_sent : AuthProtocolClientState
  auth_result broker_protocol closed : AuthProtocolClientState

pub data AuthProtocolClientInput : Type 0 where
  client_hello_sent server_hello_received client_auth_sent : AuthProtocolClientInput
  auth_result_received ok_input error_input : AuthProtocolClientInput

abbrev pub client_transition :
    AuthProtocolClientState → AuthProtocolClientInput → Option AuthProtocolClientState
client_transition AuthProtocolClientState.ready AuthProtocolClientInput.client_hello_sent =
    some AuthProtocolClientState.client_hello_sent
client_transition AuthProtocolClientState.client_hello_sent
      AuthProtocolClientInput.server_hello_received =
    some AuthProtocolClientState.server_hello_received
client_transition AuthProtocolClientState.server_hello_received
      AuthProtocolClientInput.client_auth_sent =
    some AuthProtocolClientState.client_auth_sent
client_transition AuthProtocolClientState.client_auth_sent
      AuthProtocolClientInput.auth_result_received =
    some AuthProtocolClientState.auth_result
client_transition AuthProtocolClientState.auth_result AuthProtocolClientInput.ok_input =
    some AuthProtocolClientState.broker_protocol
client_transition AuthProtocolClientState.auth_result AuthProtocolClientInput.error_input =
    some AuthProtocolClientState.closed
client_transition _ _ = none

-- `AuthProtocolServer`
pub data AuthProtocolServerState : Type 0 where
  ready client_hello_received server_hello_sent client_auth_received : AuthProtocolServerState
  auth_result_ok auth_result_error broker_protocol closed : AuthProtocolServerState

pub data AuthProtocolServerInput : Type 0 where
  client_hello_received server_hello_sent client_auth_received : AuthProtocolServerInput
  ok_input error_input auth_result_sent : AuthProtocolServerInput

abbrev pub server_transition :
    AuthProtocolServerState → AuthProtocolServerInput → Option AuthProtocolServerState
server_transition AuthProtocolServerState.ready AuthProtocolServerInput.client_hello_received =
    some AuthProtocolServerState.client_hello_received
server_transition AuthProtocolServerState.client_hello_received
      AuthProtocolServerInput.server_hello_sent =
    some AuthProtocolServerState.server_hello_sent
server_transition AuthProtocolServerState.server_hello_sent
      AuthProtocolServerInput.client_auth_received =
    some AuthProtocolServerState.client_auth_received
server_transition AuthProtocolServerState.client_auth_received AuthProtocolServerInput.ok_input =
    some AuthProtocolServerState.auth_result_ok
server_transition AuthProtocolServerState.client_auth_received AuthProtocolServerInput.error_input =
    some AuthProtocolServerState.auth_result_error
server_transition AuthProtocolServerState.auth_result_ok AuthProtocolServerInput.auth_result_sent =
    some AuthProtocolServerState.broker_protocol
server_transition AuthProtocolServerState.auth_result_error
      AuthProtocolServerInput.auth_result_sent =
    some AuthProtocolServerState.closed
server_transition _ _ = none

pub record AuthProtocolHandler : Type 0 where
  pub machine : AuthProtocolServerState
  pub nonce : Option Bytes
  pub user : Option PubKey

unfoldable pub new : AuthProtocolHandler
new = record { machine = AuthProtocolServerState.ready; nonce = none; user = none }

unfoldable pub get_user : AuthProtocolHandler → Option PubKey
get_user h = h.user

abbrev pub Handling : Type 0 → Type 0
Handling A = Call AuthProtocolHandler ProtocolError A

abbrev pub moved :
    AuthProtocolHandler
    → Option AuthProtocolServerState
    → Outcome {0} ProtocolError Unit × AuthProtocolHandler
moved h none = (err invalid_state, h)
moved h (some state) = (ok tt, record h { machine = state })

-- `machine.consume(input).map_err(|_e| ProtocolError::InvalidState)`: a transition that is not in the
-- table fails and leaves the state.
unfoldable pub consume : AuthProtocolServerInput → Handling Unit
consume input h = moved h (server_transition h.machine input)

-- `serde_bare::to_vec` and `from_slice` of the handshake's messages
pub record AuthCodec : Type 0 where
  pub server_hello_to_vec : ServerHello → Bytes
  pub client_auth_from_slice : Bytes → Option ClientAuth
  pub client_auth_content_to_vec : ClientAuthContentV0 → Bytes
  pub auth_result_to_vec : AuthResult → Bytes

abbrev pub set_nonce : Bytes → Handling Unit
set_nonce nonce h = (ok tt, record h { nonce = some nonce })

abbrev pub set_user : PubKey → Handling Unit
set_user user h = (ok tt, record h { user = some user })

-- The result of the transition is dropped: `let _ = …`.
abbrev pub let_go : {A : Type 0} → Handling A → Handling Unit
let_go call h = (ok tt, (call h).1)

module _ (ed : Ed25519) (z : AuthCodec) where
  -- The random bytes are an argument.
  unfoldable pub handle_init : Bytes → ClientHello → Handling Bytes
  handle_init random_buf client_hello = do
    consume AuthProtocolServerInput.client_hello_received
    set_nonce random_buf
    consume AuthProtocolServerInput.server_hello_sent
    returns (z.server_hello_to_vec (record { v0 = record { nonce = random_buf } }))

  unfoldable pub check_nonce : ClientAuth → Handling Bytes
  check_nonce message = do
    nonce ← reading (λ h. unwrap h.nonce)
    if not (beq (client_auth_nonce message) nonce)
        then (do let_go (consume AuthProtocolServerInput.error_input); fails access_denied)
        else (do
          consume AuthProtocolServerInput.ok_input
          set_user (client_auth_user message)
          returns [])

  unfoldable pub process_auth : Bytes → Handling Bytes
  process_auth frame = do
    message ← reading (λ _. ok_or serialization_error (z.client_auth_from_slice frame))
    consume AuthProtocolServerInput.client_auth_received
    reading (λ _.
        map_err (λ e. access_denied)
          (verify ed (z.client_auth_content_to_vec (client_auth_content_v0 message))
            (client_auth_sig message) (client_auth_user message)))
    check_nonce message

  abbrev pub process_in : AuthProtocolServerState → Bytes → Handling Bytes
  process_in AuthProtocolServerState.server_hello_sent frame = process_auth frame
  process_in _ frame = fails invalid_state

  unfoldable pub process_state : Bytes → Handling Bytes
  process_state frame h = process_in h.machine frame h

  -- A panic is passed on.
  abbrev pub prepare_reply : Outcome ProtocolError Bytes → Outcome ProtocolError AuthResult
  prepare_reply (ok m) = ok (record { v0 = record { result = 0; metadata = m } })
  prepare_reply (err e) = ok (record { v0 = record { result = code e; metadata = [] } })
  prepare_reply panic = panic
  prepare_reply out_of_fuel = out_of_fuel

  abbrev pub close_with : Outcome ProtocolError Bytes → AuthResult → Option ℕ
  close_with (err e) reply = some (auth_result_result reply)
  close_with _ reply = none

  -- The reply, and the result with which the connection is to be closed, if it is.
  unfoldable pub handle_incoming : Bytes → Handling (Bytes × Option ℕ)
  handle_incoming frame h =
      let (res, h') = process_state frame h in
      (reading (λ _. prepare_reply res) >>= λ reply.
      returns (z.auth_result_to_vec reply, close_with res reply))
        h'
