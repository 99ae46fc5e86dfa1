-- ===== src/Broker/Handshake.antt =====
-- lofire-broker/src/auth.rs: the handshake of a server as a state machine, from its first message on.
use lofire_rs.Common.{
  ℕ, Bytes, Option, some, Outcome, ok, err, panic, out_of_fuel, bytes_has_eq, ◌≡◌, refl,
}
use lofire_rs.Types.{PubKey}
use lofire_rs.Commit.{Ed25519}
use lofire_rs.Utils.{verify}
use lofire_rs.Net.External.{
  ClientHello, ClientAuth, AuthResult, client_auth_content_v0, client_auth_sig, client_auth_user,
  client_auth_nonce,
}
use lofire_rs.Net.Errors.{ProtocolError}
use lofire_rs.Broker.Calls.{after, returns}
use lofire_rs.Broker.Auth.{
  AuthProtocolServerState, AuthProtocolHandler, AuthCodec, new, handle_init, handle_incoming,
}

module _ (ed : Ed25519) (z : AuthCodec) where
  -- What a server does in the handshake, with any random bytes and any frame of the client.
  pub data Reachable : AuthProtocolHandler → Type 0 where
    start : Reachable new
    init :
        (random_buf : Bytes) (hello : ClientHello) {h : AuthProtocolHandler}
        → Reachable h
        → Reachable (handle_init ed z random_buf hello h).1
    incoming :
        (frame : Bytes) {h : AuthProtocolHandler}
        → Reachable h
        → Reachable (handle_incoming ed z frame h).1

  -- A message of the user has been accepted: it carries the nonce that was sent, and the user's key
  -- verifies its signature.
  pub Granted : AuthProtocolHandler → PubKey → Type 0
  Granted h u =
      (a : ClientAuth) × (client_auth_user a ≡ u)
      × (h.nonce ≡ some (client_auth_nonce a))
      × (verify ed (z.client_auth_content_to_vec (client_auth_content_v0 a)) (client_auth_sig a) u
          ≡ ok tt)
      × (h.machine ≡ AuthProtocolServerState.auth_result_ok)

  Guarded : AuthProtocolHandler → Type 0
  Guarded h = (u : PubKey) → h.user ≡ some u → Granted h u

  -- The reply changes nothing.
  pub reply_keeps :
      (p : Outcome ProtocolError AuthResult) (h : AuthProtocolHandler)
      (f : AuthResult → Bytes × Option ℕ)
      → (after (p, h) (λ reply. returns (f reply))).1 ≡ h
  reply_keeps (ok a) h f = refl
  reply_keeps (err e) h f = refl
  reply_keeps panic h f = refl
  reply_keeps out_of_fuel h f = refl
