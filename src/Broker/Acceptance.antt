-- ===== src/Broker/Acceptance.antt =====
-- lofire-broker/src/auth.rs: what one frame of the client changes in the handshake of a server.
use mathlib.Core.Option.{some-injective}
use mathlib.Core.Path.{subst}
use lofire_rs.Common.{
  Bytes, Option, none, some, ok, beq, bytes_has_eq, eq_of_beq, ◌≡◌, refl, sym, Bool-cases,
  Option-cases, Outcome-cases, inl, inr, ◌⊎◌,
}
use lofire_rs.Types.{PubKey}
use lofire_rs.Commit.{Ed25519}
use lofire_rs.Utils.{verify}
use lofire_rs.Net.External.{
  ClientAuth, client_auth_content_v0, client_auth_sig, client_auth_user, client_auth_nonce,
}
use lofire_rs.Broker.Auth.{
  AuthProtocolServerState, AuthProtocolHandler, AuthCodec, consume, check_nonce, process_auth,
  process_state, handle_incoming, prepare_reply,
}
use lofire_rs.Broker.Handshake.{reply_keeps}

module _ (ed : Ed25519) (z : AuthCodec) where
  -- The frame is a message of the user that carries the nonce, and the user's key verifies its signature.
  pub Accepts : Bytes → Bytes → PubKey → Type 0
  Accepts frame nonce u =
      (a : ClientAuth) × (z.client_auth_from_slice frame ≡ some a)
      × (client_auth_user a ≡ u)
      × (client_auth_nonce a ≡ nonce)
      × (verify ed (z.client_auth_content_to_vec (client_auth_content_v0 a)) (client_auth_sig a) u
          ≡ ok tt)

  -- The nonce stays, and a new user is accepted with it.
  unfoldable pub Stepped : Bytes → AuthProtocolHandler → AuthProtocolHandler → Type 0
  unfolding Accepts
  Stepped frame h h' =
      (h'.nonce ≡ h.nonce)
      × ((u : PubKey)
          → h'.user ≡ some u
          → (h.user ≡ some u) ⊎ ((n : Bytes) × (h.nonce ≡ some n) × Accepts frame n u))

  same_user :
      (frame : Bytes) (m m' : AuthProtocolServerState) (n : Option Bytes) (u : Option PubKey)
      → Stepped frame
          (record { machine = m; nonce = n; user = u })
          (record { machine = m'; nonce = n; user = u })
  unfolding Stepped
  same_user frame m m' n u = (refl, λ v is_user. inl is_user)

  check_nonce-Stepped :
      (frame : Bytes) (n : Option Bytes) (u : Option PubKey) (a : ClientAuth)
      → z.client_auth_from_slice frame ≡ some a
      → verify ed
          (z.client_auth_content_to_vec (client_auth_content_v0 a))
          (client_auth_sig a)
          (client_auth_user a)
        ≡ ok tt
      → Stepped frame
          (record { machine = AuthProtocolServerState.server_hello_sent; nonce = n; user = u })
          (check_nonce ed z a (record {
            machine = AuthProtocolServerState.client_auth_received;
            nonce = n;
            user = u;
          })).1
  unfolding check_nonce consume Stepped Accepts
  check_nonce-Stepped frame none u a was_read verified = (refl, λ v is_user. inl is_user)
  check_nonce-Stepped frame (some k) u a was_read verified =
      elim (Bool-cases (beq (client_auth_nonce a) k)) [
        | inl same ↦ rw same (
          refl,
          λ v is_user.
              let who = some-injective _ _ is_user in
              inr (
                k,
                refl,
                (
                  a,
                  was_read,
                  who,
                  eq_of_beq (client_auth_nonce a) k same,
                  subst
                      (λ w.
                        verify ed (z.client_auth_content_to_vec (client_auth_content_v0 a))
                          (client_auth_sig a) w
                        ≡ ok tt)
                      who verified,
                ),
              ),
        )
        | inr other ↦ rw other (refl, λ v is_user. inl is_user)
      ]

  process_auth-Stepped :
      (frame : Bytes) (n : Option Bytes) (u : Option PubKey)
      → Stepped frame
          (record { machine = AuthProtocolServerState.server_hello_sent; nonce = n; user = u })
          (process_auth ed z frame
            (record { machine = AuthProtocolServerState.server_hello_sent; nonce = n; user = u })).1
  unfolding process_auth consume
  process_auth-Stepped frame n u = elim (Option-cases (z.client_auth_from_slice frame)) [
    | inl none_read ↦ rw none_read (same_user frame _ _ n u)
    | inr (a, was_read) ↦
        elim (Outcome-cases (
          verify ed (z.client_auth_content_to_vec (client_auth_content_v0 a)) (client_auth_sig a)
            (client_auth_user a))) [
              | inl (_, verified) ↦
                  rw (was_read, verified) (check_nonce-Stepped frame n u a was_read verified)
              | inr (inl (e, refused)) ↦ rw (was_read, refused) (same_user frame _ _ n u)
              | inr (inr (inl panics)) ↦ rw (was_read, panics) (same_user frame _ _ n u)
              | inr (inr (inr stuck)) ↦ rw (was_read, stuck) (same_user frame _ _ n u)
            ]
  ]

  process_state-Stepped :
      (frame : Bytes) (m : AuthProtocolServerState) (n : Option Bytes) (u : Option PubKey)
      → Stepped frame
          (record { machine = m; nonce = n; user = u })
          (process_state ed z frame (record { machine = m; nonce = n; user = u })).1
  unfolding process_state
  process_state-Stepped frame AuthProtocolServerState.ready n u = same_user frame _ _ n u
  process_state-Stepped frame AuthProtocolServerState.client_hello_received n u =
      same_user frame _ _ n u
  process_state-Stepped frame AuthProtocolServerState.server_hello_sent n u =
      process_auth-Stepped frame n u
  process_state-Stepped frame AuthProtocolServerState.client_auth_received n u =
      same_user frame _ _ n u
  process_state-Stepped frame AuthProtocolServerState.auth_result_ok n u = same_user frame _ _ n u
  process_state-Stepped frame AuthProtocolServerState.auth_result_error n u =
      same_user frame _ _ n u
  process_state-Stepped frame AuthProtocolServerState.broker_protocol n u = same_user frame _ _ n u
  process_state-Stepped frame AuthProtocolServerState.closed n u = same_user frame _ _ n u

  pub handle_incoming-Stepped :
      (frame : Bytes) (h : AuthProtocolHandler) → Stepped frame h (handle_incoming ed z frame h).1
  unfolding handle_incoming
  handle_incoming-Stepped frame h =
      subst (Stepped frame h)
        (sym (
          reply_keeps ed z (prepare_reply ed z (process_state ed z frame h).0)
            (process_state ed z frame h).1 _))
        (process_state-Stepped frame h.machine h.nonce h.user)
