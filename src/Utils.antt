-- ===== src/Utils.antt =====
-- lofire/src/utils.rs and errors.rs: signatures of byte strings.
use lofire_rs.Common.{Bytes, ◌++◌, take, drop, Outcome, ok, err, ◌>>=◌, ok_or, if◌then◌else◌}
use lofire_rs.Types.{PrivKey, PubKey, Sig}
use lofire_rs.Commit.{Ed25519}

-- An error of ed25519_dalek becomes `InvalidSignature`, one of serde_bare `SerializationError`.
pub data LofireError : Type 0 where
  invalid_signature serialization_error : LofireError

module _ (ed : Ed25519) where
  -- `sign`
  unfoldable pub sign : PrivKey → PubKey → Bytes → Outcome LofireError Sig
  sign author_privkey author_pubkey content = do
    let kp = author_privkey.ed25519_priv_key ++ author_pubkey.ed25519_pub_key
    keypair ← ok_or invalid_signature (ed.keypair_from_bytes kp)
    let sig_bytes = ed.sign keypair content
    ok (record { ed25519_sig = (take 32 sig_bytes, take 32 (drop 32 sig_bytes)) })

  -- `verify`
  unfoldable pub verify : Bytes → Sig → PubKey → Outcome {0} LofireError Unit
  verify content sig pub_key = do
    pk ← ok_or invalid_signature (ed.public_key_from_bytes pub_key.ed25519_pub_key)
    let sig_bytes = sig.ed25519_sig.0 ++ sig.ed25519_sig.1
    s ← ok_or invalid_signature (ed.signature_from_bytes sig_bytes)
    if ed.verify_strict pk content s then ok tt else err invalid_signature
