-- ===== src/Net/Errors.antt =====
-- lofire-net/src/errors.rs: the errors of the protocol, their codes, and what a reply comes to.
use lofire_rs.Common.{
  ℕ, zero, suc, Bool, true, false, Option, none, some, List, [], ◌∷◌, get_elem?, Outcome, ok, err,
  panic, ◌>>=◌, unwrap, if◌then◌else◌, ◌==◌, ◌≡◌, ◌≢◌, ◌↔◌, refl, ap, sym, ◌∙◌,
}
use mathlib.Core.Option.{some-injective}
use lofire_rs.Types.{Block, ObjectId}
use lofire_rs.Utils.{LofireError}
use lofire_rs.Store.{StorageError}
use lofire_rs.Object.{ObjectParseError}
use lofire_rs.Net.Responses.{BrokerMessage}
use lofire_rs.Net.Messages.{is_response, result, is_overlay, response_block, response_object_id}

-- The codes start at 1 and go up by one.
pub data ProtocolError : Type 0 where
  write_error actor_error invalid_state signature_error invalid_signature : ProtocolError
  serialization_error partial_content access_denied overlay_not_joined : ProtocolError
  overlay_not_found broker_error not_found end_of_stream store_error : ProtocolError
  missing_blocks object_parse_error invalid_value user_already_exists : ProtocolError
  repo_id_required closing : ProtocolError

-- `IntoPrimitive`
abbrev pub code : ProtocolError → ℕ
code ProtocolError.write_error = 1
code ProtocolError.actor_error = 2
code ProtocolError.invalid_state = 3
code ProtocolError.signature_error = 4
code ProtocolError.invalid_signature = 5
code ProtocolError.serialization_error = 6
code ProtocolError.partial_content = 7
code ProtocolError.access_denied = 8
code ProtocolError.overlay_not_joined = 9
code ProtocolError.overlay_not_found = 10
code ProtocolError.broker_error = 11
code ProtocolError.not_found = 12
code ProtocolError.end_of_stream = 13
code ProtocolError.store_error = 14
code ProtocolError.missing_blocks = 15
code ProtocolError.object_parse_error = 16
code ProtocolError.invalid_value = 17
code ProtocolError.user_already_exists = 18
code ProtocolError.repo_id_required = 19
code ProtocolError.closing = 20

abbrev pub protocol_errors : List ProtocolError
protocol_errors =
    ProtocolError.write_error ∷ ProtocolError.actor_error ∷ ProtocolError.invalid_state
    ∷ ProtocolError.signature_error ∷ ProtocolError.invalid_signature
    ∷ ProtocolError.serialization_error ∷ ProtocolError.partial_content
    ∷ ProtocolError.access_denied ∷ ProtocolError.overlay_not_joined
    ∷ ProtocolError.overlay_not_found ∷ ProtocolError.broker_error ∷ ProtocolError.not_found
    ∷ ProtocolError.end_of_stream ∷ ProtocolError.store_error ∷ ProtocolError.missing_blocks
    ∷ ProtocolError.object_parse_error ∷ ProtocolError.invalid_value
    ∷ ProtocolError.user_already_exists ∷ ProtocolError.repo_id_required ∷ ProtocolError.closing
    ∷ []

-- `TryFromPrimitive`
abbrev pub try_from : ℕ → Option ProtocolError
try_from zero = none
try_from (suc n) = get_elem? protocol_errors n

-- `ProtocolError::is_stream`
abbrev pub is_stream : ProtocolError → Bool
is_stream ProtocolError.partial_content = true
is_stream ProtocolError.end_of_stream = true
is_stream _ = false

-- `From<LofireError>`
abbrev pub from_lofire_error : LofireError → ProtocolError
from_lofire_error LofireError.invalid_signature = ProtocolError.invalid_signature
from_lofire_error LofireError.serialization_error = ProtocolError.serialization_error

-- `From<ObjectParseError>`
abbrev pub from_object_parse_error : ObjectParseError → ProtocolError
from_object_parse_error e = ProtocolError.object_parse_error

-- `From<StorageError>`
abbrev pub from_storage_error : StorageError → ProtocolError
from_storage_error StorageError.not_found = ProtocolError.not_found
from_storage_error StorageError.invalid_value = ProtocolError.invalid_value
from_storage_error _ = ProtocolError.store_error

-- The error of a result that is not 0: `Err(ProtocolError::try_from(err).unwrap())`
abbrev pub fails_with {ℓ} : {A : Type ℓ} → ℕ → Outcome ProtocolError A
fails_with n = unwrap (try_from n) >>= err

abbrev pub must_be_response : BrokerMessage → Outcome {0} ProtocolError Unit
must_be_response msg = is_response msg >>= λ r. if r then ok tt else panic

-- `From<BrokerMessage> for Result<(), ProtocolError>`
unfoldable pub to_unit : BrokerMessage → Outcome {0} ProtocolError Unit
to_unit msg =
    must_be_response msg >>= λ _. result msg >>= λ n. if n == 0 then ok tt else fails_with n

-- `From<BrokerMessage> for Result<ObjectId, ProtocolError>`
unfoldable pub to_object_id : BrokerMessage → Outcome ProtocolError ObjectId
to_object_id msg = must_be_response msg >>= λ _.
    result msg >>= λ n. if n == 0 then response_object_id msg else fails_with n

-- `res == 0 || ProtocolError::try_from(res).unwrap().is_stream()`
abbrev pub has_content : ℕ → Outcome ProtocolError Bool
has_content n = if n == 0 then ok true else unwrap (try_from n) >>= λ e. ok (is_stream e)

abbrev pub block_if_overlay : BrokerMessage → Outcome ProtocolError (Option Block)
block_if_overlay msg = is_overlay msg >>= λ o. if o then response_block msg else ok none

abbrev pub code_if_some : ℕ → Option Block → Option ℕ
code_if_some n none = none
code_if_some n (some b) = some n

-- `From<BrokerMessage> for Result<Option<u16>, ProtocolError>`
unfoldable pub to_option_u16 : BrokerMessage → Outcome ProtocolError (Option ℕ)
to_option_u16 msg = must_be_response msg >>= λ _. result msg >>= λ n. has_content n >>= λ c.
    if c then (block_if_overlay msg >>= λ b. ok (code_if_some n b)) else fails_with n

-- `From<BrokerMessage> for Result<Option<Block>, ProtocolError>`
unfoldable pub to_option_block : BrokerMessage → Outcome ProtocolError (Option Block)
to_option_block msg = must_be_response msg >>= λ _.
    result msg >>= λ n. has_content n >>= λ c. if c then block_if_overlay msg else fails_with n

pub try_from-code : (e : ProtocolError) → try_from (code e) ≡ some e
try_from-code ProtocolError.write_error = refl
try_from-code ProtocolError.actor_error = refl
try_from-code ProtocolError.invalid_state = refl
try_from-code ProtocolError.signature_error = refl
try_from-code ProtocolError.invalid_signature = refl
try_from-code ProtocolError.serialization_error = refl
try_from-code ProtocolError.partial_content = refl
try_from-code ProtocolError.access_denied = refl
try_from-code ProtocolError.overlay_not_joined = refl
try_from-code ProtocolError.overlay_not_found = refl
try_from-code ProtocolError.broker_error = refl
try_from-code ProtocolError.not_found = refl
try_from-code ProtocolError.end_of_stream = refl
try_from-code ProtocolError.store_error = refl
try_from-code ProtocolError.missing_blocks = refl
try_from-code ProtocolError.object_parse_error = refl
try_from-code ProtocolError.invalid_value = refl
try_from-code ProtocolError.user_already_exists = refl
try_from-code ProtocolError.repo_id_required = refl
try_from-code ProtocolError.closing = refl

none_is_not_some : {e : ProtocolError} → none ≢ some e
none_is_not_some h = cc

code_read : (n : ℕ) (e : ProtocolError) → try_from n ≡ some e → code e ≡ n
code_read zero e h = absurd (none_is_not_some h)
code_read (suc zero) e h = sym (ap code (some-injective _ _ h))
code_read (suc (suc zero)) e h = sym (ap code (some-injective _ _ h))
code_read (suc (suc (suc zero))) e h = sym (ap code (some-injective _ _ h))
code_read (suc (suc (suc (suc zero)))) e h = sym (ap code (some-injective _ _ h))
code_read (suc (suc (suc (suc (suc zero))))) e h = sym (ap code (some-injective _ _ h))
code_read (suc (suc (suc (suc (suc (suc zero)))))) e h = sym (ap code (some-injective _ _ h))
code_read (suc (suc (suc (suc (suc (suc (suc zero))))))) e h = sym (ap code (some-injective _ _ h))
code_read (suc (suc (suc (suc (suc (suc (suc (suc zero)))))))) e h =
    sym (ap code (some-injective _ _ h))
code_read (suc (suc (suc (suc (suc (suc (suc (suc (suc zero))))))))) e h =
    sym (ap code (some-injective _ _ h))
code_read (suc (suc (suc (suc (suc (suc (suc (suc (suc (suc zero)))))))))) e h =
    sym (ap code (some-injective _ _ h))
code_read (suc (suc (suc (suc (suc (suc (suc (suc (suc (suc (suc zero))))))))))) e h =
    sym (ap code (some-injective _ _ h))
code_read (suc (suc (suc (suc (suc (suc (suc (suc (suc (suc (suc (suc zero)))))))))))) e h =
    sym (ap code (some-injective _ _ h))
code_read (suc (suc (suc (suc (suc (suc (suc (suc (suc (suc (suc (suc (suc zero))))))))))))) e h =
    sym (ap code (some-injective _ _ h))
code_read (suc (suc (suc (suc (suc (suc (suc (suc (suc (suc (suc (suc (suc (suc zero)))))))))))))) e
      h =
    sym (ap code (some-injective _ _ h))
code_read
      (suc (suc (suc (suc (suc (suc (suc (suc (suc (suc (suc (suc (suc (suc (suc zero)))))))))))))))
      e h =
    sym (ap code (some-injective _ _ h))
code_read
      (suc (
        suc
          (suc (suc (suc (suc (suc (suc (suc (suc (suc (suc (suc (suc (suc (suc zero))))))))))))))))
      e h =
    sym (ap code (some-injective _ _ h))
code_read
      (suc (
        suc (
          suc (
            suc
              (suc (suc (suc (suc (suc (suc (suc (suc (suc (suc (suc (suc (suc zero)))))))))))))))))
      e h =
    sym (ap code (some-injective _ _ h))
code_read
      (suc (
        suc (
          suc (
            suc (
              suc (
                suc
                  (suc (suc (suc (suc (suc (suc (suc (suc (suc (suc (suc (suc zero))))))))))))))))))
      e h =
    sym (ap code (some-injective _ _ h))
code_read
      (suc (
        suc (
          suc (
            suc (
              suc (
                suc (
                  suc (
                    suc
                      (suc (suc (suc (suc (suc (suc (suc (suc (suc (suc (suc zero)))))))))))))))))))
      e h =
    sym (ap code (some-injective _ _ h))
code_read
      (suc (
        suc (
          suc (
            suc (
              suc (
                suc (
                  suc (
                    suc (
                      suc (
                        suc
                          (suc (suc (suc (suc (suc (suc (suc (suc (suc (suc zero))))))))))))))))))))
      e h =
    sym (ap code (some-injective _ _ h))
code_read
      (suc (
        suc (
          suc (
            suc (
              suc (
                suc (
                  suc (
                    suc (
                      suc (
                        suc (
                          suc
                            (suc (suc (suc (suc (suc (suc (suc (suc (suc (suc n)))))))))))))))))))))
      e h =
    absurd (none_is_not_some h)

-- A number is read as an error exactly if it is the code of that error.
pub code-try_from : (n : ℕ) (e : ProtocolError) → (try_from n ≡ some e) ↔ (code e ≡ n)
code-try_from n e = (code_read n e, λ p. ap try_from (sym p) ∙ try_from-code e)
