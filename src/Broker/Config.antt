-- ===== src/Broker/Config.antt =====
-- lofire-broker/src/config.rs: the mode of the broker.
use lofire_rs.Common.{
  ℕ, Bytes, Bool, not, some, [], ◌∷◌, Outcome, ok, err, panic, out_of_fuel, unwrap_ok,
  if◌then◌else◌,
}
use lofire_rs.Broker.Codec.{ConfigMode, config_mode_eq}
use lofire_rs.Store.{StorageError, not_found, invalid_value, backend_error}
use lofire_rs.Broker.Store.{BrokerStore, parsed}
use lofire_rs.Broker.Calls.{Call, ◌>>=◌, ◌>>◌, returns, fails, reading, requires, is_ok}
use lofire_rs.Broker.Codec.{Codec}

abbrev pub prefix : ℕ
prefix = 99

abbrev pub mode_suffix : ℕ
mode_suffix = 109

-- `onfig`
abbrev pub config_key : Bytes
config_key = 111 ∷ 110 ∷ 102 ∷ 105 ∷ 103 ∷ []

module _ {S : Type 0} (b : BrokerStore S) (z : Codec) where
  unfoldable pub exists : S → Outcome StorageError Bool
  exists s = is_ok (b.get s prefix (z.config_key_to_vec config_key) (some mode_suffix))

  unfoldable pub open_config : Call S StorageError Unit
  open_config = do there ← reading exists; if there then returns tt else fails not_found

  unfoldable pub create : ConfigMode → Call S StorageError Unit
  create mode = do
    there ← reading exists
    requires (not there) backend_error
    b.put prefix (z.config_key_to_vec config_key) (some mode_suffix) (z.config_mode_to_vec mode)

  unfoldable pub mode : S → Outcome StorageError ConfigMode
  mode s =
      parsed z.config_mode_from_slice
        (b.get s prefix (z.config_key_to_vec config_key) (some mode_suffix))

  abbrev pub create_if_missing : ConfigMode → StorageError → Call S StorageError Unit
  create_if_missing wanted not_found = create wanted
  create_if_missing wanted _ = fails backend_error

  abbrev pub check_opened :
      ConfigMode → Outcome {0} StorageError Unit × S → Outcome {0} StorageError Unit × S
  check_opened wanted (ok _, s) =
      (reading (λ s. unwrap_ok (mode s)) >>= λ found.
      requires (config_mode_eq found wanted) invalid_value)
        s
  check_opened wanted (err e, s) = create_if_missing wanted e s
  check_opened wanted (panic, s) = (panic, s)
  check_opened wanted (out_of_fuel, s) = (out_of_fuel, s)

  unfoldable pub get_or_create : ConfigMode → Call S StorageError Unit
  get_or_create wanted s = check_opened wanted (open_config s)
