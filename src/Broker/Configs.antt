-- ===== src/Broker/Configs.antt =====
-- lofire-broker/src/config.rs: the mode of a broker is settled once.
use lofire_rs.Common.{
  Bytes, true, false, some, List, [], ◌∷◌, ok, err, ◌≡◌, ap, bytes_has_eq, if◌then◌else◌,
}
use lofire_rs.Store.{invalid_value}
use lofire_rs.Broker.Calls.{is_ok}
use lofire_rs.Broker.Store.{BrokerStore, BrokerStoreLaws, compute_property}
use lofire_rs.Broker.Codec.{Codec}
use lofire_rs.Broker.Properties.{get_first, get_missing}
use lofire_rs.Broker.Codec.{ConfigMode, config_mode_eq}
use lofire_rs.Broker.Config.{
  prefix, mode_suffix, config_key, exists, open_config, create, mode, get_or_create,
}

module _ {S : Type 0} {b : BrokerStore S} (z : Codec) (l : BrokerStoreLaws b) where
  abbrev pub place : Bytes
  place = compute_property prefix (z.config_key_to_vec config_key) (some mode_suffix)

  settled :
      (s : S) (v : Bytes) (vs : List Bytes) → l.values s place ≡ v ∷ vs → exists b z s ≡ ok true
  unfolding exists
  settled s v vs there =
      ap is_ok (get_first l s prefix (z.config_key_to_vec config_key) mode_suffix v vs there)

  open_question : (s : S) → l.values s place ≡ [] → exists b z s ≡ ok false
  unfolding exists
  open_question s nothing =
      ap is_ok (get_missing l s prefix (z.config_key_to_vec config_key) mode_suffix nothing)

  mode_lem :
      (s : S) (m : ConfigMode) (vs : List Bytes)
      → l.values s place ≡ z.config_mode_to_vec m ∷ vs
      → mode b z s ≡ ok m
  unfolding mode
  mode_lem s m vs there = rw (
    get_first l s prefix (z.config_key_to_vec config_key) mode_suffix _ vs there,
    z.config_mode_round_trip m,
  )

  -- The first call of `get_or_create` settles the mode; a later one succeeds exactly if it asks for the
  -- same mode, changes nothing, and is an invalid value otherwise.
  pub get_or_create-mode :
      (s : S) (m wanted : ConfigMode)
      → l.values s place ≡ []
      → (s' : S) × (get_or_create b z m s ≡ (ok tt, s'))
        × (mode b z s' ≡ ok m)
        × (get_or_create b z wanted s'
            ≡ (if config_mode_eq m wanted then (ok tt, s') else (err invalid_value, s')))
  unfolding get_or_create open_config create
  get_or_create-mode s m wanted nothing =
      let (s', added, into, kept) =
        l.put_values s prefix (z.config_key_to_vec config_key) (some mode_suffix)
          (z.config_mode_to_vec m) in
      let there = into.alone nothing in
      (
        s',
        rw (open_question s nothing) (rw (create, open_question s nothing, added)),
        mode_lem s' m [] there,
        rw (settled s' _ [] there, mode_lem s' m [] there),
      )
