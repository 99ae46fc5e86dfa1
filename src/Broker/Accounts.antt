-- ===== src/Broker/Accounts.antt =====
-- lofire-broker/src/account.rs: a user's account through its operations.
use lofire_rs.Common.{
  ℕ, Bytes, Bool, true, false, some, List, [], ◌∷◌, Outcome, ok, err, ◌≡◌, ◌≢◌, refl, ap, sym, ◌∙◌,
  bytes_eq, bytes_has_eq, beq_refl, eq_of_beq, contains, if◌then◌else◌, Bool-cases, inl, inr,
}
use lofire_rs.Store.{StorageError, not_found, backend_error}
use lofire_rs.Broker.Calls.{is_ok}
use lofire_rs.Broker.Store.{BrokerStore, BrokerStoreLaws, compute_property, each_del}
use lofire_rs.Broker.Codec.{Codec}
use lofire_rs.Broker.Properties.{get_first, get_missing}
use lofire_rs.Net.Overlay.{UserId}
use lofire_rs.Broker.Account.{
  prefix, client_suffix, admin_suffix, overlay_suffix, exists, open_account, create, is_admin, del,
}

module _ {S : Type 0} {b : BrokerStore S} (z : Codec) (l : BrokerStoreLaws b) where
  abbrev pub place : UserId → ℕ → Bytes
  place id suffix = compute_property prefix (z.pub_key_to_vec id) (some suffix)

  pub exists_lem :
      (s : S) (id : UserId) (v : Bytes) (vs : List Bytes)
      → l.values s (place id admin_suffix) ≡ v ∷ vs
      → exists b z s id ≡ ok true
  unfolding exists
  exists_lem s id v vs there =
      ap is_ok (get_first l s prefix (z.pub_key_to_vec id) admin_suffix v vs there)

  pub missing_lem :
      (s : S) (id : UserId) → l.values s (place id admin_suffix) ≡ [] → exists b z s id ≡ ok false
  unfolding exists
  missing_lem s id nothing =
      ap is_ok (get_missing l s prefix (z.pub_key_to_vec id) admin_suffix nothing)

  bool_to_vec-eq : (a : Bool) → contains (z.bool_to_vec true) (z.bool_to_vec a ∷ []) ≡ a
  unfolding contains
  bool_to_vec-eq true = rw (beq_refl (z.bool_to_vec true))
  bool_to_vec-eq false = elim (Bool-cases (bytes_eq (z.bool_to_vec false) (z.bool_to_vec true))) [
    | inl e ↦ absurd (distinct e)
    | inr e ↦ rw e
  ]
    where
      truth : some false ≢ some true
      truth h = cc

      distinct : bytes_eq (z.bool_to_vec false) (z.bool_to_vec true) ≢ true
      distinct e = truth (
          sym (z.bool_round_trip false)
          ∙ ap z.bool_from_slice (eq_of_beq _ _ e)
          ∙ z.bool_round_trip true)

  -- An account that is not there can be created; then it can be opened and is an administrator's as
  -- asked, and it cannot be created again.
  pub create-open_account :
      (s : S) (id : UserId) (a a' : Bool)
      → l.values s (place id admin_suffix) ≡ []
      → (s' : S) × (create b z id a s ≡ (ok id, s'))
        × (open_account b z id s' ≡ (ok id, s'))
        × (is_admin b z s' id ≡ ok a)
        × (create b z id a' s' ≡ (err backend_error, s'))
  unfolding create open_account is_admin
  create-open_account s id a a' nothing =
      let (s', added, into, kept) =
        l.put_values s prefix (z.pub_key_to_vec id) (some admin_suffix) (z.bool_to_vec a) in
      let there = into.alone nothing in
      (
        s',
        rw (missing_lem s id nothing, added),
        rw (exists_lem s' id _ _ there),
        rw
            (
              l.has_values s' prefix (z.pub_key_to_vec id) (some admin_suffix) (z.bool_to_vec true),
              there,
              bool_to_vec-eq a,
            )
            (granted a _ refl),
        rw (exists_lem s' id _ _ there),
      )
    where
      granted :
          (a : Bool) (o : Outcome {0} StorageError Unit)
          → o ≡ (if a then ok tt else err not_found)
          → is_ok {F = StorageError} o ≡ ok a
      granted true o e = ap is_ok e
      granted false o e = ap is_ok e

  -- `del` of an account without clients fails and deletes nothing: the first property that it
  -- deletes has no value.
  pub del_no_clients :
      (s : S) (id : UserId)
      → l.values s (place id client_suffix) ≡ []
      → del b z id s ≡ (err backend_error, s)
  unfolding del each_del
  del_no_clients s id nothing = rw (
    l.del_all_each s prefix (z.pub_key_to_vec id) client_suffix
        (admin_suffix ∷ overlay_suffix ∷ []),
    l.del_missing s prefix (z.pub_key_to_vec id) (some client_suffix) nothing,
  )
