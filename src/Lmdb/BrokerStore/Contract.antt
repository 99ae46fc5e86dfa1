-- ===== src/Lmdb/BrokerStore/Contract.antt =====
-- lofire-store-lmdb/src/brokerstore.rs: `LmdbBrokerStore` as a store of a broker's properties.
use lofire_rs.Common.{
  ℕ, Bytes, false, Option, List, [], ◌∷◌, map, ok, err, ◌≡◌, refl, ◌∙◌, contains, bytes_eq,
  bytes_has_eq, if◌then◌else◌,
}
use lofire_rs.Store.{not_found}
use lofire_rs.Broker.Store.{BrokerStoreLaws, compute_property, first_value}
use lofire_rs.Lmdb.BrokerStore.{
  MultiStore, MultiStoreLaws, get, get_all, has_property_value, put, replace, del,
  del_property_value, lmdb_broker_store, collect, next_value,
}

module _ {M : Type 0} {r : MultiStore M} (l : MultiStoreLaws r) where
  pub next_value-map : (vs : List Bytes) → next_value r (map ok vs) ≡ first_value vs
  next_value-map [] = refl
  next_value-map (v ∷ vs) = refl

  pub has_lem :
      (m : M) (p : ℕ) (k : Bytes) (x : Option ℕ) (v : Bytes)
      → has_property_value r m p k x v
        ≡ (if contains v (l.values m (compute_property p k x)) then ok tt else err not_found)
  unfolding has_property_value
  has_lem m p k x v = rw (l.has_values m (compute_property p k x) v)

  pub replace_lem :
      (m : M) (p : ℕ) (k : Bytes) (x : Option ℕ) (v w : Bytes) (ws : List Bytes)
      → l.values m (compute_property p k x) ≡ w ∷ ws
      → (n : M) × (replace r p k x v m ≡ (ok tt, n))
        × (l.values n (compute_property p k x) ≡ v ∷ [])
        × ((q : Bytes) → bytes_eq (compute_property p k x) q ≡ false → l.values n q ≡ l.values m q)
  unfolding replace
  replace_lem m p k x v w ws there =
      let (cleared, deleted, empty, same) =
        l.delete_all_values m (compute_property p k x) w ws there in
      let (n, added, into, kept) = l.put_values cleared (compute_property p k x) v in
      (n, rw (deleted, added), into.alone empty, λ q other. kept q other ∙ same q other)

  unfoldable pub contract : BrokerStoreLaws (lmdb_broker_store r)
  unfolding get put replace del del_property_value
  contract = record {
    values = l.values;
    get_values = λ m p k x. rw (l.get_values m (compute_property p k x)) (next_value-map _);
    has_values = has_lem;
    put_values = λ m p k x v.
        let (n, added, into, kept) = l.put_values m (compute_property p k x) v in
        (n, rw added, into, kept);
    replace_values = replace_lem;
    replace_missing =
        λ m p k x v nothing. rw (l.delete_all_missing m (compute_property p k x) nothing);
    del_values = λ m p k x w ws there.
        let (n, deleted, empty, kept) = l.delete_all_values m (compute_property p k x) w ws there in
        (n, rw deleted, empty, kept);
    del_missing = λ m p k x nothing. rw (l.delete_all_missing m (compute_property p k x) nothing);
    del_value_values = λ m p k x v there.
        let (n, deleted, others, kept) = l.delete_values m (compute_property p k x) v there in
        (n, rw deleted, others, kept);
    del_all_each = λ m p k x xs. refl;
  }

  -- The store has what a broker relies on, with the values of the underlying multi-value store.
  pub lmdb_broker_store-laws :
      (c : BrokerStoreLaws (lmdb_broker_store r)) × ((m : M) (q : Bytes)
        → c.values m q ≡ l.values m q)
  unfolding contract
  lmdb_broker_store-laws = (contract, λ m q. refl)

  collect_lem : (vs : List Bytes) → collect r (map ok vs) ≡ ok vs
  unfolding collect
  collect_lem [] = refl
  collect_lem (v ∷ vs) = rw (collect_lem vs)

  -- `get_all` gives all values of a property; `get` gives the first of them, or finds nothing.
  pub get_all-values :
      (m : M) (p : ℕ) (k : Bytes) (x : Option ℕ)
      → (get_all r m p k x ≡ ok (l.values m (compute_property p k x)))
        × (get r m p k x ≡ first_value (l.values m (compute_property p k x)))
  unfolding get_all get
  get_all-values m p k x = (
    rw (l.get_values m (compute_property p k x)) (collect_lem _),
    rw (l.get_values m (compute_property p k x)) (next_value-map _),
  )
