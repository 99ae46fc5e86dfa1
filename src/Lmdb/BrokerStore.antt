-- ===== src/Lmdb/BrokerStore.antt =====
-- lofire-store-lmdb/src/brokerstore.rs: `LmdbBrokerStore`, and what it takes from rkv's MultiStore.
pub mod Contract
use lofire_rs.Common.{
  ℕ, Bytes, Bool, true, false, not, ◌&&◌, ◌||◌, Option, some, none, List, [], ◌∷◌, map, Outcome, ok,
  err, panic, out_of_fuel, map_err, ◌>>=◌, bytes_eq, bytes_has_eq, contains, if◌then◌else◌, ◌≡◌,
  refl, Bool-cases, inl, inr,
}
use lofire_rs.Store.{StorageError, not_found, backend_error}
use lofire_rs.Broker.Calls.{Call, after}
use lofire_rs.Broker.Store.{
  BrokerStore, BrokerStoreLaws, compute_property, first_value, PutInto, each_del,
}
use lofire_rs.Lmdb.Rkv.{StoreError, store_error}

-- `MultiStore`: sorted values under a key
pub record MultiStore (M : Type 0) : Type 0 where
  pub get : M → Bytes → Outcome StoreError (List (Outcome StoreError Bytes))
  pub get_key_value : M → Bytes → Bytes → Outcome StoreError Bool
  pub put : M → Bytes → Bytes → Outcome StoreError M
  pub delete : M → Bytes → Bytes → Outcome StoreError M
  pub delete_all : M → Bytes → Outcome StoreError M

-- A store that has room; what is deleted has to be there.
pub record MultiStoreLaws {M : Type 0} (r : MultiStore M) : Type 0 where
  pub values : M → Bytes → List Bytes
  pub get_values : (m : M) (k : Bytes) → r.get m k ≡ ok (map ok (values m k))
  pub has_values : (m : M) (k v : Bytes) → r.get_key_value m k v ≡ ok (contains v (values m k))
  pub put_values :
      (m : M) (k v : Bytes)
      → (n : M) × (r.put m k v ≡ ok n)
        × PutInto v (values m k) (values n k)
        × ((j : Bytes) → bytes_eq k j ≡ false → values n j ≡ values m j)
  pub delete_values :
      (m : M) (k v : Bytes)
      → contains v (values m k) ≡ true
      → (n : M) × (r.delete m k v ≡ ok n)
        × ((w : Bytes) → contains w (values n k) ≡ (not (bytes_eq v w) && contains w (values m k)))
        × ((j : Bytes) → bytes_eq k j ≡ false → values n j ≡ values m j)
  pub delete_all_values :
      (m : M) (k w : Bytes) (ws : List Bytes)
      → values m k ≡ w ∷ ws
      → (n : M) × (r.delete_all m k ≡ ok n)
        × (values n k ≡ [])
        × ((j : Bytes) → bytes_eq k j ≡ false → values n j ≡ values m j)
  pub delete_all_missing :
      (m : M) (k : Bytes) → values m k ≡ [] → r.delete_all m k ≡ err store_error

-- `map_err(|e| StorageError::BackendError)`
abbrev pub to_backend : {A : Type 0} → Outcome StoreError A → Outcome StorageError A
to_backend o = map_err (λ e. backend_error) o

module _ {M : Type 0} (r : MultiStore M) where
  abbrev pub next_value : List (Outcome StoreError Bytes) → Outcome StorageError Bytes
  next_value [] = err not_found
  next_value (val ∷ _) = to_backend val

  unfoldable pub get : M → ℕ → Bytes → Option ℕ → Outcome StorageError Bytes
  get m prefix key suffix = to_backend (r.get m (compute_property prefix key suffix)) >>= next_value

  unfoldable pub collect : List (Outcome StoreError Bytes) → Outcome StorageError (List Bytes)
  collect [] = ok []
  collect (val ∷ rest) = do v ← to_backend val; vs ← collect rest; ok (v ∷ vs)

  unfoldable pub get_all : M → ℕ → Bytes → Option ℕ → Outcome StorageError (List Bytes)
  get_all m prefix key suffix =
      to_backend (r.get m (compute_property prefix key suffix)) >>= collect

  unfoldable pub has_property_value :
      M → ℕ → Bytes → Option ℕ → Bytes → Outcome {0} StorageError Unit
  has_property_value m prefix key suffix value = do
    exists ← to_backend (r.get_key_value m (compute_property prefix key suffix) value)
    if exists then ok tt else err not_found

  -- A transaction: only a `commit` changes the store.
  abbrev pub transaction : M → Outcome StoreError M → Outcome {0} StorageError Unit × M
  transaction m (ok n) = (ok tt, n)
  transaction m (err e) = (err backend_error, m)
  transaction m panic = (panic, m)
  transaction m out_of_fuel = (out_of_fuel, m)

  unfoldable pub put : ℕ → Bytes → Option ℕ → Bytes → Call M StorageError Unit
  put prefix key suffix value m = transaction m (r.put m (compute_property prefix key suffix) value)

  unfoldable pub replace : ℕ → Bytes → Option ℕ → Bytes → Call M StorageError Unit
  replace prefix key suffix value m =
      let property = compute_property prefix key suffix in
      transaction m (r.delete_all m property >>= λ n. r.put n property value)

  unfoldable pub del : ℕ → Bytes → Option ℕ → Call M StorageError Unit
  del prefix key suffix m = transaction m (r.delete_all m (compute_property prefix key suffix))

  unfoldable pub del_property_value : ℕ → Bytes → Option ℕ → Bytes → Call M StorageError Unit
  del_property_value prefix key suffix value m =
      transaction m (r.delete m (compute_property prefix key suffix) value)

  abbrev pub del_all : ℕ → Bytes → List ℕ → Call M StorageError Unit
  del_all prefix key [] m = del prefix key none m
  del_all prefix key (x ∷ xs) m = each_del (del prefix key) (x ∷ xs) m

  abbrev pub lmdb_broker_store : BrokerStore M
  lmdb_broker_store = record {
    get = get;
    get_all = get_all;
    has_property_value = has_property_value;
    put = put;
    replace = replace;
    del = del;
    del_all = del_all;
    del_property_value = del_property_value;
  }
