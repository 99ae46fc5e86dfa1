-- ===== src/Broker/Store.antt =====
-- lofire/src/brokerstore.rs: the trait of the stores that hold a broker's properties.
use lofire_rs.Common.{
  ℕ, Bytes, List, [], ◌∷◌, ◌++◌, Option, none, some, true, false, ◌||◌, Outcome, ok, err, ok_or,
  ◌>>=◌, ◌≡◌, bytes_has_eq, contains, not, ◌&&◌, if◌then◌else◌, bytes_eq,
}
use lofire_rs.Store.{StorageError, not_found, backend_error, serialization_error}
use lofire_rs.Broker.Calls.{Call, after}

-- `BrokerStore`, over the states `S` of the store: a property has a prefix, a key and a suffix.
pub record BrokerStore (S : Type 0) : Type 0 where
  pub get : S → ℕ → Bytes → Option ℕ → Outcome StorageError Bytes
  pub get_all : S → ℕ → Bytes → Option ℕ → Outcome StorageError (List Bytes)
  pub has_property_value : S → ℕ → Bytes → Option ℕ → Bytes → Outcome {0} StorageError Unit
  pub put : ℕ → Bytes → Option ℕ → Bytes → Call S StorageError Unit
  pub replace : ℕ → Bytes → Option ℕ → Bytes → Call S StorageError Unit
  pub del : ℕ → Bytes → Option ℕ → Call S StorageError Unit
  pub del_all : ℕ → Bytes → List ℕ → Call S StorageError Unit
  pub del_property_value : ℕ → Bytes → Option ℕ → Bytes → Call S StorageError Unit

abbrev pub suffix_bytes : Option ℕ → Bytes
suffix_bytes none = []
suffix_bytes (some suffix) = suffix ∷ []

-- `LmdbBrokerStore::compute_property`
unfoldable pub compute_property : ℕ → Bytes → Option ℕ → Bytes
compute_property prefix key suffix = prefix ∷ key ++ suffix_bytes suffix

abbrev pub first_value : List Bytes → Outcome StorageError Bytes
first_value [] = err not_found
first_value (v ∷ _) = ok v

-- The value of a property, read by `from_slice`.
abbrev pub parsed :
    {A : Type 0} → (Bytes → Option A) → Outcome StorageError Bytes → Outcome StorageError A
parsed from_slice value = value >>= λ v. ok_or serialization_error (from_slice v)

-- A value that is put is among the values, and the only one if there was none.
pub record PutInto (v : Bytes) (old new : List Bytes) : Type 0 where
  pub among : (w : Bytes) → contains w new ≡ (bytes_eq v w || contains w old)
  pub alone : old ≡ [] → new ≡ v ∷ []

-- One property after the other.
unfoldable pub each_del :
    {S : Type 0} → (Option ℕ → Call S StorageError Unit) → List ℕ → Call S StorageError Unit
each_del del [] s = (ok tt, s)
each_del del (x ∷ xs) s = after (del (some x) s) (λ _. each_del del xs)

-- What the entities of a broker rely on: each property has values, and a call changes those of its
-- own property only. `replace`, `del` and `del_property_value` need something to remove.
pub record BrokerStoreLaws {S : Type 0} (b : BrokerStore S) : Type 0 where
  pub values : S → Bytes → List Bytes
  pub get_values :
      (s : S) (p : ℕ) (k : Bytes) (x : Option ℕ)
      → b.get s p k x ≡ first_value (values s (compute_property p k x))
  pub has_values :
      (s : S) (p : ℕ) (k : Bytes) (x : Option ℕ) (v : Bytes)
      → b.has_property_value s p k x v
        ≡ (if contains v (values s (compute_property p k x)) then ok tt else err not_found)
  pub put_values :
      (s : S) (p : ℕ) (k : Bytes) (x : Option ℕ) (v : Bytes)
      → (s' : S) × (b.put p k x v s ≡ (ok tt, s'))
        × PutInto v (values s (compute_property p k x)) (values s' (compute_property p k x))
        × ((q : Bytes) → bytes_eq (compute_property p k x) q ≡ false → values s' q ≡ values s q)
  pub replace_values :
      (s : S) (p : ℕ) (k : Bytes) (x : Option ℕ) (v w : Bytes) (ws : List Bytes)
      → values s (compute_property p k x) ≡ w ∷ ws
      → (s' : S) × (b.replace p k x v s ≡ (ok tt, s'))
        × (values s' (compute_property p k x) ≡ v ∷ [])
        × ((q : Bytes) → bytes_eq (compute_property p k x) q ≡ false → values s' q ≡ values s q)
  pub replace_missing :
      (s : S) (p : ℕ) (k : Bytes) (x : Option ℕ) (v : Bytes)
      → values s (compute_property p k x) ≡ []
      → b.replace p k x v s ≡ (err backend_error, s)
  pub del_values :
      (s : S) (p : ℕ) (k : Bytes) (x : Option ℕ) (w : Bytes) (ws : List Bytes)
      → values s (compute_property p k x) ≡ w ∷ ws
      → (s' : S) × (b.del p k x s ≡ (ok tt, s'))
        × (values s' (compute_property p k x) ≡ [])
        × ((q : Bytes) → bytes_eq (compute_property p k x) q ≡ false → values s' q ≡ values s q)
  pub del_missing :
      (s : S) (p : ℕ) (k : Bytes) (x : Option ℕ)
      → values s (compute_property p k x) ≡ []
      → b.del p k x s ≡ (err backend_error, s)
  pub del_value_values :
      (s : S) (p : ℕ) (k : Bytes) (x : Option ℕ) (v : Bytes)
      → contains v (values s (compute_property p k x)) ≡ true
      → (s' : S) × (b.del_property_value p k x v s ≡ (ok tt, s'))
        × ((w : Bytes)
            → contains w (values s' (compute_property p k x))
              ≡ (not (bytes_eq v w) && contains w (values s (compute_property p k x))))
        × ((q : Bytes) → bytes_eq (compute_property p k x) q ≡ false → values s' q ≡ values s q)
  pub del_all_each :
      (s : S) (p : ℕ) (k : Bytes) (x : ℕ) (xs : List ℕ)
      → b.del_all p k (x ∷ xs) s ≡ each_del (b.del p k) (x ∷ xs) s
