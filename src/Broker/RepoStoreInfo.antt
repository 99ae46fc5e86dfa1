-- ===== src/Broker/RepoStoreInfo.antt =====
-- lofire-broker/src/repostoreinfo.rs: the encryption keys of the stores of blocks.
use lofire_rs.Common.{ℕ, Bool, not, some, List, [], ◌∷◌, Outcome, if◌then◌else◌}
use lofire_rs.Types.{SymKey}
use lofire_rs.Broker.Codec.{RepoStoreId}
use lofire_rs.Store.{StorageError, not_found, backend_error}
use lofire_rs.Broker.Store.{BrokerStore, parsed}
use lofire_rs.Broker.Calls.{Call, ◌>>=◌, ◌>>◌, returns, fails, reading, requires, is_ok}
use lofire_rs.Broker.Codec.{Codec}

abbrev pub prefix : ℕ
prefix = 114

abbrev pub key_suffix : ℕ
key_suffix = 107

abbrev pub all_properties : List ℕ
all_properties = key_suffix ∷ []

module _ {S : Type 0} (b : BrokerStore S) (z : Codec) where
  unfoldable pub exists : S → RepoStoreId → Outcome StorageError Bool
  exists s id = is_ok (b.get s prefix (z.repo_store_id_to_vec id) (some key_suffix))

  -- The entity itself is its identifier with the store.
  unfoldable pub open_info : RepoStoreId → Call S StorageError RepoStoreId
  open_info id = do
    there ← reading (λ s. exists s id)
    if there then returns id else fails not_found

  unfoldable pub create : RepoStoreId → SymKey → Call S StorageError RepoStoreId
  create id key = do
    there ← reading (λ s. exists s id)
    requires (not there) backend_error
    b.put prefix (z.repo_store_id_to_vec id) (some key_suffix) (z.sym_key_to_vec key)
    returns id

  unfoldable pub key : S → RepoStoreId → Outcome StorageError SymKey
  key s id =
      parsed z.sym_key_from_slice (b.get s prefix (z.repo_store_id_to_vec id) (some key_suffix))

  unfoldable pub del : RepoStoreId → Call S StorageError Unit
  del id = b.del_all prefix (z.repo_store_id_to_vec id) all_properties
