-- ===== src/Broker/Account.antt =====
-- lofire-broker/src/account.rs: the accounts of users.
use lofire_rs.Common.{ℕ, Bool, true, not, some, List, [], ◌∷◌, Outcome, if◌then◌else◌}
use lofire_rs.Net.Overlay.{UserId, ClientId, OverlayId}
use lofire_rs.Store.{StorageError, not_found, backend_error}
use lofire_rs.Broker.Store.{BrokerStore}
use lofire_rs.Broker.Calls.{Call, ◌>>=◌, ◌>>◌, returns, fails, reading, requires, is_ok}
use lofire_rs.Broker.Codec.{Codec}

abbrev pub prefix : ℕ
prefix = 117

abbrev pub client_suffix : ℕ
client_suffix = 99

abbrev pub admin_suffix : ℕ
admin_suffix = 97

abbrev pub overlay_suffix : ℕ
overlay_suffix = 111

abbrev pub all_properties : List ℕ
all_properties = client_suffix ∷ admin_suffix ∷ overlay_suffix ∷ []

module _ {S : Type 0} (b : BrokerStore S) (z : Codec) where
  unfoldable pub exists : S → UserId → Outcome StorageError Bool
  exists s id = is_ok (b.get s prefix (z.pub_key_to_vec id) (some admin_suffix))

  -- The entity itself is its identifier with the store.
  unfoldable pub open_account : UserId → Call S StorageError UserId
  open_account id = do
    there ← reading (λ s. exists s id)
    if there then returns id else fails not_found

  unfoldable pub create : UserId → Bool → Call S StorageError UserId
  create id is_admin = do
    there ← reading (λ s. exists s id)
    requires (not there) backend_error
    b.put prefix (z.pub_key_to_vec id) (some admin_suffix) (z.bool_to_vec is_admin)
    returns id

  unfoldable pub add_client : UserId → ClientId → Call S StorageError Unit
  add_client id client = do
    there ← reading (λ s. exists s id)
    requires there backend_error
    b.put prefix (z.pub_key_to_vec id) (some client_suffix) (z.pub_key_to_vec client)

  unfoldable pub remove_client : UserId → ClientId → Call S StorageError Unit
  remove_client id client =
      b.del_property_value prefix (z.pub_key_to_vec id) (some client_suffix)
        (z.pub_key_to_vec client)

  unfoldable pub has_client : S → UserId → ClientId → Outcome {0} StorageError Unit
  has_client s id client =
      b.has_property_value s prefix (z.pub_key_to_vec id) (some client_suffix)
        (z.pub_key_to_vec client)

  unfoldable pub add_overlay : UserId → OverlayId → Call S StorageError Unit
  add_overlay id overlay = do
    there ← reading (λ s. exists s id)
    requires there backend_error
    b.put prefix (z.pub_key_to_vec id) (some overlay_suffix) (z.digest_to_vec overlay)

  unfoldable pub remove_overlay : UserId → OverlayId → Call S StorageError Unit
  remove_overlay id overlay =
      b.del_property_value prefix (z.pub_key_to_vec id) (some overlay_suffix)
        (z.digest_to_vec overlay)

  unfoldable pub has_overlay : S → UserId → OverlayId → Outcome {0} StorageError Unit
  has_overlay s id overlay =
      b.has_property_value s prefix (z.pub_key_to_vec id) (some overlay_suffix)
        (z.digest_to_vec overlay)

  unfoldable pub is_admin : S → UserId → Outcome StorageError Bool
  is_admin s id =
      is_ok (
        b.has_property_value s prefix (z.pub_key_to_vec id) (some admin_suffix)
          (z.bool_to_vec true))

  unfoldable pub del : UserId → Call S StorageError Unit
  del id = b.del_all prefix (z.pub_key_to_vec id) all_properties
