-- ===== src/Broker/Overlay.antt =====
-- lofire-broker/src/overlay.rs: the overlays that the broker has joined. The clock is an argument.
use lofire_rs.Common.{ℕ, Bool, not, Option, none, some, List, [], ◌∷◌, Outcome, if◌then◌else◌}
use lofire_rs.Types.{PubKey, SymKey, Timestamp}
use lofire_rs.Net.Overlay.{OverlayId, PeerId, TopicId}
use lofire_rs.Broker.Codec.{OverlayMeta}
use lofire_rs.Store.{StorageError, not_found, backend_error}
use lofire_rs.Broker.Store.{BrokerStore, parsed}
use lofire_rs.Broker.Calls.{Call, ◌>>=◌, ◌>>◌, returns, fails, reading, requires, is_ok}
use lofire_rs.Broker.Codec.{Codec}

abbrev pub prefix : ℕ
prefix = 111

abbrev pub secret_suffix : ℕ
secret_suffix = 115

abbrev pub peer_suffix : ℕ
peer_suffix = 112

abbrev pub topic_suffix : ℕ
topic_suffix = 116

abbrev pub meta_suffix : ℕ
meta_suffix = 109

abbrev pub repo_suffix : ℕ
repo_suffix = 114

abbrev pub all_properties : List ℕ
all_properties = secret_suffix ∷ peer_suffix ∷ topic_suffix ∷ meta_suffix ∷ repo_suffix ∷ []

module _ {S : Type 0} (b : BrokerStore S) (z : Codec) where
  unfoldable pub exists : S → OverlayId → Outcome StorageError Bool
  exists s id = is_ok (b.get s prefix (z.digest_to_vec id) (some secret_suffix))

  -- The entity itself is its identifier with the store.
  unfoldable pub open_overlay : OverlayId → Call S StorageError OverlayId
  open_overlay id = do
    there ← reading (λ s. exists s id)
    if there then returns id else fails not_found

  abbrev pub put_repo : OverlayId → Option PubKey → Call S StorageError Unit
  put_repo id none = returns tt
  put_repo id (some repo) =
      b.put prefix (z.digest_to_vec id) (some repo_suffix) (z.pub_key_to_vec repo)

  unfoldable pub create :
      OverlayId → SymKey → Option PubKey → Timestamp → Call S StorageError OverlayId
  create id secret repo now = do
    there ← reading (λ s. exists s id)
    requires (not there) backend_error
    b.put prefix (z.digest_to_vec id) (some secret_suffix) (z.sym_key_to_vec secret)
    put_repo id repo
    b.put prefix (z.digest_to_vec id) (some meta_suffix)
        (z.overlay_meta_to_vec (record { users = 1; last_used = now }))
    returns id

  unfoldable pub add_peer : OverlayId → PeerId → Call S StorageError Unit
  add_peer id peer = do
    there ← reading (λ s. exists s id)
    requires there backend_error
    b.put prefix (z.digest_to_vec id) (some peer_suffix) (z.pub_key_to_vec peer)

  unfoldable pub remove_peer : OverlayId → PeerId → Call S StorageError Unit
  remove_peer id peer =
      b.del_property_value prefix (z.digest_to_vec id) (some peer_suffix) (z.pub_key_to_vec peer)

  unfoldable pub has_peer : S → OverlayId → PeerId → Outcome {0} StorageError Unit
  has_peer s id peer =
      b.has_property_value s prefix (z.digest_to_vec id) (some peer_suffix) (z.pub_key_to_vec peer)

  unfoldable pub add_topic : OverlayId → TopicId → Call S StorageError Unit
  add_topic id topic = do
    there ← reading (λ s. exists s id)
    requires there backend_error
    b.put prefix (z.digest_to_vec id) (some topic_suffix) (z.pub_key_to_vec topic)

  unfoldable pub remove_topic : OverlayId → TopicId → Call S StorageError Unit
  remove_topic id topic =
      b.del_property_value prefix (z.digest_to_vec id) (some topic_suffix) (z.pub_key_to_vec topic)

  unfoldable pub has_topic : S → OverlayId → TopicId → Outcome {0} StorageError Unit
  has_topic s id topic =
      b.has_property_value s prefix (z.digest_to_vec id) (some topic_suffix)
        (z.pub_key_to_vec topic)

  unfoldable pub secret : S → OverlayId → Outcome StorageError SymKey
  secret s id =
      parsed z.sym_key_from_slice (b.get s prefix (z.digest_to_vec id) (some secret_suffix))

  unfoldable pub metadata : S → OverlayId → Outcome StorageError OverlayMeta
  metadata s id =
      parsed z.overlay_meta_from_slice (b.get s prefix (z.digest_to_vec id) (some meta_suffix))

  unfoldable pub set_metadata : OverlayId → OverlayMeta → Call S StorageError Unit
  set_metadata id metadata = do
    there ← reading (λ s. exists s id)
    requires there backend_error
    b.replace prefix (z.digest_to_vec id) (some meta_suffix) (z.overlay_meta_to_vec metadata)

  unfoldable pub repo : S → OverlayId → Outcome StorageError PubKey
  repo s id = parsed z.pub_key_from_slice (b.get s prefix (z.digest_to_vec id) (some repo_suffix))

  unfoldable pub del : OverlayId → Call S StorageError Unit
  del id = b.del_all prefix (z.digest_to_vec id) all_properties
