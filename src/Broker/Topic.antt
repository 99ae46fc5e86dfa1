-- ===== src/Broker/Topic.antt =====
-- lofire-broker/src/topic.rs: the topics of a broker.
use lofire_rs.Common.{ℕ, Bool, not, some, List, [], ◌∷◌, Outcome, if◌then◌else◌}
use lofire_rs.Types.{ObjectId}
use lofire_rs.Net.Overlay.{TopicId}
use lofire_rs.Broker.Codec.{TopicMeta}
use lofire_rs.Store.{StorageError, not_found, backend_error}
use lofire_rs.Broker.Store.{BrokerStore, parsed}
use lofire_rs.Broker.Calls.{Call, ◌>>=◌, ◌>>◌, returns, fails, reading, requires, is_ok}
use lofire_rs.Broker.Codec.{Codec}

abbrev pub prefix : ℕ
prefix = 116

abbrev pub advert_suffix : ℕ
advert_suffix = 97

abbrev pub head_suffix : ℕ
head_suffix = 104

abbrev pub meta_suffix : ℕ
meta_suffix = 109

abbrev pub all_properties : List ℕ
all_properties = advert_suffix ∷ head_suffix ∷ meta_suffix ∷ []

module _ {S : Type 0} (b : BrokerStore S) (z : Codec) where
  unfoldable pub exists : S → TopicId → Outcome StorageError Bool
  exists s id = is_ok (b.get s prefix (z.pub_key_to_vec id) (some meta_suffix))

  -- The entity itself is its identifier with the store.
  unfoldable pub open_topic : TopicId → Call S StorageError TopicId
  open_topic id = do
    there ← reading (λ s. exists s id)
    if there then returns id else fails not_found

  unfoldable pub create : TopicId → Call S StorageError TopicId
  create id = do
    there ← reading (λ s. exists s id)
    requires (not there) backend_error
    b.put prefix (z.pub_key_to_vec id) (some meta_suffix)
        (z.topic_meta_to_vec (record { users = 0 }))
    returns id

  unfoldable pub add_head : TopicId → ObjectId → Call S StorageError Unit
  add_head id head = do
    there ← reading (λ s. exists s id)
    requires there backend_error
    b.put prefix (z.pub_key_to_vec id) (some head_suffix) (z.digest_to_vec head)

  unfoldable pub remove_head : TopicId → ObjectId → Call S StorageError Unit
  remove_head id head =
      b.del_property_value prefix (z.pub_key_to_vec id) (some head_suffix) (z.digest_to_vec head)

  unfoldable pub has_head : S → TopicId → ObjectId → Outcome {0} StorageError Unit
  has_head s id head =
      b.has_property_value s prefix (z.pub_key_to_vec id) (some head_suffix) (z.digest_to_vec head)

  unfoldable pub metadata : S → TopicId → Outcome StorageError TopicMeta
  metadata s id =
      parsed z.topic_meta_from_slice (b.get s prefix (z.pub_key_to_vec id) (some meta_suffix))

  unfoldable pub set_metadata : TopicId → TopicMeta → Call S StorageError Unit
  set_metadata id metadata = do
    there ← reading (λ s. exists s id)
    requires there backend_error
    b.replace prefix (z.pub_key_to_vec id) (some meta_suffix) (z.topic_meta_to_vec metadata)

  unfoldable pub del : TopicId → Call S StorageError Unit
  del id = b.del_all prefix (z.pub_key_to_vec id) all_properties
