-- ===== src/Broker/Peer.antt =====
-- lofire-broker/src/peer.rs: the peers that a broker knows, each with its latest advertisement.
use lofire_rs.Common.{
  ℕ, Bool, not, some, List, [], ◌∷◌, Outcome, ok, err, panic, out_of_fuel, map_err, beq, leb,
  if◌then◌else◌,
}
use lofire_rs.Types.{pub_key_has_eq}
use lofire_rs.Net.Overlay.{PeerId, PeerAdvert, peer_advert_peer, peer_advert_version}
use lofire_rs.Store.{StorageError, not_found, invalid_value, backend_error}
use lofire_rs.Broker.Store.{BrokerStore, parsed}
use lofire_rs.Broker.Calls.{Call, ◌>>=◌, ◌>>◌, returns, fails, reading, requires, is_ok}
use lofire_rs.Broker.Codec.{Codec}

abbrev pub prefix : ℕ
prefix = 112

abbrev pub version_suffix : ℕ
version_suffix = 118

abbrev pub advert_suffix : ℕ
advert_suffix = 97

abbrev pub all_properties : List ℕ
all_properties = version_suffix ∷ advert_suffix ∷ []

module _ {S : Type 0} (b : BrokerStore S) (z : Codec) where
  unfoldable pub exists : S → PeerId → Outcome StorageError Bool
  exists s id = is_ok (b.get s prefix (z.pub_key_to_vec id) (some version_suffix))

  -- The entity itself is its identifier with the store.
  unfoldable pub open_peer : PeerId → Call S StorageError PeerId
  open_peer id = do
    there ← reading (λ s. exists s id)
    if there then returns id else fails not_found

  unfoldable pub create : PeerAdvert → Call S StorageError PeerId
  create advert = do
    let id = peer_advert_peer advert
    there ← reading (λ s. exists s id)
    requires (not there) backend_error
    b.put prefix (z.pub_key_to_vec id) (some version_suffix)
        (z.u32_to_vec (peer_advert_version advert))
    b.put prefix (z.pub_key_to_vec id) (some advert_suffix) (z.peer_advert_to_vec advert)
    returns id

  unfoldable pub version : S → PeerId → Outcome StorageError ℕ
  version s id =
      parsed z.u32_from_slice (b.get s prefix (z.pub_key_to_vec id) (some version_suffix))

  unfoldable pub set_version : PeerId → ℕ → Call S StorageError Unit
  set_version id version = do
    there ← reading (λ s. exists s id)
    requires there backend_error
    b.replace prefix (z.pub_key_to_vec id) (some version_suffix) (z.u32_to_vec version)

  unfoldable pub advert : S → PeerId → Outcome StorageError PeerAdvert
  advert s id =
      parsed z.peer_advert_from_slice (b.get s prefix (z.pub_key_to_vec id) (some advert_suffix))

  unfoldable pub update_advert : PeerId → PeerAdvert → Call S StorageError Unit
  update_advert id new_advert = do
    requires (beq (peer_advert_peer new_advert) id) invalid_value
    current_advert ← reading (λ s. map_err (λ e. backend_error) (advert s id))
    if leb (peer_advert_version new_advert) (peer_advert_version current_advert)
        then returns tt
        else b.replace prefix (z.pub_key_to_vec id) (some advert_suffix)
            (z.peer_advert_to_vec new_advert)

  abbrev pub create_if_missing : PeerAdvert → StorageError → Call S StorageError PeerId
  create_if_missing new_advert not_found = create new_advert
  create_if_missing new_advert _ = fails backend_error

  abbrev pub update_opened :
      PeerAdvert → Outcome StorageError PeerId × S → Outcome StorageError PeerId × S
  update_opened new_advert (ok p, s) = (update_advert p new_advert >> returns p) s
  update_opened new_advert (err e, s) = create_if_missing new_advert e s
  update_opened new_advert (panic, s) = (panic, s)
  update_opened new_advert (out_of_fuel, s) = (out_of_fuel, s)

  unfoldable pub update_or_create : PeerAdvert → Call S StorageError PeerId
  update_or_create new_advert s =
      update_opened new_advert (open_peer (peer_advert_peer new_advert) s)

  unfoldable pub set_advert : PeerId → PeerAdvert → Call S StorageError Unit
  set_advert id new_advert = do
    there ← reading (λ s. exists s id)
    requires there backend_error
    b.replace prefix (z.pub_key_to_vec id) (some advert_suffix) (z.peer_advert_to_vec new_advert)

  unfoldable pub del : PeerId → Call S StorageError Unit
  del id = b.del_all prefix (z.pub_key_to_vec id) all_properties
