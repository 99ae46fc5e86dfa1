-- ===== src/Tests/Brokers.antt =====
-- A broker on a concrete store: accounts, overlays, peers, its mode and its replies.
use lofire_rs.Common.{
  ℕ, Bytes, [], ◌∷◌, ◌++◌, map, none, some, true, false, ok, err, inl, inr, ◌≡◌, refl, ◌∙◌,
  if◌then◌else◌, leb, ok_or,
}
use lofire_rs.Types.{PubKey, Sig, SymKey, Digest, Block}
use lofire_rs.Store.{backend_error, not_found, invalid_value}
use lofire_rs.Net.Overlay.{PeerAdvert}
use lofire_rs.Net.Errors.{to_unit, to_option_block, access_denied}
use lofire_rs.Lmdb.BrokerStore.{lmdb_broker_store}
use lofire_rs.Lmdb.BrokerStore.Contract.{contract, lmdb_broker_store-laws}
use lofire_rs.Broker.Store.{BrokerStore, BrokerStoreLaws}
use lofire_rs.Broker.Properties.{compute_property-injective, other_suffix}
use lofire_rs.Broker.Codec.{local, core, config_mode_eq}
use lofire_rs.Broker.Account
use lofire_rs.Broker.Accounts
use lofire_rs.Broker.Accounts.{create-open_account, del_no_clients}
use lofire_rs.Broker.Overlay
use lofire_rs.Broker.Overlays
use lofire_rs.Broker.Overlays.{create-open_overlay, del_no_peers}
use lofire_rs.Broker.Peer
use lofire_rs.Broker.Peers
use lofire_rs.Broker.Peers.{update_or_create-new, update_or_create-known}
use lofire_rs.Broker.Config
use lofire_rs.Broker.Configs.{get_or_create-mode}
use lofire_rs.Broker.Replies.{
  prepare_reply_broker_message, prepare_reply_broker_overlay_message,
  send_block_stream_response_to_client, as_outcome, frames, to_unit-prepare_reply,
  to_option_block-send_block_stream,
}
use lofire_rs.Tests.Multi.{Values, at, at_itself, at_other, multi, multi_laws}
use lofire_rs.Tests.BrokerCodec.{codec}

abbrev pub store : BrokerStore Values
store = lmdb_broker_store multi

abbrev pub laws : BrokerStoreLaws store
laws = contract multi_laws

abbrev pub nothing : Values
nothing _ = []

nothing_there : (q : Bytes) → laws.values nothing q ≡ []
unfolding contract multi_laws
nothing_there q = refl

abbrev pub alice : PubKey
alice = record { ed25519_pub_key = 1 ∷ [] }

abbrev pub bob : PubKey
bob = record { ed25519_pub_key = 2 ∷ [] }

abbrev pub overlay : Digest
overlay = record { blake3_digest32 = 7 ∷ [] }

compute_property-injective_example :
    (Account.prefix ≡ Account.prefix)
    × (alice.ed25519_pub_key ≡ alice.ed25519_pub_key)
    × (some Account.admin_suffix ≡ some Account.admin_suffix)
compute_property-injective_example =
    compute_property-injective Account.prefix Account.prefix (1 ∷ []) (1 ∷ [])
      (some Account.admin_suffix) (some Account.admin_suffix) refl refl

lmdb_broker_store-laws_example :
    (c : BrokerStoreLaws (lmdb_broker_store multi)) × ((m : Values) (q : Bytes)
      → c.values m q ≡ multi_laws.values m q)
lmdb_broker_store-laws_example = lmdb_broker_store-laws multi_laws

create-open_account_example :
    (s' : Values) × (Account.create store codec alice true nothing ≡ (ok alice, s'))
    × (Account.open_account store codec alice s' ≡ (ok alice, s'))
    × (Account.is_admin store codec s' alice ≡ ok true)
    × (Account.create store codec alice false s' ≡ (err backend_error, s'))
create-open_account_example =
    create-open_account codec laws nothing alice true false (nothing_there _)

del_no_clients_example : Account.del store codec alice nothing ≡ (err backend_error, nothing)
del_no_clients_example = del_no_clients codec laws nothing alice (nothing_there _)

create-open_overlay_example :
    (s' : Values) × (Overlay.create store codec overlay
        (record { chacha20_key = 3 ∷ [] })
        (some alice)
        60
        nothing
      ≡ (ok overlay, s'))
    × (Overlay.open_overlay store codec overlay s' ≡ (ok overlay, s'))
    × (Overlay.secret store codec s' overlay ≡ ok (record { chacha20_key = 3 ∷ [] }))
    × (Overlay.repo store codec s' overlay ≡ ok_or not_found (some alice))
    × (Overlay.metadata store codec s' overlay ≡ ok (record { users = 1; last_used = 60 }))
create-open_overlay_example =
    create-open_overlay codec laws nothing overlay (record { chacha20_key = 3 ∷ [] }) (some alice)
      60 (nothing_there _) (nothing_there _) (nothing_there _)

-- An overlay with a secret only.
abbrev secret_place : Bytes
secret_place = Overlays.place codec laws overlay Overlay.secret_suffix

abbrev with_secret : Values
with_secret = at secret_place ((3 ∷ []) ∷ []) nothing

secret_there : laws.values with_secret secret_place ≡ (3 ∷ []) ∷ []
unfolding contract multi_laws
secret_there = at_itself secret_place ((3 ∷ []) ∷ []) nothing

no_peers : laws.values with_secret (Overlays.place codec laws overlay Overlay.peer_suffix) ≡ []
unfolding contract multi_laws
no_peers = at_other secret_place _ ((3 ∷ []) ∷ []) nothing (
    other_suffix Overlay.prefix (codec.digest_to_vec overlay) Overlay.secret_suffix
      Overlay.peer_suffix refl)

del_no_peers_example :
    (s' : Values) × (Overlay.del store codec overlay with_secret ≡ (err backend_error, s'))
    × (Overlay.open_overlay store codec overlay s' ≡ (err not_found, s'))
    × (Overlay.metadata store codec s' overlay ≡ Overlay.metadata store codec with_secret overlay)
del_no_peers_example = del_no_peers codec laws with_secret overlay (3 ∷ []) [] secret_there no_peers

get_or_create-mode_example :
    (s' : Values) × (Config.get_or_create store codec local nothing ≡ (ok tt, s'))
    × (Config.mode store codec s' ≡ ok local)
    × (Config.get_or_create store codec core s'
        ≡ (if config_mode_eq local core then (ok tt, s') else (err invalid_value, s')))
get_or_create-mode_example = get_or_create-mode codec laws nothing local core (nothing_there _)

-- The second advertisement of a peer, whose first is stored.
abbrev advert_of : ℕ → PeerAdvert
advert_of version = record {
  v0 = record {
    content = record { peer = alice; subs = []; address = []; version = version; metadata = [] };
    sig = record { ed25519_sig = ([], []) };
    ttl = 1;
  };
}

abbrev version_place : Bytes
version_place = Peers.place codec laws alice Peer.version_suffix

abbrev advert_place : Bytes
advert_place = Peers.place codec laws alice Peer.advert_suffix

abbrev with_advert : Values
with_advert = at advert_place (codec.peer_advert_to_vec (advert_of 1) ∷ []) nothing

abbrev known : Values
known = at version_place ((1 ∷ []) ∷ []) with_advert

version_there : laws.values known version_place ≡ (1 ∷ []) ∷ []
unfolding contract multi_laws
version_there = at_itself version_place ((1 ∷ []) ∷ []) with_advert

advert_there : laws.values known advert_place ≡ codec.peer_advert_to_vec (advert_of 1) ∷ []
unfolding contract multi_laws
advert_there =
    at_other version_place advert_place ((1 ∷ []) ∷ []) with_advert (
      other_suffix Peer.prefix (codec.pub_key_to_vec alice) Peer.version_suffix Peer.advert_suffix
        refl)
    ∙ at_itself advert_place _ nothing

update_or_create-known_example :
    (s' : Values) × (Peer.update_or_create store codec (advert_of 2) known ≡ (ok alice, s'))
    × (Peer.advert store codec s' alice ≡ ok (if leb 2 1 then advert_of 1 else advert_of 2))
    × (Peer.version store codec s' alice ≡ Peer.version store codec known alice)
update_or_create-known_example =
    update_or_create-known codec laws known (advert_of 2) (advert_of 1) (1 ∷ []) [] [] version_there
      advert_there

to_unit-prepare_reply_example :
    (to_unit (prepare_reply_broker_message (inl access_denied) 5 20)
      ≡ as_outcome (inl access_denied))
    × (to_unit (prepare_reply_broker_overlay_message (inl access_denied) 5 overlay none 20)
        ≡ as_outcome (inl access_denied))
to_unit-prepare_reply_example = to_unit-prepare_reply (inl access_denied) 5 20 overlay none

abbrev pub a_block : Block
a_block = record {
  v0 = record {
    id = none;
    key = none;
    children = [];
    deps = lofire_rs.Types.object_id_list [];
    expiry = none;
    content = 1 ∷ [];
  };
}

to_option_block-send_block_stream_example :
    map to_option_block
      (frames (send_block_stream_response_to_client (inr (a_block ∷ a_block ∷ [])) 5 overlay 20))
    ≡ map (λ b. ok (some b)) (a_block ∷ a_block ∷ []) ++ ok none ∷ []
to_option_block-send_block_stream_example =
    to_option_block-send_block_stream (a_block ∷ a_block ∷ []) 5 overlay 20
