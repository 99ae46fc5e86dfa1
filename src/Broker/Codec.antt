-- ===== src/Broker/Codec.antt =====
-- lofire-broker: the small types that a broker stores, and what is taken from serde_bare for them.
use lofire_rs.Common.{ℕ, Bytes, Bool, true, false, Option, some, ◌≡◌}
use lofire_rs.Types.{PubKey, Digest, SymKey, Timestamp}
use lofire_rs.Net.Overlay.{OverlayId, PeerAdvert}

pub record OverlayMeta : Type 0 where
  pub users : ℕ
  pub last_used : Timestamp

pub record TopicMeta : Type 0 where
  pub users : ℕ

pub data RepoStoreId : Type 0 where
  overlay : OverlayId → RepoStoreId
  repo : PubKey → RepoStoreId

pub data ConfigMode : Type 0 where
  local core : ConfigMode

-- Derived equality.
abbrev pub config_mode_eq : ConfigMode → ConfigMode → Bool
config_mode_eq local local = true
config_mode_eq core core = true
config_mode_eq _ _ = false

-- `to_vec` and `from_slice` at each type that is stored; writing never fails for them.
pub record Codec : Type 0 where
  pub pub_key_to_vec : PubKey → Bytes
  pub pub_key_from_slice : Bytes → Option PubKey
  pub pub_key_round_trip : (k : PubKey) → pub_key_from_slice (pub_key_to_vec k) ≡ some k
  pub digest_to_vec : Digest → Bytes
  pub digest_from_slice : Bytes → Option Digest
  pub digest_round_trip : (d : Digest) → digest_from_slice (digest_to_vec d) ≡ some d
  pub sym_key_to_vec : SymKey → Bytes
  pub sym_key_from_slice : Bytes → Option SymKey
  pub sym_key_round_trip : (k : SymKey) → sym_key_from_slice (sym_key_to_vec k) ≡ some k
  pub bool_to_vec : Bool → Bytes
  pub bool_from_slice : Bytes → Option Bool
  pub bool_round_trip : (b : Bool) → bool_from_slice (bool_to_vec b) ≡ some b
  pub u32_to_vec : ℕ → Bytes
  pub u32_from_slice : Bytes → Option ℕ
  pub u32_round_trip : (n : ℕ) → u32_from_slice (u32_to_vec n) ≡ some n
  pub overlay_meta_to_vec : OverlayMeta → Bytes
  pub overlay_meta_from_slice : Bytes → Option OverlayMeta
  pub overlay_meta_round_trip :
      (m : OverlayMeta) → overlay_meta_from_slice (overlay_meta_to_vec m) ≡ some m
  pub topic_meta_to_vec : TopicMeta → Bytes
  pub topic_meta_from_slice : Bytes → Option TopicMeta
  pub topic_meta_round_trip : (m : TopicMeta) → topic_meta_from_slice (topic_meta_to_vec m) ≡ some m
  pub peer_advert_to_vec : PeerAdvert → Bytes
  pub peer_advert_from_slice : Bytes → Option PeerAdvert
  pub peer_advert_round_trip :
      (a : PeerAdvert) → peer_advert_from_slice (peer_advert_to_vec a) ≡ some a
  pub repo_store_id_to_vec : RepoStoreId → Bytes
  pub config_key_to_vec : Bytes → Bytes
  pub config_mode_to_vec : ConfigMode → Bytes
  pub config_mode_from_slice : Bytes → Option ConfigMode
  pub config_mode_round_trip :
      (m : ConfigMode) → config_mode_from_slice (config_mode_to_vec m) ≡ some m
