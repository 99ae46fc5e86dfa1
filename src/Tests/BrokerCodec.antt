-- ===== src/Tests/BrokerCodec.antt =====
-- A stand-in for serde_bare at the types that a broker stores.
use lofire_rs.Common.{
  ℕ, zero, suc, Bytes, [], ◌∷◌, Option, some, none, Bool, true, false, ◌≡◌, refl,
}
use lofire_rs.Types.{PubKey, Sig, BloomFilter128}
use lofire_rs.Net.Overlay.{Ip, ipv4, ipv6, IpTransportProtocol, tls, quic, NetAddr, PeerAdvert}
use lofire_rs.Broker.Codec.{
  Codec, OverlayMeta, TopicMeta, ConfigMode, local, core, RepoStoreId, overlay, repo,
}
use lofire_rs.Tests.Serial.{Serial, nat, bytes, digest, key, pair, list, through}

whole : {A : Type 0} → Option (A × Bytes) → Option A
whole none = none
whole (some (a, _)) = some a

pub to_vec : {A : Type 0} → Serial A → A → Bytes
to_vec s a = s.write a []

pub from_slice : {A : Type 0} → Serial A → Bytes → Option A
from_slice s l = whole (s.read l)

pub round_trip : {A : Type 0} (s : Serial A) (a : A) → from_slice s (to_vec s a) ≡ some a
unfolding from_slice to_vec whole
round_trip s a = rw (s.read_write a [])

pub pub_key : Serial PubKey
pub_key = through bytes (λ k. k.ed25519_pub_key) (λ b. record { ed25519_pub_key = b }) (λ k. refl)

sig : Serial Sig
sig = through (pair bytes bytes) (λ k. k.ed25519_sig) (λ b. record { ed25519_sig = b }) (λ k. refl)

bool_nat : Bool → ℕ
bool_nat false = 0
bool_nat true = 1

nat_bool : ℕ → Bool
nat_bool zero = false
nat_bool (suc _) = true

nat_bool-bool_nat : (b : Bool) → nat_bool (bool_nat b) ≡ b
unfolding nat_bool bool_nat
nat_bool-bool_nat false = refl
nat_bool-bool_nat true = refl

pub bool : Serial Bool
bool = through nat bool_nat nat_bool nat_bool-bool_nat

ip_parts : Ip → Bool × Bytes
ip_parts (ipv4 b) = (false, b)
ip_parts (ipv6 b) = (true, b)

parts_ip : Bool × Bytes → Ip
parts_ip (false, b) = ipv4 b
parts_ip (true, b) = ipv6 b

parts_ip-ip_parts : (i : Ip) → parts_ip (ip_parts i) ≡ i
unfolding parts_ip ip_parts
parts_ip-ip_parts (ipv4 b) = refl
parts_ip-ip_parts (ipv6 b) = refl

is_quic : IpTransportProtocol → Bool
is_quic tls = false
is_quic quic = true

protocol_of : Bool → IpTransportProtocol
protocol_of false = tls
protocol_of true = quic

protocol_of-is_quic : (p : IpTransportProtocol) → protocol_of (is_quic p) ≡ p
unfolding is_quic protocol_of
protocol_of-is_quic tls = refl
protocol_of-is_quic quic = refl

net_addr : Serial NetAddr
net_addr =
    through
      (pair (through (pair bool bytes) ip_parts parts_ip parts_ip-ip_parts)
        (pair nat (through bool is_quic protocol_of protocol_of-is_quic)))
      (λ a. (a.ip_transport.ip, (a.ip_transport.port, a.ip_transport.protocol)))
      (λ p. record { ip_transport = record { ip = p.0; port = p.1.0; protocol = p.1.1 } })
      (λ a. refl)

filter : Serial BloomFilter128
filter = list bytes

pub peer_advert : Serial PeerAdvert
peer_advert =
    through
      (pair (pair pub_key (pair filter (list net_addr))) (pair (pair nat bytes) (pair sig nat)))
      (λ a. (
        (a.v0.content.peer, (a.v0.content.subs, a.v0.content.address)),
        ((a.v0.content.version, a.v0.content.metadata), (a.v0.sig, a.v0.ttl)),
      ))
      (λ p. record {
        v0 = record {
          content = record {
            peer = p.0.0;
            subs = p.0.1.0;
            address = p.0.1.1;
            version = p.1.0.0;
            metadata = p.1.0.1;
          };
          sig = p.1.1.0;
          ttl = p.1.1.1;
        };
      })
      (λ a. refl)

pub overlay_meta : Serial OverlayMeta
overlay_meta =
    through (pair nat nat) (λ m. (m.users, m.last_used))
      (λ p. record { users = p.0; last_used = p.1 }) (λ m. refl)

pub topic_meta : Serial TopicMeta
topic_meta = through nat (λ m. m.users) (λ n. record { users = n }) (λ m. refl)

is_core : ConfigMode → Bool
is_core local = false
is_core core = true

mode_of : Bool → ConfigMode
mode_of false = local
mode_of true = core

mode_of-is_core : (m : ConfigMode) → mode_of (is_core m) ≡ m
unfolding is_core mode_of
mode_of-is_core local = refl
mode_of-is_core core = refl

pub config_mode : Serial ConfigMode
config_mode = through bool is_core mode_of mode_of-is_core

pub repo_store_id_to_vec : RepoStoreId → Bytes
repo_store_id_to_vec (overlay d) = 0 ∷ digest.write d []
repo_store_id_to_vec (repo k) = 1 ∷ pub_key.write k []

unfoldable pub codec : Codec
codec = record {
  pub_key_to_vec = to_vec pub_key;
  pub_key_from_slice = from_slice pub_key;
  pub_key_round_trip = round_trip pub_key;
  digest_to_vec = to_vec digest;
  digest_from_slice = from_slice digest;
  digest_round_trip = round_trip digest;
  sym_key_to_vec = to_vec key;
  sym_key_from_slice = from_slice key;
  sym_key_round_trip = round_trip key;
  bool_to_vec = to_vec bool;
  bool_from_slice = from_slice bool;
  bool_round_trip = round_trip bool;
  u32_to_vec = to_vec nat;
  u32_from_slice = from_slice nat;
  u32_round_trip = round_trip nat;
  overlay_meta_to_vec = to_vec overlay_meta;
  overlay_meta_from_slice = from_slice overlay_meta;
  overlay_meta_round_trip = round_trip overlay_meta;
  topic_meta_to_vec = to_vec topic_meta;
  topic_meta_from_slice = from_slice topic_meta;
  topic_meta_round_trip = round_trip topic_meta;
  peer_advert_to_vec = to_vec peer_advert;
  peer_advert_from_slice = from_slice peer_advert;
  peer_advert_round_trip = round_trip peer_advert;
  repo_store_id_to_vec = repo_store_id_to_vec;
  config_key_to_vec = to_vec bytes;
  config_mode_to_vec = to_vec config_mode;
  config_mode_from_slice = from_slice config_mode;
  config_mode_round_trip = round_trip config_mode;
}
