-- ===== src/Broker.antt =====
-- lofire-broker: what a broker keeps in its store, and its server.
pub mod Calls
pub mod Store
pub mod Codec
pub mod Properties
pub mod Account
pub mod Overlay
pub mod Peer
pub mod Topic
pub mod RepoStoreInfo
pub mod Config
pub mod Replies
pub mod Auth
pub mod Server
pub mod Operations
pub mod Protocol
pub mod Answers
pub mod Users
pub mod Streams
pub mod Handler
pub mod Acceptance
pub mod Connections
pub mod Handshake
pub mod Accounts
pub mod Overlays
pub mod Peers
pub mod Configs
