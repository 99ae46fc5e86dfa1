-- ===== src/Lib.antt =====
-- lofire-rs: a repository of encrypted, content-addressed objects, its stores and its broker.
--
-- The crate lofire keeps data as objects: the serialized content is cut into chunks, each chunk is
-- encrypted with a key derived from its plain text, and the blocks form a Merkle tree whose inner
-- blocks hold the identifiers and keys of their children. Commits are objects that refer to other
-- commits; a branch says which keys may make which commits. A broker keeps blocks and the accounts of
-- its users for them: lofire-store-lmdb holds blocks and properties in LMDB, lofire-broker has the
-- entities that the broker stores as properties, the handshake that authenticates a user, and the
-- protocol that answers the user's messages, which lofire-net defines.
--
-- Files and what they model (paths from the root of the repository):
--   Types, lofire/src/types.rs: the data types. An enum with one variant is a record.
--   Crates: the parts of blake3, chacha20 and serde_bare that are used, as a record `Crates` of
--     functions with the laws that are relied on: decryption undoes encryption, the bytes of the
--     content of a block are read back, serde skips a block's `id` and `key`.
--   Block, lofire/src/block.rs: identifiers, accessors and setters.
--   Store, Store/HashMap, lofire/src/store.rs: the trait `RepoStore` as a record over the states of a
--     store, the in-memory store, and the sizes of stored values.
--   Object, lofire/src/object.rs: Object/Build makes objects (`make_block`, `make_tree`, `make_deps`,
--     `new`), Object/Read reads them (`collect_leaves`, `leaves`, `content`, `copy`), Object/Persist
--     loads and saves them (`load`, `save`, `to_hashmap`).
--   Commit, lofire/src/commit.rs: `new`, `verify_sig` and accessors; Commit/Load has `load`,
--     `load_body`, `verify_deps`; Commit/Verify has `verify_perm` and `verify`. The record `Ed25519`
--     holds what is used of ed25519_dalek.
--   Branch, lofire/src/branch.rs: members and permissions; Branch/Sync has `sync_req`, with the Bloom
--     filter of fastbloom_rs as an argument.
--   Repo and Utils, lofire/src/repo.rs, utils.rs and errors.rs.
--   Lmdb/Rkv: what is used of the databases of rkv, as records of operations and laws.
--   Lmdb/RepoStore, lofire-store-lmdb/src/repostore.rs: `LmdbRepoStore`, with `get`, `put`, `del`,
--     `set_pin`, `has_been_synced`, `remove_expired` and `remove_least_used`. serde is the record `Codec`.
--   Lmdb/BrokerStore, lofire-store-lmdb/src/brokerstore.rs: `LmdbBrokerStore`.
--   Net, lofire-net/src/types.rs and errors.rs: Net/Overlay, Net/Account, Net/Requests, Net/Responses and
--     Net/External have the types, Net/Messages the accessors of `BrokerMessage`, Net/Errors
--     `ProtocolError`, its codes and what a client reads from a response.
--   Broker/Calls: calls on shared state, which is kept also when a call fails.
--   Broker/Store, lofire/src/brokerstore.rs: the trait `BrokerStore` as a record over the states of a
--     store; `BrokerStoreLaws` is what the entities rely on, and Lmdb/BrokerStore/Contract fills it.
--   Broker/Account, Overlay, Peer, Topic, RepoStoreInfo and Config, the files of lofire-broker/src of
--     the same names: the entities. Broker/Codec has the small types that they store, and serde for them.
--   Broker/Auth, lofire-broker/src/auth.rs: the two state machines and `AuthProtocolHandler`.
--   Broker/Server, Broker/Operations, Broker/Replies, Broker/Protocol and Broker/Handler,
--     lofire-broker/src/server.rs: `BrokerServer` and how it finds a store of blocks, its operations, the
--     replies, `BrokerProtocolHandler` and `ProtocolHandler`.
-- The other files hold proofs: Object/Tree on the shape of the Merkle tree, Object/Shape on the blocks
-- of an object, Object/Expiry on their expiry, Object/Loading, Object/RoundTrip, Object/SaveLoad,
-- Object/ManyDeps, Object/Copies and Object/Missing on reading and loading, Commit/Sets,
-- Commit/Missing, Commit/Walk, Commit/Deps, Commit/Ends, Commit/Checked and Commit/Signatures on
-- commits, Branch/Walk, Branch/Answer and Branch/Ends on `sync_req`, Store/Sizes on sizes and
-- Store/Laws on the in-memory store. In Lmdb/RepoStore, Abstract has the abstract contents of a store
-- of blocks and the invariant that relates the databases to them, Lists, Metas, Pins, Blocks,
-- Deletion, Reclaim and LeastUsed the operations, and Unordered where they panic. In Broker,
-- Properties, Accounts, Overlays, Peers and Configs are on the entities, Handshake, Acceptance and
-- Connections on authentication, Answers, Streams and Users on the protocol. Tests runs the code on
-- concrete inputs.
--
-- A call that can fail or panic is an `Outcome`: a value, an error, a panic, or the end of the fuel.
-- State is passed and returned; a set or map is a list. Loops over a list recurse on it; `make_tree`,
-- `collect_leaves`, `load_tree`, `load` and both functions `load_branch` take fuel. `make_tree` is given one more
-- than the number of leaves and `collect_leaves` the number of blocks, which is enough for what `new`
-- makes; `load` is given its fuel by the caller, and the number of blocks is enough for an object with few
-- dependencies; the depth of a `load_branch` is given by the caller, and a little more than the number of
-- stored commits is enough.
--
-- A broker serves one call at a time, so that no lock is waited for; a call that asks for a lock which
-- it holds itself is a panic. Loads from a store of blocks see the blocks that were there at their
-- start, since `get` changes times of use at most. A stream is the list of its frames. The key, the
-- nonce and the time that a call takes from the system are arguments.
--
-- Not modelled: lofire-broker/src/connection.rs, the asynchronous client; opening the LMDB databases and
-- listing them; `BrokerServer::copy_object`, whose body is still to be written; the programs lofire-demo
-- and lofire-node; the random keys and the clock of lofire/src/utils.rs; and printing.
pub mod Common
pub mod Types
pub mod Crates
pub mod Block
pub mod Store
pub mod Object
pub mod Commit
pub mod Branch
pub mod Repo
pub mod Utils
pub mod Lmdb
pub mod Net
pub mod Broker
mod Tests
