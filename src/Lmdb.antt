-- ===== src/Lmdb.antt =====
-- lofire-store-lmdb: the stores of blocks and of broker properties on LMDB databases.
pub mod Rkv
pub mod RepoStore
pub mod BrokerStore
