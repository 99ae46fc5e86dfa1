-- ===== src/Tests.antt =====
-- Concrete inputs: the theorems applied where their hypotheses hold, and the code run.
mod Crate
mod Serial
mod Rkv
mod Objects
mod Stores
mod LmdbBlocks
mod Multi
mod BrokerCodec
mod Brokers
mod Connections
mod Commits
mod Branches
