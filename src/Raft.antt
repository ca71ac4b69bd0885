-- ===== src/Raft.antt =====
-- raft/: one peer of the consensus protocol (raft.go), its persistence (persister.go), and a cluster
-- of peers whose messages are in flight.
pub mod State
pub mod Wellformed
pub mod Ripple
pub mod Election
pub mod Replication
pub mod Persist
pub mod Ticker
pub mod Cluster
mod Examples
