-- ===== src/Cluster.antt =====
-- src/cluster.rs: who is in the cluster, and the gossip that spreads it.
pub mod State
pub mod Merge
pub mod Precedence
pub mod Records
pub mod Sound
pub mod Refutation
pub mod Sweep
pub mod Gossip
pub mod Exchange
pub mod Staleness
pub mod Reach
mod Tests
