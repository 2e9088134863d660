-- ===== src/PeerIndex.antt =====
-- src/peerindex.rs: which chunks this node and its peers hold, and whom to ask for one.
pub mod Bloom
pub mod Filter
pub mod Wire
pub mod State
pub mod Rank
pub mod Advertise
pub mod Published
pub mod Leader
pub mod Choice
pub mod Ingest
mod Tests
