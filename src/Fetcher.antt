-- ===== src/Fetcher.antt =====
-- src/fetcher.rs: how a node comes by a chunk, and by a range of a file.
pub mod PeerLru
pub mod Accounted
pub mod Bounded
pub mod State
pub mod Sources
pub mod Chunk
pub mod Parts
pub mod Disk
pub mod Faithful
pub mod Fetched
pub mod Here
pub mod Right
pub mod Range
pub mod Whole
pub mod Served
pub mod Prefetch
pub mod Composed
pub mod Ahead
mod Tests
