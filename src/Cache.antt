-- ===== src/Cache.antt =====
-- src/cache.rs: the chunk cache on the local disk, with its least-recently-used eviction.
pub mod Key
pub mod Names
pub mod State
pub mod Read
pub mod Write
pub mod Sweep
pub mod Valid
pub mod Upkeep
pub mod Recency
pub mod Refine
pub mod Order
pub mod Insert
pub mod RoundTrip
pub mod Passes
pub mod Interleave
mod Tests
