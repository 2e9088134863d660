-- ===== src/Rdma.antt =====
-- src/transport_ucx.rs: chunks between peers over UCX tag messages.
pub mod Wire
pub mod Request
pub mod Reply
pub mod Endpoints
pub mod Flights
pub mod Closing
pub mod Reaping
pub mod Steps
pub mod Serve
pub mod Fetch
pub mod Slab
mod Tests
