-- ===== src/Config.antt =====
-- src/config.rs: which configurations a daemon accepts.
pub mod Fields
pub mod Accepted
mod Tests
