-- ===== src/Hydrate.antt =====
-- src/hydrate.rs: how the chunks of the files below a path are shared out among the nodes.
pub mod Plan
pub mod Shared
mod Tests
