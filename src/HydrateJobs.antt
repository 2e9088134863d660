-- ===== src/HydrateJobs.antt =====
-- src/hydrate_jobs.rs: the hydrations that run in the background, and what a client is told of them.
pub mod Table
pub mod Lives
mod Tests
