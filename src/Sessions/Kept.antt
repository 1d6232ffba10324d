-- ===== src/Sessions/Kept.antt =====
-- Each operation on upload sessions against the counters of the usage table.
pub mod Commit
pub mod Reserve
pub mod Staging
pub mod Refunds
pub mod Lifecycle
pub mod Finalize
