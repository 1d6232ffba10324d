-- ===== src/Sessions.antt =====
-- Upload sessions: apps/api/src/persistence/vfs-upload-session.repository.ts.
pub mod Tables
pub mod Parts
pub mod Staging
pub mod Lifecycle
pub mod Finalize
pub mod Books
pub mod Rows
pub mod Charges
pub mod Columns
pub mod Kept
pub mod Queries
pub mod Reserving
pub mod Finishing
pub mod Storing
pub mod Claiming
pub mod Acknowledging
pub mod Cleanup
pub mod Covering
pub mod Refunding
pub mod Ending
pub mod Commit
pub mod Committing
pub mod Runs
mod Tests
pub mod Usage
