-- ===== src/Ownership.antt =====
-- The records of running uploads and of the cleanup that takes a storage key over:
-- apps/api/src/persistence/storage-put-ownership.repository.ts.
mod Tests
pub mod Tables
pub mod Operations
pub mod Claims
pub mod Reclaiming
