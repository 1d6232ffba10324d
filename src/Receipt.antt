-- ===== src/Receipt.antt =====
-- Idempotency receipts of conditional mutations:
-- apps/api/src/persistence/vfs-mutation-receipt.repository.ts.
pub mod Statements
pub mod Claim
pub mod Fencing
pub mod Claiming
mod Tests
