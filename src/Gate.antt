-- ===== src/Gate.antt =====
-- The gate that puts the queries and transactions of SQLite in a row:
-- apps/api/src/persistence/sqlite-gate.ts.
mod Tests
pub mod Queue
pub mod Order
pub mod Runner
pub mod Lock
pub mod Nesting
