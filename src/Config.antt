-- ===== src/Config.antt =====
-- The limits that the server reads from its environment: apps/api/src/common/resource-limit.ts,
-- apps/api/src/vfs/namespace-quota.ts and file-expiry-policy.ts.
mod Tests
pub mod Limits
