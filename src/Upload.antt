-- ===== src/Upload.antt =====
-- Resumable upload sessions: the policy of apps/api/src/vfs/upload-session-policy.ts.
pub mod Policy
pub mod Plan
pub mod Staging
mod Tests
