-- ===== src/Content.antt =====
-- The bytes that a content request asks for, and the slots of the archive requests:
-- apps/api/src/vfs/range.ts and archive-gate.ts.
mod Tests
pub mod Range
pub mod ArchiveGate
