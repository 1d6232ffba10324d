-- ===== src/Jobs.antt =====
-- The jobs that clean up: apps/api/src/jobs.
pub mod Stage
pub mod Sweep
mod Tests
