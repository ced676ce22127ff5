-- ===== src/Jobs.antt =====
-- The background jobs: src/services/jobs.ts.
pub mod Payload
pub mod Draft
pub mod Queue
mod Tests
