-- ===== src/Jobs.antt =====
-- engine/src/praelector/jobs: from a queued job to its rendered chunks.
pub mod State
pub mod Record
pub mod Log
pub mod Chunker
pub mod Planner
pub mod Plan
pub mod Chunks
pub mod Cursor
pub mod Catalog
pub mod Manager
pub mod Admission
pub mod Scheduler
