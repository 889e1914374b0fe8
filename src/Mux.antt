-- ===== src/Mux.antt =====
-- engine/src/praelector/mux: what of a book is exported, and how ffmpeg is told.
pub mod Chapters
pub mod Metadata
