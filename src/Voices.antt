-- ===== src/Voices.antt =====
-- engine/src/praelector/voices: who speaks what.
pub mod Assignment
