-- ===== src/Spans.antt =====
-- engine/src/praelector/text: suggestions, the spans they become, and the spoken form.
pub mod Suggestion
pub mod Shift
pub mod Apply
pub mod Spoken
