-- ===== src/Gpu.antt =====
-- engine/src/praelector/gpu: how many workers the memory of a card allows, and when.
pub mod Budget
pub mod Monitor
