-- ===== src/Tests/GpuTests.antt =====
-- The budget and the monitor at concrete inputs.
use praelector.Base.{ℕ, ◌≡◌, refl, false, none, some, List, [], ◌∷◌, take, some_of, arith}
use praelector.Base.Int.{pos}
use praelector.Domain.{GpuVendor}
use praelector.Gpu.Budget.{
  Request, GpuBudget, PeakSource, seed_table, seed_peak, peak_from, peak, budget_for,
  compute_budget,
}
use praelector.Gpu.Budget.Bounds.{IsSound, compute_budget-IsSound}
use praelector.Gpu.Monitor.{VramReading, VramMonitor}
use praelector.Gpu.Monitor.Pause.{polls, below_all, paused_iff_below}

abbrev request : Request
request = record {
  vendor = GpuVendor.nvidia;
  memory_total_mib = some 24576;
  memory_free_mib = some 20000;
  backend_id = "omnivoice";
  precision = "fp16";
  worker_cap = pos 4;
  backend_max_parallel = pos 8;
  reserve_override_mib = none;
  peak_override_mib = none;
  measured_peak_mib = none;
  model = "base";
}

abbrev budget : GpuBudget
budget = budget_for request (3500, PeakSource.table_default) (some 24576) (some 20000)

compute_budget-IsSound_example : IsSound request budget
unfolding compute_budget peak peak_from seed_peak seed_table
compute_budget-IsSound_example = compute_budget-IsSound request budget refl

abbrev monitor : VramMonitor
monitor = record {
  reserve_mib = 4915;
  peak_worker_mib = 3500;
  interval = 10;
  resume_samples = 3;
  last_at = none;
  last = none;
  paused = false;
  clear_streak = 0;
}

abbrev reading : ℕ → VramReading
reading free = record { memory_total_mib = some 24576; memory_free_mib = some free }

abbrev series : List (ℕ × VramReading)
series = (32, reading 9000) ∷ (21, reading 9000) ∷ (15, reading 100) ∷ (10, reading 2000) ∷ []

paused_iff_below_example :
    (polls monitor series).0.paused
    ≡ some_of (λ b. b) (take 3 (below_all 4915 (polls monitor series).1))
paused_iff_below_example = paused_iff_below monitor series (omega arith) refl refl
