-- ===== src/Gpu/Budget.antt =====
-- gpu/budget.py: the VRAM budget. Memory that a driver reports is not negative; the settings and
-- overrides may be any integer.
pub mod Sources
pub mod Bounds
use praelector.Base.{
  ℕ, ◌+◌, ◌-◌, ◌*◌, ◌/◌, Bool, true, false, ◌&&◌, Option, none, some, String, [], ◌∷◌, str_eq, ltb,
  leb, ◌==◌, min, max, if◌then◌else◌,
}
use praelector.Base.Int.{ℤ, pos, negsuc, pos_part, sub_ℕ, ltb_ℤ}
use praelector.Domain.{GpuVendor}
use praelector.Domain.Errors.{
  Failure, app_error, gpu_unavailable, DetailValue, Detail, Result, ok, err, ◌>>=◌,
}

pub data ReserveSource : Type 0 where
  default user_override : ReserveSource

pub data PeakSource : Type 0 where
  table_default measured user_override : PeakSource

pub record GpuBudget : Type 0 where
  pub vendor : GpuVendor
  pub memory_total_mib : Option ℕ
  pub memory_free_mib : Option ℕ
  pub backend_id : String
  pub precision : String
  pub reserve_mib : ℕ
  pub reserve_source : ReserveSource
  pub peak_worker_mib : ℕ
  pub peak_source : PeakSource
  pub max_workers_formula : ℕ
  pub worker_cap : ℕ
  pub backend_max_parallel : ℕ
  pub effective_workers : ℕ
  pub low_vram_warning : Bool
  pub admissions_paused : Bool

-- The arguments of `compute_budget`.
pub record Request : Type 0 where
  pub vendor : GpuVendor
  pub memory_total_mib : Option ℕ
  pub memory_free_mib : Option ℕ
  pub backend_id : String
  pub precision : String
  pub worker_cap : ℤ
  pub backend_max_parallel : ℤ
  pub reserve_override_mib : Option ℤ
  pub peak_override_mib : Option ℤ
  pub measured_peak_mib : Option ℤ
  pub model : String

abbrev pub reserve_floor_mib : ℕ
reserve_floor_mib = 1536

-- `_SEED_PEAK_MIB.get((backend_id, precision))`
unfoldable pub seed_table : String → String → Option ℕ
seed_table backend_id precision =
    if str_eq backend_id "omnivoice" && str_eq precision "fp16"
    then some 3500
    else if str_eq backend_id "omnivoice" && str_eq precision "fp32"
    then some 6000
    else if str_eq backend_id "chatterbox" && str_eq precision "fp16"
    then some 4500
    else if str_eq backend_id "qwen3_tts" && str_eq precision "fp16"
    then some 4000
    else if str_eq backend_id "fake" && str_eq precision ""
    then some 64
    else none

unfoldable pub seed_peak : String → String → String → Option ℕ
unfolding seed_table
seed_peak backend_id precision model =
    if str_eq backend_id "fake"
    then some 64
    else if str_eq backend_id "qwen3_tts" && str_eq model "1.7b" && str_eq precision "fp16"
    then some 7000
    else seed_table backend_id precision

abbrev pub peak_error : String → String → Detail → Failure
peak_error reason backend_id more =
    app_error gpu_unavailable
      (("reason", DetailValue.text reason) ∷ ("backend_id", DetailValue.text backend_id) ∷ more)

-- A peak that is given must be positive.
unfoldable pub given_peak : ℤ → PeakSource → Failure → Result (ℕ × PeakSource)
given_peak mib source e = if ltb_ℤ (pos 0) mib then ok (pos_part mib, source) else err e

-- An override comes first, then a measured peak, then the table.
unfoldable pub peak_from : Request → Option ℤ → Option ℤ → Option ℕ → Result (ℕ × PeakSource)
unfolding given_peak
peak_from q (some mib) sampled seeded =
    given_peak mib PeakSource.user_override (peak_error "peak_override_invalid" q.backend_id [])
peak_from q none (some mib) seeded =
    given_peak mib PeakSource.measured (peak_error "measured_peak_invalid" q.backend_id [])
peak_from q none none (some mib) = ok (mib, PeakSource.table_default)
peak_from q none none none =
    err
      (peak_error "unknown_backend" q.backend_id (("precision", DetailValue.text q.precision) ∷ []))

unfoldable pub peak : Request → Result (ℕ × PeakSource)
unfolding peak_from seed_peak
peak q =
    peak_from q q.peak_override_mib q.measured_peak_mib (seed_peak q.backend_id q.precision q.model)

unfoldable pub reserve : ℕ → Option ℤ → ℕ × ReserveSource
reserve total_mib (some mib) = (pos_part mib, ReserveSource.user_override)
reserve total_mib none =
    (max ((total_mib * 20 + 100 - 1) / 100) reserve_floor_mib, ReserveSource.default)

unfoldable pub at_least_one : ℤ → ℕ
at_least_one (pos n) = if leb 1 n then n else 1
at_least_one (negsuc n) = 1

unfoldable pub is_cpu : GpuVendor → Bool
is_cpu GpuVendor.cpu = true
is_cpu _ = false

-- The budget of one worker: a CPU, or memory that cannot be read.
unfoldable pub single_worker : Request → ℕ × PeakSource → GpuBudget
unfolding at_least_one is_cpu
single_worker q p = record {
  vendor = q.vendor;
  memory_total_mib = q.memory_total_mib;
  memory_free_mib = q.memory_free_mib;
  backend_id = q.backend_id;
  precision = q.precision;
  reserve_mib = 0;
  reserve_source = ReserveSource.default;
  peak_worker_mib = p.0;
  peak_source = p.1;
  max_workers_formula = 1;
  worker_cap = at_least_one q.worker_cap;
  backend_max_parallel = at_least_one q.backend_max_parallel;
  effective_workers = 1;
  low_vram_warning = if is_cpu q.vendor then false else true;
  admissions_paused = false;
}

-- `max(1, headroom // peak if headroom > 0 else 0)`
unfoldable pub workers_formula : ℤ → ℕ → ℕ
workers_formula headroom peak_mib =
    max 1 (if ltb_ℤ (pos 0) headroom then pos_part headroom / peak_mib else 0)

unfoldable pub card_budget : Request → ℕ × PeakSource → ℕ → ℕ → GpuBudget
unfolding at_least_one reserve workers_formula
card_budget q p total free =
    let r = reserve total q.reserve_override_mib in
    let headroom = sub_ℕ free r.0 in
    let formula = workers_formula headroom p.0 in
    record {
      vendor = q.vendor;
      memory_total_mib = some total;
      memory_free_mib = some free;
      backend_id = q.backend_id;
      precision = q.precision;
      reserve_mib = r.0;
      reserve_source = r.1;
      peak_worker_mib = p.0;
      peak_source = p.1;
      max_workers_formula = formula;
      worker_cap = at_least_one q.worker_cap;
      backend_max_parallel = at_least_one q.backend_max_parallel;
      effective_workers =
          min (min formula (at_least_one q.worker_cap)) (at_least_one q.backend_max_parallel);
      low_vram_warning = ltb_ℤ headroom (pos p.0);
      admissions_paused = false;
    }

-- The budget once the memory is looked at.
unfoldable pub budget_for : Request → ℕ × PeakSource → Option ℕ → Option ℕ → GpuBudget
unfolding single_worker card_budget
budget_for q p none free = single_worker q p
budget_for q p (some total) none = single_worker q p
budget_for q p (some total) (some free) =
    if is_cpu q.vendor then single_worker q p else card_budget q p total free

unfoldable pub compute_budget : Request → Result GpuBudget
unfolding peak budget_for
compute_budget q = do p ← peak q; ok (budget_for q p q.memory_total_mib q.memory_free_mib)

unfoldable pub admits_worker : (memory_free_mib reserve_mib peak_worker_mib : ℕ) → Bool
admits_worker memory_free_mib reserve_mib peak_worker_mib =
    if leb peak_worker_mib 0
    then false
    else if ltb_ℤ (sub_ℕ memory_free_mib reserve_mib) (pos peak_worker_mib)
    then false
    else true
