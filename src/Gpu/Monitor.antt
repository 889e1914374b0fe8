-- ===== src/Gpu/Monitor.antt =====
-- gpu/monitor.py: the sampler of a card's memory, and the pause on admissions. Times are readings of
-- a monotonic clock, in any unit.
pub mod Pause
use praelector.Base.{
  ℕ, ◌+◌, ◌-◌, Bool, true, false, ◌&&◌, not, Option, none, some, ltb, leb, if◌then◌else◌,
}
use praelector.Base.Int.{ℤ, sub_ℕ}
use praelector.Gpu.Budget.{admits_worker}

pub record VramReading : Type 0 where
  pub memory_total_mib : Option ℕ
  pub memory_free_mib : Option ℕ

pub record MonitorTick : Type 0 where
  pub sampled : Bool
  pub memory_total_mib : Option ℕ
  pub memory_free_mib : Option ℕ
  pub memory_used_mib : Option ℤ
  pub admissions_paused : Bool
  pub paused_now : Bool
  pub resumed_now : Bool
  pub admits : Bool

pub record VramMonitor : Type 0 where
  pub reserve_mib : ℕ
  pub peak_worker_mib : ℕ
  pub interval : ℕ
  pub resume_samples : ℕ
  pub last_at : Option ℕ
  pub last : Option MonitorTick
  pub paused : Bool
  pub clear_streak : ℕ

-- `free is not None and free < self._reserve_mib`
abbrev pub is_below : ℕ → Option ℕ → Bool
is_below reserve none = false
is_below reserve (some free) = ltb free reserve

abbrev pub used : Option ℕ → Option ℕ → Option ℤ
used (some total) (some free) = some (sub_ℕ total free)
used _ _ = none

-- `free is not None and admits_worker(…)`
abbrev pub fits : VramMonitor → Option ℕ → Bool
fits m none = false
fits m (some free) = admits_worker free m.reserve_mib m.peak_worker_mib

-- The pause, the streak of clear samples, and whether this sample paused or resumed.
pub record Verdict : Type 0 where
  pub paused : Bool
  pub clear_streak : ℕ
  pub paused_now : Bool
  pub resumed_now : Bool

unfoldable pub judge : (below paused : Bool) → (clear_streak resume_samples : ℕ) → Verdict
judge true paused streak needed = record {
  paused = true;
  clear_streak = 0;
  paused_now = not paused;
  resumed_now = false;
}
judge false true streak needed =
    if leb needed (streak + 1)
    then record { paused = false; clear_streak = 0; paused_now = false; resumed_now = true }
    else record {
      paused = true;
      clear_streak = streak + 1;
      paused_now = false;
      resumed_now = false;
    }
judge false false streak needed = record {
  paused = false;
  clear_streak = 0;
  paused_now = false;
  resumed_now = false;
}

-- `_decide`: the tick, and the pause and streak that the monitor keeps.
unfoldable pub decide_tick : VramMonitor → VramReading → MonitorTick × VramMonitor
unfolding judge
decide_tick m reading =
    let v =
      judge (is_below m.reserve_mib reading.memory_free_mib) m.paused m.clear_streak
        m.resume_samples in
    (
      record {
        sampled = true;
        memory_total_mib = reading.memory_total_mib;
        memory_free_mib = reading.memory_free_mib;
        memory_used_mib = used reading.memory_total_mib reading.memory_free_mib;
        admissions_paused = v.paused;
        paused_now = v.paused_now;
        resumed_now = v.resumed_now;
        admits = fits m reading.memory_free_mib && not v.paused;
      },
      record m { paused = v.paused; clear_streak = v.clear_streak },
    )

-- The tick of a poll that comes before the interval is over.
unfoldable pub repeat_tick : VramMonitor → MonitorTick → MonitorTick
repeat_tick m last = record last {
  sampled = false;
  admissions_paused = m.paused;
  paused_now = false;
  resumed_now = false;
  admits = last.admits && not m.paused;
}

unfoldable pub sample : VramMonitor → ℕ → VramReading → MonitorTick × VramMonitor
unfolding decide_tick
sample m moment reading =
    let (tick, m') = decide_tick m reading in
    (tick, record m' { last_at = some moment; last = some tick })

unfoldable pub poll_after :
    VramMonitor → Option MonitorTick → Option ℕ → ℕ → VramReading → MonitorTick × VramMonitor
unfolding sample repeat_tick
poll_after m (some last) (some last_at) moment reading =
    if ltb moment (last_at + m.interval) then (repeat_tick m last, m) else sample m moment reading
poll_after m (some last) none moment reading = sample m moment reading
poll_after m none last_at moment reading = sample m moment reading

-- `poll` at a given moment; `reading` is what the probe returns if it is asked.
unfoldable pub poll : VramMonitor → ℕ → VramReading → MonitorTick × VramMonitor
unfolding poll_after
poll m moment reading = poll_after m m.last m.last_at moment reading
