-- ===== src/Jobs/Admission.antt =====
-- jobs/admission.py: how many workers may start.
use praelector.Base.{ℕ, ◌+◌, ◌-◌, ◌||◌, not, ltb, leb, if◌then◌else◌}
use praelector.Base.Int.{ℤ}
use praelector.Gpu.Budget.{at_least_one}
use praelector.Gpu.Monitor.{MonitorTick}

pub data Admission : Type 0 where
  admit wait paused : Admission

pub record AdmissionGate : Type 0 where
  pub slots : ℕ
  pub held : ℕ

-- `AdmissionGate(effective)`: `effective if effective >= 1 else 1`
unfoldable pub gate : ℤ → AdmissionGate
gate effective = record { slots = at_least_one effective; held = 0 }

unfoldable pub try_acquire : MonitorTick → AdmissionGate → Admission × AdmissionGate
try_acquire tick g =
    if tick.admissions_paused
    then (Admission.paused, g)
    else if not tick.admits || leb g.slots g.held
    then (Admission.wait, g)
    else (Admission.admit, record g { held = g.held + 1 })

unfoldable pub release : AdmissionGate → AdmissionGate
release g = if ltb 0 g.held then record g { held = g.held - 1 } else g
