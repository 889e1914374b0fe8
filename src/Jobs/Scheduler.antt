-- ===== src/Jobs/Scheduler.antt =====
-- jobs/scheduler.py: what of a plan can start now.
pub mod Prefix
use praelector.Base.{ℕ, ◌+◌, Bool, true, false, List, [], ◌∷◌, str_eq, ltb, if◌then◌else◌}
use praelector.Gpu.Monitor.{MonitorTick}
use praelector.Jobs.Admission.{Admission, AdmissionGate, try_acquire}
use praelector.Jobs.Chunker.{PlanItem}

pub data SchedulerAction : Type 0 where
  reuse silence synth : SchedulerAction

pub record Dispatch : Type 0 where
  pub ordinal : ℕ
  pub action : SchedulerAction

pub data OomDecision : Type 0 where
  retry fail : OomDecision

abbrev pub taken :
    ℕ → SchedulerAction → List Dispatch × AdmissionGate → List Dispatch × AdmissionGate
taken ordinal action (rest, g) = (record { ordinal = ordinal; action = action } ∷ rest, g)

-- `gate.try_acquire(tick) != "admit"`
abbrev pub is_admitted : Admission → Bool
is_admitted Admission.admit = true
is_admitted _ = false

module _ (reusable : PlanItem → Bool) (tick : MonitorTick) where
  -- The loop of `dispatch`, over the items that are left; the gate is the object it changes.
  unfoldable pub dispatch : List PlanItem → ℕ → AdmissionGate → List Dispatch × AdmissionGate
  unfolding try_acquire
  dispatch [] cursor g = ([], g)
  dispatch (x ∷ xs) cursor g = elim (ltb x.ordinal cursor) [
    | true ↦ dispatch xs cursor g
    | false ↦ elim (str_eq x.kind "silence") [
      | true ↦ taken x.ordinal SchedulerAction.silence (dispatch xs cursor g)
      | false ↦ elim (reusable x) [
        | true ↦ taken x.ordinal SchedulerAction.reuse (dispatch xs cursor g)
        | false ↦ elim (is_admitted (try_acquire tick g).0) [
          | true ↦ taken x.ordinal SchedulerAction.synth (dispatch xs cursor (try_acquire tick g).1)
          | false ↦ ([], (try_acquire tick g).1)
        ]
      ]
    ]
  ]

unfoldable pub after_oom : ℕ → OomDecision
after_oom attempts = if ltb attempts 1 then OomDecision.retry else OomDecision.fail
