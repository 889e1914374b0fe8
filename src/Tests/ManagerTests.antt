-- ===== src/Tests/ManagerTests.antt =====
-- The manager at concrete inputs.
use praelector.Base.{◌≡◌, refl, true, false, none, some, String, str_eq, List, [], ◌∷◌, ◌++◌}
use praelector.Domain.{JobState, is_active}
use praelector.Domain.Errors.{ok}
use praelector.Jobs.Log.{Event, create}
use praelector.Jobs.Record.{JobRecord, to_json}
use praelector.Jobs.Manager.{Manager, Parts, adopt, stop, reset}
use praelector.Jobs.Manager.Refusals.{Adopted, Reset, adopt_outcome, stop-cancels, reset_outcome}
use praelector.Jobs.Manager.Slot.{
  adopts, starts, stops, resets, execute, Trace, idle, call, IsSingle,
}
use praelector.Jobs.Manager.Single.{Trace-IsSingle}
use praelector.Tests.Samples.{noon, job, no_files}

abbrev idle_manager : Manager
idle_manager = record {
  log = none;
  slot = none;
  dirs = λ d. no_files;
  audio = ("chunks" ∷ "a.part" ∷ []) ∷ [];
}

abbrev busy_manager : Manager
busy_manager = (adopt "j1" (job JobState.queued) idle_manager).0

adopt_outcome_example :
    Adopted "j2" (job JobState.queued) busy_manager (adopt "j2" (job JobState.queued) busy_manager)
adopt_outcome_example = adopt_outcome "j2" (job JobState.queued) busy_manager

reset_outcome_example :
    Reset true (some ("chunks" ∷ [])) busy_manager (reset true (some ("chunks" ∷ [])) busy_manager)
reset_outcome_example = reset_outcome true (some ("chunks" ∷ [])) busy_manager

abbrev running_manager : Manager
running_manager = execute (starts noon) (execute (adopts "j1" (job JobState.queued)) idle_manager)

abbrev partials : List Parts
partials = ("chunks" ∷ "a.part" ∷ []) ∷ []

stop-cancels_example :
    (n : Manager) × (u : JobRecord) × (stop noon busy_manager ≡ (n, ok u))
    × (n.slot ≡ some u)
    × (u.state ≡ JobState.cancelled)
    × (u.finished_at ≡ some "2026-01-01 12:00:00")
    × ((n.dirs "j1").job ≡ some (to_json u))
    × ((line : Event) × ((n.dirs "j1").events ≡ (busy_manager.dirs "j1").events ++ line ∷ [])
        × (line.seq ≡ u.last_seq))
    × ((e : String) → str_eq "j1" e ≡ false → n.dirs e ≡ busy_manager.dirs e)
    × (n.audio ≡ busy_manager.audio)
unfolding adopt is_active create
stop-cancels_example = stop-cancels noon "j1" (job JobState.queued) busy_manager refl refl refl

abbrev final_manager : Manager
final_manager = execute (resets false none) (execute (stops noon) running_manager)

day : Trace idle_manager final_manager
day =
    call (adopts "j1" (job JobState.queued)) (refl, refl)
      (call (starts noon) tt (call (stops noon) tt (call (resets false none) tt idle)))

Trace-IsSingle_example : IsSingle final_manager
Trace-IsSingle_example = Trace-IsSingle day (tt, λ d r j a. cc)
