-- ===== src/Tests/LogTests.antt =====
-- The log at concrete inputs.
use praelector.Base.{ℕ, ◌≡◌, refl, ◌⊎◌, false, none, some, List, [], ◌∷◌}
use praelector.Domain.{
  JobState, EventType, job_kind_of, job_kind_value, job_state_of, job_state_value,
}
use praelector.Domain.Errors.{ok, err}
use praelector.Domain.Json.{end}
use praelector.Jobs.State.{JobEvent, transition, invalid_transition}
use praelector.Jobs.Record.{JobRecord, to_json, from_json}
use praelector.Jobs.Log.{Files, Event, open_stored, open_loaded, open_with, create, apply, open_job}
use praelector.Jobs.Log.Gapless.{perform_all-IsGapless, create-IsGapless}
use praelector.Jobs.Log.History.{
  World, Action, applies, applies_torn, notes_torn, opens, opens_torn, dies, perform_all, IsGapless,
}
use praelector.Jobs.Log.Outcomes.{
  is_in_flight, IsApplied, apply_outcome, open_job-settled, open_job-resumable,
}
use praelector.Tests.Samples.{noon, job, no_files}

abbrev created : World
created = record {
  files = (create (job JobState.queued) no_files).0;
  memory = some (create (job JobState.queued) no_files).1;
}

abbrev rough_day : List Action
rough_day =
    applies noon JobEvent.start
    ∷ notes_torn noon end end end
    ∷ opens_torn noon
    ∷ opens noon
    ∷ applies_torn noon JobEvent.resume
    ∷ opens noon
    ∷ dies
    ∷ []

perform_all-IsGapless_example : IsGapless (perform_all rough_day created)
perform_all-IsGapless_example =
    perform_all-IsGapless rough_day created (create-IsGapless (job JobState.queued) refl)

abbrev files_of : JobState → Files
files_of state = record { job = some (to_json (job state)); events = [] }

apply_outcome_example :
    (apply noon (job JobState.queued) JobEvent.start no_files ≡ (
      no_files,
      err (invalid_transition JobState.queued JobEvent.start (job JobState.queued).kind),
    ))
    ⊎ ((u : JobRecord) × (g : Files) × (apply noon (job JobState.queued) JobEvent.start no_files
          ≡ (g, ok u))
        × IsApplied noon (job JobState.queued) u JobEvent.start no_files g)
apply_outcome_example = apply_outcome noon (job JobState.queued) JobEvent.start no_files

open_job-resumable_example :
    (u : JobRecord) × (g : Files) × (open_job noon (files_of JobState.running) ≡ (g, ok u))
    × (u.state ≡ JobState.paused)
    × (u.paused_reason ≡ some "crash_recovery")
    × (u.cursor ≡ end)
    × (transition u.state JobEvent.resume u.kind ≡ ok JobState.running)
open_job-resumable_example =
    open_job-resumable noon (job JobState.running) (files_of JobState.running) refl
      (unfold is_in_flight in refl)

open_job-settled_example : is_in_flight JobState.paused ≡ false
unfolding open_job open_stored open_loaded open_with from_json to_json job_kind_of job_kind_value
    job_state_of job_state_value
open_job-settled_example =
    open_job-settled noon (job JobState.paused) (files_of JobState.paused)
      (files_of JobState.paused) refl

abbrev line : ℕ → Event
line seq = record {
  v = 1;
  seq = seq;
  ts = "2026-01-01T12:00:00Z";
  type = EventType.job_state;
  job_id = "j1";
  payload = end;
}

abbrev three_lines : Files
three_lines = record { job = none; events = line 1 ∷ line 2 ∷ line 3 ∷ [] }
