-- ===== src/Jobs/Log/History.antt =====
-- Everything that can happen to one job's directory: the operations of the log, each cut short
-- between its two writes or not, and restarts of the engine, in any order.
use praelector.Base.{◌≤◌, ◌≡◌, Option, none, some, String, List, [], ◌∷◌, length, if◌then◌else◌}
use praelector.Domain.{JobState}
use praelector.Domain.Errors.{Result, ok, err}
use praelector.Domain.Json.{Fields}
use praelector.Jobs.State.{JobEvent, job_event_value, transition, recover}
use praelector.Jobs.Record.{JobRecord, to_json, from_json}
use praelector.Jobs.Log.{
  Stamp, Files, is_running, applied, append_state, apply, noted, append_progress, note_progress,
  caught_up, recovered, open_job,
}
use praelector.Jobs.Log.Numbered.{Numbered}

-- The directory, and the record that the running engine holds of it.
pub record World : Type 0 where
  pub files : Files
  pub memory : Option JobRecord

abbrev pub after : Files × Result JobRecord → World → World
after (f, ok r) w = record { files = f; memory = some r }
after (f, err e) w = record { files = f; memory = w.memory }

abbrev pub dead : Files → World
dead f = record { files = f; memory = none }

-- What is on disk if the process dies after the event line and before `job.json`.
unfoldable pub torn_apply_to : Stamp → JobEvent → JobRecord → Files → Result JobState → Files
torn_apply_to when e r f (err x) = f
torn_apply_to when e r f (ok nxt) = append_state when (job_event_value e) (applied when r nxt) f

unfoldable pub torn_apply : Stamp → JobEvent → JobRecord → Files → Files
unfolding torn_apply_to
torn_apply when e r f = torn_apply_to when e r f (transition r.state e r.kind)

unfoldable pub torn_note : Stamp → (cursor counts metrics : Fields) → JobRecord → Files → Files
torn_note when cursor counts metrics r f =
    if is_running r.state
    then append_progress when cursor counts (noted when cursor counts metrics r) f
    else f

unfoldable pub torn_recovery : Stamp → JobState × Option String → JobRecord → Files → Files
torn_recovery when (state, none) r f = f
torn_recovery when (state, some reason) r f =
    append_state when "crash_recovery" (recovered when reason state r) f

unfoldable pub torn_loaded : Stamp → Result JobRecord → Files → Files
unfolding torn_recovery
torn_loaded when (err e) f = f
torn_loaded when (ok loaded) f =
    let r = caught_up f loaded in torn_recovery when (recover r.state) r f

unfoldable pub torn_stored : Stamp → Option Fields → Files → Files
unfolding torn_loaded
torn_stored when none f = f
torn_stored when (some payload) f = torn_loaded when (from_json payload) f

unfoldable pub torn_open : Stamp → Files → Files
unfolding torn_stored
torn_open when f = torn_stored when f.job f

pub data Action : Type 0 where
  applies applies_torn : Stamp → JobEvent → Action
  notes notes_torn : Stamp → (cursor counts metrics : Fields) → Action
  opens opens_torn : Stamp → Action
  dies : Action

-- What the engine does with the record that it holds; without one these are not called.
unfoldable pub perform_on : Action → Option JobRecord → World → World
perform_on (applies when e) (some r) w = after (apply when r e w.files) w
perform_on (applies_torn when e) (some r) w = dead (torn_apply when e r w.files)
perform_on (notes when c n m) (some r) w = after (note_progress when c n m r w.files) w
perform_on (notes_torn when c n m) (some r) w = dead (torn_note when c n m r w.files)
perform_on (opens when) memory w = after (open_job when w.files) w
perform_on (opens_torn when) memory w = dead (torn_open when w.files)
perform_on dies memory w = dead w.files
perform_on a none w = w

unfoldable pub perform : Action → World → World
unfolding perform_on
perform a w = perform_on a w.memory w

unfoldable pub perform_all : List Action → World → World
perform_all [] w = w
perform_all (a ∷ as') w = perform_all as' (perform a w)

-- `job.json` holds the record `s`, and the log is gapless and not behind it.
pub record OnDisk (s : JobRecord) (f : Files) : Type 0 where
  pub stored : f.job ≡ some (to_json s)
  pub numbered : Numbered 0 f.events
  pub not_ahead : s.last_seq ≤ length f.events

abbrev pub InMemory : Option JobRecord → Files → Type 0
InMemory none f = Unit
InMemory (some r) f = (f.job ≡ some (to_json r)) × (r.last_seq ≡ length f.events)

-- The directory is well formed, and a record in memory agrees with both files.
abbrev pub IsGapless : World → Type 0
IsGapless w = (s : JobRecord) × OnDisk s w.files × InMemory w.memory w.files
