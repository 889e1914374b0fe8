-- ===== src/Jobs/Manager.antt =====
-- `JobManager` of jobs/manager.py: the one job of the engine, in front of its log. `render`, which
-- runs a pass of the fake voice, is not modelled.
pub mod Refusals
pub mod Slot
pub mod Single
use praelector.Base.{
  Bool, true, false, not, ◌&&◌, ◌||◌, Option, none, some, String, str_eq, List, [], ◌∷◌,
  if◌then◌else◌, keep, some_of,
}
use praelector.Domain.{JobState, job_state_value, is_active}
use praelector.Domain.Errors.{
  Failure, app_error, job_not_found, job_already_active, job_invalid_transition, DetailValue,
  Result, ok, err,
}
use praelector.Jobs.State.{JobEvent}
use praelector.Jobs.Record.{JobRecord}
use praelector.Jobs.Log.{Stamp, Files, is_queued, create, apply}

-- A path, as its parts.
abbrev pub Parts : Type 0
Parts = List String

-- The slot (`_log` as the name of its directory), the job directories, and the files of audio.
pub record Manager : Type 0 where
  pub log : Option String
  pub slot : Option JobRecord
  pub dirs : String → Files
  pub audio : List Parts

-- `path` is `dir`, or lies under it.
abbrev pub is_under : Parts → Parts → Bool
is_under [] path = true
is_under (d ∷ ds) [] = false
is_under (d ∷ ds) (p ∷ ps) = str_eq d p && is_under ds ps

abbrev pub same_path : Parts → Parts → Bool
same_path [] [] = true
same_path (d ∷ ds) (p ∷ ps) = str_eq d p && same_path ds ps
same_path _ _ = false

-- `dir.exists()`: some file is there.
abbrev pub exists_dir : Parts → List Parts → Bool
exists_dir dir files = some_of (is_under dir) files

-- `part.unlink(missing_ok=True)`
abbrev pub unlink : Parts → List Parts → List Parts
unlink part files = keep (λ p. not (same_path part p)) files

-- `shutil.rmtree(dir)`
abbrev pub rmtree : Parts → List Parts → List Parts
rmtree dir files = keep (λ p. not (is_under dir p)) files

-- The directories with one of them replaced.
abbrev pub with_dir : String → Files → (String → Files) → String → Files
with_dir d f dirs e = if str_eq d e then f else dirs e

abbrev pub not_found : Failure
not_found = app_error job_not_found []

abbrev pub already_active : JobRecord → String → Failure
already_active current incoming =
    app_error job_already_active
      (("id", DetailValue.text current.id) ∷ ("incoming", DetailValue.text incoming) ∷ [])

abbrev pub cannot_reset : JobState → Failure
cannot_reset state =
    app_error job_invalid_transition (
      ("state", DetailValue.text (job_state_value state))
      ∷ ("event", DetailValue.text "reset")
      ∷ [])

-- `_reject_if_busy`, as the job that blocks
unfoldable pub blocking : Option JobRecord → Option JobRecord
blocking none = none
blocking (some current) = if is_active current.state then some current else none

unfoldable pub adopt_unless :
    Option JobRecord → String → JobRecord → Manager → Manager × Result JobRecord
adopt_unless (some current) d r m = (m, err (already_active current r.id))
adopt_unless none d r m = (
  record {
    log = some d;
    slot = some (create r (m.dirs d)).1;
    dirs = with_dir d (create r (m.dirs d)).0 m.dirs;
    audio = m.audio;
  },
  ok (create r (m.dirs d)).1,
)

-- `adopt`; the log is given by its directory.
unfoldable pub adopt : String → JobRecord → Manager → Manager × Result JobRecord
unfolding adopt_unless blocking
adopt d r m = adopt_unless (blocking m.slot) d r m

-- The slot after `log.apply` in the directory `d`; an exception leaves it.
unfoldable pub stored : String → Manager → Files × Result JobRecord → Manager × Result JobRecord
stored d m (f, ok u) = (record m { slot = some u; dirs = with_dir d f m.dirs }, ok u)
stored d m (f, err e) = (record m { dirs = with_dir d f m.dirs }, err e)

-- `_apply`, its `_require` first
unfoldable pub apply_event :
    Stamp → JobEvent → Option JobRecord → Option String → Manager → Manager × Result JobRecord
unfolding stored
apply_event when e none l m = (m, err not_found)
apply_event when e (some r) none m = (m, err not_found)
apply_event when e (some r) (some d) m = stored d m (apply when r e (m.dirs d))

unfoldable pub start : Stamp → Manager → Manager × Result JobRecord
unfolding apply_event
start when m = apply_event when JobEvent.start m.slot m.log m

unfoldable pub resume : Stamp → Manager → Manager × Result JobRecord
unfolding apply_event
resume when m = apply_event when JobEvent.resume m.slot m.log m

unfoldable pub unlink_all : List Parts → List Parts → List Parts
unlink_all [] files = files
unlink_all (part ∷ parts) files = unlink_all parts (unlink part files)

-- The rest of `pause`.
unfoldable pub delete_parts : List Parts → Manager × Result JobRecord → Manager × Result JobRecord
unfolding unlink_all
delete_parts parts (m, ok u) = (record m { audio = unlink_all parts m.audio }, ok u)
delete_parts parts (m, err e) = (m, err e)

unfoldable pub pause : Stamp → List Parts → Manager → Manager × Result JobRecord
unfolding apply_event delete_parts
pause when parts m = delete_parts parts (apply_event when JobEvent.pause m.slot m.log m)

-- The event that `stop` chooses.
unfoldable pub stop_event : JobState → JobEvent
unfolding is_queued
stop_event state = if is_queued state then JobEvent.cancel else JobEvent.stop

unfoldable pub stop_slot : Stamp → Option JobRecord → Manager → Manager × Result JobRecord
unfolding apply_event stop_event
stop_slot when none m = (m, err not_found)
stop_slot when (some r) m = apply_event when (stop_event r.state) (some r) m.log m

unfoldable pub stop : Stamp → Manager → Manager × Result JobRecord
unfolding stop_slot
stop when m = stop_slot when m.slot m

-- What `reset` leaves of the audio.
unfoldable pub audio_after : Bool → Option Parts → List Parts → List Parts
audio_after delete none files = files
audio_after delete (some dir) files =
    if delete && exists_dir dir files then rmtree dir files else files

unfoldable pub reset_slot :
    Bool → Option Parts → Option JobRecord → Manager → Manager × Result (Unit {0})
unfolding audio_after
reset_slot delete dir none m = (m, err not_found)
reset_slot delete dir (some r) m = if is_active r.state then (m, err (cannot_reset r.state)) else (
  record { log = none; slot = none; dirs = m.dirs; audio = audio_after delete dir m.audio },
  ok tt,
)

unfoldable pub reset : Bool → Option Parts → Manager → Manager × Result (Unit {0})
unfolding reset_slot
reset delete dir m = reset_slot delete dir m.slot m
