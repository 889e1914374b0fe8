-- ===== src/Jobs/State.antt =====
-- jobs/state.py: the job state machine.
pub mod Edges
pub mod Reach
use praelector.Base.{Option, none, some, String, ◌∷◌, []}
use praelector.Domain.{JobKind, JobState, JobStage, job_kind_value, job_state_value}
use praelector.Domain.Errors.{
  Failure, app_error, job_invalid_transition, DetailValue, Result, ok, err,
}

pub data JobEvent : Type 0 where
  start cancel pause resume stop rendered fail muxed ffmpeg_error : JobEvent

unfoldable pub job_event_value : JobEvent → String
job_event_value start = "start"
job_event_value cancel = "cancel"
job_event_value pause = "pause"
job_event_value resume = "resume"
job_event_value stop = "stop"
job_event_value rendered = "rendered"
job_event_value fail = "fail"
job_event_value muxed = "muxed"
job_event_value ffmpeg_error = "ffmpeg_error"

-- `_EDGES.get((state, event))`
unfoldable pub edge : JobState → JobEvent → Option JobState
edge JobState.queued start = some JobState.running
edge JobState.queued cancel = some JobState.cancelled
edge JobState.running pause = some JobState.paused
edge JobState.paused resume = some JobState.running
edge JobState.running stop = some JobState.cancelled
edge JobState.paused stop = some JobState.cancelled
edge JobState.muxing stop = some JobState.cancelled
edge JobState.running fail = some JobState.failed
edge JobState.paused fail = some JobState.failed
edge JobState.muxing muxed = some JobState.done
edge JobState.muxing ffmpeg_error = some JobState.failed
edge _ _ = none

abbrev pub invalid_transition : JobState → JobEvent → JobKind → Failure
invalid_transition state event kind = app_error job_invalid_transition (
    ("state", DetailValue.text (job_state_value state))
    ∷ ("event", DetailValue.text (job_event_value event))
    ∷ ("kind", DetailValue.text (job_kind_value kind))
    ∷ [])

unfoldable pub transition : JobState → JobEvent → JobKind → Result JobState
unfolding edge
transition JobState.running rendered JobKind.prep = ok JobState.done
transition JobState.running rendered JobKind.«record» = ok JobState.muxing
transition state event kind = elim (edge state event) [
  | some nxt ↦ ok nxt
  | none ↦ err (invalid_transition state event kind)
]

unfoldable pub recover : JobState → JobState × Option String
recover JobState.running = (JobState.paused, some "crash_recovery")
recover JobState.muxing = (JobState.paused, some "crash_recovery")
recover state = (state, none)

unfoldable pub stage_for : JobState → JobKind → JobStage
stage_for JobState.queued kind = JobStage.plan
stage_for JobState.muxing kind = JobStage.mux
stage_for JobState.done JobKind.«record» = JobStage.mux
stage_for state kind = JobStage.synth
