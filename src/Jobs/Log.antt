-- ===== src/Jobs/Log.antt =====
-- `JobLog` of jobs/checkpoint.py: `job.json` beside an append-only `events.jsonl`. An event line is
-- written and flushed first, and `job.json` is replaced as a whole after it.
pub mod Numbered
pub mod History
pub mod Writes
pub mod Opening
pub mod Torn
pub mod Gapless
pub mod Outcomes
use praelector.Base.{
  ℕ, ◌+◌, Bool, true, false, ◌&&◌, Option, none, some, String, List, [], ◌∷◌, ◌++◌, ltb, max,
  if◌then◌else◌, keep,
}
use praelector.Domain.{JobState, EventType, job_state_value, job_stage_value, is_terminal}
use praelector.Domain.Errors.{
  app_error, job_invalid_transition, DetailValue, os_error, Failure, Result, ok, err, ◌>>=◌,
}
use praelector.Domain.Json.{Json, int, str, obj, Fields, end, field, item, as_int, optional_text}
use praelector.Jobs.State.{JobEvent, job_event_value, transition, recover, stage_for}
use praelector.Jobs.Record.{JobRecord, to_json, from_json, schema_version}

-- One reading of the clock, in the two formats that the log prints (`to_db_time`, `_event_ts`).
pub record Stamp : Type 0 where
  pub db_time : String
  pub event_ts : String

-- One line of `events.jsonl`.
pub record Event : Type 0 where
  pub v : ℕ
  pub seq : ℕ
  pub ts : String
  pub type : EventType
  pub job_id : String
  pub payload : Fields

-- The directory of one job.
pub record Files : Type 0 where
  pub job : Option Fields
  pub events : List Event

unfoldable pub is_queued : JobState → Bool
is_queued JobState.queued = true
is_queued _ = false

unfoldable pub is_running : JobState → Bool
is_running JobState.running = true
is_running _ = false

unfoldable pub is_paused : JobState → Bool
is_paused JobState.paused = true
is_paused _ = false

-- `write_json_atomic(self.job_path, record.to_json())`
unfoldable pub write_job : JobRecord → Files → Files
write_job r f = record f { job = some (to_json r) }

-- `_append`
unfoldable pub append : JobRecord → EventType → Fields → Stamp → Files → Files
append r type payload when f = record f {
  events =
      f.events
      ++ record {
        v = schema_version;
        seq = r.last_seq;
        ts = when.event_ts;
        type = type;
        job_id = r.id;
        payload = payload;
      }
        ∷ [];
}

unfoldable pub create : JobRecord → Files → Files × JobRecord
create r f = (write_job r f, r)

-- The record that `apply` stores for the state `nxt`.
unfoldable pub applied : Stamp → JobRecord → JobState → JobRecord
unfolding is_queued is_running is_paused
applied when r nxt = record r {
  state = nxt;
  paused_reason = if is_paused nxt then r.paused_reason else none;
  started_at = if is_queued r.state && is_running nxt then some when.db_time else r.started_at;
  finished_at = if is_terminal nxt then some when.db_time else r.finished_at;
  updated_at = when.db_time;
  last_seq = r.last_seq + 1;
}

-- The payload of a `job.state` line.
unfoldable pub state_payload : String → JobRecord → Fields
state_payload event r = field "event" (str event) (
    field "state" (str (job_state_value r.state)) (
      field "stage" (str (job_stage_value (stage_for r.state r.kind)))
        (field "paused_reason" (optional_text r.paused_reason) end)))

unfoldable pub append_state : Stamp → String → JobRecord → Files → Files
append_state when event r f = append r EventType.job_state (state_payload event r) when f

-- The rest of `apply`, once the transition is decided.
unfoldable pub apply_to :
    Stamp → JobRecord → JobEvent → Files → Result JobState → Files × Result JobRecord
apply_to when r event f (err e) = (f, err e)
apply_to when r event f (ok nxt) =
    let updated = applied when r nxt in
    (write_job updated (append_state when (job_event_value event) updated f), ok updated)

unfoldable pub apply : Stamp → JobRecord → JobEvent → Files → Files × Result JobRecord
unfolding apply_to
apply when r event f = apply_to when r event f (transition r.state event r.kind)

-- The record that `note_progress` stores.
unfoldable pub noted : Stamp → (cursor counts metrics : Fields) → JobRecord → JobRecord
noted when cursor counts metrics r = record r {
  cursor = cursor;
  counts = counts;
  metrics = metrics;
  updated_at = when.db_time;
  last_seq = r.last_seq + 1;
}

unfoldable pub append_progress : Stamp → (cursor counts : Fields) → JobRecord → Files → Files
append_progress when cursor counts r f =
    append r EventType.job_progress (field "cursor" (obj cursor) (field "counts" (obj counts) end))
      when f

abbrev pub not_running : JobState → Failure
not_running state = app_error job_invalid_transition (
    ("state", DetailValue.text (job_state_value state))
    ∷ ("event", DetailValue.text "progress")
    ∷ [])

unfoldable pub note_progress :
    Stamp → (cursor counts metrics : Fields) → JobRecord → Files → Files × Result JobRecord
unfolding is_running
note_progress when cursor counts metrics r f =
    if is_running r.state
    then (let updated = noted when cursor counts metrics r in
        (write_job updated (append_progress when cursor counts updated f), ok updated))
    else (f, err (not_running r.state))

-- `_last_logged_seq`
abbrev pub max_seq : ℕ → List Event → ℕ
max_seq found [] = found
max_seq found (e ∷ es) = max_seq (max found e.seq) es

abbrev pub last_logged_seq : Files → ℕ
last_logged_seq f = max_seq 0 f.events

-- `events_since`: the events strictly after `seq`
unfoldable pub events_since : ℕ → Files → List Event
events_since seq f = keep (λ e. ltb seq e.seq) f.events

-- The record with `last_seq` caught up to the log.
unfoldable pub caught_up : Files → JobRecord → JobRecord
caught_up f r =
    if ltb r.last_seq (last_logged_seq f) then record r { last_seq = last_logged_seq f } else r

-- The record that crash recovery stores.
unfoldable pub recovered : Stamp → String → JobState → JobRecord → JobRecord
recovered when reason state r = record r {
  state = state;
  paused_reason = some reason;
  updated_at = when.db_time;
  last_seq = r.last_seq + 1;
}

-- `open` once the record is loaded and caught up; `stored` is `int(payload["last_seq"])`, read anew.
unfoldable pub open_with :
    Stamp → JobState × Option String → JobRecord → Result ℕ → Files → Files × Result JobRecord
open_with when (state, none) r stored f = elim stored [
  | err e ↦ (f, err e)
  | ok seq ↦ ((if ltb seq (last_logged_seq f) then write_job r f else f), ok r)
]
open_with when (state, some reason) r stored f =
    let updated = recovered when reason state r in
    (write_job updated (append_state when "crash_recovery" updated f), ok updated)

unfoldable pub open_loaded : Stamp → Fields → Result JobRecord → Files → Files × Result JobRecord
unfolding open_with caught_up recover
open_loaded when payload (err e) f = (f, err e)
open_loaded when payload (ok loaded) f =
    let r = caught_up f loaded in
    open_with when (recover r.state) r (item "last_seq" payload >>= as_int) f

unfoldable pub open_stored : Stamp → Option Fields → Files → Files × Result JobRecord
unfolding open_loaded
open_stored when none f = (f, err os_error)
open_stored when (some payload) f = open_loaded when payload (from_json payload) f

unfoldable pub open_job : Stamp → Files → Files × Result JobRecord
unfolding open_stored
open_job when f = open_stored when f.job f
