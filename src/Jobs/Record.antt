-- ===== src/Jobs/Record.antt =====
-- `JobRecord` of jobs/checkpoint.py: the record that `job.json` holds, written and read back.
use praelector.Base.{ℕ, ◌≡◌, refl, Option, none, some, String, arith}
use praelector.Domain.{
  JobKind, JobState, job_kind_value, job_kind_of, job_state_value, job_state_of, job_stage_value,
}
use praelector.Domain.Codes.{job_kind_of-value, job_state_of-value}
use praelector.Domain.Errors.{Result, ok, value_error, from_option, ◌>>=◌}
use praelector.Domain.Json.{
  int, str, arr, obj, Items, Fields, end, field, get, item, as_text, as_optional_text, as_int,
  as_int_or_zero, as_dict, as_list, as_optional_dict, optional_text, optional_dict,
}
use praelector.Jobs.State.{stage_for}

-- `SCHEMA_VERSION` of praelector/__init__.py
abbrev pub schema_version : ℕ
schema_version = 1

pub record JobRecord : Type 0 where
  pub id : String
  pub project_id : String
  pub kind : JobKind
  pub state : JobState
  pub revision : ℕ
  pub created_at : String
  pub updated_at : String
  pub paused_reason : Option String
  pub started_at : Option String
  pub finished_at : Option String
  pub options : Fields
  pub voice_assignment : Fields
  pub warnings : Items
  pub counts : Fields
  pub cursor : Fields
  pub metrics : Fields
  pub last_seq : ℕ
  pub error : Option Fields

unfoldable pub to_json : JobRecord → Fields
to_json r = field "schema_version" (int schema_version) (
    field "id" (str r.id) (
      field "project_id" (str r.project_id) (
        field "kind" (str (job_kind_value r.kind)) (
          field "state" (str (job_state_value r.state)) (
            field "stage" (str (job_stage_value (stage_for r.state r.kind))) (
              field "paused_reason" (optional_text r.paused_reason) (
                field "created_at" (str r.created_at) (
                  field "started_at" (optional_text r.started_at) (
                    field "updated_at" (str r.updated_at) (
                      field "finished_at" (optional_text r.finished_at) (
                        field "revision" (int r.revision) (
                          field "options" (obj r.options) (
                            field "voice_assignment" (obj r.voice_assignment) (
                              field "warnings" (arr r.warnings) (
                                field "counts" (obj r.counts) (
                                  field "cursor" (obj r.cursor) (
                                    field "metrics" (obj r.metrics) (
                                      field "last_seq" (int r.last_seq) (
                                        field "error" (optional_dict r.error) end)))))))))))))))))))

unfoldable pub from_json : Fields → Result JobRecord
from_json payload = do
  id ← item "id" payload >>= as_text
  project_id ← item "project_id" payload >>= as_text
  kind_text ← item "kind" payload >>= as_text
  kind ← from_option (job_kind_of kind_text) (value_error "JobKind")
  state_text ← item "state" payload >>= as_text
  state ← from_option (job_state_of state_text) (value_error "JobState")
  revision ← item "revision" payload >>= as_int
  created_at ← item "created_at" payload >>= as_text
  updated_at ← item "updated_at" payload >>= as_text
  paused_reason ← as_optional_text (get "paused_reason" payload)
  started_at ← as_optional_text (get "started_at" payload)
  finished_at ← as_optional_text (get "finished_at" payload)
  options ← as_dict (get "options" payload)
  voice_assignment ← as_dict (get "voice_assignment" payload)
  warnings ← as_list (get "warnings" payload)
  counts ← as_dict (get "counts" payload)
  cursor ← as_dict (get "cursor" payload)
  metrics ← as_dict (get "metrics" payload)
  last_seq ← as_int_or_zero (get "last_seq" payload)
  error ← as_optional_dict (get "error" payload)
  ok (record {
    id = id;
    project_id = project_id;
    kind = kind;
    state = state;
    revision = revision;
    created_at = created_at;
    updated_at = updated_at;
    paused_reason = paused_reason;
    started_at = started_at;
    finished_at = finished_at;
    options = options;
    voice_assignment = voice_assignment;
    warnings = warnings;
    counts = counts;
    cursor = cursor;
    metrics = metrics;
    last_seq = last_seq;
    error = error;
  })

optional_text-inverse : (o : Option String) → as_optional_text (optional_text o) ≡ ok o
optional_text-inverse none = refl
optional_text-inverse (some s) = refl

optional_dict-inverse : (o : Option Fields) → as_optional_dict (optional_dict o) ≡ ok o
optional_dict-inverse none = refl
optional_dict-inverse (some s) = refl

int_or_zero : (n : ℕ) → as_int_or_zero (int n) ≡ ok n
int_or_zero n = ground arith

-- A record that is written to `job.json` is read back as it was.
pub from_json-to_json : (r : JobRecord) → from_json (to_json r) ≡ ok r
unfolding from_json to_json
from_json-to_json r =
    rw (job_kind_of-value r.kind, job_state_of-value r.state)
      (rw (optional_text-inverse r.paused_reason, optional_text-inverse r.started_at)
        (rw (
          optional_text-inverse r.finished_at,
          int_or_zero r.last_seq,
          optional_dict-inverse r.error,
        )))
