-- ===== src/Tests/Samples.antt =====
-- Records, readings and plans that the tests run on.
use praelector.Base.{ℕ, true, false, none, some, String, List, [], ◌∷◌}
use praelector.Base.Text.{codes}
use praelector.Domain.{JobKind, JobState}
use praelector.Domain.Json.{nil, end}
use praelector.Gpu.Monitor.{MonitorTick}
use praelector.Jobs.Chunker.{SpokenRun, PlanItem}
use praelector.Jobs.Log.{Stamp, Files}
use praelector.Jobs.Record.{JobRecord}

abbrev pub noon : Stamp
noon = record { db_time = "2026-01-01 12:00:00"; event_ts = "2026-01-01T12:00:00Z" }

abbrev pub job : JobState → JobRecord
job state = record {
  id = "j1";
  project_id = "p1";
  kind = JobKind.«record»;
  state = state;
  revision = 4;
  created_at = "2026-01-01 11:00:00";
  updated_at = "2026-01-01 11:00:00";
  paused_reason = none;
  started_at = none;
  finished_at = none;
  options = end;
  voice_assignment = end;
  warnings = nil;
  counts = end;
  cursor = end;
  metrics = end;
  last_seq = 0;
  error = none;
}

abbrev pub no_files : Files
no_files = record { job = none; events = [] }

abbrev pub item : ℕ → String → String → PlanItem
item ordinal kind spoken = record {
  ordinal = ordinal;
  chapter_id = "c1";
  voice_slot = "narrator";
  spoken_text = codes spoken;
  kind = kind;
  render_key = "";
}

abbrev pub three_items : List PlanItem
three_items = item 0 "tts" "Dzień dobry." ∷ item 1 "silence" "" ∷ item 2 "tts" "Cześć." ∷ []

abbrev pub run_of : String → SpokenRun
run_of text = record {
  chapter_id = "c1";
  voice_slot = "narrator";
  kind = "narration";
  text = codes text;
  voice_profile_id = "v1";
  voice_profile_content_hash = "h1";
}

abbrev pub open_tick : MonitorTick
open_tick = record {
  sampled = true;
  memory_total_mib = some 24576;
  memory_free_mib = some 20000;
  memory_used_mib = none;
  admissions_paused = false;
  paused_now = false;
  resumed_now = false;
  admits = true;
}
