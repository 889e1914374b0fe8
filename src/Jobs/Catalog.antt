-- ===== src/Jobs/Catalog.antt =====
-- jobs/catalog.py and jobs/create.py: reading job records without changing them, and queueing a job.
-- The jobs directory is the list of its children in the order that the file system lists them: the
-- name, and what `job.json` reads as, `none` for a missing or unreadable one.
pub mod Newest
use praelector.Base.{
  ℕ, ◌≡◌, Bool, true, false, ◌&&◌, Option, none, some, String, List, [], ◌∷◌, str_eq, if◌then◌else◌,
}
use praelector.Domain.{JobKind, JobState, is_active}
use praelector.Domain.Errors.{
  app_error, job_not_found, job_already_active, DetailValue, Failure, Result, ok, err, ◌>>=◌,
}
use praelector.Domain.Json.{Fields, Items, nil, end}
use praelector.Jobs.Record.{JobRecord}
use praelector.Base.Text.{text_leb}

abbrev pub JobsDir : Type 0
JobsDir = List (String × Option JobRecord)

-- The records that can be read, in the directory's order.
unfoldable pub readable : JobsDir → List JobRecord
readable [] = []
readable ((name, none) ∷ rest) = readable rest
readable ((name, some r) ∷ rest) = r ∷ readable rest

-- `sort(key=created_at, reverse=True)`: stable, newest first
unfoldable pub insert_newest : JobRecord → List JobRecord → List JobRecord
insert_newest r [] = r ∷ []
insert_newest r (s ∷ rest) =
    let further = insert_newest r rest in
    if text_leb s.created_at r.created_at then r ∷ s ∷ rest else s ∷ further

unfoldable pub sort_newest : List JobRecord → List JobRecord
unfolding insert_newest
sort_newest [] = []
sort_newest (r ∷ rest) = insert_newest r (sort_newest rest)

unfoldable pub list_jobs : JobsDir → List JobRecord
unfolding readable sort_newest
list_jobs dir = sort_newest (readable dir)

-- `_read(jobs_dir / job_id / "job.json")`
unfoldable pub read_job : String → JobsDir → Option JobRecord
read_job job_id [] = none
read_job job_id ((name, r) ∷ rest) =
    let further = read_job job_id rest in if str_eq name job_id then r else further

abbrev pub not_found : String → Failure
not_found job_id = app_error job_not_found (("job_id", DetailValue.text job_id) ∷ [])

unfoldable pub load_job : JobsDir → String → Result JobRecord
unfolding read_job
load_job dir job_id = elim (read_job job_id dir) [
  | none ↦ err (not_found job_id)
  | some r ↦ if str_eq r.id job_id then ok r else err (not_found job_id)
]

-- The loop of `create_queued` over the project's other jobs.
unfoldable pub first_live : String → List JobRecord → Option JobRecord
first_live project_id [] = none
first_live project_id (r ∷ rest) =
    let further = first_live project_id rest in
    if str_eq r.project_id project_id && is_active r.state then some r else further

unfoldable pub queued_record : (id project_id : String) → JobKind → ℕ → Fields → String → JobRecord
queued_record id project_id kind revision options stamp = record {
  id = id;
  project_id = project_id;
  kind = kind;
  state = JobState.queued;
  revision = revision;
  created_at = stamp;
  updated_at = stamp;
  paused_reason = none;
  started_at = none;
  finished_at = none;
  options = options;
  voice_assignment = end;
  warnings = nil;
  counts = end;
  cursor = end;
  metrics = end;
  last_seq = 0;
  error = none;
}

-- `new_id` and the clock give `id` and `stamp`. A new job is a new child of the directory.
unfoldable pub create_queued :
    JobsDir → (id project_id : String) → JobKind → ℕ → Fields → String → Result JobRecord × JobsDir
unfolding first_live queued_record
create_queued dir id project_id kind revision options stamp =
    elim (first_live project_id (list_jobs dir)) [
      | some r ↦ (err (app_error job_already_active (("id", DetailValue.text r.id) ∷ [])), dir)
      | none ↦
          let r = queued_record id project_id kind revision options stamp in
          (ok r, (id, some r) ∷ dir)
    ]
