-- ===== src/Tests/CatalogTests.antt =====
-- The catalog of jobs at concrete inputs.
use praelector.Base.{◌≤◌, none, some, [], ◌∷◌, arith}
use praelector.Domain.{JobKind, JobState}
use praelector.Domain.Json.{end}
use praelector.Jobs.Catalog.{JobsDir, readable, queued_record, create_queued}
use praelector.Jobs.Catalog.Newest.{
  count, live_jobs, Outcome, create_queued-Outcome, create_queued-single,
}
use praelector.Tests.Samples.{job}

abbrev jobs_dir : JobsDir
jobs_dir =
    ("j0", some (job JobState.done)) ∷ ("tmp", none) ∷ ("j1", some (job JobState.paused)) ∷ []

create_queued-Outcome_example :
    Outcome jobs_dir "j2" "p1"
      (queued_record "j2" "p1" JobKind.«record» 4 end "2026-01-01 12:00:00")
      (create_queued jobs_dir "j2" "p1" JobKind.«record» 4 end "2026-01-01 12:00:00")
create_queued-Outcome_example =
    create_queued-Outcome jobs_dir "j2" "p1" JobKind.«record» 4 end "2026-01-01 12:00:00"

create_queued-single_example :
    live_jobs "p1" (create_queued [] "j2" "p1" JobKind.«record» 4 end "2026-01-01 12:00:00").1 ≤ 1
unfolding readable count
create_queued-single_example =
    create_queued-single [] "j2" "p1" JobKind.«record» 4 end "2026-01-01 12:00:00"
      (λ p. omega arith) "p1"
