-- ===== src/Domain/Codes.antt =====
-- What the enumerations of domain/enums.py and errors.py promise: texts and members are one to one,
-- every job state is active or terminal and never both, and no failure is reported as a success.
use praelector.Base.{◌≤◌, ◌≡◌, refl, ◌⊎◌, true, not, some, arith}
use praelector.Domain.{
  JobKind, JobState, job_kind_value, job_kind_of, job_state_value, job_state_of, is_terminal,
  is_active,
}
use praelector.Domain.Errors.{ErrorCode, status_for, is_retryable}

pub job_kind_of-value : (k : JobKind) → job_kind_of (job_kind_value k) ≡ some k
unfolding job_kind_of job_kind_value
job_kind_of-value JobKind.prep = refl
job_kind_of-value JobKind.«record» = refl

-- Reading back the text of a job state gives that state.
pub job_state_of-value : (s : JobState) → job_state_of (job_state_value s) ≡ some s
unfolding job_state_of job_state_value
job_state_of-value JobState.queued = refl
job_state_of-value JobState.running = refl
job_state_of-value JobState.paused = refl
job_state_of-value JobState.muxing = refl
job_state_of-value JobState.done = refl
job_state_of-value JobState.failed = refl
job_state_of-value JobState.cancelled = refl

-- A job state is active exactly when it is not terminal.
pub is_active-not-is_terminal : (s : JobState) → is_active s ≡ not (is_terminal s)
unfolding is_active is_terminal
is_active-not-is_terminal JobState.queued = refl
is_active-not-is_terminal _ = refl

-- Every error code has a status from 400 to 504, and a code that is marked as retryable is a rate
-- limit (429) or a server-side failure (500 or more): a client's own mistake is never retried.
pub status_for_bounds :
    (c : ErrorCode)
    → (400 ≤ status_for c)
      × (status_for c ≤ 504)
      × (is_retryable c ≡ true → (status_for c ≡ 429) ⊎ (500 ≤ status_for c))
unfolding status_for is_retryable
status_for_bounds c = ground arith
