-- ===== src/Jobs/Log/Outcomes.antt =====
-- What `apply` and `open` do to a record, on every branch.
use praelector.Base.{
  ℕ, ◌+◌, ◌≡◌, refl, ap, ◌∙◌, subst₂, ◌⊎◌, ◌≢◌, ◌&&◌, Bool-cases, if◌then◌else◌, inl, inr, Option,
  none, some, [], ◌∷◌, ◌++◌, arith, Bool, true, false,
}
use praelector.Domain.{JobKind, JobState, EventType, is_terminal}
use praelector.Domain.Errors.{Result, ok, err, ok-injective, ◌>>=◌}
use praelector.Domain.Json.{Fields, item, as_int}
use praelector.Jobs.State.{JobEvent, job_event_value, transition, recover, invalid_transition}
use praelector.Jobs.Log.Opening.{open_job-stored}
use praelector.Jobs.State.Edges.{transition-error}
use praelector.Jobs.Record.{JobRecord, to_json, from_json}
use praelector.Jobs.Log.{
  Stamp, Files, is_paused, is_queued, is_running, write_job, append, append_state, applied,
  apply_to, apply, caught_up, recovered, open_with, open_loaded, open_stored, open_job,
  state_payload,
}

-- A state in which work was under way.
unfoldable pub is_in_flight : JobState → Bool
is_in_flight JobState.running = true
is_in_flight JobState.muxing = true
is_in_flight _ = false

-- What `apply` promises: the state is the machine's, the number goes up by one, a reason to pause is
-- kept while paused and dropped otherwise, the start is stamped when a queued job runs and the finish
-- when the new state is terminal, the update is stamped, both files are written, and everything else
-- of the record stays.
pub record IsApplied (when : Stamp) (r u : JobRecord) (event : JobEvent) (f g : Files)
    : Type 0 where
  pub legal : transition r.state event r.kind ≡ ok u.state
  pub numbered : u.last_seq ≡ r.last_seq + 1
  pub reason : is_paused u.state ≡ false → u.paused_reason ≡ none
  pub kept_reason : is_paused u.state ≡ true → u.paused_reason ≡ r.paused_reason
  pub started :
      (r.state ≡ JobState.queued) × (u.state ≡ JobState.running) → u.started_at ≡ some when.db_time
  pub not_started :
      (r.state ≢ JobState.queued) ⊎ (u.state ≢ JobState.running) → u.started_at ≡ r.started_at
  pub finished : is_terminal u.state ≡ true → u.finished_at ≡ some when.db_time
  pub unfinished : is_terminal u.state ≡ false → u.finished_at ≡ r.finished_at
  pub same_id : u.id ≡ r.id
  pub same_kind : u.kind ≡ r.kind
  pub same_cursor : u.cursor ≡ r.cursor
  pub rest : u ≡ record r {
    state = u.state;
    paused_reason = u.paused_reason;
    started_at = u.started_at;
    finished_at = u.finished_at;
    updated_at = when.db_time;
    last_seq = u.last_seq;
  }
  pub on_disk : g.job ≡ some (to_json u)
  pub logged :
      g.events
      ≡ f.events
        ++ record {
          v = 1;
          seq = u.last_seq;
          ts = when.event_ts;
          type = EventType.job_state;
          job_id = r.id;
          payload = state_payload (job_event_value event) u;
        }
          ∷ []

queued-only : (s : JobState) → is_queued s ≡ true → s ≡ JobState.queued
unfolding is_queued
queued-only s h = ground arith

running-only : (s : JobState) → is_running s ≡ true → s ≡ JobState.running
unfolding is_running
running-only s h = ground arith

applied-IsApplied :
    (when : Stamp) (r : JobRecord) (event : JobEvent) (f : Files) (nxt : JobState)
    → transition r.state event r.kind ≡ ok nxt
    → IsApplied when r (applied when r nxt) event f (
        write_job
          (applied when r nxt)
          (append_state when (job_event_value event) (applied when r nxt) f))
unfolding applied write_job append_state append is_queued is_running
applied-IsApplied when r event f nxt q = record {
  legal = q;
  numbered = refl;
  reason = λ h. rw h;
  kept_reason = λ h. rw h;
  started = λ (a, b). starts a b;
  not_started = λ h. idles h;
  finished = λ h. rw h;
  unfinished = λ h. rw h;
  same_id = refl;
  same_kind = refl;
  same_cursor = refl;
  rest = refl;
  on_disk = refl;
  logged = refl;
}
  where
    starts :
        r.state ≡ JobState.queued
        → nxt ≡ JobState.running
        → (if is_queued r.state && is_running nxt then some when.db_time else r.started_at)
          ≡ some when.db_time
    starts a b = rw (a, b) refl

    idles :
        (r.state ≢ JobState.queued) ⊎ (nxt ≢ JobState.running)
        → (if is_queued r.state && is_running nxt then some when.db_time else r.started_at)
          ≡ r.started_at
    idles h = elim (Bool-cases (is_queued r.state && is_running nxt)) [
      | inr a ↦ rw a refl
      | inl a ↦ elim h [
        | inl off ↦ absurd (off (queued-only r.state (ground (arith, a))))
        | inr off ↦ absurd (off (running-only nxt (ground (arith, a))))
      ]
    ]

apply_to-IsApplied :
    (when : Stamp) (r u : JobRecord) (event : JobEvent) (f g : Files) (o : Result JobState)
    → transition r.state event r.kind ≡ o
    → apply_to when r event f o ≡ (g, ok u)
    → IsApplied when r u event f g
unfolding apply_to
apply_to-IsApplied when r u event f g (err x) q h = cc
apply_to-IsApplied when r u event f g (ok nxt) q h =
    subst₂ (λ a b. IsApplied when r a event f b) (ok-injective (ap (λ p. p.1) h)) (ap (λ p. p.0) h)
      (applied-IsApplied when r event f nxt q)

-- `JobLog.apply` either refuses, with the machine's error and both files as they were, or it returns
-- the record that the machine allows: numbered one higher, its reason to pause kept if it is paused
-- and dropped otherwise, its start stamped exactly when a queued job runs and its finish exactly when
-- its state is terminal, its update stamped and all else as it was, stored in `job.json`, and announced
-- by one `job.state` line with its number.
pub apply_outcome :
    (when : Stamp) (r : JobRecord) (event : JobEvent) (f : Files)
    → (apply when r event f ≡ (f, err (invalid_transition r.state event r.kind)))
      ⊎ ((u : JobRecord) × (g : Files) × (apply when r event f ≡ (g, ok u))
          × IsApplied when r u event f g)
unfolding apply
apply_outcome when r event f = go (transition r.state event r.kind) refl
  where
    go :
        (o : Result JobState)
        → transition r.state event r.kind ≡ o
        → (apply_to when r event f (transition r.state event r.kind)
            ≡ (f, err (invalid_transition r.state event r.kind)))
          ⊎ ((u : JobRecord) × (g : Files) × (apply_to when r event f
                  (transition r.state event r.kind)
                ≡ (g, ok u))
              × IsApplied when r u event f g)
    go (err x) q = inl (rw (q, transition-error r.state event r.kind x q))
    go (ok nxt) q = inr (_, _, rw q, applied-IsApplied when r event f nxt q)

is_in_flight-recovered : (s : JobState) → is_in_flight (recover s).0 ≡ false
unfolding recover is_in_flight
is_in_flight-recovered s = ground arith

open_with-settled :
    (when : Stamp) (s : JobState) (r u : JobRecord) (stored : Result ℕ) (f g : Files)
    → r.state ≡ s
    → open_with when (recover s) r stored f ≡ (g, ok u)
    → is_in_flight u.state ≡ false
unfolding open_with recovered recover is_in_flight
open_with-settled when s r u stored f g q h = ground arith

open_loaded-settled :
    (when : Stamp) (payload : Fields) (o : Result JobRecord) (u : JobRecord) (f g : Files)
    → open_loaded when payload o f ≡ (g, ok u)
    → is_in_flight u.state ≡ false
unfolding open_loaded
open_loaded-settled when payload (err e) u f g h = cc
open_loaded-settled when payload (ok loaded) u f g h =
    open_with-settled when (caught_up f loaded).state (caught_up f loaded) u
      (item "last_seq" payload >>= as_int) f g refl h

open_stored-settled :
    (when : Stamp) (o : Option Fields) (u : JobRecord) (f g : Files)
    → open_stored when o f ≡ (g, ok u)
    → is_in_flight u.state ≡ false
unfolding open_stored
open_stored-settled when none u f g h = cc
open_stored-settled when (some payload) u f g h =
    open_loaded-settled when payload (from_json payload) u f g h

-- Whatever is on disk, a job that `open` returns is neither running nor muxing.
pub open_job-settled :
    (when : Stamp) (u : JobRecord) (f g : Files)
    → open_job when f ≡ (g, ok u)
    → is_in_flight u.state ≡ false
unfolding open_job
open_job-settled when u f g h = open_stored-settled when f.job u f g h

recover-in_flight :
    (s : JobState) → is_in_flight s ≡ true → recover s ≡ (JobState.paused, some "crash_recovery")
unfolding recover is_in_flight
recover-in_flight s h = ground arith

module _ (f : Files) (s : JobRecord) where
  state-caught_up : (caught_up f s).state ≡ s.state
  unfolding caught_up
  state-caught_up = ground arith

  cursor-caught_up : (caught_up f s).cursor ≡ s.cursor
  unfolding caught_up
  cursor-caught_up = ground arith

resumes : (k : JobKind) → transition JobState.paused JobEvent.resume k ≡ ok JobState.running
unfolding transition
resumes JobKind.prep = refl
resumes JobKind.«record» = refl

-- A job that was under way when the engine died is opened as paused, with the reason
-- `crash_recovery`, and resumes where it was.
pub open_job-resumable :
    (when : Stamp) (s : JobRecord) (f : Files)
    → f.job ≡ some (to_json s)
    → is_in_flight s.state ≡ true
    → (u : JobRecord) × (g : Files) × (open_job when f ≡ (g, ok u))
      × (u.state ≡ JobState.paused)
      × (u.paused_reason ≡ some "crash_recovery")
      × (u.cursor ≡ s.cursor)
      × (transition u.state JobEvent.resume u.kind ≡ ok JobState.running)
unfolding open_with recovered
open_job-resumable when s f d h =
    let r = caught_up f s in
    let way : recover r.state ≡ (JobState.paused, some "crash_recovery") =
      ap recover (state-caught_up f s) ∙ recover-in_flight s.state h in
    (
      recovered when "crash_recovery" JobState.paused r,
      _,
      opened ∙ ap (λ p. open_with when p r (ok s.last_seq) f) way,
      refl,
      refl,
      cursor-caught_up f s,
      resumes r.kind,
    )
  where
    opened :
        open_job when f
        ≡ open_with when (recover (caught_up f s).state) (caught_up f s) (ok s.last_seq) f
    opened = open_job-stored when s f d
