-- ===== src/Jobs/Manager/Refusals.antt =====
-- What each call of the manager does to the slot, the files and the audio, on every branch.
use praelector.Base.{
  ◌≡◌, refl, sym, ap, ◌∙◌, subst, Bool, true, false, Option, none, some, String, str_eq, eq_iff,
  List, [], ◌∷◌, ◌++◌, not, ◌&&◌, keep, All, eq_refl, arith, ◌⊎◌, inl, inr, Bool-cases,
}
use praelector.Domain.{JobKind, JobState, EventType, is_active, is_terminal}
use praelector.Base.Member.{All-of, keep-All}
use praelector.Domain.Errors.{Failure, Result, ok, err}
use praelector.Jobs.State.{JobEvent, job_event_value, transition}
use praelector.Jobs.Record.{JobRecord, to_json}
use praelector.Jobs.Log.{
  Stamp, Event, Files, append_state, append, state_payload, is_queued, create, write_job, apply_to,
  apply, applied,
}
use praelector.Jobs.Manager.{
  Parts, Manager, is_under, exists_dir, with_dir, not_found, already_active, cannot_reset, blocking,
  adopt_unless, adopt, stored, apply_event, unlink_all, delete_parts, pause, stop_event, stop_slot,
  stop, audio_after, reset_slot, reset,
}

-- Putting back what a directory holds changes nothing.
pub with_dir-same : (d : String) (dirs : String → Files) → with_dir d (dirs d) dirs ≡ dirs
with_dir-same d dirs = λ i e. at e i
  where
    at : (e : String) → with_dir d (dirs d) dirs e ≡ dirs e
    at e = elim (Bool-cases (str_eq d e)) [
      | inl same ↦ rw same (ap dirs ((eq_iff d e).0 same))
      | inr other ↦ rw other refl
    ]

abbrev pub IsFree : Option JobRecord → Type 0
IsFree none = Unit
IsFree (some r) = is_active r.state ≡ false

-- What `adopt` promises of its outcome.
abbrev pub Adopted : String → JobRecord → Manager → Manager × Result JobRecord → Type 0
Adopted d r m (n, o) =
    ((current : JobRecord) × (m.slot ≡ some current)
      × (is_active current.state ≡ true)
      × (n ≡ m)
      × (o ≡ err (already_active current r.id)))
    ⊎ (IsFree m.slot
        × (n.slot ≡ some r)
        × (n.log ≡ some d)
        × (n.dirs ≡ with_dir d (write_job r (m.dirs d)) m.dirs)
        × (n.audio ≡ m.audio)
        × (o ≡ ok r))

pub adopted :
    (d : String) (r : JobRecord) (m : Manager) (s : Option JobRecord)
    → m.slot ≡ s
    → Adopted d r m (adopt_unless (blocking s) d r m)
unfolding adopt_unless blocking create
adopted d r m none q = inr (subst IsFree (sym q) tt, refl, refl, refl, refl, refl)
adopted d r m (some c) q = elim (Bool-cases (is_active c.state)) [
  | inl busy ↦ rw (busy, blocking) (inl (c, q, busy, refl, refl))
  | inr idle ↦ rw (idle, blocking) (inr (subst IsFree (sym q) idle, refl, refl, refl, refl, refl))
]

-- `adopt` refuses with `job.already_active` exactly when the job in the slot is active, naming both
-- jobs and changing nothing; otherwise the slot and the job's directory hold the record, and no
-- audio is touched.
pub adopt_outcome : (d : String) (r : JobRecord) (m : Manager) → Adopted d r m (adopt d r m)
unfolding adopt
adopt_outcome d r m = adopted d r m m.slot refl

-- A manager call that raised.
pub stored-refused :
    (d : String) (m n : Manager) (when : Stamp) (r : JobRecord) (e : JobEvent) (o : Result JobState)
    (x : Failure)
    → stored d m (apply_to when r e (m.dirs d) o) ≡ (n, err x)
    → n ≡ m
unfolding stored apply_to
stored-refused d m n when r e (ok nxt) x h = cc
stored-refused d m n when r e (err y) x h =
    sym (ap (λ p. p.0) h) ∙ ap (λ g. record m { dirs = g }) (with_dir-same d m.dirs)

pub apply_event-refused :
    (when : Stamp) (e : JobEvent) (s : Option JobRecord) (l : Option String) (m n : Manager)
    (x : Failure)
    → apply_event when e s l m ≡ (n, err x)
    → n ≡ m
unfolding apply_event apply
apply_event-refused when e none l m n x h = sym (ap (λ p. p.0) h)
apply_event-refused when e (some r) none m n x h = sym (ap (λ p. p.0) h)
apply_event-refused when e (some r) (some d) m n x h =
    stored-refused d m n when r e (transition r.state e r.kind) x h

-- What `pause` makes of the outcome of its event.
abbrev pub Paused : List Parts → Manager → (event call : Manager × Result JobRecord) → Type 0
Paused parts m event call =
    ((x : Failure) × (call ≡ (m, err x)))
    ⊎ ((n : Manager) × (u : JobRecord) × (event ≡ (n, ok u))
        × (call ≡ (record n { audio = unlink_all parts n.audio }, ok u)))

-- A pause that is refused changes nothing, and one that is granted does what the event does and then
-- deletes the partials that it is given.
pub pause-audio :
    (when : Stamp) (parts : List Parts) (m : Manager)
    → Paused parts m (apply_event when JobEvent.pause m.slot m.log m) (pause when parts m)
unfolding pause delete_parts
pause-audio when parts m = go (apply_event when JobEvent.pause m.slot m.log m) refl
  where
    go :
        (o : Manager × Result JobRecord)
        → apply_event when JobEvent.pause m.slot m.log m ≡ o
        → Paused parts m o (delete_parts parts o)
    go (n, ok u) q = inr (n, u, refl, refl)
    go (n, err x) q =
        inl (x, ap (λ k. (k, err x)) (apply_event-refused when JobEvent.pause m.slot m.log m n x q))

stop_event-cancels :
    (s : JobState) (k : JobKind)
    → is_active s ≡ true
    → transition s (stop_event s) k ≡ ok JobState.cancelled
unfolding transition stop_event is_active is_queued
stop_event-cancels s JobKind.prep h = ground arith
stop_event-cancels s JobKind.«record» h = ground arith

-- `stop` succeeds on every active job in the slot, queued, running, paused or muxing: the job is
-- cancelled and stamped as finished in the slot, its directory stores that record and its log has one
-- more line, with the record's number; no other directory and no audio is touched.
pub stop-cancels :
    (when : Stamp) (d : String) (r : JobRecord) (m : Manager)
    → m.slot ≡ some r
    → m.log ≡ some d
    → is_active r.state ≡ true
    → (n : Manager) × (u : JobRecord) × (stop when m ≡ (n, ok u))
      × (n.slot ≡ some u)
      × (u.state ≡ JobState.cancelled)
      × (u.finished_at ≡ some when.db_time)
      × ((n.dirs d).job ≡ some (to_json u))
      × ((line : Event) × ((n.dirs d).events ≡ (m.dirs d).events ++ line ∷ [])
          × (line.seq ≡ u.last_seq))
      × ((e : String) → str_eq d e ≡ false → n.dirs e ≡ m.dirs e)
      × (n.audio ≡ m.audio)
unfolding stop stop_slot apply_event stored apply apply_to applied is_terminal write_job
    append_state append
stop-cancels when d r m q l h = (
  record m { slot = some u; dirs = with_dir d g m.dirs },
  u,
  ap (λ s. stop_slot when s m) q
      ∙ ap (λ o. apply_event when (stop_event r.state) (some r) o m) l
      ∙ ap (λ o. stored d m (apply_to when r (stop_event r.state) (m.dirs d) o))
          (stop_event-cancels r.state r.kind h),
  refl,
  refl,
  refl,
  (let own = eq_refl d in rw own refl),
  (line, (let own = eq_refl d in rw own refl), refl),
  (λ e off. rw off refl),
  refl,
)
  where
    u : JobRecord
    u = applied when r JobState.cancelled

    line : Event
    line = record {
      v = 1;
      seq = u.last_seq;
      ts = when.event_ts;
      type = EventType.job_state;
      job_id = r.id;
      payload = state_payload (job_event_value (stop_event r.state)) u;
    }

    g : Files
    g = (apply_to when r (stop_event r.state) (m.dirs d) (ok JobState.cancelled)).0

-- The path is the directory that is given, or lies under it.
abbrev pub is_in : Option Parts → Parts → Bool
is_in none path = false
is_in (some dir) path = is_under dir path

not_under :
    (dir : Parts) (files : List Parts)
    → exists_dir dir files ≡ false
    → All (λ path. not (is_under dir path) ≡ true) files
not_under dir [] h = tt
not_under dir (path ∷ files) h = (ground (arith, h), not_under dir files (ground (arith, h)))

audio_after-keep :
    (delete : Bool) (dir : Option Parts) (files : List Parts)
    → audio_after delete dir files ≡ keep (λ path. not (delete && is_in dir path)) files
unfolding audio_after
audio_after-keep false none files = sym (keep-All _ files (All-of _ files (λ p i. refl)))
audio_after-keep true none files = sym (keep-All _ files (All-of _ files (λ p i. refl)))
audio_after-keep false (some dir) files = sym (keep-All _ files (All-of _ files (λ p i. refl)))
audio_after-keep true (some dir) files = elim (Bool-cases (exists_dir dir files)) [
  | inl a ↦ rw a refl
  | inr a ↦ rw a (sym (keep-All _ files (not_under dir files a)))
]

-- What `reset` promises of its outcome.
abbrev pub Reset : Bool → Option Parts → Manager → Manager × Result (Unit {0}) → Type 0
Reset delete dir m (n, o) =
    ((m.slot ≡ none) × (n ≡ m) × (o ≡ err not_found))
    ⊎ ((r : JobRecord) × (m.slot ≡ some r)
        × ((is_active r.state ≡ true) × (n ≡ m) × (o ≡ err (cannot_reset r.state))
            ⊎ ((is_active r.state ≡ false)
                × (n.slot ≡ none)
                × (n.log ≡ none)
                × (n.dirs ≡ m.dirs)
                × (n.audio ≡ keep (λ path. not (delete && is_in dir path)) m.audio)
                × (o ≡ ok tt))))

pub was-Reset :
    (delete : Bool) (dir : Option Parts) (m : Manager) (s : Option JobRecord)
    → m.slot ≡ s
    → Reset delete dir m (reset_slot delete dir s m)
unfolding reset_slot
was-Reset delete dir m none q = inl (q, refl, refl)
was-Reset delete dir m (some r) q = elim (Bool-cases (is_active r.state)) [
  | inl busy ↦ rw busy (inr (r, q, inl (busy, refl, refl)))
  | inr idle ↦
      rw idle (inr (r, q, inr (idle, refl, refl, refl, audio_after-keep delete dir m.audio, refl)))
]

-- `reset` refuses an empty slot and an active job and then changes nothing; otherwise it empties the
-- slot, leaves the job's files as they are, and deletes exactly the audio in the directory that it is
-- given, if it is told to delete.
pub reset_outcome :
    (delete : Bool) (dir : Option Parts) (m : Manager) → Reset delete dir m (reset delete dir m)
unfolding reset
reset_outcome delete dir m = was-Reset delete dir m m.slot refl
