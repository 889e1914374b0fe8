-- ===== src/Jobs/Log/Writes.antt =====
-- `apply` and `note_progress`: a refusal changes nothing, and a success writes both files in step.
use praelector.Base.{
  ◌+◌, ◌≡◌, refl, sym, ◌∙◌, some, arith, length, length-snoc, Bool-cases, inl, inr,
}
use praelector.Domain.{JobState, EventType}
use praelector.Domain.Errors.{Result, ok, err}
use praelector.Domain.Json.{Fields}
use praelector.Jobs.State.{JobEvent}
use praelector.Jobs.Record.{JobRecord, to_json}
use praelector.Jobs.Log.{
  Stamp, Files, is_running, write_job, append, applied, append_state, apply_to, noted,
  append_progress, note_progress,
}
use praelector.Jobs.Log.Numbered.{Numbered, Numbered-snoc}
use praelector.Jobs.Log.History.{OnDisk}

-- One more line, numbered by a record that is one ahead of the log.
pub record IsNext (r : JobRecord) (f g : Files) : Type 0 where
  pub job : g.job ≡ f.job
  pub numbered : Numbered 0 g.events
  pub length_eq : length g.events ≡ r.last_seq

pub append-IsNext :
    (r : JobRecord) (t : EventType) (p : Fields) (when : Stamp) (f : Files)
    → Numbered 0 f.events
    → r.last_seq ≡ length f.events + 1
    → IsNext r f (append r t p when f)
unfolding append
append-IsNext r t p when f n h = record {
  job = refl;
  numbered = Numbered-snoc 0 f.events _ n (omega arith);
  length_eq = length-snoc f.events _ ∙ sym h;
}

-- Both files written: the record on disk is the one in memory, and the log ends with its number.
abbrev pub Written : JobRecord → Files → Type 0
Written r f = OnDisk r f × (f.job ≡ some (to_json r)) × (r.last_seq ≡ length f.events)

pub write-Written : (r : JobRecord) (f g : Files) → IsNext r f g → Written r (write_job r g)
unfolding write_job
write-Written r f g n = (
  record { stored = refl; numbered = n.numbered; not_ahead = omega (arith, n.length_eq) },
  refl,
  omega (arith, n.length_eq),
)

pub torn-OnDisk :
    (s r : JobRecord) (f g : Files)
    → OnDisk s f
    → r.last_seq ≡ length f.events + 1
    → IsNext r f g
    → OnDisk s g
torn-OnDisk s r f g d h n = record {
  stored = n.job ∙ d.stored;
  numbered = n.numbered;
  not_ahead = omega (arith, n.length_eq, d.not_ahead);
}

-- An operation's outcome: an error changes nothing, and a record is written to both files.
abbrev pub Safe : Files → Files × Result JobRecord → Type 0
Safe f (g, ok r) = Written r g
Safe f (g, err e) = g ≡ f

abbrev pub Holds : JobRecord → Files → Type 0
Holds r f = Numbered 0 f.events × (r.last_seq ≡ length f.events)

pub apply_to-Safe :
    (when : Stamp) (r : JobRecord) (e : JobEvent) (f : Files) (o : Result JobState)
    → Holds r f
    → Safe f (apply_to when r e f o)
unfolding apply_to applied append_state
apply_to-Safe when r e f (err x) h = refl
apply_to-Safe when r e f (ok nxt) (n, h) =
    write-Written _ f _ (append-IsNext _ _ _ when f n (omega (arith, h)))

pub note_progress-Safe :
    (when : Stamp) (c n m : Fields) (r : JobRecord) (f : Files)
    → Holds r f
    → Safe f (note_progress when c n m r f)
unfolding note_progress noted append_progress
note_progress-Safe when c n m r f (num, h) = elim (Bool-cases (is_running r.state)) [
  | inl yes' ↦
      rw (yes', is_running)
        (write-Written _ f _ (append-IsNext _ _ _ when f num (omega (arith, h))))
  | inr no' ↦ rw (no', is_running) refl
]
