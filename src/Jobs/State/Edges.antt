-- ===== src/Jobs/State/Edges.antt =====
-- Single steps of the job state machine.
use praelector.Base.{◌≡◌, refl, true, arith}
use praelector.Domain.{JobKind, JobState, is_terminal}
use praelector.Domain.Errors.{Failure, ok, err}
use praelector.Jobs.State.{JobEvent, rendered, invalid_transition, transition}

-- A finished, failed or cancelled job refuses every event with `job.invalid_transition`.
pub transition-terminal :
    (s : JobState) (e : JobEvent) (k : JobKind)
    → is_terminal s ≡ true
    → transition s e k ≡ err (invalid_transition s e k)
unfolding transition is_terminal
transition-terminal JobState.done e k h = refl
transition-terminal JobState.failed e k h = refl
transition-terminal JobState.cancelled e k h = refl
transition-terminal _ e k h = cc

-- No event leads back into `queued`.
pub transition-ne-queued :
    (s : JobState) (e : JobEvent) (k : JobKind) → transition s e k ≡ ok JobState.queued → ⊥
unfolding transition
transition-ne-queued s e JobKind.prep h = ground arith
transition-ne-queued s e JobKind.«record» h = ground arith

-- Only a finished rendering of a record job enters `muxing`.
pub muxing-source :
    (s : JobState) (e : JobEvent) (k : JobKind)
    → transition s e k ≡ ok JobState.muxing
    → (s ≡ JobState.running) × (e ≡ rendered) × (k ≡ JobKind.«record»)
unfolding transition
muxing-source s e JobKind.prep h = ground arith
muxing-source s e JobKind.«record» h = ground arith

-- The only error is `job.invalid_transition`, with the state, the event and the kind.
pub transition-error :
    (s : JobState) (e : JobEvent) (k : JobKind) (x : Failure)
    → transition s e k ≡ err x
    → x ≡ invalid_transition s e k
unfolding transition
transition-error s e JobKind.prep x h = ground arith
transition-error s e JobKind.«record» x h = ground arith
