-- ===== src/Jobs/State/Reach.antt =====
-- Runs of the job state machine: what a job can come to, event by event, engine restarts included.
use praelector.Base.{
  ◌≡◌, refl, sym, ap, ◌∙◌, subst, ◌≢◌, ◌⊎◌, inl, inr, true, List, [], ◌∷◌, arith, ap₂, ◌++◌,
}
use praelector.Domain.{JobKind, JobState, is_terminal}
use praelector.Domain.Errors.{Result, ok, ok-injective, ◌>>=◌, >>=-eq-ok}
use praelector.Jobs.State.{JobEvent, start, muxed, transition, recover}
use praelector.Jobs.State.Edges.{transition-terminal, muxing-source}

-- One event that the machine accepts, or a restart of the engine.
pub data Step (k : JobKind) : JobState → JobState → Type 0 where
  event : {s t : JobState} (e : JobEvent) → transition s e k ≡ ok t → Step k s t
  restart : {s t : JobState} → t ≡ (recover s).0 → Step k s t

pub data Reach (k : JobKind) (s : JobState) : JobState → Type 0 where
  here : Reach k s s
  next : {t u : JobState} → Reach k s t → Step k t u → Reach k s u

recover-ne-muxing : (s : JobState) → (recover s).0 ≢ JobState.muxing
unfolding recover
recover-ne-muxing s = ground arith

recover-terminal : (s : JobState) → is_terminal s ≡ true → (recover s).0 ≡ s
unfolding recover is_terminal
recover-terminal s h = ground arith

prep-Step : {s t : JobState} → Step JobKind.prep s t → t ≢ JobState.muxing
prep-Step {s} (event e h) m = cc ((muxing-source s e JobKind.prep (h ∙ ap ok m)).2)
prep-Step {s} (restart h) m = recover-ne-muxing s (sym h ∙ m)

-- A prep job never enters `muxing`, whatever events and restarts it sees.
pub prep-ne-muxing :
    {s t : JobState} → s ≢ JobState.muxing → Reach JobKind.prep s t → t ≢ JobState.muxing
prep-ne-muxing h here = h
prep-ne-muxing h (next r st) = prep-Step st

terminal-Step : {k : JobKind} {s t : JobState} → Step k s t → is_terminal s ≡ true → t ≡ s
terminal-Step {k} {s} (event e h) d = cc (transition-terminal s e k d)
terminal-Step {s = s} (restart h) d = h ∙ recover-terminal s d

-- A job that is done, failed or cancelled stays as it is, whatever events and restarts it sees.
pub terminal-Reach : {k : JobKind} {s t : JobState} → is_terminal s ≡ true → Reach k s t → t ≡ s
terminal-Reach d here = refl
terminal-Reach {s = s} d (next r st) =
    let same = terminal-Reach d r in
    terminal-Step st (subst (λ u. is_terminal u ≡ true) (sym same) d) ∙ same

-- What a job meets: an event of its machine, or a restart of the engine.
pub data Move : Type 0 where
  on : JobEvent → Move
  reopen : Move

unfoldable pub react : Move → JobKind → JobState → Result JobState
react (on e) k s = transition s e k
react reopen k s = ok (recover s).0

-- The state after a list of moves, or the first refusal.
unfoldable pub run : List Move → JobKind → JobState → Result JobState
run [] k s = ok s
run (m ∷ ms) k s = do t ← react m k s; run ms k t

run-cons :
    (m : Move) (ms : List Move) (k : JobKind) (s : JobState) {u : JobState}
    → run (m ∷ ms) k s ≡ ok u
    → (t : JobState) × (react m k s ≡ ok t) × (run ms k t ≡ ok u)
unfolding run
run-cons m ms k s h = >>=-eq-ok (react m k s) (run ms k) h

react-Step : (m : Move) (k : JobKind) (s t : JobState) → react m k s ≡ ok t → Step k s t
unfolding react
react-Step (on e) k s t h = event e h
react-Step reopen k s t h = restart (sym (ok-injective h))

-- An accepted run is a path of the machine.
pub run-Reach :
    (ms : List Move) (k : JobKind) (r s t : JobState)
    → Reach k r s
    → run ms k s ≡ ok t
    → Reach k r t
unfolding run
run-Reach [] k r s t p h = subst (Reach k r) (cc) p
run-Reach (m ∷ ms) k r s t p h =
    let (u, q, rest) = run-cons m ms k s h in
    run-Reach ms k r u t (next p (react-Step m k s u q)) rest

-- A move into `done` is the event `muxed`.
done-source :
    (s : JobState) (m : Move)
    → s ≢ JobState.done
    → react m JobKind.«record» s ≡ ok JobState.done
    → m ≡ on muxed
unfolding react transition recover
done-source s m n h = ground arith

abbrev pub Has : Move → List Move → Type 0
Has m ms = (before : List Move) × (after : List Move) × (ms ≡ before ++ m ∷ after)

Has-cons : (m n : Move) (ms : List Move) → Has m ms → Has m (n ∷ ms)
Has-cons m n ms (before, after, e) = (n ∷ before, after, ap (◌∷◌ n) e)

done_or_not : (t : JobState) → (t ≡ JobState.done) ⊎ (t ≢ JobState.done)
done_or_not JobState.done = inl refl
done_or_not JobState.queued = inr (λ d. cc)
done_or_not JobState.running = inr (λ d. cc)
done_or_not JobState.paused = inr (λ d. cc)
done_or_not JobState.muxing = inr (λ d. cc)
done_or_not JobState.failed = inr (λ d. cc)
done_or_not JobState.cancelled = inr (λ d. cc)

muxed_on_the_way :
    (ms : List Move) (s : JobState)
    → s ≢ JobState.done
    → run ms JobKind.«record» s ≡ ok JobState.done
    → Has (on muxed) ms
unfolding run
muxed_on_the_way [] s n h = absurd (n (cc))
muxed_on_the_way (m ∷ ms) s n h =
    let (t, q, rest) = run-cons m ms JobKind.«record» s h in
    elim (done_or_not t) [
      | inl d ↦ ([], ms, ap (λ x. x ∷ ms) (done-source s m n (q ∙ ap ok d)))
      | inr o ↦ Has-cons (on muxed) m ms (muxed_on_the_way ms t o rest)
    ]

-- A queued job is left by `start` or `cancel` only.
leave_queued :
    (m : Move) (t : JobState)
    → react m JobKind.«record» JobState.queued ≡ ok t
    → (m ≡ on start) × (t ≡ JobState.running) ⊎ (t ≡ JobState.cancelled) ⊎ (t ≡ JobState.queued)
unfolding react transition recover
leave_queued (on e) t h = ground arith
leave_queued reopen t h = ground arith

-- A record job that was queued and is done was started and, after that, muxed, whatever events and
-- restarts of the engine it met: the list of them is some moves, `start`, some moves, `muxed` and
-- some more.
pub done_history :
    (ms : List Move)
    → run ms JobKind.«record» JobState.queued ≡ ok JobState.done
    → (before : List Move) × (between : List Move) × (after : List Move) × (ms
        ≡ before ++ on start ∷ (between ++ on muxed ∷ after))
unfolding run
done_history [] h = cc
done_history (m ∷ ms) h =
    let (t, q, rest) = run-cons m ms JobKind.«record» JobState.queued h in
    elim (leave_queued m t q) [
      | inl (first, on_its_way) ↦
          let (between, after, e) =
            muxed_on_the_way ms t (λ d. running≢done (sym on_its_way ∙ d)) rest in
          ([], between, after, ap₂ ◌∷◌ first e)
      | inr (inl gone) ↦ absurd (
          cancelled≢done (
            sym (
              terminal-Reach (unfold is_terminal in refl) (
                subst (λ u. Reach JobKind.«record» u JobState.done) gone
                  (run-Reach ms JobKind.«record» t t JobState.done here rest)))))
      | inr (inr still) ↦
          let (before, between, after, e) =
            done_history ms (ap (run ms JobKind.«record») (sym still) ∙ rest) in
          (m ∷ before, between, after, ap (◌∷◌ m) e)
    ]
  where
    cancelled≢done : JobState.cancelled ≢ JobState.done
    cancelled≢done d = cc

    running≢done : JobState.running ≢ JobState.done
    running≢done d = cc
