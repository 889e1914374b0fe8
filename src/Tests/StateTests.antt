-- ===== src/Tests/StateTests.antt =====
-- The state machine at concrete inputs.
use praelector.Base.{◌≡◌, refl, ◌≢◌, List, [], ◌∷◌, ◌++◌}
use praelector.Domain.{JobKind, JobState, is_terminal}
use praelector.Jobs.State.{JobEvent, transition, recover}
use praelector.Jobs.State.Reach.{
  event, Reach, here, next, Move, on, reopen, react, run, prep-ne-muxing, terminal-Reach,
  done_history,
}

prep_finishes : Reach JobKind.prep JobState.queued JobState.done
unfolding transition
prep_finishes = next (next here (event JobEvent.start refl)) (event JobEvent.rendered refl)

prep-ne-muxing_example : JobState.done ≢ JobState.muxing
prep-ne-muxing_example =
    prep-ne-muxing (λ (h : JobState.queued ≡ JobState.muxing). cc) prep_finishes

terminal-Reach_example : JobState.done ≡ JobState.done
terminal-Reach_example = terminal-Reach {k = JobKind.prep} (unfold is_terminal in refl) here

abbrev a_history : List Move
a_history =
    reopen
    ∷ on JobEvent.start
    ∷ reopen
    ∷ on JobEvent.resume
    ∷ on JobEvent.rendered
    ∷ on JobEvent.muxed
    ∷ []

done_history_example :
    (before : List Move) × (between : List Move) × (after : List Move) × (a_history
      ≡ before ++ on JobEvent.start ∷ (between ++ on JobEvent.muxed ∷ after))
unfolding run react transition recover
done_history_example = done_history a_history refl
