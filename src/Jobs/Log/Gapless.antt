-- ===== src/Jobs/Log/Gapless.antt =====
-- The log stays gapless through every operation, crash and restart.
use praelector.Base.{◌≡◌, refl, sym, subst, Option, none, some, List, [], ◌∷◌, arith}
use praelector.Domain.Errors.{Result, ok, err}
use praelector.Jobs.State.{transition}
use praelector.Jobs.Record.{JobRecord}
use praelector.Jobs.Log.{Files, write_job, create, apply}
use praelector.Jobs.Log.History.{
  World, Action, applies, applies_torn, notes, notes_torn, opens, opens_torn, dies, after,
  torn_apply, perform_on, perform, perform_all, OnDisk, InMemory, IsGapless,
}
use praelector.Jobs.Log.Writes.{Safe, apply_to-Safe, note_progress-Safe}
use praelector.Jobs.Log.Opening.{Opens-Safe, open_job-Opens}
use praelector.Jobs.Log.Torn.{torn_apply_to-OnDisk, torn_note-OnDisk, torn_open-OnDisk}

-- An outcome that is safe leaves a gapless world.
after-IsGapless :
    (s : JobRecord) (m : Option JobRecord) (f : Files) (o : Files × Result JobRecord)
    → OnDisk s f
    → InMemory m f
    → Safe f o
    → IsGapless (after o (record { files = f; memory = m }))
after-IsGapless s m f (g, ok r) d l (w, j, h) = (r, w, (j, h))
after-IsGapless s m f (g, err e) d l h =
    (s, subst (OnDisk s) (sym h) d, subst (InMemory m) (sym h) l)

perform_on-IsGapless :
    (a : Action) (s : JobRecord) (f : Files) (m : Option JobRecord)
    → OnDisk s f
    → InMemory m f
    → IsGapless (perform_on a m (record { files = f; memory = m }))
unfolding perform_on apply torn_apply
perform_on-IsGapless (applies when e) s f (some r) d l =
    after-IsGapless s (some r) f _ d l
      (apply_to-Safe when r e f (transition r.state e r.kind) (d.numbered, l.1))
perform_on-IsGapless (applies_torn when e) s f (some r) d l =
    (s, torn_apply_to-OnDisk when e r s f (transition r.state e r.kind) d l.1, tt)
perform_on-IsGapless (notes when c n m) s f (some r) d l =
    after-IsGapless s (some r) f _ d l (note_progress-Safe when c n m r f (d.numbered, l.1))
perform_on-IsGapless (notes_torn when c n m) s f (some r) d l =
    (s, torn_note-OnDisk when c n m r s f d l.1, tt)
perform_on-IsGapless (opens when) s f none d l =
    after-IsGapless s none f _ d l (Opens-Safe f _ (open_job-Opens when s f d))
perform_on-IsGapless (opens when) s f (some r) d l =
    after-IsGapless s (some r) f _ d l (Opens-Safe f _ (open_job-Opens when s f d))
perform_on-IsGapless (opens_torn when) s f none d l = (s, torn_open-OnDisk when s f d, tt)
perform_on-IsGapless (opens_torn when) s f (some r) d l = (s, torn_open-OnDisk when s f d, tt)
perform_on-IsGapless dies s f none d l = (s, d, tt)
perform_on-IsGapless dies s f (some r) d l = (s, d, tt)
perform_on-IsGapless _ s f none d l = (s, d, l)

perform-IsGapless : (a : Action) (w : World) → IsGapless w → IsGapless (perform a w)
unfolding perform
perform-IsGapless a w (s, d, l) = perform_on-IsGapless a s w.files w.memory d l

-- Whatever operations, crashes between the two writes and restarts a job's directory sees, from a
-- gapless one on: the log's lines stay numbered 1, 2, 3, … with no gap and no repetition, `job.json`
-- holds a readable record that is not ahead of the log, and a record in memory is the one on disk
-- and has the number of the last line.
pub perform_all-IsGapless :
    (as' : List Action) (w : World) → IsGapless w → IsGapless (perform_all as' w)
unfolding perform_all
perform_all-IsGapless [] w h = h
perform_all-IsGapless (a ∷ as') w h =
    perform_all-IsGapless as' (perform a w) (perform-IsGapless a w h)

-- A new job's directory is gapless.
pub create-IsGapless :
    (r : JobRecord)
    → r.last_seq ≡ 0
    → IsGapless (record {
      files = (create r (record { job = none; events = [] })).0;
      memory = some (create r (record { job = none; events = [] })).1;
    })
unfolding create write_job
create-IsGapless r h =
    (r, record { stored = refl; numbered = tt; not_ahead = omega (arith, h) }, (refl, h))
