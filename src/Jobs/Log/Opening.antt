-- ===== src/Jobs/Log/Opening.antt =====
-- `open` on a well-formed directory: it succeeds, and what it returns is on disk.
use praelector.Base.{
  ◌≡◌, refl, sym, subst, Option, none, some, String, arith, length, if◌then◌else◌, Bool-cases, inl,
  inr, ltb,
}
use praelector.Domain.{JobState}
use praelector.Domain.Errors.{Result, ok, err, ◌>>=◌}
use praelector.Domain.Json.{item, as_int}
use praelector.Jobs.State.{recover}
use praelector.Jobs.Record.{JobRecord, to_json, from_json-to_json}
use praelector.Jobs.Log.{
  Stamp, Files, write_job, append_state, last_logged_seq, caught_up, recovered, open_with,
  open_loaded, open_stored, open_job,
}
use praelector.Jobs.Log.Numbered.{last_logged_seq-Numbered}
use praelector.Jobs.Log.History.{OnDisk}
use praelector.Jobs.Log.Writes.{append-IsNext, Written, write-Written, Safe}

pub caught_up-last_seq :
    (s : JobRecord) (f : Files) → OnDisk s f → (caught_up f s).last_seq ≡ length f.events
unfolding caught_up
caught_up-last_seq s f d = ground (arith, last_logged_seq-Numbered f d.numbered, d.not_ahead)

-- Without a recovery the caught-up record is on disk already, or is written.
settle :
    (s : JobRecord) (f : Files)
    → OnDisk s f
    → Written
        (caught_up f s)
        (if ltb s.last_seq (last_logged_seq f) then write_job (caught_up f s) f else f)
unfolding caught_up write_job
settle s f d = elim (Bool-cases (ltb s.last_seq (last_logged_seq f))) [
  | inl behind ↦
      rw behind
        (record { stored = refl; numbered = d.numbered; not_ahead = omega (arith, top) }, refl, top)
  | inr level ↦ rw level (d, d.stored, ground (arith, top, d.not_ahead))
]
  where
    top : last_logged_seq f ≡ length f.events
    top = last_logged_seq-Numbered f d.numbered

-- Opening a well-formed directory succeeds.
abbrev pub Opens : Files → Files × Result JobRecord → Type 0
Opens f (g, ok r) = Written r g
Opens f (g, err e) = ⊥

pub Opens-Safe : (f : Files) (o : Files × Result JobRecord) → Opens f o → Safe f o
Opens-Safe f (g, ok r) h = h
Opens-Safe f (g, err e) h = absurd h

open_with-Opens :
    (when : Stamp) (s : JobRecord) (p : JobState × Option String) (f : Files)
    → OnDisk s f
    → Opens f (open_with when p (caught_up f s) (ok s.last_seq) f)
unfolding open_with recovered append_state
open_with-Opens when s (state, none) f d = settle s f d
open_with-Opens when s (state, some reason) f d =
    write-Written _ f _
      (append-IsNext _ _ _ when f d.numbered (omega (arith, caught_up-last_seq s f d)))

stored_seq : (s : JobRecord) → (item "last_seq" (to_json s) >>= as_int) ≡ ok s.last_seq
unfolding to_json
stored_seq s = refl

-- Reading back `job.json` gives the record that was written, so `open` goes on from that.
pub open_job-stored :
    (when : Stamp) (s : JobRecord) (f : Files)
    → f.job ≡ some (to_json s)
    → open_job when f
      ≡ open_with when (recover (caught_up f s).state) (caught_up f s) (ok s.last_seq) f
unfolding open_job open_stored
open_job-stored when s f d =
    subst
      (λ o.
        open_stored when o f
        ≡ open_with when (recover (caught_up f s).state) (caught_up f s) (ok s.last_seq) f)
      (sym d) (rw (from_json-to_json s, open_loaded) (rw (stored_seq s)))

pub open_job-Opens :
    (when : Stamp) (s : JobRecord) (f : Files) → OnDisk s f → Opens f (open_job when f)
open_job-Opens when s f d =
    rw (open_job-stored when s f d.stored)
      (open_with-Opens when s (recover (caught_up f s).state) f d)
