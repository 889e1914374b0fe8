-- ===== src/Jobs/Log/Torn.antt =====
-- A process that dies between the event line and `job.json` leaves a well-formed directory.
use praelector.Base.{
  ◌≡◌, sym, subst, Option, none, some, String, arith, length, Bool-cases, inl, inr,
}
use praelector.Domain.{JobState}
use praelector.Domain.Errors.{Result, ok, err}
use praelector.Domain.Json.{Fields}
use praelector.Jobs.State.{JobEvent, recover}
use praelector.Jobs.Record.{JobRecord, from_json-to_json}
use praelector.Jobs.Log.{
  Stamp, Files, is_running, applied, append_state, noted, append_progress, caught_up, recovered,
}
use praelector.Jobs.Log.History.{
  torn_apply_to, torn_note, torn_recovery, torn_loaded, torn_stored, torn_open, OnDisk,
}
use praelector.Jobs.Log.Writes.{append-IsNext, torn-OnDisk}
use praelector.Jobs.Log.Opening.{caught_up-last_seq}

pub torn_apply_to-OnDisk :
    (when : Stamp) (e : JobEvent) (r s : JobRecord) (f : Files) (o : Result JobState)
    → OnDisk s f
    → r.last_seq ≡ length f.events
    → OnDisk s (torn_apply_to when e r f o)
unfolding torn_apply_to applied append_state
torn_apply_to-OnDisk when e r s f (err x) d h = d
torn_apply_to-OnDisk when e r s f (ok nxt) d h =
    torn-OnDisk s _ f _ d (omega (arith, h))
      (append-IsNext _ _ _ when f d.numbered (omega (arith, h)))

pub torn_note-OnDisk :
    (when : Stamp) (c n m : Fields) (r s : JobRecord) (f : Files)
    → OnDisk s f
    → r.last_seq ≡ length f.events
    → OnDisk s (torn_note when c n m r f)
unfolding torn_note noted append_progress
torn_note-OnDisk when c n m r s f d h = elim (Bool-cases (is_running r.state)) [
  | inl running ↦ rw running (
      torn-OnDisk s _ f _ d (omega (arith, h))
        (append-IsNext _ _ _ when f d.numbered (omega (arith, h))))
  | inr other ↦ rw other d
]

torn_recovery-OnDisk :
    (when : Stamp) (s : JobRecord) (p : JobState × Option String) (f : Files)
    → OnDisk s f
    → OnDisk s (torn_recovery when p (caught_up f s) f)
unfolding torn_recovery recovered append_state
torn_recovery-OnDisk when s (state, none) f d = d
torn_recovery-OnDisk when s (state, some reason) f d =
    let top = caught_up-last_seq s f d in
    torn-OnDisk s _ f _ d (omega (arith, top))
      (append-IsNext _ _ _ when f d.numbered (omega (arith, top)))

pub torn_open-OnDisk :
    (when : Stamp) (s : JobRecord) (f : Files) → OnDisk s f → OnDisk s (torn_open when f)
unfolding torn_open
torn_open-OnDisk when s f d =
    subst (λ o. OnDisk s (torn_stored when o f)) (sym d.stored)
      (rw (from_json-to_json s, torn_loaded)
        (torn_recovery-OnDisk when s (recover (caught_up f s).state) f d))
