-- ===== src/Jobs/Manager/Single.antt =====
-- JB-03: one active job per engine, through every sequence of calls.
use praelector.Base.{
  ◌≡◌, refl, sym, ap, ◌∙◌, subst, subst₂, Bool, Option, none, some, String, List, [], length, arith,
  inl, inr,
}
use praelector.Domain.Errors.{Result, ok, err}
use praelector.Jobs.State.{JobEvent, transition}
use praelector.Jobs.Record.{JobRecord}
use praelector.Jobs.Log.{Stamp, Files, write_job, apply}
use praelector.Jobs.Log.Numbered.{Numbered}
use praelector.Jobs.Log.Writes.{Written, Safe, apply_to-Safe}
use praelector.Jobs.Manager.Refusals.{
  with_dir-same, IsFree, Adopted, Reset, adopt_outcome, reset_outcome,
}
use praelector.Jobs.Manager.{
  Parts, Manager, with_dir, stored, apply_event, start, resume, delete_parts, pause, stop_event,
  stop_slot, stop,
}
use praelector.Jobs.Manager.Slot.{
  Command, adopts, starts, resumes, stops, pauses, resets, execute, IsFresh, Trace, idle, call,
  Held, Exclusive, IsSingle, with_dir-here, with_dir-Exclusive, others-idle, all-idle,
}

-- What a successful event leaves: the slot's record, written to the slot's directory.
stored-IsSingle :
    (m : Manager) (r : JobRecord) (d : String) (o : Files × Result JobRecord)
    → m.slot ≡ some r
    → m.log ≡ some d
    → IsSingle m
    → Safe (m.dirs d) o
    → IsSingle (stored d m o).0
unfolding stored
stored-IsSingle m r d (f, ok u) q l (h, x) w = (
  subst (λ k. Held (some u) k (with_dir d f m.dirs)) (sym l)
      (subst (Written u) (sym (with_dir-here d f m.dirs)) w),
  subst (λ k. Exclusive k (with_dir d f m.dirs)) (sym l)
      (with_dir-Exclusive d f m.dirs (others-idle d m.dirs (subst (λ k. Exclusive k m.dirs) l x))),
)
stored-IsSingle m r d (f, err e) q l i w =
    subst (λ g. IsSingle (record m { dirs = with_dir d g m.dirs })) (sym w)
      (subst (λ g. IsSingle (record m { dirs = g })) (sym (with_dir-same d m.dirs)) i)

apply_event-IsSingle :
    (when : Stamp) (e : JobEvent) (m : Manager) (s : Option JobRecord) (l : Option String)
    → m.slot ≡ s
    → m.log ≡ l
    → IsSingle m
    → IsSingle (apply_event when e s l m).0
unfolding apply_event apply
apply_event-IsSingle when e m none l p q i = i
apply_event-IsSingle when e m (some r) none p q i = i
apply_event-IsSingle when e m (some r) (some d) p q i =
    stored-IsSingle m r d _ p q i
      (apply_to-Safe when r e (m.dirs d) (transition r.state e r.kind) (w.0.numbered, w.2))
  where
    w : Written r (m.dirs d)
    w = subst₂ (λ s l. Held s l m.dirs) p q i.0

delete_parts-IsSingle :
    (parts : List Parts) (o : Manager × Result JobRecord)
    → IsSingle o.0
    → IsSingle (delete_parts parts o).0
unfolding delete_parts
delete_parts-IsSingle parts (m, ok u) i = i
delete_parts-IsSingle parts (m, err e) i = i

stop_slot-IsSingle :
    (when : Stamp) (m : Manager) (s : Option JobRecord)
    → m.slot ≡ s
    → IsSingle m
    → IsSingle (stop_slot when s m).0
unfolding stop_slot
stop_slot-IsSingle when m none q i = i
stop_slot-IsSingle when m (some r) q i =
    apply_event-IsSingle when (stop_event r.state) m (some r) m.log q refl i

-- A record written to a fresh directory.
create-Written :
    (r : JobRecord) (f : Files) → r.last_seq ≡ 0 → f.events ≡ [] → Written r (write_job r f)
unfolding write_job
create-Written r f z q = (
  record { stored = refl; numbered = subst (Numbered 0) (sym q) tt; not_ahead = omega (arith, z) },
  refl,
  z ∙ ap length (sym q),
)

Adopted-IsSingle :
    (d : String) (r : JobRecord) (m : Manager) (o : Manager × Result JobRecord)
    → IsFresh (adopts d r) m
    → IsSingle m
    → Adopted d r m o
    → IsSingle o.0
Adopted-IsSingle d r m (n, o) fresh i (inl (c, q, a, same, e)) = subst IsSingle (sym same) i
Adopted-IsSingle d r m (n, o) (z, q) (h, x) (inr (free, slot, log, dirs, a, e)) =
    subst (λ k. Held n.slot n.log k × Exclusive n.log k) (sym dirs)
      (subst₂ (λ s l. Held s l g × Exclusive l g) (sym slot) (sym log)
        (
          subst (Written r) (sym (with_dir-here d (write_job r (m.dirs d)) m.dirs))
              (create-Written r (m.dirs d) z q),
          with_dir-Exclusive d (write_job r (m.dirs d)) m.dirs
              (λ e r' other. all-idle m.slot m.log m.dirs h x free e r'),
        ))
  where
    g : String → Files
    g = with_dir d (write_job r (m.dirs d)) m.dirs

Reset-IsSingle :
    (delete : Bool) (dir : Option Parts) (m : Manager) (o : Manager × Result (Unit {0}))
    → IsSingle m
    → Reset delete dir m o
    → IsSingle o.0
Reset-IsSingle delete dir m (n, o) i (inl (q, same, e)) = subst IsSingle (sym same) i
Reset-IsSingle delete dir m (n, o) i (inr (r, q, inl (a, same, e))) = subst IsSingle (sym same) i
Reset-IsSingle delete dir m (n, o) (h, x) (inr (r, q, inr (a, slot, log, dirs, audio, e))) =
    subst (λ k. Held n.slot n.log k × Exclusive n.log k) (sym dirs)
      (subst₂ (λ s l. Held s l m.dirs × Exclusive l m.dirs) (sym slot) (sym log)
        (
          tt,
          λ e r' j b. absurd (all-idle m.slot m.log m.dirs h x (subst IsFree (sym q) a) e r' j b),
        ))

execute-IsSingle : (c : Command) (m : Manager) → IsFresh c m → IsSingle m → IsSingle (execute c m)
unfolding execute start resume stop pause
execute-IsSingle (adopts d r) m fresh i = Adopted-IsSingle d r m _ fresh i (adopt_outcome d r m)
execute-IsSingle (starts when) m fresh i =
    apply_event-IsSingle when JobEvent.start m m.slot m.log refl refl i
execute-IsSingle (resumes when) m fresh i =
    apply_event-IsSingle when JobEvent.resume m m.slot m.log refl refl i
execute-IsSingle (stops when) m fresh i = stop_slot-IsSingle when m m.slot refl i
execute-IsSingle (pauses when parts) m fresh i =
    delete_parts-IsSingle parts _
      (apply_event-IsSingle when JobEvent.pause m m.slot m.log refl refl i)
execute-IsSingle (resets delete dir) m fresh i =
    Reset-IsSingle delete dir m _ i (reset_outcome delete dir m)

-- Through every sequence of calls that adopts each job from a fresh directory, at most one directory
-- of the engine has an active job, and that is the one in the slot; the slot's record is the one its
-- directory stores, with the number of the last line of its log.
pub Trace-IsSingle : {m n : Manager} → Trace m n → IsSingle m → IsSingle n
Trace-IsSingle idle i = i
Trace-IsSingle {m} (call c fresh rest) i = Trace-IsSingle rest (execute-IsSingle c m fresh i)
