-- ===== src/Jobs/Manager/Slot.antt =====
-- JB-03: one active job per engine, and the slot agrees with its directory.
use praelector.Base.{
  ◌≡◌, refl, sym, ap, ◌∙◌, Bool, true, false, Option, none, some, String, str_eq, eq_iff, eq_refl,
  List, [], inl, inr, Bool-cases, true≢false,
}
use praelector.Domain.{is_active}
use praelector.Domain.Errors.{ok-injective}
use praelector.Jobs.Record.{JobRecord, to_json, from_json, from_json-to_json}
use praelector.Jobs.Log.{Stamp, Files}
use praelector.Domain.Json.{Fields}
use praelector.Jobs.Log.Writes.{Written}
use praelector.Jobs.Manager.Refusals.{IsFree}
use praelector.Jobs.Manager.{Parts, Manager, with_dir, adopt, start, resume, pause, stop, reset}

-- The calls of the manager.
pub data Command : Type 0 where
  adopts : (dir : String) → JobRecord → Command
  starts resumes stops : Stamp → Command
  pauses : Stamp → List Parts → Command
  resets : (delete_audio : Bool) → Option Parts → Command

unfoldable pub execute : Command → Manager → Manager
unfolding adopt start resume stop pause reset
execute (adopts d r) m = (adopt d r m).0
execute (starts when) m = (start when m).0
execute (resumes when) m = (resume when m).0
execute (stops when) m = (stop when m).0
execute (pauses when parts) m = (pause when parts m).0
execute (resets delete dir) m = (reset delete dir m).0

-- A new job is adopted from a directory of its own, that has no log yet.
abbrev pub IsFresh : Command → Manager → Type 0
IsFresh (adopts d r) m = (r.last_seq ≡ 0) × ((m.dirs d).events ≡ [])
IsFresh c m = Unit

pub data Trace : Manager → Manager → Type 0 where
  idle : {m : Manager} → Trace m m
  call : {m n : Manager} (c : Command) → IsFresh c m → Trace (execute c m) n → Trace m n

-- The slot is empty, or it holds the record of its directory, in step with the log there.
abbrev pub Held : Option JobRecord → Option String → (String → Files) → Type 0
Held none none dirs = Unit
Held (some r) (some d) dirs = Written r (dirs d)
Held _ _ dirs = ⊥

abbrev pub Exclusive : Option String → (String → Files) → Type 0
Exclusive log dirs =
    (d : String) (r : JobRecord)
    → (dirs d).job ≡ some (to_json r)
    → is_active r.state ≡ true
    → log ≡ some d

abbrev pub IsSingle : Manager → Type 0
IsSingle m = Held m.slot m.log m.dirs × Exclusive m.log m.dirs

pub to_json-injective : (r s : JobRecord) → to_json r ≡ to_json s → r ≡ s
to_json-injective r s h =
    ok-injective (sym (from_json-to_json r) ∙ ap from_json h ∙ from_json-to_json s)

module _ (d : String) (f : Files) (dirs : String → Files) where
  pub with_dir-here : with_dir d f dirs d ≡ f
  with_dir-here = rw (eq_refl d) refl

  with_dir-there : (e : String) → str_eq d e ≡ false → with_dir d f dirs e ≡ dirs e
  with_dir-there e h = rw h refl

  -- Writing the directory of the slot leaves every other job as inactive as it was.
  pub with_dir-Exclusive :
      ((e : String) (r : JobRecord)
        → str_eq d e ≡ false
        → (dirs e).job ≡ some (to_json r)
        → is_active r.state ≡ true
        → ⊥)
      → Exclusive (some d) (with_dir d f dirs)
  with_dir-Exclusive h e r j a = elim (Bool-cases (str_eq d e)) [
    | inl same ↦ ap some ((eq_iff d e).0 same)
    | inr other ↦ absurd (h e r other (ap (λ g. g.job) (sym (with_dir-there e other)) ∙ j) a)
  ]

-- Another directory than the slot's has no active job.
pub others-idle :
    (d : String) (dirs : String → Files)
    → Exclusive (some d) dirs
    → (e : String) (r : JobRecord) → str_eq d e ≡ false
    → (dirs e).job ≡ some (to_json r)
    → is_active r.state ≡ true
    → ⊥
others-idle d dirs x e r h j a =
    let p = x e r j a in let q : d ≡ e = cc in true≢false (sym ((eq_iff d e).1 q) ∙ h)

-- With the slot free, no directory has an active job.
pub all-idle :
    (s : Option JobRecord) (l : Option String) (dirs : String → Files)
    → Held s l dirs
    → Exclusive l dirs
    → IsFree s
    → (e : String) (r : JobRecord) → (dirs e).job ≡ some (to_json r)
    → is_active r.state ≡ true
    → ⊥
all-idle none none dirs h x free e r j a = let p = x e r j a in cc
all-idle none (some d) dirs h x free e r j a = absurd h
all-idle (some s) none dirs h x free e r j a = absurd h
all-idle (some s) (some d) dirs (w, k, q) x free e r j a =
    let p = x e r j a in
    let same : d ≡ e = cc in
    let texts : to_json s ≡ to_json r = json-injective (sym k ∙ ap (λ c. (dirs c).job) same ∙ j) in
    let states : s.state ≡ r.state = ap (λ t. t.state) (to_json-injective s r texts) in
    true≢false (sym a ∙ ap is_active (sym states) ∙ free)
  where
    json-injective : {a b : Fields} → some a ≡ some b → a ≡ b
    json-injective h = cc
