-- ===== src/Jobs/Scheduler/Prefix.antt =====
-- What `dispatch` takes: a prefix of the plan from the cursor on, within the gate's slots.
use praelector.Base.{
  ℕ, suc, ◌+◌, ◌≤◌, ◌≡◌, refl, ap, ◌∙◌, inl, inr, Bool, true, false, List, [], ◌∷◌, ◌++◌, str_eq,
  ltb, if◌then◌else◌, Bool-cases, arith,
}
use praelector.Gpu.Monitor.{MonitorTick}
use praelector.Jobs.Admission.{AdmissionGate, try_acquire}
use praelector.Jobs.Chunker.{PlanItem}
use praelector.Jobs.Scheduler.{
  SchedulerAction, reuse, silence, synth, Dispatch, taken, is_admitted, dispatch,
}

-- What an item needs, whatever the gate says.
unfoldable pub need : (PlanItem → Bool) → PlanItem → SchedulerAction
need reusable x = if str_eq x.kind "silence" then silence else if reusable x then reuse else synth

abbrev pub needed : (PlanItem → Bool) → ℕ → List PlanItem → List Dispatch
needed reusable cursor [] = []
needed reusable cursor (x ∷ xs) =
    let rest = needed reusable cursor xs in
    if ltb x.ordinal cursor
    then rest
    else record { ordinal = x.ordinal; action = need reusable x } ∷ rest

abbrev pub is_synth : SchedulerAction → Bool
is_synth synth = true
is_synth _ = false

abbrev pub synths : List Dispatch → ℕ
synths [] = 0
synths (t ∷ ts) = if is_synth t.action then suc (synths ts) else synths ts

-- How `dispatch` stopped: at the end of the plan, or before an item that waits for the gate.
pub data Stop (admitted : Bool) : List Dispatch → Type 0 where
  finished : Stop admitted []
  waiting :
      (t : Dispatch) (ts : List Dispatch)
      → t.action ≡ synth
      → admitted ≡ false
      → Stop admitted (t ∷ ts)

abbrev pub admits : MonitorTick → AdmissionGate → Bool
admits tick g = is_admitted (try_acquire tick g).0

-- `ts` is what was taken of the items that are needed, with the gate going from `g` to `g'`.
pub record IsDispatch (tick : MonitorTick) (all ts : List Dispatch) (g g' : AdmissionGate)
    : Type 0 where
  pub left : List Dispatch
  pub prefix : all ≡ ts ++ left
  pub stop : Stop (admits tick g') left
  pub same_slots : g'.slots ≡ g.slots
  pub counted : g'.held ≡ g.held + synths ts
  pub within : g.held ≤ g.slots → g'.held ≤ g'.slots
  pub quiet : tick.admissions_paused ≡ true → synths ts ≡ 0

module _ (reusable : PlanItem → Bool) (tick : MonitorTick) where
  acquire_yes :
      (g : AdmissionGate)
      → admits tick g ≡ true
      → ((try_acquire tick g).1.slots ≡ g.slots) × ((try_acquire tick g).1.held ≡ g.held + 1)
  unfolding try_acquire
  acquire_yes g h = ground arith

  acquire_within :
      (g : AdmissionGate)
      → g.held ≤ g.slots
      → (try_acquire tick g).1.held ≤ (try_acquire tick g).1.slots
  unfolding try_acquire
  acquire_within g h = ground arith

  acquire_paused : (g : AdmissionGate) → tick.admissions_paused ≡ true → admits tick g ≡ true → ⊥
  unfolding try_acquire
  acquire_paused g h a = ground arith

  acquire_no : (g : AdmissionGate) → admits tick g ≡ false → (try_acquire tick g).1 ≡ g
  unfolding try_acquire
  acquire_no g h = ground arith

  step :
      (t : Dispatch) (all : List Dispatch) (n : ℕ) (r : List Dispatch × AdmissionGate)
      (g h : AdmissionGate)
      → (g.slots ≡ h.slots) × (g.held ≡ h.held + n)
      → (if is_synth t.action then 1 else 0) ≡ n
      → (h.held ≤ h.slots → g.held ≤ g.slots)
      → (tick.admissions_paused ≡ true → n ≡ 0)
      → IsDispatch tick all r.0 g r.1
      → IsDispatch tick (t ∷ all) (t ∷ r.0) h r.1
  step t all n r g h s e w q d = record {
    left = d.left;
    prefix = ap (◌∷◌ t) d.prefix;
    stop = d.stop;
    same_slots = d.same_slots ∙ s.0;
    counted = ground (arith, d.counted, s.1, e);
    within = λ l. d.within (w l);
    quiet = λ p. ground (arith, d.quiet p, q p, e);
  }

  abbrev Takes : List Dispatch → AdmissionGate → List Dispatch × AdmissionGate → Type 0
  Takes all g r = IsDispatch tick all r.0 g r.1

  -- One item, with what the rest of the plan comes to from the gate as it is and from the gate after
  -- a slot is taken.
  item-Takes :
      (x : PlanItem) (all : List Dispatch) (g : AdmissionGate) (r s : List Dispatch × AdmissionGate)
      → Takes all g r
      → Takes all (try_acquire tick g).1 s
      → Takes
          (record { ordinal = x.ordinal; action = need reusable x } ∷ all)
          g
          (elim (str_eq x.kind "silence") [
            | true ↦ taken x.ordinal SchedulerAction.silence r
            | false ↦ elim (reusable x) [
              | true ↦ taken x.ordinal SchedulerAction.reuse r
              | false ↦ elim (is_admitted (try_acquire tick g).0) [
                | true ↦ taken x.ordinal SchedulerAction.synth s
                | false ↦ ([], (try_acquire tick g).1)
              ]
            ]
          ])
  unfolding need
  item-Takes x all g r s hr hs = elim (Bool-cases (str_eq x.kind "silence")) [
    | inl quiet ↦ rw quiet (step _ all 0 r g g (refl, omega arith) refl (λ l. l) (λ p. refl) hr)
    | inr speech ↦ rw speech (elim (Bool-cases (reusable x)) [
      | inl again ↦ rw again (step _ all 0 r g g (refl, omega arith) refl (λ l. l) (λ p. refl) hr)
      | inr fresh ↦ rw fresh (elim (Bool-cases (admits tick g)) [
        | inl room ↦ rw room (
            step _ all 1 s _ g (acquire_yes g room) refl (acquire_within g)
              (λ p. absurd (acquire_paused g p room)) hs)
        | inr full ↦ rw full (
            let same = acquire_no g full in
            record {
              left = _;
              prefix = refl;
              stop = waiting _ _ refl (ap (admits tick) same ∙ full);
              same_slots = ap (λ h. h.slots) same;
              counted = omega (arith, ap (λ (h : AdmissionGate). h.held) same);
              within = acquire_within g;
              quiet = λ p. refl;
            })
      ])
    ])
  ]

  -- What `dispatch` takes is a prefix of what the plan needs from the cursor on, each item with the
  -- action that it needs, so no chunk jumps one that waits. It stops at the end of the plan or before
  -- a synthesis that the gate does not admit. Each synthesis holds one slot, never more slots are held
  -- than there are, and while admissions are paused nothing is synthesised.
  pub dispatch-IsDispatch :
      (xs : List PlanItem) (cursor : ℕ) (g : AdmissionGate)
      → IsDispatch tick
          (needed reusable cursor xs)
          (dispatch reusable tick xs cursor g).0
          g
          (dispatch reusable tick xs cursor g).1
  unfolding dispatch
  dispatch-IsDispatch [] cursor g = record {
    left = [];
    prefix = refl;
    stop = finished;
    same_slots = refl;
    counted = omega arith;
    within = λ l. l;
    quiet = λ p. refl;
  }
  dispatch-IsDispatch (x ∷ xs) cursor g =
      go (ltb x.ordinal cursor) (dispatch-IsDispatch xs cursor g) (
        item-Takes x (needed reusable cursor xs) g (dispatch reusable tick xs cursor g)
          (dispatch reusable tick xs cursor (try_acquire tick g).1)
          (dispatch-IsDispatch xs cursor g) (dispatch-IsDispatch xs cursor (try_acquire tick g).1))
    where
      go :
          (b : Bool) {r s : List Dispatch × AdmissionGate}
          → Takes (needed reusable cursor xs) g r
          → Takes
              (record { ordinal = x.ordinal; action = need reusable x } ∷ needed reusable cursor xs)
              g
              s
          → Takes
              (if b
                then needed reusable cursor xs
                else record { ordinal = x.ordinal; action = need reusable x }
                  ∷ needed reusable cursor xs)
              g
              (elim b [ true ↦ r | false ↦ s ])
      go true h k = h
      go false h k = k
