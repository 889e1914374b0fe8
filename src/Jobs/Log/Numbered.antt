-- ===== src/Jobs/Log/Numbered.antt =====
-- A log without gaps: its lines are numbered 1, 2, 3, …
use praelector.Base.{
  ℕ, zero, suc, ◌+◌, ◌-◌, ◌≤◌, ◌≡◌, refl, sym, List, [], ◌∷◌, ◌++◌, arith, ltb, length, drop, keep,
  max, Bool-cases, inl, inr,
}
use praelector.Jobs.Log.{Event, Files, max_seq, last_logged_seq, events_since}

-- The lines after the first `k` are numbered from `k + 1` on.
abbrev pub Numbered : ℕ → List Event → Type 0
Numbered k [] = Unit
Numbered k (e ∷ es) = (e.seq ≡ suc k) × Numbered (suc k) es

pub max_seq-Numbered : (k : ℕ) (es : List Event) → Numbered k es → max_seq k es ≡ k + length es
max_seq-Numbered k [] n = omega arith
max_seq-Numbered k (e ∷ es) n =
    let top : max k e.seq ≡ suc k = omega (arith, n.0) in
    rw top (omega (arith, max_seq-Numbered (suc k) es n.1))

pub Numbered-snoc :
    (k : ℕ) (es : List Event) (e : Event)
    → Numbered k es
    → e.seq ≡ k + length es + 1
    → Numbered k (es ++ e ∷ [])
Numbered-snoc k [] e n h = (omega arith, tt)
Numbered-snoc k (x ∷ es) e n h = (n.0, Numbered-snoc (suc k) es e n.1 (omega arith))

keep_all : (s k : ℕ) (es : List Event) → Numbered k es → s ≤ k → keep (λ e. ltb s e.seq) es ≡ es
keep_all s k [] n h = refl
keep_all s k (e ∷ es) n h = ground (arith, keep_all s (suc k) es n.1, n.0)

drop_nil : (m : ℕ) → drop {A = Event} m [] ≡ []
drop_nil zero = refl
drop_nil (suc m) = refl

keep-drop :
    (s k : ℕ) (es : List Event) → Numbered k es → keep (λ e. ltb s e.seq) es ≡ drop (s - k) es
keep-drop s k [] n = sym (drop_nil (s - k))
keep-drop s k (e ∷ es) n = elim (Bool-cases (ltb k s)) [
  | inl more ↦
      let m : s - k ≡ suc (s - suc k) = ground arith in
      rw m (ground (arith, keep-drop s (suc k) es n.1, n.0))
  | inr less ↦ let m : s - k ≡ 0 = ground arith in rw m (keep_all s k (e ∷ es) n (ground arith))
]

-- On a gapless log, asking for the events after `seq` returns the log without its first `seq` lines.
pub events_since-drop :
    (seq : ℕ) (f : Files) → Numbered 0 f.events → events_since seq f ≡ drop seq f.events
unfolding events_since
events_since-drop seq f n =
    let m : seq - 0 ≡ seq = omega arith in rw (keep-drop seq 0 f.events n, m)

pub last_logged_seq-Numbered :
    (f : Files) → Numbered 0 f.events → last_logged_seq f ≡ length f.events
last_logged_seq-Numbered f n = omega (arith, max_seq-Numbered 0 f.events n)
