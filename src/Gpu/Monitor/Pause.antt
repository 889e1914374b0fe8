-- ===== src/Gpu/Monitor/Pause.antt =====
-- The pause against its specification: admissions are paused exactly while one of the last
-- `resume_samples` samples was below the reserve.
use praelector.Base.{
  ℕ, zero, suc, ◌+◌, ◌≤◌, ◌<◌, ◌≡◌, refl, sym, ap, ◌∙◌, subst, Bool, true, false, ◌&&◌, not, Option,
  none, some, List, [], ◌∷◌, arith, ltb, leb, if◌then◌else◌, take, some_of, Bool-cases, inl, inr,
  ◌↔◌,
}
use praelector.Gpu.Budget.Bounds.{admits_worker_iff}
use praelector.Gpu.Monitor.{
  VramReading, MonitorTick, VramMonitor, is_below, fits, judge, sample, repeat_tick, poll_after,
  poll,
}

-- How many clear samples stand before the last one below the reserve; newest first.
since : List Bool → Option ℕ
since [] = none
since (true ∷ h) = some 0
since (false ∷ h) = elim (since h) [ none ↦ none | some j ↦ some (suc j) ]

abbrev within : ℕ → Option ℕ → Bool
within k none = false
within k (some j) = ltb j k

some_of-since : (k : ℕ) (h : List Bool) → some_of (λ b. b) (take k h) ≡ within k (since h)
unfolding since
some_of-since zero h = go (since h)
  where
    go : (o : Option ℕ) → false ≡ within 0 o
    go none = refl
    go (some j) = ground arith
some_of-since (suc k) [] = refl
some_of-since (suc k) (true ∷ h) = ground arith
some_of-since (suc k) (false ∷ h) = some_of-since k h ∙ go (since h)
  where
    go :
        (o : Option ℕ)
        → within k o ≡ within (suc k) (elim o [ none ↦ none | some j ↦ some (suc j) ])
    go none = refl
    go (some j) = ground arith

-- What the monitor knows of its history: the pause, and the streak while it is paused.
Tracks : ℕ → Option ℕ → Bool → ℕ → Type 0
Tracks k o true streak = (o ≡ some streak) × (streak < k)
Tracks k o false streak = (within k o ≡ false) × (streak ≡ 0)

judge-Tracks :
    (k : ℕ) (h : List Bool) (below paused : Bool) (streak : ℕ)
    → 0 < k
    → Tracks k (since h) paused streak
    → Tracks k
        (since (below ∷ h))
        (judge below paused streak k).paused
        (judge below paused streak k).clear_streak
unfolding judge Tracks since
judge-Tracks k h true paused streak pos t = (refl, pos)
judge-Tracks k h false true streak pos (e, l) = elim (Bool-cases (leb k (streak + 1))) [
  | inl resumed ↦ rw (resumed, Tracks) (rw e (ground arith), refl)
  | inr still ↦ rw (still, Tracks) (rw e (ap some (omega arith)), ground arith)
]
judge-Tracks k h false false streak pos (e, l) = (go (since h) e, refl)
  where
    go :
        (o : Option ℕ)
        → within k o ≡ false
        → within k (elim o [ none ↦ none | some j ↦ some (suc j) ]) ≡ false
    go none e' = refl
    go (some j) e' = ground arith

-- A series of polls, the newest first: the monitor, and the readings that were sampled.
unfoldable pub polls : VramMonitor → List (ℕ × VramReading) → VramMonitor × List VramReading
polls m [] = (m, [])
polls m ((moment, reading) ∷ earlier) =
    let (m', seen) = polls m earlier in
    let (tick, m'') = poll m' moment reading in (m'', if tick.sampled then reading ∷ seen else seen)

abbrev pub below_all : ℕ → List VramReading → List Bool
below_all reserve [] = []
below_all reserve (r ∷ rs) = is_below reserve r.memory_free_mib ∷ below_all reserve rs

-- The monitor `n` after the readings `seen`, from the monitor `m`.
record Follows (m n : VramMonitor) (seen : List VramReading) : Type 0 where
  reserve : n.reserve_mib ≡ m.reserve_mib
  samples : n.resume_samples ≡ m.resume_samples
  tracks : Tracks m.resume_samples (since (below_all m.reserve_mib seen)) n.paused n.clear_streak

sample-Follows :
    (m n : VramMonitor) (moment : ℕ) (r : VramReading) (seen : List VramReading)
    → 0 < m.resume_samples
    → Follows m n seen
    → Follows m (sample n moment r).1 (r ∷ seen)
unfolding sample
sample-Follows m n moment r seen pos f = record {
  reserve = f.reserve;
  samples = f.samples;
  tracks =
      rw (f.reserve, f.samples)
        (judge-Tracks m.resume_samples (below_all m.reserve_mib seen)
          (is_below m.reserve_mib r.memory_free_mib) n.paused n.clear_streak pos f.tracks);
}

abbrev Outcome : VramMonitor → List VramReading → VramReading → MonitorTick × VramMonitor → Type 0
Outcome m seen r (tick, n) = Follows m n (if tick.sampled then r ∷ seen else seen)

poll_after-Follows :
    (m n : VramMonitor) (last : Option MonitorTick) (at : Option ℕ) (moment : ℕ) (r : VramReading)
    (seen : List VramReading)
    → 0 < m.resume_samples
    → Follows m n seen
    → Outcome m seen r (poll_after n last at moment r)
unfolding poll_after sample repeat_tick
poll_after-Follows m n none at moment r seen pos f = sample-Follows m n moment r seen pos f
poll_after-Follows m n (some last) none moment r seen pos f = sample-Follows m n moment r seen pos f
poll_after-Follows m n (some last) (some at) moment r seen pos f =
    elim (Bool-cases (ltb moment (at + n.interval))) [
      | inl early ↦ rw early f
      | inr due ↦ rw due (sample-Follows m n moment r seen pos f)
    ]

polls-Follows :
    (m : VramMonitor) (ps : List (ℕ × VramReading))
    → 0 < m.resume_samples
    → m.paused ≡ false
    → m.clear_streak ≡ 0
    → Follows m (polls m ps).0 (polls m ps).1
unfolding polls poll since
polls-Follows m [] pos p z = record {
  reserve = refl;
  samples = refl;
  tracks =
      subst (λ b. Tracks m.resume_samples none b m.clear_streak) (sym p)
        (unfold Tracks in (refl, z));
}
polls-Follows m ((moment, r) ∷ ps) pos p z =
    let n = (polls m ps).0 in
    poll_after-Follows m n n.last n.last_at moment r (polls m ps).1 pos (polls-Follows m ps pos p z)

Tracks-paused : (k : ℕ) (o : Option ℕ) (b : Bool) (s : ℕ) → Tracks k o b s → b ≡ within k o
unfolding Tracks
Tracks-paused k o true s (e, l) = rw e (ground arith)
Tracks-paused k o false s (e, l) = sym e

-- From a fresh monitor, after any polls, admissions are paused exactly when one of the last
-- `resume_samples` readings that were sampled was below the reserve. Polls that come before the
-- interval is over change nothing, and a reading without a free size counts as clear.
pub paused_iff_below :
    (m : VramMonitor) (ps : List (ℕ × VramReading))
    → 0 < m.resume_samples
    → m.paused ≡ false
    → m.clear_streak ≡ 0
    → (polls m ps).0.paused
      ≡ some_of (λ b. b) (take m.resume_samples (below_all m.reserve_mib (polls m ps).1))
paused_iff_below m ps pos p z =
    Tracks-paused _ _ _ _ (polls-Follows m ps pos p z).tracks
    ∙ sym (some_of-since m.resume_samples (below_all m.reserve_mib (polls m ps).1))

-- The free memory was read, and holds the reserve and one more peak.
abbrev pub Room : VramMonitor → Option ℕ → Type 0
Room m o = (free : ℕ) × (o ≡ some free) × (m.reserve_mib + m.peak_worker_mib ≤ free)

fits_iff :
    (m : VramMonitor) (o : Option ℕ) (b : Bool)
    → 0 < m.peak_worker_mib
    → ((fits m o && not b) ≡ true) ↔ ((b ≡ false) × Room m o)
fits_iff m none b pos = ((λ h. cc), λ (p, r). let (free, e, l) = r in cc)
fits_iff m (some free) true pos = ((λ h. ground arith), λ (p, r). cc)
fits_iff m (some free) false pos =
    let (to, from) = admits_worker_iff free m.reserve_mib m.peak_worker_mib pos in
    (
      (λ h. (refl, (free, refl, to (ground arith)))),
      (λ (p, r).
          let (other, e, l) = r in
          let same : free ≡ other = cc e in ground (arith, from (omega (arith, same, l)))),
    )

-- A tick that was sampled admits a worker exactly when admissions are not paused and the free memory
-- that was read holds the reserve and one more peak.
pub sample_admits :
    (m : VramMonitor) (moment : ℕ) (r : VramReading)
    → 0 < m.peak_worker_mib
    → ((sample m moment r).0.admits ≡ true)
      ↔ (((sample m moment r).1.paused ≡ false) × Room m r.memory_free_mib)
unfolding sample
sample_admits m moment r pos = fits_iff m r.memory_free_mib _ pos
