-- ===== src/Gpu/Budget/Bounds.antt =====
-- What a computed budget promises.
use praelector.Base.{
  ℕ, zero, suc, ◌+◌, ◌-◌, ◌*◌, ◌/◌, ◌≤◌, ◌<◌, ◌≡◌, ◌≢◌, ◌⊎◌, refl, sym, ◌∙◌, subst, inl, inr, Bool,
  true, false, Option, none, some, arith, max, if◌then◌else◌, Bool-cases, true≢false, ◌↔◌,
}
use native.Mathlib.Nat.{div-add-mod', mod-lt, mul-le-mul_right}
use praelector.Base.Int.{ℤ, pos, negsuc, pos_part, sub_ℕ, ltb_ℤ}
use praelector.Domain.Errors.{ok, >>=-eq-ok, ok-injective}
use praelector.Gpu.Budget.Sources.{
  peak-pos, peak_from-IsPeak, reserve-IsReserve, IsReserve, IsPeakOf,
}
use praelector.Gpu.Budget.{
  Request, GpuBudget, PeakSource, peak, reserve, at_least_one, is_cpu, single_worker,
  workers_formula, card_budget, budget_for, compute_budget, admits_worker,
}

-- On a card with this free memory the budget warns exactly when one worker does not fit beside the
-- reserve, and with fewer workers than the request allows no further one fits.
abbrev pub IsFull : Request → GpuBudget → (free : ℕ) → Type 0
IsFull q b free =
    ((b.low_vram_warning ≡ true) ↔ (free < b.reserve_mib + b.peak_worker_mib))
    × (b.effective_workers < max 1 (pos_part q.worker_cap)
        → b.effective_workers < max 1 (pos_part q.backend_max_parallel)
        → free < b.reserve_mib + suc b.effective_workers * b.peak_worker_mib)

-- The peak and the limits are the request's, where a limit below one counts as one, the workers are
-- at least one and within every limit, and their peaks fit beside the reserve unless the budget warns
-- of low memory.
pub record IsSound (q : Request) (b : GpuBudget) : Type 0 where
  pub one : 1 ≤ b.effective_workers
  pub within_formula : b.effective_workers ≤ b.max_workers_formula
  pub within_cap : b.effective_workers ≤ max 1 (pos_part q.worker_cap)
  pub within_parallel : b.effective_workers ≤ max 1 (pos_part q.backend_max_parallel)
  pub cap : b.worker_cap ≡ max 1 (pos_part q.worker_cap)
  pub parallel : b.backend_max_parallel ≡ max 1 (pos_part q.backend_max_parallel)
  pub peak_pos : 0 < b.peak_worker_mib
  pub peak_of : IsPeakOf q b.peak_worker_mib
  pub cpu_single : is_cpu q.vendor ≡ true → b.effective_workers ≡ 1
  pub fits :
      is_cpu q.vendor ≡ false
      → b.low_vram_warning ≡ false
      → (free : ℕ) × (total : ℕ) × (q.memory_free_mib ≡ some free)
        × (q.memory_total_mib ≡ some total)
        × IsReserve q.reserve_override_mib total b.reserve_mib
        × (b.reserve_mib + b.effective_workers * b.peak_worker_mib ≤ free)
  pub full :
      (free total : ℕ)
      → is_cpu q.vendor ≡ false
      → q.memory_free_mib ≡ some free
      → q.memory_total_mib ≡ some total
      → IsFull q b free

at_least_one-max : (n : ℤ) → at_least_one n ≡ max 1 (pos_part n)
unfolding at_least_one
at_least_one-max (pos n) = ground arith
at_least_one-max (negsuc n) = ground arith

at_least_one-pos : (n : ℤ) → 1 ≤ at_least_one n
unfolding at_least_one
at_least_one-pos (pos n) = ground arith
at_least_one-pos (negsuc n) = omega arith

-- One worker is the answer for a CPU and where the memory cannot be read.
abbrev IsSingle : Request → Type 0
IsSingle q = (is_cpu q.vendor ≡ true) ⊎ (q.memory_free_mib ≡ none) ⊎ (q.memory_total_mib ≡ none)

single_worker-IsSound :
    (q : Request) (p : ℕ × PeakSource)
    → 0 < p.0
    → IsPeakOf q p.0
    → IsSingle q
    → IsSound q (single_worker q p)
unfolding single_worker
single_worker-IsSound q p h k single = record {
  one = omega arith;
  within_formula = omega arith;
  within_cap = omega arith;
  within_parallel = omega arith;
  cap = at_least_one-max q.worker_cap;
  parallel = at_least_one-max q.backend_max_parallel;
  peak_pos = h;
  peak_of = k;
  cpu_single = λ c. refl;
  fits = λ c w. absurd (true≢false (ground arith));
  full = λ free total c seen seen'. elim single [
    | inl cpu ↦ absurd (true≢false (sym cpu ∙ c))
    | inr (inl blind) ↦ absurd (some≢none (sym seen ∙ blind))
    | inr (inr blind) ↦ absurd (some≢none (sym seen' ∙ blind))
  ];
}
  where
    some≢none : {n : ℕ} → some n ≢ none
    some≢none e = cc

warning_iff : (free r p : ℕ) → (ltb_ℤ (sub_ℕ free r) (pos p) ≡ true) ↔ (free < r + p)
warning_iff free r p = ground arith

next_over : (m p : ℕ) → 0 < p → m < suc (m / p) * p
next_over m p h = omega (arith, div-add-mod' m p, mod-lt m h)

headroom_fits : (free r p : ℕ) → ltb_ℤ (sub_ℕ free r) (pos p) ≡ false → r + p ≤ free
headroom_fits free r p h = ground arith

formula_eq :
    (free r p : ℕ)
    → 0 < p
    → r + p ≤ free
    → workers_formula (sub_ℕ free r) p ≡ max 1 ((free - r) / p)
unfolding workers_formula
formula_eq free r p h l = ground arith

max_one_fits : (k p m : ℕ) → p ≤ m → k * p ≤ m → max 1 k * p ≤ m
max_one_fits zero p m h l = omega arith
max_one_fits (suc k) p m h l = let e : max 1 (suc k) ≡ suc k = omega arith in rw e l

quotient_fits : (m p : ℕ) → m / p * p ≤ m
quotient_fits m p = omega (arith, div-add-mod' m p)

formula_fits :
    (free r p n : ℕ)
    → 0 < p
    → ltb_ℤ (sub_ℕ free r) (pos p) ≡ false
    → n ≤ workers_formula (sub_ℕ free r) p
    → r + n * p ≤ free
formula_fits free r p n h w l =
    let room = headroom_fits free r p w in
    let l' = subst (λ k. n ≤ k) (formula_eq free r p h room) l in
    let top =
      max_one_fits ((free - r) / p) p (free - r) (omega (arith, room))
        (quotient_fits (free - r) p) in
    omega (arith, room, top, mul-le-mul_right p l')

formula_pos : (h : ℤ) (p : ℕ) → 1 ≤ workers_formula h p
unfolding workers_formula
formula_pos h p = omega arith

-- With as many workers as the formula says no further one fits.
formula_full :
    (free r p n : ℕ) → 0 < p → n ≡ workers_formula (sub_ℕ free r) p → free < r + suc n * p
formula_full free r p n h e = elim (Bool-cases (ltb_ℤ (sub_ℕ free r) (pos p))) [
  | inl tight ↦ omega (arith, (warning_iff free r p).0 tight)
  | inr room ↦
      let fits = headroom_fits free r p room in
      let k : (free - r) / p ≤ n =
        subst (λ m. (free - r) / p ≤ m) (sym (e ∙ formula_eq free r p h fits)) (omega arith) in
      omega (arith, fits, next_over (free - r) p h, mul-le-mul_right p k)
]

some-injective : {a b : ℕ} → some a ≡ some b → a ≡ b
some-injective e = cc

card_budget-IsSound :
    (q : Request) (p : ℕ × PeakSource) (total free : ℕ)
    → 0 < p.0
    → IsPeakOf q p.0
    → is_cpu q.vendor ≡ false
    → q.memory_free_mib ≡ some free
    → q.memory_total_mib ≡ some total
    → IsSound q (card_budget q p total free)
unfolding card_budget
card_budget-IsSound q p total free h k c seen seen' =
    let r = reserve total q.reserve_override_mib in
    let a = at_least_one-pos q.worker_cap in
    let b = at_least_one-pos q.backend_max_parallel in
    record {
      one = omega (arith, a, b, formula_pos (sub_ℕ free r.0) p.0);
      within_formula = omega arith;
      within_cap = omega (arith, at_least_one-max q.worker_cap);
      within_parallel = omega (arith, at_least_one-max q.backend_max_parallel);
      cap = at_least_one-max q.worker_cap;
      parallel = at_least_one-max q.backend_max_parallel;
      peak_pos = h;
      peak_of = k;
      cpu_single = λ d. absurd (true≢false (sym d ∙ c));
      fits = λ d w. (
        free,
        total,
        seen,
        seen',
        reserve-IsReserve q.reserve_override_mib total,
        formula_fits free r.0 p.0 _ h w (omega arith),
      );
      full = λ free' total' d same same'.
          subst (IsFull q (card_budget q p total free)) (some-injective (sym seen ∙ same)) (
            warning_iff free r.0 p.0,
            λ below below'. formula_full free r.0 p.0 _ h (
                omega (
                  arith,
                  below,
                  below',
                  at_least_one-max q.worker_cap,
                  at_least_one-max q.backend_max_parallel,
                )),
          );
    }

abbrev Chosen : Request → ℕ × PeakSource → ℕ → ℕ → Bool → Type 0
Chosen q p total free b = IsSound q (if b then single_worker q p else card_budget q p total free)

budget_for-IsSound :
    (q : Request) (p : ℕ × PeakSource) (total free : Option ℕ)
    → 0 < p.0
    → IsPeakOf q p.0
    → q.memory_free_mib ≡ free
    → q.memory_total_mib ≡ total
    → IsSound q (budget_for q p total free)
unfolding budget_for
budget_for-IsSound q p none free h k seen seen' = single_worker-IsSound q p h k (inr (inr seen'))
budget_for-IsSound q p (some total) none h k seen seen' =
    single_worker-IsSound q p h k (inr (inl seen))
budget_for-IsSound q p (some total) (some free) h k seen seen' =
    elim (Bool-cases (is_cpu q.vendor)) [
      | inl cpu ↦ subst (Chosen q p total free) (sym cpu) (single_worker-IsSound q p h k (inl cpu))
      | inr card ↦
          subst (Chosen q p total free) (sym card)
            (card_budget-IsSound q p total free h k card seen seen')
    ]

-- Every budget that is computed is sound. Its peak is the one that the request asks for, or the
-- measured one, or the one of the table; its cap and its parallel limit are the request's, where one
-- below one counts as one. It has at least one worker and no more than these two and the formula in it
-- allow, and one when the request is for a CPU. On a card whose memory can be read it warns of low
-- memory exactly when the reserve and one peak do not fit in the free memory, and with fewer workers
-- than the cap and the limit allow no further one fits. A card's budget that does not warn has a
-- reserve as the request asks for, or of at least 1.5 GiB and a fifth of the card, which fits in the
-- free memory together with the peaks of all the workers.
pub compute_budget-IsSound : (q : Request) (b : GpuBudget) → compute_budget q ≡ ok b → IsSound q b
unfolding compute_budget
compute_budget-IsSound q b h =
    let (p, e, r) = >>=-eq-ok (peak q) _ h in
    subst (IsSound q) (ok-injective r) (
      budget_for-IsSound q p _ _ (peak-pos q p e) (unfold peak in peak_from-IsPeak q _ _ _ p e) refl
        refl)

-- The spawn check is the budget's own reading of memory: it admits a worker exactly when the free
-- memory holds the reserve and one peak.
pub admits_worker_iff : (free r p : ℕ) → 0 < p → (admits_worker free r p ≡ true) ↔ (r + p ≤ free)
unfolding admits_worker
admits_worker_iff free r p h = ground arith
