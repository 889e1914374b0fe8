-- ===== src/Jobs/Plan/Order.antt =====
-- The order of a plan and the size of its items.
use praelector.Base.{
  ℕ, suc, ◌+◌, ◌≡◌, refl, subst, ◌⊎◌, inl, inr, List, [], ◌∷◌, ◌++◌, str_eq, ltb, length, All,
  All-append, arith, Bool-cases,
}
use praelector.Base.Text.{Text}
use praelector.Domain.Errors.{ok}
use praelector.Domain.Hashing.{Digest}
use praelector.Jobs.Chunker.{SpokenRun, PlanItem, pieces}
use praelector.Jobs.Chunker.Fit.{Fits, pieces-Fits}
use praelector.Jobs.Plan.{Backend, speech_items, run_items, plan_from, plan_runs}

-- The ordinals count up from `n`.
abbrev pub Counts : ℕ → List PlanItem → Type 0
Counts n [] = Unit
Counts n (x ∷ xs) = (x.ordinal ≡ n) × Counts (suc n) xs

pub Counts-append :
    (n : ℕ) (xs ys : List PlanItem) → Counts n xs → Counts (n + length xs) ys → Counts n (xs ++ ys)
Counts-append n [] ys h k = let e : n + 0 ≡ n = omega arith in rw e at k
Counts-append n (x ∷ xs) ys h k =
    let e : n + suc (length xs) ≡ suc n + length xs = omega arith in
    (h.0, Counts-append (suc n) xs ys h.1 (subst (λ m. Counts m ys) e k))

-- A silence speaks nothing; anything else is speech that fits.
abbrev pub IsChunk : ℕ → PlanItem → Type 0
IsChunk limit x =
    ((x.kind ≡ "silence") × (x.spoken_text ≡ [])) ⊎ ((x.kind ≡ "tts") × Fits limit x.spoken_text)

module _ (d : Digest) (b : Backend) where
  speech_items-Counts :
      (n : ℕ) (run : SpokenRun) (ps : List Text) → Counts n (speech_items d b n run ps)
  unfolding speech_items
  speech_items-Counts n run [] = tt
  speech_items-Counts n run (p ∷ ps) = (refl, speech_items-Counts (suc n) run ps)

  speech_items-IsChunk :
      (limit n : ℕ) (run : SpokenRun) (ps : List Text)
      → All (Fits limit) ps
      → All (IsChunk limit) (speech_items d b n run ps)
  unfolding speech_items
  speech_items-IsChunk limit n run [] h = tt
  speech_items-IsChunk limit n run (p ∷ ps) h =
      (inr (refl, h.0), speech_items-IsChunk limit (suc n) run ps h.1)

  module _ (segment : Text → List Text) (limit : ℕ) where
    run_items-laws :
        (n : ℕ) (run : SpokenRun)
        → Counts n (run_items d b segment limit n run)
          × All (IsChunk limit) (run_items d b segment limit n run)
    unfolding run_items
    run_items-laws n run = elim (Bool-cases (str_eq run.kind "silence")) [
      | inl silence ↦ rw silence ((refl, tt), (inl (refl, refl), tt))
      | inr speech ↦ rw speech (
        speech_items-Counts n run (pieces segment run limit),
        speech_items-IsChunk limit n run _ (pieces-Fits segment run limit),
      )
    ]

    plan_from-laws :
        (n : ℕ) (runs : List SpokenRun)
        → Counts n (plan_from d b segment limit n runs)
          × All (IsChunk limit) (plan_from d b segment limit n runs)
    unfolding plan_from
    plan_from-laws n [] = (tt, tt)
    plan_from-laws n (run ∷ runs) =
        let (c, k) = run_items-laws n run in
        let (cs, ks) = plan_from-laws (n + length (run_items d b segment limit n run)) runs in
        (Counts-append n _ _ c cs, All-append (IsChunk limit) _ _ k ks)

    -- A plan numbers its items 0, 1, 2, … in order, and each is a silence that speaks nothing, or
    -- speech of at most `limit` characters, or of a single word.
    pub plan_runs-laws :
        (runs : List SpokenRun) (items : List PlanItem)
        → plan_runs d b segment limit runs ≡ ok items
        → Counts 0 items × All (IsChunk limit) items
    unfolding plan_runs
    plan_runs-laws runs items h = elim (Bool-cases (ltb limit 1)) [
      | inl low ↦ ground (arith, low)
      | inr fine ↦
          let same : plan_from d b segment limit 0 runs ≡ items = ground (arith, fine) in
          subst (λ xs. Counts 0 xs × All (IsChunk limit) xs) same (plan_from-laws 0 runs)
    ]
