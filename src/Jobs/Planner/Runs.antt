-- ===== src/Jobs/Planner/Runs.antt =====
-- What the runs of a plan promise: filled slots, no empty speech, and no two runs that should be one.
use praelector.Base.{
  ◌≡◌, refl, sym, ap, ◌∙◌, subst, true, false, Option, String, str_eq, List, [], ◌∷◌, ◌++◌, arith,
  true≢false, All, All-append, Bool-cases, inl, inr, ◌⊎◌,
}
use praelector.Base.Text.{Text}
use praelector.Domain.{VoiceMode}
use praelector.Domain.Errors.{ok, >>=-eq-ok, ok-injective}
use praelector.Jobs.Chunker.{SpokenRun, is_empty, space}
use praelector.Spans.Apply.{AppliedSpan}
use praelector.Voices.Assignment.{
  SlotAssignment, is_filled, narrator, assign_slot, Assigned, assign_slot-Assigned, assign_slot-ok,
}
use praelector.Jobs.Planner.{
  SourceBlock, Profiles, profile_of, cover, speak, Spoken, run_of, push_silence, joins, append_run,
  gender_or_none, push_assigned, push_speech, push_span, push_spans, push_blocks, spoken_runs,
}

-- A silence speaks nothing; speech speaks something, in a slot that has a voice.
abbrev pub IsRun : List String → SpokenRun → Type 0
IsRun filled run =
    ((run.kind ≡ "silence") × (run.text ≡ []))
    ⊎ ((run.kind ≡ "tts") × (is_empty run.text ≡ false) × (is_filled filled run.voice_slot ≡ true))

-- No run would have joined the one in front of it.
abbrev pub Apart : List SpokenRun → Type 0
Apart [] = Unit
Apart (run ∷ []) = Unit
Apart (p ∷ q ∷ rest) = ((q.kind ≡ "tts") → joins p q ≡ false) × Apart (q ∷ rest)

is_empty-append : (s t : Text) → is_empty s ≡ false → is_empty (s ++ t) ≡ false
is_empty-append [] t h = cc
is_empty-append (c ∷ s) t h = refl

silence-tts : {kind : String} → kind ≡ "silence" → str_eq kind "tts" ≡ true → ⊥
silence-tts {kind} k h = true≢false (sym h ∙ ap (λ s. str_eq s "tts") k)

extended-IsRun :
    (filled : List String) (p run : SpokenRun)
    → joins p run ≡ true
    → IsRun filled p
    → IsRun filled (record p { text = p.text ++ space ∷ run.text })
extended-IsRun filled p run j (inl (kind, empty)) = absurd (silence-tts kind (ground (arith, j)))
extended-IsRun filled p run j (inr (kind, text, slot)) =
    inr (kind, is_empty-append p.text (space ∷ run.text) text, slot)

append_run-IsRun :
    (filled : List String) (run : SpokenRun) (runs : List SpokenRun)
    → IsRun filled run
    → All (IsRun filled) runs
    → All (IsRun filled) (append_run run runs)
unfolding append_run
append_run-IsRun filled run [] r h = (r, tt)
append_run-IsRun filled run (p ∷ []) r h = elim (Bool-cases (joins p run)) [
  | inl joined ↦ rw joined (extended-IsRun filled p run joined h.0, tt)
  | inr apart ↦ rw apart (h.0, (r, tt))
]
append_run-IsRun filled run (p ∷ q ∷ rest) r h = (h.0, append_run-IsRun filled run (q ∷ rest) r h.1)

cons-Apart :
    (p q run : SpokenRun) (rest : List SpokenRun)
    → (q.kind ≡ "tts" → joins p q ≡ false)
    → Apart (append_run run (q ∷ rest))
    → Apart (p ∷ append_run run (q ∷ rest))
unfolding append_run
cons-Apart p q run [] f h = elim (Bool-cases (joins q run)) [
  | inl joined ↦ rw joined (f, tt)
  | inr apart ↦ rw apart (f, ((λ k. apart), tt))
]
cons-Apart p q run (r ∷ rest) f h = (f, h)

append_run-Apart :
    (run : SpokenRun) (runs : List SpokenRun) → Apart runs → Apart (append_run run runs)
unfolding append_run
append_run-Apart run [] h = tt
append_run-Apart run (p ∷ []) h = elim (Bool-cases (joins p run)) [
  | inl joined ↦ rw joined tt
  | inr apart ↦ rw apart ((λ k. apart), tt)
]
append_run-Apart run (p ∷ q ∷ rest) h =
    cons-Apart p q run rest h.0 (append_run-Apart run (q ∷ rest) h.1)

snoc-Apart :
    (run : SpokenRun) (runs : List SpokenRun)
    → run.kind ≡ "silence"
    → Apart runs
    → Apart (runs ++ run ∷ [])
snoc-Apart run [] k h = tt
snoc-Apart run (p ∷ []) k h =
    ((λ t. absurd (true≢false (ap (λ s. str_eq s "tts") (sym t ∙ k)))), tt)
snoc-Apart run (p ∷ q ∷ rest) k h = (h.0, snoc-Apart run (q ∷ rest) k h.1)

abbrev pub IsSpoken : List String → Spoken → Type 0
IsSpoken filled s = All (IsRun filled) s.runs × Apart s.runs

module _ (mode : VoiceMode) (filled : List String) (profiles : Profiles) where
  push_silence-IsSpoken :
      (chapter_id : String) (s : Spoken)
      → IsSpoken filled s
      → IsSpoken filled (push_silence profiles chapter_id s)
  unfolding push_silence
  push_silence-IsSpoken chapter_id s (r, a) = (
    All-append (IsRun filled) s.runs _ r (inl (refl, refl), tt),
    snoc-Apart (run_of chapter_id narrator "silence" [] (profile_of profiles narrator)) s.runs refl
        a,
  )

  push_assigned-IsSpoken :
      (chapter_id : String) (spoken : Text) (a : SlotAssignment) (s : Spoken)
      → is_empty spoken ≡ false
      → is_filled filled a.slot ≡ true
      → IsSpoken filled s
      → IsSpoken filled (push_assigned mode filled profiles chapter_id spoken a s)
  unfolding push_assigned
  push_assigned-IsSpoken chapter_id spoken a s text slot (r, apart) =
      (append_run-IsRun filled _ s.runs (inr (refl, text, slot)) r, append_run-Apart _ s.runs apart)

  assigned_slot :
      (kind : String) (gender : Option Text) (a : SlotAssignment)
      → assign_slot mode kind gender filled ≡ ok a
      → is_filled filled a.slot ≡ true
  assigned_slot kind gender a q =
      (subst (Assigned mode kind gender filled) q (assign_slot-Assigned mode kind gender filled)).0

  push_span-IsSpoken :
      (chapter_id : String) (span : AppliedSpan) (spoken : Text) (s t : Spoken)
      → IsSpoken filled s
      → push_span mode filled profiles chapter_id span spoken s ≡ ok t
      → IsSpoken filled t
  unfolding push_span push_speech
  push_span-IsSpoken chapter_id span spoken s t i h = elim (Bool-cases (str_eq span.kind "pause")) [
    | inl pause ↦
        let same : push_silence profiles chapter_id s ≡ t = ground (arith, pause) in
        subst (IsSpoken filled) same (push_silence-IsSpoken chapter_id s i)
    | inr speech ↦ elim (Bool-cases (is_empty spoken)) [
      | inl nothing ↦
          let same : s ≡ t = ground (arith, speech, nothing) in subst (IsSpoken filled) same i
      | inr text ↦
          let pushed : push_speech mode filled profiles chapter_id span spoken s ≡ ok t =
            ground (arith, speech, text) in
          let (a, q, e) =
            >>=-eq-ok (assign_slot mode span.kind (gender_or_none span.gender) filled)
              (λ a. ok (push_assigned mode filled profiles chapter_id spoken a s)) pushed in
          subst (IsSpoken filled) (ok-injective e) (
            push_assigned-IsSpoken chapter_id spoken a s text
              (assigned_slot span.kind (gender_or_none span.gender) a q) i)
    ]
  ]

  push_spans-IsSpoken :
      (block : SourceBlock) (spans : List AppliedSpan) (s t : Spoken)
      → IsSpoken filled s
      → push_spans mode filled profiles block spans s ≡ ok t
      → IsSpoken filled t
  unfolding push_spans
  push_spans-IsSpoken block [] s t i h = subst (IsSpoken filled) (ok-injective h) i
  push_spans-IsSpoken block (span ∷ spans) s t i h =
      let spoken = speak block.text block.spans span.start span.end in
      let (u, one, rest) =
        >>=-eq-ok (push_span mode filled profiles block.chapter_id span spoken s)
          (push_spans mode filled profiles block spans) h in
      push_spans-IsSpoken block spans u t
        (push_span-IsSpoken block.chapter_id span spoken s u i one) rest

  push_blocks-IsSpoken :
      (blocks : List SourceBlock) (s t : Spoken)
      → IsSpoken filled s
      → push_blocks mode filled profiles blocks s ≡ ok t
      → IsSpoken filled t
  unfolding push_blocks
  push_blocks-IsSpoken [] s t i h = subst (IsSpoken filled) (ok-injective h) i
  push_blocks-IsSpoken (block ∷ blocks) s t i h =
      let (u, one, rest) =
        >>=-eq-ok (push_spans mode filled profiles block (cover block.text block.spans) s)
          (push_blocks mode filled profiles blocks) h in
      push_blocks-IsSpoken blocks u t
        (push_spans-IsSpoken block (cover block.text block.spans) s u i one) rest

  module _ (there : is_filled filled narrator ≡ true) where
    push_span-ok :
        (chapter_id : String) (span : AppliedSpan) (spoken : Text) (s : Spoken)
        → (t : Spoken) × (push_span mode filled profiles chapter_id span spoken s ≡ ok t)
    unfolding push_span push_speech
    push_span-ok chapter_id span spoken s = elim (Bool-cases (str_eq span.kind "pause")) [
      | inl pause ↦ (push_silence profiles chapter_id s, rw pause)
      | inr speech ↦ elim (Bool-cases (is_empty spoken)) [
        | inl nothing ↦ (s, rw (speech, nothing))
        | inr text ↦
            let (a, q) = assign_slot-ok mode span.kind (gender_or_none span.gender) filled there in
            (push_assigned mode filled profiles chapter_id spoken a s, rw (speech, text, q))
      ]
    ]

    push_spans-ok :
        (block : SourceBlock) (spans : List AppliedSpan) (s : Spoken)
        → (t : Spoken) × (push_spans mode filled profiles block spans s ≡ ok t)
    unfolding push_spans
    push_spans-ok block [] s = (s, refl)
    push_spans-ok block (span ∷ spans) s =
        let spoken = speak block.text block.spans span.start span.end in
        let (u, one) = push_span-ok block.chapter_id span spoken s in
        let (t, rest) = push_spans-ok block spans u in (t, rw (one, rest))

    push_blocks-ok :
        (blocks : List SourceBlock) (s : Spoken)
        → (t : Spoken) × (push_blocks mode filled profiles blocks s ≡ ok t)
    unfolding push_blocks
    push_blocks-ok [] s = (s, refl)
    push_blocks-ok (block ∷ blocks) s =
        let (u, one) = push_spans-ok block (cover block.text block.spans) s in
        let (t, rest) = push_blocks-ok blocks u in (t, rw (one, rest))

    -- With a voice for the narrator the blocks become runs: each is a silence that speaks nothing, or
    -- speech that is not empty in a slot that has a voice, and no two speeches of one chapter in one
    -- slot stand next to each other.
    pub spoken_runs-IsSpoken :
        (blocks : List SourceBlock)
        → (t : Spoken) × (spoken_runs mode filled profiles blocks ≡ ok t) × IsSpoken filled t
    unfolding spoken_runs
    spoken_runs-IsSpoken blocks =
        let (t, q) = push_blocks-ok blocks (record { runs = []; warnings = [] }) in
        (t, q, push_blocks-IsSpoken blocks _ t (tt, tt) q)
