-- ===== src/Plain/Associated.antt =====
-- What `associate_block_ids` promises of the blocks that it pairs.
use praelector.Base.{
  ℕ, zero, suc, ◌+◌, ◌≡◌, ◌≢◌, refl, sym, ap, ◌∙◌, subst, true, false, ◌||◌, ◌⊎◌, inl, inr, Option,
  none, some, String, List, [], ◌∷◌, length, get_elem?, All, All-append, Bool-cases, true≢false,
  arith,
}
use mathlib.Core.Option.{some-injective, none-ne-some}
use praelector.Base.Sort.{sorted, All-sorted}
use praelector.Base.Text.{Text}
use praelector.Plain.{
  Score, Pairing, better, set, has, no_ids, pair_up, scores_of, all_scores, threshold,
  normalise_match_text, associate_block_ids,
}
use praelector.Plain.Matching.{ratio, lower_ratio}

-- No two blocks have one identifier.
abbrev pub AreNamed : List (String × Text) → Type 0
AreNamed existing =
    (i j : ℕ) (a b : String × Text)
    → get_elem? existing i ≡ some a
    → get_elem? existing j ≡ some b
    → a.0 ≡ b.0
    → i ≡ j

set-length {ℓ} : {A : Type ℓ} (xs : List A) (i : ℕ) (v : A) → length (set xs i v) ≡ length xs
set-length [] i v = refl
set-length (x ∷ xs) zero v = refl
set-length (x ∷ xs) (suc i) v = ap suc (set-length xs i v)

get_elem-set {ℓ} :
    {A : Type ℓ} (xs : List A) (n i : ℕ) (v w : A)
    → get_elem? (set xs n v) i ≡ some w
    → ((i ≡ n) × (v ≡ w)) ⊎ ((i ≢ n) × (get_elem? xs i ≡ some w))
get_elem-set [] n i v w h = absurd (none-ne-some w h)
get_elem-set (x ∷ xs) zero zero v w h = inl (refl, some-injective v w h)
get_elem-set (x ∷ xs) zero (suc i) v w h = inr (λ e. omega (arith, e), h)
get_elem-set (x ∷ xs) (suc n) zero v w h = inr (λ e. omega (arith, e), h)
get_elem-set (x ∷ xs) (suc n) (suc i) v w h = elim (get_elem-set xs n i v w h) [
  | inl (e, k) ↦ inl (ap suc e, k)
  | inr (off, k) ↦ inr (λ e. off (omega (arith, e)), k)
]

module _ (nfc : Text → Text) (existing : List (String × Text)) (candidates : List Text) where
  -- The block at `old_index` and the candidate at `new_index` are similar enough.
  abbrev pub IsEligible : ℕ → ℕ → String → Type 0
  IsEligible old_index new_index block_id =
      (old : Text) × (new : Text) × (get_elem? existing old_index ≡ some (block_id, old))
      × (get_elem? candidates new_index ≡ some new)
      × (lower_ratio (ratio (normalise_match_text nfc old) (normalise_match_text nfc new)) threshold
          ≡ false)

  -- One entry for each candidate; an identifier that is given is that of a block that is similar enough,
  -- and none is given twice.
  pub record IsAssociation (assigned : List (Option String)) : Type 0 where
    pub size : length assigned ≡ length candidates
    pub similar :
        (i : ℕ) (block_id : String)
        → get_elem? assigned i ≡ some (some block_id)
        → (j : ℕ) × IsEligible j i block_id
    pub once :
        (i j : ℕ) (block_id : String)
        → get_elem? assigned i ≡ some (some block_id)
        → get_elem? assigned j ≡ some (some block_id)
        → i ≡ j

  abbrev IsScore : Score → Type 0
  IsScore s = (block_id : String) × IsEligible s.old_index s.new_index block_id

  scores_of-All :
      (candidate : Text) (new_index old_index : ℕ) (rest : List (String × Text))
      → get_elem? candidates new_index ≡ some candidate
      → ((k : ℕ) → get_elem? existing (old_index + k) ≡ get_elem? rest k)
      → All IsScore (scores_of nfc candidate new_index old_index rest)
  unfolding scores_of
  scores_of-All candidate new_index old_index [] here look = tt
  scores_of-All candidate new_index old_index ((block_id, old_text) ∷ rest) here look =
      let later =
        scores_of-All candidate new_index (suc old_index) rest here
          (λ k. ap (get_elem? existing) (omega arith) ∙ look (suc k)) in
      let first : get_elem? existing old_index ≡ some (block_id, old_text) =
        ap (get_elem? existing) (omega arith) ∙ look 0 in
      elim (Bool-cases (
        lower_ratio (ratio (normalise_match_text nfc old_text) (normalise_match_text nfc candidate))
          threshold)) [
            | inl a ↦ rw a later
            | inr a ↦ rw a ((block_id, (old_text, candidate, first, here, a)), later)
          ]

  all_scores-All :
      (new_index : ℕ) (rest : List Text)
      → ((k : ℕ) → get_elem? candidates (new_index + k) ≡ get_elem? rest k)
      → All IsScore (all_scores nfc new_index rest existing)
  unfolding all_scores
  all_scores-All new_index [] look = tt
  all_scores-All new_index (candidate ∷ rest) look =
      All-append IsScore (scores_of nfc candidate new_index 0 existing)
        (all_scores nfc (suc new_index) rest existing)
        (scores_of-All candidate new_index 0 existing
          (ap (get_elem? candidates) (omega arith) ∙ look 0)
          (λ k. ap (get_elem? existing) (omega arith)))
        (all_scores-All (suc new_index) rest
          (λ k. ap (get_elem? candidates) (omega arith) ∙ look (suc k)))

  -- A block whose identifier was given is among the used ones.
  record IsPaired (p : Pairing) : Type 0 where
    sound : IsAssociation p.assigned
    used :
        (i j : ℕ) (block_id : String)
        → get_elem? p.assigned i ≡ some (some block_id)
        → IsEligible j i block_id
        → has j p.used_old ≡ true

  module _ (named : AreNamed existing) where
    same_index : (i j n m : ℕ) (a b : String) → IsEligible i n a → IsEligible j m b → a ≡ b → i ≡ j
    same_index i j n m a b (x, _, h, _, _) (y, _, k, _, _) e = named i j (a, x) (b, y) h k e

    paired :
        (p : Pairing) (s : Score) (block_id : String)
        → IsEligible s.old_index s.new_index block_id
        → has s.old_index p.used_old ≡ false
        → IsPaired p
        → IsPaired (record {
          assigned = set p.assigned s.new_index (some block_id);
          used_new = s.new_index ∷ p.used_new;
          used_old = s.old_index ∷ p.used_old;
        })
    paired p s block_id eligible unused h = record {
      sound = record {
        size = set-length p.assigned s.new_index (some block_id) ∙ h.sound.size;
        similar = similar;
        once = once;
      };
      used = used;
    }
      where
        at :
            (i : ℕ) (b : String)
            → get_elem? (set p.assigned s.new_index (some block_id)) i ≡ some (some b)
            → ((i ≡ s.new_index) × (block_id ≡ b))
              ⊎ ((i ≢ s.new_index) × (get_elem? p.assigned i ≡ some (some b)))
        at i b k = elim (get_elem-set p.assigned s.new_index i (some block_id) (some b) k) [
          | inl (e, g) ↦ inl (e, some-injective block_id b g)
          | inr q ↦ inr q
        ]

        similar :
            (i : ℕ) (b : String)
            → get_elem? (set p.assigned s.new_index (some block_id)) i ≡ some (some b)
            → (j : ℕ) × IsEligible j i b
        similar i b k = elim (at i b k) [
          | inl (e, g) ↦ (
            s.old_index,
            subst (λ n. IsEligible s.old_index n b) (sym e)
                (subst (IsEligible s.old_index s.new_index) g eligible),
          )
          | inr (off, g) ↦ h.sound.similar i b g
        ]

        taken : (i : ℕ) (b : String) → block_id ≡ b → get_elem? p.assigned i ≡ some (some b) → ⊥
        taken i b g k =
            let (j, e) = h.sound.similar i b k in
            let same = same_index j s.old_index i s.new_index b block_id e eligible (sym g) in
            true≢false (sym (h.used i j b k e) ∙ ap (λ n. has n p.used_old) same ∙ unused)

        once :
            (i j : ℕ) (b : String)
            → get_elem? (set p.assigned s.new_index (some block_id)) i ≡ some (some b)
            → get_elem? (set p.assigned s.new_index (some block_id)) j ≡ some (some b)
            → i ≡ j
        once i j b k l = elim (at i b k) [
          | inl (e, g) ↦ elim (at j b l) [
            | inl (e', g') ↦ e ∙ sym e'
            | inr (off, g') ↦ absurd (taken j b g g')
          ]
          | inr (off, g) ↦ elim (at j b l) [
            | inl (e', g') ↦ absurd (taken i b g' g)
            | inr (off', g') ↦ h.sound.once i j b g g'
          ]
        ]

        used :
            (i j : ℕ) (b : String)
            → get_elem? (set p.assigned s.new_index (some block_id)) i ≡ some (some b)
            → IsEligible j i b
            → has j (s.old_index ∷ p.used_old) ≡ true
        used i j b k e = elim (at i b k) [
          | inl (_, g) ↦
              let same = same_index j s.old_index i s.new_index b block_id e eligible (sym g) in
              ground (arith, same)
          | inr (off, g) ↦ let before = h.used i j b g e in ground (arith, before)
        ]

    pair_up-IsPaired :
        (scores : List Score) (p : Pairing)
        → All IsScore scores
        → IsPaired p
        → IsPaired (pair_up existing scores p)
    unfolding pair_up
    pair_up-IsPaired [] p a h = h
    pair_up-IsPaired (s ∷ scores) p a h =
        elim (Bool-cases (has s.new_index p.used_new || has s.old_index p.used_old)) [
          | inl busy ↦ rw busy (pair_up-IsPaired scores p a.1 h)
          | inr free ↦
              let (block_id, eligible) = a.0 in
              let (old, _, found, _, _) = eligible in
              rw (free, found)
                (pair_up-IsPaired scores _ a.1
                  (paired p s block_id eligible (ground (arith, free)) h))
        ]

    no_ids-none : (l : List Text) (i : ℕ) (b : String) → get_elem? (no_ids l) i ≡ some (some b) → ⊥
    no_ids-none [] i b h = none-ne-some _ h
    no_ids-none (c ∷ l) zero b h = none-ne-some b (some-injective none (some b) h)
    no_ids-none (c ∷ l) (suc i) b h = no_ids-none l i b h

    no_ids-length : (l : List Text) → length (no_ids l) ≡ length l
    no_ids-length [] = refl
    no_ids-length (c ∷ l) = ap suc (no_ids-length l)

    pub associate_block_ids-IsAssociation :
        IsAssociation (associate_block_ids nfc existing candidates)
    unfolding associate_block_ids
    associate_block_ids-IsAssociation =
        (pair_up-IsPaired (sorted better (all_scores nfc 0 candidates existing)) _
          (All-sorted better IsScore _
            (all_scores-All 0 candidates (λ k. ap (get_elem? candidates) (omega arith))))
          (record {
            sound = record {
              size = no_ids-length candidates;
              similar = λ i b k. absurd (no_ids-none candidates i b k);
              once = λ i j b k l. absurd (no_ids-none candidates i b k);
            };
            used = λ i j b k e. absurd (no_ids-none candidates i b k);
          })).sound
