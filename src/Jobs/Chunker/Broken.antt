-- ===== src/Jobs/Chunker/Broken.antt =====
-- What `_split_oversized` makes of a text: the text cut at separators, its parts trimmed.
use praelector.Base.{
  ℕ, zero, suc, ◌-◌, ◌<◌, ◌≡◌, refl, sym, ap, ◌∙◌, subst, inl, inr, true, false, ◌&&◌, Option, none,
  some, List, [], ◌∷◌, ◌++◌, append-nil, arith, ltb, if◌then◌else◌, length, drop, All, All-append,
  Bool-cases,
}
use praelector.Base.Member.{In}
use praelector.Base.Text.{
  Text, is_space, lstrip, rstrip, strip, contains, starts_with, cons_head, split_from, split,
}
use praelector.Jobs.Chunker.{space, is_empty, stripped, clause_parts, clauses, extend}

-- White space only.
abbrev pub IsBlank : Text → Type 0
IsBlank s = All (λ c. is_space c ≡ true) s

abbrev pub separators : List Text
separators = (space ∷ []) ∷ clauses

-- The texts `xs` that are left of a text `t`, in order. White space at the ends of a text may go, and
-- a text of more than `limit` characters may be cut at one of the separators; `some sep` is a text
-- that is being cut at `sep`, of which only the separators at the cuts are lost.
pub data Broken (limit : ℕ) : Option Text → Text → List Text → Type 0 where
  blank : {t : Text} → IsBlank t → Broken limit none t []
  whole : {t : Text} → is_empty t ≡ false → Broken limit none t (t ∷ [])
  trim :
      {t : Text} {xs : List Text} (l s r : Text)
      → t ≡ l ++ (s ++ r)
      → IsBlank l
      → IsBlank r
      → Broken limit none s xs
      → Broken limit none t xs
  cut :
      {t : Text} {xs : List Text} (sep : Text)
      → limit < length t
      → In sep separators
      → Broken limit (some sep) t xs
      → Broken limit none t xs
  last : {t sep : Text} {xs : List Text} → Broken limit none t xs → Broken limit (some sep) t xs
  more :
      {t sep : Text} (a b : Text) (xs ys : List Text)
      → t ≡ a ++ (sep ++ b)
      → Broken limit none a xs
      → Broken limit (some sep) b ys
      → Broken limit (some sep) t (xs ++ ys)

abbrev pub IsFull : Text → Type 0
IsFull s = is_empty s ≡ false

pub Broken-IsFull :
    {limit : ℕ} {o : Option Text} {t : Text} {xs : List Text} → Broken limit o t xs → All IsFull xs
Broken-IsFull (blank h) = tt
Broken-IsFull (whole h) = (h, tt)
Broken-IsFull (trim l s r e a b h) = Broken-IsFull h
Broken-IsFull (cut sep l i h) = Broken-IsFull h
Broken-IsFull (last h) = Broken-IsFull h
Broken-IsFull (more a b xs ys e h k) = All-append IsFull xs ys (Broken-IsFull h) (Broken-IsFull k)

lstrip-parts : (s : Text) → (l : Text) × IsBlank l × (s ≡ l ++ lstrip s)
unfolding lstrip
lstrip-parts [] = ([], tt, refl)
lstrip-parts (c ∷ s) = elim (Bool-cases (is_space c)) [
  | inl h ↦ let (l, b, e) = lstrip-parts s in rw h (c ∷ l, (h, b), ap (◌∷◌ c) e)
  | inr h ↦ rw h ([], tt, refl)
]

rstrip-parts : (s : Text) → (r : Text) × IsBlank r × (s ≡ rstrip s ++ r)
unfolding rstrip
rstrip-parts [] = ([], tt, refl)
rstrip-parts (c ∷ s) = let (r, b, e) = rstrip-parts s in go (rstrip s) r b e
  where
    go :
        (q r : Text)
        → IsBlank r
        → s ≡ q ++ r
        → (t : Text) × IsBlank t
          × (c ∷ s ≡ elim q [ [] ↦ if is_space c then [] else c ∷ [] | d ∷ t ↦ c ∷ d ∷ t ] ++ t)
    go [] r b e = elim (Bool-cases (is_space c)) [
      | inl h ↦ rw h (c ∷ r, (h, b), ap (◌∷◌ c) e)
      | inr h ↦ rw h (r, b, ap (◌∷◌ c) e)
    ]
    go (d ∷ q) r b e = (r, b, ap (◌∷◌ c) e)

-- What is left of a stripped text is left of the text.
pub Broken-strip :
    (limit : ℕ) (s : Text) (xs : List Text)
    → Broken limit none (strip s) xs
    → Broken limit none s xs
unfolding strip
Broken-strip limit s xs h =
    let (l, a, e) = lstrip-parts s in
    let (r, b, f) = rstrip-parts (lstrip s) in trim l _ r (e ∙ ap (◌++◌ l) f) a b h

-- `separator.join(parts)`
abbrev pub joined_by : Text → List Text → Text
joined_by separator [] = []
joined_by separator (part ∷ []) = part
joined_by separator (part ∷ next ∷ parts) =
    part ++ (separator ++ joined_by separator (next ∷ parts))

joined_by-cons_head :
    (sep : Text) (c : ℕ) (ps : List Text) → joined_by sep (cons_head c ps) ≡ c ∷ joined_by sep ps
joined_by-cons_head sep c [] = refl
joined_by-cons_head sep c (p ∷ []) = refl
joined_by-cons_head sep c (p ∷ q ∷ ps) = refl

starts_with-parts : (p s : Text) → starts_with p s ≡ true → s ≡ p ++ drop (length p) s
unfolding starts_with
starts_with-parts [] s h = refl
starts_with-parts (c ∷ p) [] h = cc
starts_with-parts (c ∷ p) (d ∷ s) h = ground (arith, starts_with-parts p s)

split_from-some :
    (sep : Text) (skip : ℕ) (s : Text)
    → (p : Text) × (ps : List Text) × (split_from sep skip s ≡ p ∷ ps)
unfolding split_from
split_from-some sep zero [] = ([], [], refl)
split_from-some sep (suc k) [] = ([], [], refl)
split_from-some sep (suc k) (c ∷ s) = split_from-some sep k s
split_from-some sep zero (c ∷ s) = elim (Bool-cases (starts_with sep (c ∷ s))) [
  | inl at ↦ rw (at, split_from) ([], split_from sep (length sep - 1) s, refl)
  | inr off ↦ rw (off, split_from) (go (split_from sep 0 s))
]
  where
    go : (l : List Text) → (p : Text) × (ps : List Text) × (cons_head c l ≡ p ∷ ps)
    go [] = (c ∷ [], [], refl)
    go (p ∷ ps) = (c ∷ p, ps, refl)

-- Joining what `split` cuts gives the text.
joined_by-split_from :
    (d : ℕ) (sep : Text) (skip : ℕ) (s : Text)
    → joined_by (d ∷ sep) (split_from (d ∷ sep) skip s) ≡ drop skip s
unfolding split_from
joined_by-split_from d sep zero [] = refl
joined_by-split_from d sep (suc k) [] = refl
joined_by-split_from d sep (suc k) (c ∷ s) = joined_by-split_from d sep k s
joined_by-split_from d sep zero (c ∷ s) = elim (Bool-cases (starts_with (d ∷ sep) (c ∷ s))) [
  | inl at ↦
      let n : suc (length sep) - 1 ≡ length sep = omega arith in
      let (p, ps, e) = split_from-some (d ∷ sep) (length sep) s in
      rw (at, n, split_from)
        (ap (λ l. joined_by (d ∷ sep) ([] ∷ l)) e
          ∙ ap (λ t. (d ∷ sep) ++ t)
              (ap (joined_by (d ∷ sep)) (sym e) ∙ joined_by-split_from d sep (length sep) s)
          ∙ sym (starts_with-parts (d ∷ sep) (c ∷ s) at))
  | inr off ↦
      rw (off, split_from)
        (joined_by-cons_head (d ∷ sep) c (split_from (d ∷ sep) 0 s)
          ∙ ap (◌∷◌ c) (joined_by-split_from d sep 0 s))
]

part-Broken :
    (limit : ℕ) (f : Text → List Text) (p : Text) (ps : List Text)
    → All (λ q. Broken limit none q (f q)) (stripped (p ∷ ps))
    → (xs : List Text) × Broken limit none p xs
      × All (λ q. Broken limit none q (f q)) (stripped ps)
      × (extend f (stripped (p ∷ ps)) ≡ xs ++ extend f (stripped ps))
unfolding stripped extend
part-Broken limit f p ps h = go (strip p) (λ xs. Broken-strip limit p xs) h
  where
    go :
        (q : Text)
        → ((xs : List Text) → Broken limit none q xs → Broken limit none p xs)
        → All (λ q. Broken limit none q (f q)) (if is_empty q then stripped ps else q ∷ stripped ps)
        → (xs : List Text) × Broken limit none p xs
          × All (λ q. Broken limit none q (f q)) (stripped ps)
          × (extend f (if is_empty q then stripped ps else q ∷ stripped ps)
              ≡ xs ++ extend f (stripped ps))
    go [] up h = ([], up [] (blank tt), h, refl)
    go (c ∷ q) up h = (f (c ∷ q), up _ h.0, h.1, refl)

-- Parts that are joined by the separator are what a cut leaves.
joined_by-Broken :
    (limit : ℕ) (f : Text → List Text) (sep p : Text) (ps : List Text)
    → All (λ q. Broken limit none q (f q)) (stripped (p ∷ ps))
    → Broken limit (some sep) (joined_by sep (p ∷ ps)) (extend f (stripped (p ∷ ps)))
unfolding extend stripped
joined_by-Broken limit f sep p [] h =
    let (xs, b, none', e) = part-Broken limit f p [] h in
    subst (Broken limit (some sep) p) (sym (e ∙ append-nil xs)) (last b)
joined_by-Broken limit f sep p (q ∷ ps) h =
    let (xs, b, rest, e) = part-Broken limit f p (q ∷ ps) h in
    subst (Broken limit (some sep) (joined_by sep (p ∷ q ∷ ps))) (sym e)
      (more p (joined_by sep (q ∷ ps)) xs _ refl b (joined_by-Broken limit f sep q ps rest))

split-Broken :
    (limit : ℕ) (f : Text → List Text) (sep text : Text)
    → IsFull sep
    → All (λ q. Broken limit none q (f q)) (stripped (split sep text))
    → Broken limit (some sep) text (extend f (stripped (split sep text)))
unfolding split
split-Broken limit f [] text w h = cc
split-Broken limit f (d ∷ sep) text w h =
    let (p, ps, e) = split_from-some (d ∷ sep) 0 text in
    subst (λ t. Broken limit (some (d ∷ sep)) t (extend f (stripped (split_from (d ∷ sep) 0 text))))
      (joined_by-split_from d sep 0 text)
      (subst (λ l. Broken limit (some (d ∷ sep)) (joined_by (d ∷ sep) l) (extend f (stripped l)))
        (sym e)
        (joined_by-Broken limit f (d ∷ sep) p ps
          (subst (λ l. All (λ q. Broken limit none q (f q)) (stripped l)) e h)))

pub clause_parts-Broken :
    (limit : ℕ) (f : Text → List Text) (seps : List Text) (text : Text) (parts : List Text)
    → All (λ sep. IsFull sep × In sep separators) seps
    → limit < length text
    → clause_parts seps text ≡ some parts
    → All (λ q. Broken limit none q (f q)) parts
    → Broken limit none text (extend f parts)
unfolding clause_parts
clause_parts-Broken limit f [] text parts w l h k = cc
clause_parts-Broken limit f (sep ∷ seps) text parts w l h k =
    elim (Bool-cases (contains sep text && ltb 1 (length (stripped (split sep text))))) [
      | inl taken ↦
          let same : stripped (split sep text) ≡ parts = ground (arith, taken) in
          subst (λ ps. Broken limit none text (extend f ps)) same
            (cut sep l w.0.1 (
              split-Broken limit f sep text w.0.0
                (subst (All (λ q. Broken limit none q (f q))) (sym same) k)))
      | inr left ↦ clause_parts-Broken limit f seps text parts w.1 l (ground (arith, left)) k
    ]
