-- ===== src/Domain/Ids/Minted.antt =====
-- An identifier that is minted is valid, and its parts can be read back.
use praelector.Base.{
  ℕ, zero, suc, ◌+◌, ◌*◌, ◌/◌, ◌%◌, ◌^◌, ◌<◌, ◌≡◌, refl, ap, ◌∙◌, Bool, true, false, ◌&&◌, Option,
  none, some, [], ◌∷◌, ◌++◌, ◌==◌, ltb, is_some, option_or, length, take, drop, arith, Bool-cases,
  inl, inr, ap₂, subst,
}
use praelector.Base.Int.{pos}
use praelector.Base.Text.{Text, codes, find}
use praelector.Domain.Errors.{ok}
use praelector.Domain.Ids.{
  alphabet, IdPrefix, id_prefix_value, char_at, digits, reverse, encode, underscore, written,
  new_id, partition, is_prefix, all_in_alphabet, is_valid_id, is_valid_parts, prefix_of, known_head,
}

abbrev number_from : ℕ → Text → ℕ
number_from n [] = n
number_from n (c ∷ s) = number_from (n * 32 + option_or (find c alphabet) 0) s

-- What a text of base 32 stands for, read from the left.
abbrev pub number : Text → ℕ
number s = number_from 0 s

number_from-snoc :
    (n : ℕ) (s : Text) (c : ℕ)
    → number_from n (s ++ c ∷ []) ≡ number_from n s * 32 + option_or (find c alphabet) 0
number_from-snoc n [] c = refl
number_from-snoc n (d ∷ s) c = number_from-snoc (n * 32 + option_or (find d alphabet) 0) s c

is_at : ℕ → Option ℕ → Bool
is_at d none = false
is_at d (some e) = e == d

is_at-some : (d : ℕ) (o : Option ℕ) → is_at d o ≡ true → o ≡ some d
unfolding is_at
is_at-some d none h = cc
is_at-some d (some e) h = let q : e ≡ d = ground (arith, h) in ap some q

checks : (ℕ → Bool) → ℕ → Bool
checks f zero = true
checks f (suc n) = f n && checks f n

checks-true : (f : ℕ → Bool) (n d : ℕ) → checks f n ≡ true → d < n → f d ≡ true
unfolding checks
checks-true f zero d h l = ground (arith, l)
checks-true f (suc n) d h l = elim (Bool-cases (d == n)) [
  | inl e ↦
      let q : d ≡ n = ground (arith, e) in let t : f n ≡ true = ground (arith, h) in ap f q ∙ t
  | inr e ↦ checks-true f n d (ground (arith, h)) (ground (arith, e, l))
]

abbrev finds : ℕ → Bool
finds d = is_at d (find (char_at alphabet d) alphabet)

all_found : checks finds 32 ≡ true
unfolding find char_at checks is_at
all_found = refl

find-char_at : (d : ℕ) → d < 32 → find (char_at alphabet d) alphabet ≡ some d
find-char_at d l = is_at-some d _ (checks-true finds 32 d all_found l)

digit_lt : (v : ℕ) → v % 32 < 32
digit_lt v = omega arith

option_or-some : (o : Option ℕ) (d : ℕ) → o ≡ some d → option_or o 0 ≡ d
option_or-some o d h = rw h refl

is_some-some : (o : Option ℕ) (d : ℕ) → o ≡ some d → is_some o ≡ true
is_some-some o d h = rw h refl

-- Reading an encoded number gives the number.
number-encode : (n v : ℕ) → v < 32 ^ n → number (encode v n) ≡ v
unfolding encode digits reverse
number-encode zero v l = omega (arith, l)
number-encode (suc n) v l =
    let rest = number-encode n (v / 32) (omega (arith, l)) in
    let last =
      option_or-some (find (char_at alphabet (v % 32)) alphabet) (v % 32)
        (find-char_at (v % 32) (digit_lt v)) in
    number_from-snoc 0 (reverse (digits (v / 32) n)) (char_at alphabet (v % 32))
    ∙ ap₂ (λ a b. a * 32 + b) rest last
    ∙ omega arith

length-snoc : (s : Text) (c : ℕ) → length (s ++ c ∷ []) ≡ suc (length s)
length-snoc [] c = refl
length-snoc (d ∷ s) c = ap suc (length-snoc s c)

length-encode : (n v : ℕ) → length (encode v n) ≡ n
unfolding encode digits reverse
length-encode zero v = refl
length-encode (suc n) v =
    length-snoc (reverse (digits (v / 32) n)) _ ∙ ap suc (length-encode n (v / 32))

all_in_alphabet-++ :
    (s t : Text)
    → all_in_alphabet s ≡ true
    → all_in_alphabet t ≡ true
    → all_in_alphabet (s ++ t) ≡ true
unfolding all_in_alphabet
all_in_alphabet-++ [] t h k = k
all_in_alphabet-++ (c ∷ s) t h k =
    let first : is_some (find c alphabet) ≡ true = ground (arith, h) in
    let rest = all_in_alphabet-++ s t (ground (arith, h)) k in rw (first, rest) refl

all_in_alphabet-encode : (n v : ℕ) → all_in_alphabet (encode v n) ≡ true
unfolding encode digits reverse all_in_alphabet
all_in_alphabet-encode zero v = refl
all_in_alphabet-encode (suc n) v =
    all_in_alphabet-++ (reverse (digits (v / 32) n)) _ (all_in_alphabet-encode n (v / 32)) last
  where
    last : all_in_alphabet (char_at alphabet (v % 32) ∷ []) ≡ true
    last =
        rw
          (is_some-some (find (char_at alphabet (v % 32)) alphabet) (v % 32)
            (find-char_at (v % 32) (digit_lt v)))
          refl

partition-value :
    (p : IdPrefix) (body : Text)
    → partition (codes (id_prefix_value p) ++ underscore ∷ body)
      ≡ some (codes (id_prefix_value p), body)
unfolding partition id_prefix_value
partition-value IdPrefix.project body = refl
partition-value IdPrefix.chapter body = refl
partition-value IdPrefix.block body = refl
partition-value IdPrefix.span body = refl
partition-value IdPrefix.suggestion body = refl
partition-value IdPrefix.voice_profile body = refl
partition-value IdPrefix.job body = refl
partition-value IdPrefix.lexicon_entry body = refl
partition-value IdPrefix.batch body = refl

is_prefix-value : (p : IdPrefix) → is_prefix (codes (id_prefix_value p)) ≡ true
unfolding is_prefix id_prefix_value
is_prefix-value IdPrefix.project = refl
is_prefix-value IdPrefix.chapter = refl
is_prefix-value IdPrefix.block = refl
is_prefix-value IdPrefix.span = refl
is_prefix-value IdPrefix.suggestion = refl
is_prefix-value IdPrefix.voice_profile = refl
is_prefix-value IdPrefix.job = refl
is_prefix-value IdPrefix.lexicon_entry = refl
is_prefix-value IdPrefix.batch = refl

take-length : (s t : Text) → take (length s) (s ++ t) ≡ s
take-length [] t = refl
take-length (c ∷ s) t = ap (λ r. c ∷ r) (take-length s t)

drop-length : (s t : Text) → drop (length s) (s ++ t) ≡ t
drop-length [] t = refl
drop-length (c ∷ s) t = drop-length s t

length-++ : (s t : Text) → length (s ++ t) ≡ length s + length t
length-++ [] t = omega arith
length-++ (c ∷ s) t = omega (arith, length-++ s t)

-- The body of an identifier.
abbrev body_of : ℕ → ℕ → Text
body_of timestamp entropy = encode timestamp 10 ++ encode entropy 16

length-body_of : (t e : ℕ) → length (body_of t e) ≡ 26
length-body_of t e =
    length-++ (encode t 10) (encode e 16)
    ∙ ap₂ (λ a b. a + b) (length-encode 10 t) (length-encode 16 e)

is_valid_id-partition :
    (value head body : Text)
    → partition value ≡ some (head, body)
    → is_prefix head ≡ true
    → length body ≡ 26
    → all_in_alphabet body ≡ true
    → is_valid_id value ≡ true
unfolding is_valid_id is_valid_parts
is_valid_id-partition value head body h known size fine = rw (h, known, size, fine) refl

prefix_of-partition :
    (value head body : Text)
    → partition value ≡ some (head, body)
    → is_prefix head ≡ true
    → prefix_of value ≡ some head
unfolding prefix_of known_head
prefix_of-partition value head body h known = rw (h, known) refl

is_valid_id-written : (p : IdPrefix) (t e : ℕ) → is_valid_id (written p t e) ≡ true
unfolding written
is_valid_id-written p t e =
    is_valid_id-partition (written p t e) (codes (id_prefix_value p)) (body_of t e)
      (partition-value p (body_of t e)) (is_prefix-value p) (length-body_of t e)
      (all_in_alphabet-++ (encode t 10) (encode e 16) (all_in_alphabet-encode 10 t)
        (all_in_alphabet-encode 16 e))

prefix_of-written :
    (p : IdPrefix) (t e : ℕ) → prefix_of (written p t e) ≡ some (codes (id_prefix_value p))
unfolding written
prefix_of-written p t e =
    prefix_of-partition (written p t e) (codes (id_prefix_value p)) (body_of t e)
      (partition-value p (body_of t e)) (is_prefix-value p)

-- Both fields of an identifier, read from the text behind its prefix and the underscore.
abbrev pub fields : Text → ℕ × ℕ
fields value = (number (take 10 (drop 4 value)), number (drop 10 (drop 4 value)))

drop-value :
    (p : IdPrefix) (body : Text) → drop 4 (codes (id_prefix_value p) ++ underscore ∷ body) ≡ body
unfolding id_prefix_value
drop-value IdPrefix.project body = refl
drop-value IdPrefix.chapter body = refl
drop-value IdPrefix.block body = refl
drop-value IdPrefix.span body = refl
drop-value IdPrefix.suggestion body = refl
drop-value IdPrefix.voice_profile body = refl
drop-value IdPrefix.job body = refl
drop-value IdPrefix.lexicon_entry body = refl
drop-value IdPrefix.batch body = refl

fields-written :
    (p : IdPrefix) (t e : ℕ) → t < 2 ^ 48 → e < 2 ^ 80 → fields (written p t e) ≡ (t, e)
unfolding written
fields-written p t e h k =
    ap (λ b. (number (take 10 b), number (drop 10 b))) (drop-value p (body_of t e))
    ∙ ap₂ (λ a b. (number a, number b))
        (subst (λ n. take n (body_of t e) ≡ encode t 10) (length-encode 10 t)
          (take-length (encode t 10) (encode e 16)))
        (subst (λ n. drop n (body_of t e) ≡ encode e 16) (length-encode 10 t)
          (drop-length (encode t 10) (encode e 16)))
    ∙ ap₂ (λ a b. (a, b)) (number-encode 10 t (omega (arith, h)))
        (number-encode 16 e (omega (arith, k)))

-- With milliseconds below 2 ^ 48 and 80 random bits an identifier is minted: it is valid, it has the
-- prefix that was asked for, and both numbers can be read back from it, so no two are alike.
pub new_id-Minted :
    (p : IdPrefix) (t e : ℕ)
    → t < 2 ^ 48
    → e < 2 ^ 80
    → (id : Text) × (new_id p (pos t) (pos e) ≡ ok id)
      × (is_valid_id id ≡ true)
      × (prefix_of id ≡ some (codes (id_prefix_value p)))
      × (fields id ≡ (t, e))
unfolding new_id
new_id-Minted p t e h k =
    let a : ltb t (2 ^ 48) ≡ true = ground (arith, h) in
    let b : ltb e (2 ^ 80) ≡ true = ground (arith, k) in
    (
      written p t e,
      rw (a, b) refl,
      is_valid_id-written p t e,
      prefix_of-written p t e,
      fields-written p t e h k,
    )
