-- ===== src/Plain.antt =====
-- text/plain.py: the plain text of a chapter, and which blocks of an edited text are the old ones.
pub mod Matching
pub mod Associated
use praelector.Base.{
  ℕ, zero, suc, ◌+◌, ◌-◌, ◌*◌, Bool, true, false, not, ◌&&◌, ◌||◌, Option, none, some, String, List,
  [], ◌∷◌, ◌++◌, map, ◌==◌, ltb, if◌then◌else◌, keep, some_of, length, get_elem?,
}
use mathlib.Core.Option
use praelector.Base.Sort.{sorted}
use praelector.Base.Text.{Text, strip, cons_head, is_space, text_eq}
use praelector.Plain.Matching.{Ratio, ratio, lower_ratio}

abbrev pub newline : ℕ
newline = 10

-- `join_plain_text`
unfoldable pub join_plain_text : List Text → Text
join_plain_text [] = []
join_plain_text (part ∷ []) = part
join_plain_text (part ∷ next ∷ parts) = part ++ newline ∷ newline ∷ join_plain_text (next ∷ parts)

abbrev pub begins_with : ℕ → Text → Bool
begins_with char [] = false
begins_with char (c ∷ text) = c == char

-- `text.replace("\r\n", "\n")`
unfoldable pub replace_crlf : Text → Text
replace_crlf [] = []
replace_crlf (c ∷ text) =
    let rest = replace_crlf text in if c == 13 && begins_with newline text then rest else c ∷ rest

-- `text.replace("\r", "\n")`
unfoldable pub replace_cr : Text → Text
replace_cr text = map (λ c. if c == 13 then newline else c) text

-- What `[ \t]*\n` matches, as its length
unfoldable pub blank_rest : Text → Option ℕ
blank_rest [] = none
blank_rest (c ∷ text) =
    if c == newline
    then some 1
    else if c == 32 || c == 9
    then Option.map suc (blank_rest text)
    else none

-- `_BLANK_LINE.split`, scanning from the left; `skip` characters are left of a match.
unfoldable pub split_blank : ℕ → Text → List Text
unfolding blank_rest
split_blank skip [] = [] ∷ []
split_blank (suc skip) (c ∷ text) = split_blank skip text
split_blank zero (c ∷ text) = elim (if c == newline then blank_rest text else none) [
  | some size ↦ [] ∷ split_blank size text
  | none ↦ cons_head c (split_blank zero text)
]

abbrev pub is_blank : Text → Bool
is_blank [] = true
is_blank (c ∷ text) = false

-- `split_plain_text`
unfoldable pub split_plain_text : Text → List Text
unfolding replace_crlf replace_cr split_blank strip
split_plain_text text =
    keep (λ part. not (is_blank part)) (map strip (split_blank 0 (replace_cr (replace_crlf text))))

abbrev pub soft_hyphen : ℕ
soft_hyphen = 0xad

-- `text.split()`
unfoldable pub words : Text → List Text
unfolding is_space
words text = keep (λ word. not (is_blank word)) (cut text)
  where
    cut : Text → List Text
    cut [] = [] ∷ []
    cut (c ∷ text) = if is_space c then [] ∷ cut text else cons_head c (cut text)

abbrev pub join_words : List Text → Text
join_words [] = []
join_words (word ∷ []) = word
join_words (word ∷ next ∷ others) = word ++ 32 ∷ join_words (next ∷ others)

-- An eligible pair. The source keeps negated numbers, and sorts in descending order.
pub record Score : Type 0 where
  pub similarity : Ratio
  pub distance : ℕ
  pub new_index : ℕ
  pub old_index : ℕ

abbrev pub closer : Score → Score → Bool
closer a b =
    ltb a.distance b.distance
    || a.distance == b.distance
      && (ltb a.old_index b.old_index || a.old_index == b.old_index && ltb b.new_index a.new_index)

abbrev pub better : Score → Score → Bool
better a b =
    lower_ratio b.similarity a.similarity
    || not (lower_ratio a.similarity b.similarity) && closer a b

abbrev pub distance_of : ℕ → ℕ → ℕ
distance_of a b = (a - b) + (b - a)

-- `SIMILARITY_THRESHOLD`, 0.6
abbrev pub threshold : Ratio
threshold = record { over = 6; under = 10 }

abbrev pub set {ℓ} : {A : Type ℓ} → List A → ℕ → A → List A
set [] i v = []
set (x ∷ xs) zero v = v ∷ xs
set (x ∷ xs) (suc i) v = x ∷ set xs i v

abbrev pub has : ℕ → List ℕ → Bool
has n ns = some_of (λ m. m == n) ns

-- What the loop over the scores keeps.
pub record Pairing : Type 0 where
  pub assigned : List (Option String)
  pub used_new : List ℕ
  pub used_old : List ℕ

unfoldable pub pair_up : List (String × Text) → List Score → Pairing → Pairing
pair_up existing [] p = p
pair_up existing (score ∷ scores) p = pair_up existing scores (
    if has score.new_index p.used_new || has score.old_index p.used_old then p else record {
      assigned =
          set p.assigned score.new_index
            (Option.map (λ block. block.0) (get_elem? existing score.old_index));
      used_new = score.new_index ∷ p.used_new;
      used_old = score.old_index ∷ p.used_old;
    })

abbrev pub no_ids : List Text → List (Option String)
no_ids [] = []
no_ids (candidate ∷ candidates) = none ∷ no_ids candidates

-- Unicode's normal form C is a parameter.
module _ (nfc : Text → Text) where
  unfoldable pub normalise_match_text : Text → Text
  unfolding words
  normalise_match_text text = join_words (words (keep (λ c. not (c == soft_hyphen)) (nfc text)))

  -- The eligible pairs of one candidate with the existing blocks from `old_index` on
  unfoldable pub scores_of : Text → ℕ → ℕ → List (String × Text) → List Score
  unfolding normalise_match_text ratio
  scores_of candidate new_index old_index [] = []
  scores_of candidate new_index old_index ((block_id, old_text) ∷ existing) =
      let similarity = ratio (normalise_match_text old_text) (normalise_match_text candidate) in
      let rest = scores_of candidate new_index (suc old_index) existing in
      if lower_ratio similarity threshold
      then rest
      else record {
        similarity = similarity;
        distance = distance_of new_index old_index;
        new_index = new_index;
        old_index = old_index;
      }
        ∷ rest

  unfoldable pub all_scores : ℕ → List Text → List (String × Text) → List Score
  unfolding scores_of
  all_scores new_index [] existing = []
  all_scores new_index (candidate ∷ candidates) existing =
      scores_of candidate new_index 0 existing ++ all_scores (suc new_index) candidates existing

  -- `associate_block_ids`
  unfoldable pub associate_block_ids : List (String × Text) → List Text → List (Option String)
  unfolding all_scores sorted pair_up
  associate_block_ids existing candidates =
      (pair_up existing (sorted better (all_scores 0 candidates existing))
        (record { assigned = no_ids candidates; used_new = []; used_old = [] })).assigned
