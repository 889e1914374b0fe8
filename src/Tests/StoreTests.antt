-- ===== src/Tests/StoreTests.antt =====
-- The chapter store at concrete inputs.
use praelector.Base.{
  ℕ, zero, suc, ◌≡◌, ◌≢◌, refl, sym, ap, ◌∙◌, subst, Bool, true, false, not, ◌&&◌, ◌||◌, inl, inr,
  none, some, String, str_eq, eq_iff, List, [], ◌∷◌, ◌++◌, some_of, length, Bool-cases, true≢false,
  arith,
}
use praelector.Base.Int.{ℤ, pos, negsuc}
use praelector.Base.Member.{In}
use mathlib.Core.Option.{some-injective, none-ne-some}
use praelector.Base.Text.{Text, codes}
use praelector.Base.Sort.{sorted}
use praelector.Domain.{BlockKind}
use praelector.Plain.{split_plain_text, associate_block_ids}
use praelector.Plain.Associated.{AreNamed, IsAssociation, associate_block_ids-IsAssociation}
use praelector.Store.Rows.{ChapterRow, BlockRow, Project}
use praelector.Store.Session.{session_scope}
use praelector.Store.Ordinals.{active}
use praelector.Store.Outline.{IsValid}
use praelector.Store.Tree.{merge}
use praelector.Store.Tree.Split.{split}
use praelector.Store.Tree.Merge.Neighbours.{IsMerged, merge-Merged}
use praelector.Store.Tree.Split.Parted.{IsSplit, parts, whole_text, split-Split}
use praelector.Store.Texts.{put_text}
use praelector.Store.Texts.Put.{IsPut, put_text_lem}
use praelector.Store.Versions.{is_open, same_version, current_blocks}
use praelector.Store.Versions.Current.{AreNumbered}
use praelector.Store.Versions.Reversion.{face, faces, Face}

abbrev chapter_row : String → ℤ → ChapterRow
chapter_row id ordinal = record {
  id = id;
  ordinal = ordinal;
  title = codes "Rozdział";
  included = true;
  source_href = none;
  spine_index = none;
  char_count = 0;
}

abbrev block_row : String → String → ℕ → String → ℕ → BlockRow
block_row id chapter_id ordinal text revision = record {
  id = id;
  chapter_id = chapter_id;
  ordinal = ordinal;
  kind = BlockKind.paragraph;
  heading_level = none;
  text = codes text;
  source_ref_json = none;
  valid_from_revision = revision;
  valid_to_revision = none;
}

-- The first paragraph of a book in its first version.
abbrev replaced_row : BlockRow
replaced_row = record (block_row "b1" "c1" 0 "Noc." 1) { valid_to_revision = some 2 }

abbrev three_chapters : List ChapterRow
three_chapters =
    chapter_row "c3" (pos 2)
    ∷ chapter_row "c1" (pos 0)
    ∷ chapter_row "gone" (negsuc 0)
    ∷ chapter_row "c2" (pos 1)
    ∷ []

abbrev five_blocks : List BlockRow
five_blocks =
    replaced_row
    ∷ block_row "b2" "c1" 1 "Cisza." 1
    ∷ block_row "b3" "c2" 0 "Ranek." 1
    ∷ block_row "b4" "c3" 0 "Koniec." 1
    ∷ block_row "b1" "c1" 0 "Ciemna noc." 2
    ∷ []

abbrev novel : Project
novel = record {
  db = record {
    chapters = three_chapters;
    blocks = five_blocks;
    spans = [];
    revisions = [];
    current_revision = 2;
    updated_at = "t0";
  };
  manifest = record { current_revision = 2; updated_at = "t0" };
}

unfoldable are_unlike : {A : Type 0} → (A → A → Bool) → List A → Bool
are_unlike test [] = true
are_unlike test (x ∷ xs) = not (some_of (λ y. test x y || test y x) xs) && are_unlike test xs

unlike_head :
    {A : Type 0} (test : A → A → Bool) (x y : A) (xs : List A)
    → some_of (λ z. test x z || test z x) xs ≡ false
    → In y xs
    → (test x y ≡ false) × (test y x ≡ false)
unlike_head test x y [] h i = elim i [ ]
unlike_head test x y (z ∷ xs) h (inl e) =
    subst (λ w. (test x w ≡ false) × (test w x ≡ false)) (sym e) (ground (arith, h))
unlike_head test x y (z ∷ xs) h (inr i) = unlike_head test x y xs (ground (arith, h)) i

-- What passes the test is the same.
unlike_same :
    {A : Type 0} (test : A → A → Bool) (xs : List A)
    → are_unlike test xs ≡ true
    → (a b : A) → In a xs
    → In b xs
    → test a b ≡ true
    → a ≡ b
unfolding are_unlike
unlike_same test [] h a b i j k = elim i [ ]
unlike_same test (x ∷ xs) h a b (inl e) (inl g) k = e ∙ sym g
unlike_same test (x ∷ xs) h a b (inl e) (inr j) k =
    absurd (
      true≢false (sym k ∙ ap (λ w. test w b) e ∙ (unlike_head test x b xs (ground (arith, h)) j).0))
unlike_same test (x ∷ xs) h a b (inr i) (inl g) k =
    absurd (true≢false (sym k ∙ ap (test a) g ∙ (unlike_head test x a xs (ground (arith, h)) i).1))
unlike_same test (x ∷ xs) h a b (inr i) (inr j) k =
    unlike_same test xs (ground (arith, h)) a b i j k

novel-numbered : (c : String) → AreNumbered 0 (current_blocks c five_blocks)
unfolding current_blocks sorted
novel-numbered c = elim (Bool-cases (str_eq "c1" c)) [
  | inl a ↦
      subst (λ d. AreNumbered 0 (current_blocks d five_blocks)) ((eq_iff "c1" c).0 a)
        (refl, (refl, tt))
  | inr a ↦ elim (Bool-cases (str_eq "c2" c)) [
    | inl b ↦
        subst (λ d. AreNumbered 0 (current_blocks d five_blocks)) ((eq_iff "c2" c).0 b) (refl, tt)
    | inr b ↦ elim (Bool-cases (str_eq "c3" c)) [
      | inl d ↦
          subst (λ d. AreNumbered 0 (current_blocks d five_blocks)) ((eq_iff "c3" c).0 d) (refl, tt)
      | inr d ↦ rw (a, b, d) tt
    ]
  ]
]

novel-IsValid : IsValid novel.db
unfolding are_unlike active sorted
novel-IsValid = record {
  named = unlike_same (λ a b. str_eq a.id b.id) three_chapters refl;
  ordered = (refl, (refl, (refl, tt)));
  numbered = novel-numbered;
  once = λ a b i j h k same.
      unlike_same
        (λ a b. is_open a.valid_to_revision && (is_open b.valid_to_revision && str_eq a.id b.id))
        five_blocks refl a b i j (ground (arith, h, k, same));
  versions = unlike_same same_version five_blocks refl;
  up_to = (omega arith, (omega arith, (omega arith, (omega arith, (omega arith, tt)))));
}

abbrev first_chapter : ChapterRow
first_chapter = chapter_row "c1" (pos 0)

abbrev second_chapter : ChapterRow
second_chapter = chapter_row "c2" (pos 1)

abbrev last_chapter : ChapterRow
last_chapter = chapter_row "c3" (pos 2)

novel-active : active three_chapters ≡ first_chapter ∷ second_chapter ∷ last_chapter ∷ []
unfolding active sorted
novel-active = refl

merge-Merged_example :
    IsMerged novel
      (first_chapter ∷ [])
      []
      second_chapter
      last_chapter
      (session_scope (merge "t1" ("c3" ∷ "c2" ∷ [])) novel)
merge-Merged_example =
    merge-Merged "t1" novel (first_chapter ∷ []) [] second_chapter last_chapter ("c3" ∷ "c2" ∷ [])
      novel-IsValid (omega arith, (omega arith, (omega arith, (omega arith, tt)))) novel-active
      (inr refl)

-- The dark night is cut after its first word.
abbrev night : BlockRow
night = block_row "b1" "c1" 0 "Ciemna noc." 2

abbrev silence : BlockRow
silence = block_row "b2" "c1" 1 "Cisza." 1

novel-current :
    (current_blocks "c1" five_blocks ≡ night ∷ silence ∷ [])
    × (current_blocks "c4" five_blocks ≡ [])
unfolding current_blocks sorted
novel-current = (refl, refl)

abbrev cut_night : List Face × List Face
cut_night = parts "b5" 7 [] (face night) (face silence ∷ [])

split-Split_example :
    IsSplit novel []
      (second_chapter ∷ last_chapter ∷ [])
      first_chapter
      "c4"
      cut_night
      (session_scope (split "t1" "c4" "b5" "c1" "b1" 7) novel)
    × (whole_text cut_night.0 ++ whole_text cut_night.1
        ≡ whole_text (faces (current_blocks "c1" five_blocks)))
split-Split_example =
    split-Split "t1" "c4" "b5" novel [] (second_chapter ∷ last_chapter ∷ []) first_chapter []
      (silence ∷ []) night 7 novel-IsValid
      (omega arith, (omega arith, (omega arith, (omega arith, tt)))) novel-active
      (refl, (refl, (refl, (refl, tt)))) novel-current.1 (refl, (refl, (refl, (refl, (refl, tt)))))
      novel-current.0 (omega arith) (omega arith) (omega arith)

-- Identifiers for new blocks: an n, and a tick for each number.
unfoldable ticks : ℕ → String
ticks zero = ""
ticks (suc n) = String.◌∷◌ "x" (ticks n)

unfoldable ticked : ℕ → String
unfolding ticks
ticked n = String.◌∷◌ "n" (ticks n)

length-ticked : (n : ℕ) → length (codes (ticked n)) ≡ suc n
unfolding ticked ticks
length-ticked n = ap suc (go n)
  where
    go : (n : ℕ) → length (codes (ticks n)) ≡ n
    go zero = refl
    go (suc n) = ap suc (go n)

ticked-apart : (n m : ℕ) → n ≢ m → str_eq (ticked n) (ticked m) ≡ false
ticked-apart n m off = elim (Bool-cases (str_eq (ticked n) (ticked m))) [
  | inr h ↦ h
  | inl h ↦
      let e =
        sym (length-ticked n)
        ∙ ap (λ s. length (codes s)) ((eq_iff (ticked n) (ticked m)).0 h)
        ∙ length-ticked m in
      absurd (off (omega (arith, e)))
]

abbrev first_code : Text → ℕ
first_code [] = 0
first_code (c ∷ text) = c

ticked-new : (n : ℕ) (id : String) → first_code (codes id) ≢ 110 → str_eq (ticked n) id ≡ false
unfolding ticked
ticked-new n id off = elim (Bool-cases (str_eq (ticked n) id)) [
  | inr h ↦ h
  | inl h ↦ absurd (off (sym (ap (λ s. first_code (codes s)) ((eq_iff (ticked n) id).0 h))))
]

put_text_lem_example :
    IsPut novel first_chapter (split_plain_text (codes "Ciemna noc była.\n\nWiatr.")) 2 (
      session_scope
        (put_text (λ t. t) "t1" ticked "c1" (codes "Ciemna noc była.\n\nWiatr.") 2)
        novel)
put_text_lem_example =
    put_text_lem (λ t. t) "t1" ticked novel first_chapter (codes "Ciemna noc była.\n\nWiatr.") 2
      novel-IsValid (subst (In first_chapter) (sym novel-active) (inl refl)) ticked-apart
      (λ n. (
        ticked-new n "b1" (omega arith),
        (
          ticked-new n "b2" (omega arith),
          (
            ticked-new n "b3" (omega arith),
            (ticked-new n "b4" (omega arith), (ticked-new n "b1" (omega arith), tt)),
          ),
        ),
      ))

abbrev two_texts : List (String × Text)
two_texts = ("b1", codes "Ciemna noc.") ∷ ("b2", codes "Cisza.") ∷ []

two_texts-AreNamed : AreNamed two_texts
two_texts-AreNamed zero zero a b h k e = refl
two_texts-AreNamed zero (suc zero) a b h k e = absurd (
    true≢false (
      ap (str_eq "b1") (
        ap (λ p. p.0) (some-injective ("b1", codes "Ciemna noc.") a h)
        ∙ e
        ∙ sym (ap (λ p. p.0) (some-injective ("b2", codes "Cisza.") b k)))))
two_texts-AreNamed (suc zero) zero a b h k e = absurd (
    true≢false (
      ap (str_eq "b2") (
        ap (λ p. p.0) (some-injective ("b2", codes "Cisza.") a h)
        ∙ e
        ∙ sym (ap (λ p. p.0) (some-injective ("b1", codes "Ciemna noc.") b k)))))
two_texts-AreNamed (suc zero) (suc zero) a b h k e = refl
two_texts-AreNamed (suc (suc i)) j a b h k e = absurd (none-ne-some a h)
two_texts-AreNamed zero (suc (suc j)) a b h k e = absurd (none-ne-some b k)
two_texts-AreNamed (suc zero) (suc (suc j)) a b h k e = absurd (none-ne-some b k)

associate_block_ids-IsAssociation_example :
    IsAssociation
      (λ t. t)
      two_texts
      (codes "Wiatr." ∷ codes "Ciemna noc była." ∷ [])
      (associate_block_ids (λ t. t) two_texts (codes "Wiatr." ∷ codes "Ciemna noc była." ∷ []))
associate_block_ids-IsAssociation_example =
    associate_block_ids-IsAssociation (λ t. t) two_texts
      (codes "Wiatr." ∷ codes "Ciemna noc była." ∷ []) two_texts-AreNamed
