-- ===== src/Store/Tree/Merge/Neighbours.antt =====
-- `merge` of two neighbours, in either order.
use praelector.Base.{
  ℕ, suc, ◌≤◌, ◌≡◌, refl, sym, ap, ap₂, ◌∙◌, subst, true, false, not, ◌⊎◌, inl, inr, String, str_eq,
  List, [], ◌∷◌, ◌++◌, map, if◌then◌else◌, length, arith,
}
use praelector.Base.Int.{pos, ltb_ℤ}
use praelector.Base.Member.{In, In-right}
use praelector.Base.Text.Laws.{str_eq-false_sym}
use praelector.Domain.Errors.{Result, ok}
use praelector.Store.Rows.{ChapterRow, Project}
use praelector.Store.Session.{done, next-done, session_scope, close, raise, refuse_if}
use praelector.Store.Ordinals.{active, active_chapter}
use praelector.Store.Versions.History.{snapshot}
use praelector.Store.Outline.{entry, outline, IsValid, HasRoom, active_chapter-done}
use praelector.Store.Tree.{MergeResult, merge, merge_two, join, is_step, two_only, not_adjacent}
use praelector.Store.Tree.Merge.Chapters.{first_place, second_place, first_off}
use praelector.Store.Tree.Merge.Joined.{joined, result, final, join-Joined}

steps_up : (k : ℕ) → is_step (pos k) (pos (suc k)) ≡ true
steps_up k = ground arith

steps_down : (k : ℕ) → is_step (pos (suc k)) (pos k) ≡ true
steps_down k = ground arith

not_before : (k : ℕ) → ltb_ℤ (pos (suc k)) (pos k) ≡ false
not_before k = ground arith

is_before : (k : ℕ) → ltb_ℤ (pos k) (pos (suc k)) ≡ true
is_before k = ground arith

merge-two :
    (now : String) (a b : String) (p : Project)
    → str_eq a b ≡ false
    → merge now (a ∷ b ∷ []) p ≡ merge_two now a b p
unfolding merge
merge-two now a b p off = ap (λ t. (if t then raise two_only else merge_two now a b) p) off

merge_two-join :
    (now : String) (x y : ChapterRow) (p : Project)
    → active_chapter x.id p ≡ done x p
    → active_chapter y.id p ≡ done y p
    → is_step x.ordinal y.ordinal ≡ true
    → merge_two now x.id y.id p
      ≡ (if ltb_ℤ y.ordinal x.ordinal then join now y x else join now x y) p
unfolding merge_two
merge_two-join now x y p h k step =
    next-done _ _ _ _ h
    ∙ next-done _ _ _ _ k
    ∙ next-done _ _ _ _ (ap (λ t. refuse_if (not t) (not_adjacent x y) p) step)

-- What a merge came to: one chapter with the blocks of both.
abbrev pub IsMerged :
    Project
    → List ChapterRow
    → List ChapterRow
    → ChapterRow
    → ChapterRow
    → Result MergeResult × Project
    → Type 0
IsMerged p front back first second run =
    (r : MergeResult) × (q : Project) × (run ≡ (ok r, q))
    × (outline q.db
        ≡ map (entry p.db.blocks) front
          ++ joined (entry p.db.blocks first) (entry p.db.blocks second)
            ∷ map (entry p.db.blocks) back)
    × IsValid q.db
    × ((n : ℕ) → n ≤ p.db.current_revision → snapshot n q.db.blocks ≡ snapshot n p.db.blocks)
    × (q.db.current_revision ≡ suc p.db.current_revision)
    × (q.manifest.current_revision ≡ q.db.current_revision)

-- Two neighbours of a valid database, in which no chapter has an ordinal as low as
-- -999,999, are merged, named in either order: the outline then has one chapter, with the earlier
-- one's name and the blocks of both in order, where the two were, and is as it was before and behind.
-- The database is valid again, at the next revision, which the manifest has too, and every revision so
-- far reads as before.
pub merge-Merged :
    (now : String) (p : Project) (front back : List ChapterRow) (first second : ChapterRow)
    (ids : List String)
    → IsValid p.db
    → HasRoom p.db
    → active p.db.chapters ≡ front ++ first ∷ second ∷ back
    → (ids ≡ first.id ∷ second.id ∷ []) ⊎ (ids ≡ second.id ∷ first.id ∷ [])
    → IsMerged p front back first second (session_scope (merge now ids) p)
merge-Merged now p front back first second ids valid room shape named =
    let (run, out, fine, past) = join-Joined now p front back first second valid room shape in
    (
      result now p front back first second valid room shape,
      final now p front back first second valid room shape,
      ap (close p) (elim named [
        | inl e ↦ ap (λ l. merge now l p) e ∙ forward ∙ run
        | inr e ↦ ap (λ l. merge now l p) e ∙ backward ∙ run
      ]),
      out,
      fine,
      past,
      refl,
      refl,
    )
  where
    inside : (r : ChapterRow) → In r (first ∷ second ∷ back) → In r (active p.db.chapters)
    inside r i = subst (In r) (sym shape) (In-right r front (first ∷ second ∷ back) i)

    one : first.ordinal ≡ pos (length front)
    one = first_place p.db.chapters front back first second valid.named valid.ordered shape room

    two : second.ordinal ≡ pos (suc (length front))
    two = second_place p.db.chapters front back first second valid.named valid.ordered shape room

    off : str_eq first.id second.id ≡ false
    off = first_off p.db.chapters front back first second valid.named valid.ordered shape room

    find_one : active_chapter first.id p ≡ done first p
    find_one = active_chapter-done p first valid.named (inside first (inl refl))

    find_two : active_chapter second.id p ≡ done second p
    find_two = active_chapter-done p second valid.named (inside second (inr (inl refl)))

    forward : merge now (first.id ∷ second.id ∷ []) p ≡ join now first second p
    forward =
        merge-two now first.id second.id p off
        ∙ merge_two-join now first second p find_one find_two
            (ap₂ is_step one two ∙ steps_up (length front))
        ∙ ap (λ t. (if t then join now second first else join now first second) p)
            (ap₂ (λ o q. ltb_ℤ q o) one two ∙ not_before (length front))

    backward : merge now (second.id ∷ first.id ∷ []) p ≡ join now first second p
    backward =
        merge-two now second.id first.id p (str_eq-false_sym first.id second.id off)
        ∙ merge_two-join now second first p find_two find_one
            (ap₂ (λ o q. is_step q o) one two ∙ steps_down (length front))
        ∙ ap (λ t. (if t then join now first second else join now second first) p)
            (ap₂ (λ o q. ltb_ℤ o q) one two ∙ is_before (length front))
