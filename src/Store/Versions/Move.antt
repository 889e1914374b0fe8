-- ===== src/Store/Versions/Move.antt =====
-- Blocks that move from one chapter behind the blocks of another.
use praelector.Base.{
  ℕ, suc, ◌<◌, ◌≤◌, ◌≡◌, refl, sym, ap, ◌∙◌, subst, true, false, not, inl, inr, Option, String,
  str_eq, eq_iff, List, [], ◌∷◌, ◌++◌, keep, All, All-map, arith,
}
use praelector.Base.Member.{In}
use praelector.Base.Text.{Text}
use praelector.Store.Rows.{BlockRow}
use praelector.Store.Versions.{
  is_open, is_current, current_blocks, close_blocks, later_texts, new_versions,
}
use praelector.Store.Versions.Current.{
  is_closing, In-of_current, current_blocks-close, current_blocks-add, current_blocks-other,
}
use praelector.Store.Versions.History.{
  AreVersions, once_after, versions_after, up_to_after, snapshot-after, snapshot,
}
use praelector.Store.Versions.Reversion.{
  AreOpenOnce, AreUpTo, AreDistinct, is_closing-In, keep-closing_other, new_versions-current,
  new_versions-from, new_versions-AreNumbered, new_versions-AreDistinct,
}

-- A new version has the identifier of an old one.
pub new_versions-id :
    (c : String) (revision n : ℕ) (texts : Option (List Text)) (blocks : List BlockRow)
    (b : BlockRow)
    → In b (new_versions c revision n texts blocks)
    → (x : BlockRow) × In x blocks × (b.id ≡ x.id)
unfolding new_versions
new_versions-id c revision n texts [] b i = elim i [ ]
new_versions-id c revision n texts (x ∷ blocks) b (inl e) =
    (x, inl refl, ap (λ (q : BlockRow). q.id) e)
new_versions-id c revision n texts (x ∷ blocks) b (inr i) =
    let (y, j, e) = new_versions-id c revision (suc n) (later_texts texts) blocks b i in
    (y, inr j, e)

pub current_off :
    (c e : String) (b : BlockRow)
    → is_current e b ≡ true
    → str_eq e c ≡ false
    → is_current c b ≡ false
current_off c e b h off =
    let same = (eq_iff b.chapter_id e).0 (ground (arith, h)) in
    let differs : str_eq b.chapter_id c ≡ false = ap (λ t. str_eq t c) same ∙ off in rw differs refl

module _ (rows : List BlockRow) (revision : ℕ) (once : AreOpenOnce rows)
    (versions : AreVersions rows) (up_to : AreUpTo revision rows) (from to : String) (n : ℕ)
    (texts : Option (List Text)) (moving : List BlockRow)
    (sub : (x : BlockRow) → In x moving → In x (current_blocks from rows))
    (distinct : AreDistinct moving) where
  abbrev arriving : List BlockRow
  arriving = new_versions to (suc revision) n texts moving

  abbrev pub moved_rows : List BlockRow
  moved_rows =
      close_blocks moving (suc revision) rows ++ new_versions to (suc revision) n texts moving

  moving_open : (x : BlockRow) → In x moving → In x rows × (is_open x.valid_to_revision ≡ true)
  moving_open x i = let (j, h) = In-of_current from rows x (sub x i) in (j, ground (arith, h))

  pub move-replaces :
      (b q : BlockRow)
      → In b arriving
      → In q rows
      → is_open q.valid_to_revision ≡ true
      → str_eq b.id q.id ≡ true
      → is_closing moving q ≡ true
  move-replaces b q i j o h =
      let (x, k, e) = new_versions-id to (suc revision) n texts moving b i in
      let (l, o') = moving_open x k in
      let same = once x q l j o' o (ap (λ t. str_eq t q.id) (sym e) ∙ h) in
      is_closing-In moving q (subst (λ r. In r moving) same k)

  fresh : All (λ (b : BlockRow). b.valid_from_revision ≡ suc revision) arriving
  fresh = new_versions-from to (suc revision) n texts moving

  arriving_distinct : AreDistinct arriving
  arriving_distinct = new_versions-AreDistinct to (suc revision) n texts moving distinct

  pub move-AreOpenOnce : AreOpenOnce moved_rows
  move-AreOpenOnce =
      once_after rows moving arriving revision once versions up_to moving_open fresh
        arriving_distinct move-replaces

  pub move-AreVersions : AreVersions moved_rows
  move-AreVersions =
      versions_after rows moving arriving revision once versions up_to moving_open fresh
        arriving_distinct move-replaces

  pub move-AreUpTo : AreUpTo (suc revision) moved_rows
  move-AreUpTo =
      up_to_after rows moving arriving revision once versions up_to moving_open fresh
        arriving_distinct move-replaces

  pub move-snapshot : (r : ℕ) → r ≤ revision → snapshot r moved_rows ≡ snapshot r rows
  move-snapshot =
      snapshot-after rows moving arriving revision once versions up_to moving_open fresh
        arriving_distinct move-replaces

  -- Other chapters are as they were.
  pub move-other :
      (c : String)
      → str_eq from c ≡ false
      → str_eq to c ≡ false
      → current_blocks c moved_rows ≡ current_blocks c rows
  move-other c off off' =
      current_blocks-other c (close_blocks moving (suc revision) rows) arriving (
        All-map (λ b. is_current to b ≡ true) (λ b. is_current c b ≡ false) arriving
          (λ b h. current_off c to b h off')
          (new_versions-current to (suc revision) n texts moving))
      ∙ current_blocks-close c moving (suc revision) rows
      ∙ keep-closing_other rows once c from moving sub off

  -- The chapter that they leave keeps the others.
  pub move-from :
      str_eq to from ≡ false
      → current_blocks from moved_rows
        ≡ keep (λ b. not (is_closing moving b)) (current_blocks from rows)
  move-from off =
      current_blocks-other from (close_blocks moving (suc revision) rows) arriving (
        All-map (λ b. is_current to b ≡ true) (λ b. is_current from b ≡ false) arriving
          (λ b h. current_off from to b h off)
          (new_versions-current to (suc revision) n texts moving))
      ∙ current_blocks-close from moving (suc revision) rows

  -- They come last in the chapter that they go to.
  pub move-to :
      str_eq from to ≡ false
      → All (λ b. b.ordinal < n) (current_blocks to rows)
      → current_blocks to moved_rows ≡ current_blocks to rows ++ arriving
  move-to off low =
      let stays =
        current_blocks-close to moving (suc revision) rows
        ∙ keep-closing_other rows once to from moving sub off in
      current_blocks-add to n (close_blocks moving (suc revision) rows) arriving
        (subst (All (λ b. b.ordinal < n)) (sym stays) low)
        (new_versions-current to (suc revision) n texts moving)
        (new_versions-AreNumbered to (suc revision) n texts moving)
      ∙ ap (λ l. l ++ arriving) stays
