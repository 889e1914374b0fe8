-- ===== src/Mux/Metadata.antt =====
-- mux/metadata.py: the ffmetadata document of an audiobook.
use praelector.Base.{ℕ, String, List, [], ◌∷◌, ◌++◌, ◌==◌, if◌then◌else◌}
use praelector.Base.Text.{Text, codes, strip}
use praelector.Jobs.Chunker.{is_empty}

pub record ChapterMark : Type 0 where
  pub title : Text
  pub start_ms : ℕ
  pub end_ms : ℕ

pub record AudiobookTags : Type 0 where
  pub title : Text
  pub authors : List Text
  pub narrator : Text
  pub album : Text
  pub date : Text
  pub language : Text
  pub description : Text
  pub isbn : Text

-- `value.replace(c, by)` for one character
abbrev pub replace_all : ℕ → Text → Text → Text
replace_all c by [] = []
replace_all c by (d ∷ s) = (if d == c then by else d ∷ []) ++ replace_all c by s

abbrev pub backslash : ℕ
backslash = 0x5c

abbrev pub newline : ℕ
newline = 0x0a

-- `_escape`: a backslash, then a newline as `\n`, then `=`, `;` and `#`
unfoldable pub escape : Text → Text
escape value = replace_all 0x23 (backslash ∷ 0x23 ∷ []) (
    replace_all 0x3b (backslash ∷ 0x3b ∷ []) (
      replace_all 0x3d (backslash ∷ 0x3d ∷ []) (
        replace_all newline (backslash ∷ 0x6e ∷ [])
          (replace_all backslash (backslash ∷ backslash ∷ []) value))))

-- `sep.join(texts)`
abbrev pub join : Text → List Text → Text
join sep [] = []
join sep (t ∷ []) = t
join sep (t ∷ u ∷ rest) = t ++ (sep ++ join sep (u ∷ rest))

-- The description with the ISBN at its end.
unfoldable pub described : AudiobookTags → Text
described tags =
    if is_empty tags.isbn
    then tags.description
    else strip (tags.description ++ (newline ∷ codes "ISBN " ++ tags.isbn))

abbrev pub tag_line : String → Text → Text
tag_line name value = codes name ++ escape value

-- The decimal print of a number of milliseconds, `f"{n}"`, is a parameter.
module _ (decimal : ℕ → Text) where
  unfoldable pub chapter_lines : List ChapterMark → List Text
  unfolding escape
  chapter_lines [] = []
  chapter_lines (mark ∷ marks) =
      []
      ∷ codes "[CHAPTER]"
      ∷ codes "TIMEBASE=1/1000"
      ∷ (codes "START=" ++ decimal mark.start_ms)
      ∷ (codes "END=" ++ decimal mark.end_ms)
      ∷ tag_line "title=" mark.title
      ∷ chapter_lines marks

  unfoldable pub ffmetadata : AudiobookTags → List ChapterMark → Text
  unfolding chapter_lines described escape
  ffmetadata tags chapters =
      let description = described tags in
      let authors = join (codes ", ") tags.authors in
      join (newline ∷ []) (
        codes ";FFMETADATA1"
        ∷ tag_line "title=" tags.title
        ∷ tag_line "artist=" authors
        ∷ tag_line "album_artist=" authors
        ∷ tag_line "composer=" tags.narrator
        ∷ tag_line "album=" tags.album
        ∷ tag_line "date=" tags.date
        ∷ codes "genre=Audiobook"
        ∷ tag_line "language=" tags.language
        ∷ tag_line "description=" description
        ∷ tag_line "comment=" description
        ∷ chapter_lines chapters)
      ++ newline ∷ []
