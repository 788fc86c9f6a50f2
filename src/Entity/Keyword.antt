-- ===== src/Entity/Keyword.antt =====
-- internal/entity/keyword.go and photo_keyword.go, and `IndexKeywords` of photo.go: the words by which a photo is found.
pub mod Indexed
pub mod Examples
mod Tests
use photoprism.Prelude.{
  ℕ, Bool, true, false, not, ◌||◌, ◌&&◌, List, [], ◌∷◌, ◌++◌, any, keep, is_nil, Text, text_eq,
  ◌==◌, if◌then◌else◌, Option, none, some,
}
use photoprism.Txt.Unicode.{Unicode, lower}
use photoprism.Txt.Clip.{clip, clip_keyword}
use photoprism.Txt.Words.{keywords, unique_words}
use photoprism.Entity.Tables.{Tables}
use photoprism.Entity.Photo.{Photo, details_loaded}

pub record Keyword : Type 0 where
  pub id : ℕ
  pub keyword : Text
  pub skip : Bool

-- The tables `keywords`, in the order of its primary key, and `photos_keywords`, whose rows are pairs of a photo
-- and a keyword.
pub record KeywordIndex : Type 0 where
  pub keyword_rows : List Keyword
  pub photo_keywords : List (ℕ × ℕ)

-- What the database makes of a write: the row that it inserts, or nothing; whether a row that joins is
-- accepted, and whether a deletion is; and whether a condition `NOT IN` of no values holds of every row.
pub record KeywordDatabase : Type 0 where
  pub create : List Keyword → Text → Option Keyword
  pub joins : KeywordIndex → ℕ → ℕ → Bool
  pub deletes : KeywordIndex → Bool
  pub not_in_none : Bool

unfoldable pub new_keyword : Unicode → Text → Text
new_keyword u w = lower u (clip w clip_keyword)

unfoldable pub find_keyword : Text → List Keyword → Option Keyword
find_keyword w [] = none
find_keyword w (k ∷ ks) = if text_eq k.keyword w then some k else find_keyword w ks

-- `FirstOrCreateKeyword`.
unfoldable pub first_or_create_keyword :
    KeywordDatabase → List Keyword → Text → List Keyword × Option Keyword
first_or_create_keyword d rows w = elim (find_keyword w rows) [
  | some k ↦ (rows, some k)
  | none ↦ elim (d.create rows w) [ some k ↦ (rows ++ k ∷ [], some k) | none ↦ (rows, none) ]
]

-- A photo has a keyword.
abbrev pub is_joined : ℕ → ℕ → List (ℕ × ℕ) → Bool
is_joined p k rows = any (λ r. r.0 == p && r.1 == k) rows

-- `FirstOrCreatePhotoKeyword`, whose result is not used.
unfoldable pub first_or_create_photo_keyword : KeywordDatabase → KeywordIndex → ℕ → ℕ → KeywordIndex
first_or_create_photo_keyword d s p k =
    if is_joined p k s.photo_keywords
    then s
    else if d.joins s p k
    then record s { photo_keywords = s.photo_keywords ++ (p, k) ∷ [] }
    else s

-- The body of the loop over the words, and the loop, with the ids that it collects.
unfoldable pub index_word :
    Unicode → KeywordDatabase → KeywordIndex → ℕ → Text → KeywordIndex × List ℕ
unfolding first_or_create_keyword first_or_create_photo_keyword new_keyword
index_word u d s p w =
    let (rows, row) = first_or_create_keyword d s.keyword_rows (new_keyword u w) in
    let t = record s { keyword_rows = rows } in
    elim row [
      | none ↦ (t, [])
      | some k ↦ if k.skip then (t, []) else (first_or_create_photo_keyword d t p k.id, k.id ∷ [])
    ]

unfoldable pub index_words :
    Unicode → KeywordDatabase → KeywordIndex → ℕ → List Text → KeywordIndex × List ℕ
unfolding index_word
index_words u d s p [] = (s, [])
index_words u d s p (w ∷ ws) =
    let (t, ids) = index_word u d s p w in
    let (r, more) = index_words u d t p ws in (r, ids ++ more)

-- The words of a photo.
unfoldable pub photo_words : Tables → Photo → List Text
photo_words t m =
    let found = keywords t.unicode t.stopword in
    unique_words t.unicode t.sort_words (
      found m.photo_title
      ++ (found m.photo_description
          ++ (found m.details.keywords ++ (found m.details.subject ++ found m.details.artist))))

-- The row of a photo whose keyword is not among the ids, which the last statement deletes.
abbrev pub is_left : KeywordDatabase → ℕ → List ℕ → ℕ × ℕ → Bool
is_left d p ids r =
    not (r.0 == p && (if is_nil ids then d.not_in_none else not (any (λ k. k == r.1) ids)))

-- `IndexKeywords`, with whether it returned no error.
unfoldable pub index_keywords :
    Tables → KeywordDatabase → KeywordIndex → Photo → KeywordIndex × Bool
unfolding index_words photo_words
index_keywords t d s m =
    if not (details_loaded m)
    then (s, false)
    else (let (r, ids) = index_words t.unicode d s m.id (photo_words t m) in
        if d.deletes r
        then (record r { photo_keywords = keep (is_left d m.id ids) r.photo_keywords }, true)
        else (r, false))
