-- ===== src/Txt/Words.antt =====
-- pkg/txt/words.go: words and keywords of a text.
pub mod Unique
use photoprism.Prelude.{
  ℕ, Bool, true, false, not, ◌||◌, List, [], ◌∷◌, ◌++◌, map, Text, length, text_eq, keep, leb, ltb,
  ◌==◌, if◌then◌else◌,
}
use photoprism.Sorting.{Sorter}
use photoprism.Txt.Unicode.{Unicode, byte_length, lower}
use photoprism.Txt.Order.{less_lower}

-- A run of three or more runes is a match of `[class]{3,}`.
abbrev pub found : Text → List Text → List Text
found run rest = if leb 3 (length run) then run ∷ rest else rest

-- `FindAllString` of `[class]{3,}`: matches are leftmost and as long as possible, so they are the
-- maximal runs of the class. `run` is the part of the current run that has been read.
pub find_runs : (ℕ → Bool) → Text → Text → List Text
find_runs member run [] = found run []
find_runs member run (c ∷ s) = elim (member c) [
  | true ↦ find_runs member (run ++ c ∷ []) s
  | false ↦ found run (find_runs member [] s)
]

-- `[\p{L}\-]{3,}`
unfoldable pub words : Unicode → Text → List Text
unfolding find_runs
words u s = find_runs (λ c. u.is_letter c || c == b'-') [] s

-- `[\p{L}]{3,}`
unfoldable pub filename_words : Unicode → Text → List Text
unfolding find_runs
filename_words u s = find_runs u.is_letter [] s

-- `stopword` is the generated table `Stopwords`.
unfoldable pub filename_keywords : Unicode → (Text → Bool) → Text → List Text
unfolding filename_words
filename_keywords u stopword s = keep (λ w. not (stopword w)) (map (lower u) (filename_words u s))

unfoldable pub keywords : Unicode → (Text → Bool) → Text → List Text
unfolding words
keywords u stopword s = keep (λ w. not (stopword w)) (map (lower u) (words u s))

unfoldable pub sort_case_insensitive : Unicode → Sorter Text → List Text → List Text
sort_case_insensitive u sorter ws = sorter.sort (less_lower u) ws

-- The loop of `UniqueWords` and `UniqueKeywords`; the length is counted in bytes.
pub skip_repeated : Unicode → Text → List Text → List Text
skip_repeated u last [] = []
skip_repeated u last (w ∷ ws) = elim (ltb (byte_length (lower u w)) 3 || text_eq (lower u w) last) [
  | true ↦ skip_repeated u last ws
  | false ↦ lower u w ∷ skip_repeated u (lower u w) ws
]

unfoldable pub unique_words : Unicode → Sorter Text → List Text → List Text
unfolding skip_repeated sort_case_insensitive
unique_words u sorter ws = skip_repeated u [] (sort_case_insensitive u sorter ws)

unfoldable pub unique_keywords : Unicode → (Text → Bool) → Sorter Text → Text → List Text
unfolding skip_repeated sort_case_insensitive keywords
unique_keywords u stopword sorter s =
    skip_repeated u [] (sort_case_insensitive u sorter (keywords u stopword s))
