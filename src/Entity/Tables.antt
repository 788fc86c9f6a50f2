-- ===== src/Entity/Tables.antt =====
-- What the rules for photos take from outside the repository's own code: Unicode tables, Go's sort,
-- and the generated tables of stop words and of country names.
use photoprism.Prelude.{Bool, false, Text, []}
use photoprism.Sorting.{Sorter}
use photoprism.Sorting.Insertion.{insertion}
use photoprism.Txt.Unicode.{Unicode, ascii}
use photoprism.Classify.{Label}

pub record Tables : Type 0 where
  pub unicode : Unicode
  pub stopword : Text → Bool
  -- The name, or no text for an unknown code.
  pub country_name : Text → Text
  pub sort_words : Sorter Text
  pub sort_labels : Sorter Label

-- What tests run with: ASCII, no stop words, no countries, insertion sort.
abbrev pub plain : Tables
plain = record {
  unicode = ascii;
  stopword = λ w. false;
  country_name = λ c. [];
  sort_words = insertion;
  sort_labels = insertion;
}
