-- ===== src/Entity/Keyword/Tests.antt =====
-- A photo with a title of two words, one of them known and to be skipped, and the theorem at it.
use photoprism.Prelude.{
  ◌≡◌, refl, ◌==◌, true, false, [], ◌∷◌, any, codes, text_eq, if◌then◌else◌, inl,
}
use photoprism.Sorting.Insertion.{insertion_sort, insert}
use photoprism.Txt.Unicode.{ascii, is_space, byte_length}
use photoprism.Txt.Clip.{clip, trim_space, trim_left, trim_right}
use photoprism.Txt.Order.{text_lt}
use photoprism.Txt.Words.{words, keywords, unique_words}
use photoprism.Entity.Tables.{plain}
use photoprism.Entity.Photo.{Photo}
use photoprism.Entity.Photo.Examples.{blank}
use photoprism.Entity.Keyword.{
  KeywordIndex, new_keyword, find_keyword, first_or_create_keyword, is_joined,
  first_or_create_photo_keyword, index_word, index_words, photo_words, index_keywords,
}
use photoprism.Entity.Keyword.Examples.{database, database-IsReliable}
use photoprism.Entity.Keyword.Indexed.{stands_for, index_keywords_lem}

abbrev sunset : Photo
sunset = record blank { photo_title = codes "Sunset Cat" }

abbrev before : KeywordIndex
before = record {
  keyword_rows =
      record { id = 1; keyword = codes "cat"; skip = true }
      ∷ record { id = 2; keyword = codes "dog"; skip = false }
      ∷ [];
  photo_keywords = (1, 2) ∷ (8, 2) ∷ [];
}

bundle : Unit {0}
unfolding new_keyword find_keyword first_or_create_keyword first_or_create_photo_keyword index_word
    index_words photo_words index_keywords words keywords unique_words clip trim_space trim_left
    trim_right is_space text_eq insertion_sort insert byte_length text_lt
bundle = tt

index_keywords_test :
    (index_keywords plain database before sunset).0.photo_keywords ≡ (8, 2) ∷ (1, 3) ∷ []
unfolding bundle
index_keywords_test = refl

some_word :
    any (λ k. k == 3) (index_words ascii database before 1 (photo_words plain sunset)).1 ≡ true
unfolding bundle
some_word = refl

index_keywords_lem_example :
    ((index_keywords plain database before sunset).1 ≡ true)
    × (is_joined 1 3 (index_keywords plain database before sunset).0.photo_keywords ≡ (
        if true
        then any
            (stands_for ascii (index_keywords plain database before sunset).0.keyword_rows 3)
            (photo_words plain sunset)
        else is_joined 1 3 before.photo_keywords))
unfolding bundle
index_keywords_lem_example =
    index_keywords_lem plain database before sunset database-IsReliable refl (inl refl) 1 3
