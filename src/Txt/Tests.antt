-- ===== src/Txt/Tests.antt =====
-- Small texts, and the theorems at them.
use photoprism.Prelude.{◌≡◌, refl, ◌≤◌, ◌↔◌, List, [], ◌∷◌, map, Text, codes, text_eq, All}
use mathlib.Core.List.{Mem}
use photoprism.Sorting.Insertion.{insertion, insertion_sort, insert}
use photoprism.Txt.Unicode.{is_space, ascii, byte_length, lower}
use photoprism.Txt.Clip.{clip, trim_space}
use photoprism.Txt.Order.{text_lt}
use photoprism.Txt.Words.{unique_words}
use photoprism.Txt.Words.Unique.{Increasing, unique_words_lem}

clip_test : clip (codes " I'm here ") 8 ≡ codes "I'm here"
unfolding clip trim_space is_space
clip_test = refl

clip_cut_test : clip (codes " I'm here ") 5 ≡ codes "I'm "
unfolding clip trim_space is_space
clip_cut_test = refl

abbrev three_words : List Text
three_words = codes "Sea" ∷ codes "cat" ∷ codes "SEA" ∷ codes "ab" ∷ []

unique_words_test : unique_words ascii insertion three_words ≡ codes "cat" ∷ codes "sea" ∷ []
unfolding unique_words insertion_sort insert byte_length text_eq text_lt
unique_words_test = refl

unique_words_lem_example :
    Increasing [] (unique_words ascii insertion three_words)
    × All (λ w. 3 ≤ byte_length w) (unique_words ascii insertion three_words)
    × ((v : Text)
        → Mem v (unique_words ascii insertion three_words)
          ↔ (Mem v (map (lower ascii) three_words) × (3 ≤ byte_length v)))
unique_words_lem_example = unique_words_lem ascii insertion three_words
