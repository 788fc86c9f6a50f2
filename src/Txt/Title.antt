-- ===== src/Txt/Title.antt =====
-- pkg/txt/strings.go: `Title` and what it tests.
use photoprism.Prelude.{
  ℕ, ◌≡◌, refl, Bool, false, not, ◌||◌, ◌&&◌, [], ◌∷◌, Text, codes, leb, ◌==◌, if◌then◌else◌,
}
use photoprism.Txt.Unicode.{Unicode, is_space, ascii}

-- ASCII letters, digits, the underscore and the apostrophe separate no words, other ASCII does.
-- Beyond ASCII white space does, unless it is a letter or a digit.
unfoldable pub is_separator : Unicode → ℕ → Bool
is_separator u r =
    if leb r 0x7f
    then not (
        (leb b'0' r && leb r b'9')
        || (leb b'a' r && leb r b'z')
        || (leb b'A' r && leb r b'Z')
        || (r == b'_' || r == 39))
    else if u.is_letter r || u.is_digit r
    then false
    else is_space r

-- `prev` is the rune before, as it was in the input.
title_from : Unicode → ℕ → Text → Text
title_from u prev [] = []
title_from u prev (r ∷ s) = (if is_separator u prev then u.to_title r else r) ∷ title_from u r s

unfoldable pub title_case : Unicode → Text → Text
unfolding title_from is_separator
title_case u s = title_from u b' ' s

title_case_test : title_case ascii (codes "cat's play_ground") ≡ codes "Cat's Play_ground"
unfolding title_case is_space
title_case_test = refl
