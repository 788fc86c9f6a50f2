-- ===== src/Txt/Unicode.antt =====
-- Go's `unicode` tables, which the program only calls, and the ASCII and white space tests that
-- `strings` and pkg/txt spell out.
use photoprism.Prelude.{ℕ, ◌+◌, Bool, ◌||◌, ◌&&◌, [], ◌∷◌, map, Text, leb, ltb, ◌==◌, if◌then◌else◌}

-- `unicode.IsLetter`, `unicode.IsDigit`, and the case maps. What the theorems need of a table is a
-- hypothesis of theirs.
pub record Unicode : Type 0 where
  pub is_letter : ℕ → Bool
  pub is_digit : ℕ → Bool
  pub to_lower : ℕ → ℕ
  pub to_upper : ℕ → ℕ
  pub to_title : ℕ → ℕ

-- `unicode.IsSpace`: the code points with the property White_Space.
unfoldable pub is_space : ℕ → Bool
is_space c =
    (leb 9 c && leb c 13)
    || c == 32
    || c == 0x85
    || c == 0xa0
    || c == 0x1680
    || (leb 0x2000 c && leb c 0x200a)
    || c == 0x2028
    || c == 0x2029
    || c == 0x202f
    || c == 0x205f
    || c == 0x3000

-- The bytes of a code point in UTF-8, and of a text: Go's `len` of a string.
abbrev pub rune_length : ℕ → ℕ
rune_length c = if ltb c 0x80 then 1 else if ltb c 0x800 then 2 else if ltb c 0x10000 then 3 else 4

unfoldable pub byte_length : Text → ℕ
byte_length [] = 0
byte_length (c ∷ s) = rune_length c + byte_length s

-- The tables on ASCII alone: what tests and witnesses run with.
abbrev pub ascii : Unicode
ascii = record {
  is_letter = λ c. (leb b'a' c && leb c b'z') || (leb b'A' c && leb c b'Z');
  is_digit = λ c. leb b'0' c && leb c b'9';
  to_lower = λ c. if leb b'A' c && leb c b'Z' then c + 32 else c;
  to_upper = λ c. if leb b'a' c && leb c b'z' then Prim.Native.Nat.◌-◌ c 32 else c;
  to_title = λ c. if leb b'a' c && leb c b'z' then Prim.Native.Nat.◌-◌ c 32 else c;
}

-- `strings.ToLower`.
abbrev pub lower : Unicode → Text → Text
lower u = map u.to_lower
