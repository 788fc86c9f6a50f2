-- ===== src/Colors/Digits.antt =====
-- What `Colors.Hex` and `LightMap.Hex` keep of their lists.
use photoprism.Prelude.{ℕ, ◌<◌, ◌≡◌, refl, sym, ◌∙◌, List, [], ◌∷◌, All, arith}
use photoprism.Colors.{hex_digit, hex_byte, hex_all}

abbrev pub IsDigit : ℕ → Type 0
IsDigit n = n < 16

hex_byte-digit : (n : ℕ) → IsDigit n → hex_byte n ≡ hex_digit n ∷ []
unfolding hex_byte
hex_byte-digit n h = ground arith

hex_digit_injective : (m n : ℕ) → IsDigit m → IsDigit n → hex_digit m ≡ hex_digit n → m ≡ n
unfolding hex_digit
hex_digit_injective m n hm hn e = ground arith

hex_all-cons : (n : ℕ) (ns : List ℕ) → IsDigit n → hex_all (n ∷ ns) ≡ hex_digit n ∷ hex_all ns
unfolding hex_all
hex_all-cons n ns h = rw (hex_byte-digit n h) refl

-- Two light maps with values below 16 have the same text of hexadecimal digits only if they are
-- the same.
pub hex_injective :
    (ms ns : List ℕ)
    → All (λ n. IsDigit n) ms
    → All (λ n. IsDigit n) ns
    → hex_all ms ≡ hex_all ns
    → ms ≡ ns
unfolding hex_all
hex_injective [] [] hm hn e = refl
hex_injective [] (n ∷ ns) hm (hn, hns) e = let r = hex_all-cons n ns hn in cc
hex_injective (m ∷ ms) [] (hm, hms) hn e = let r = hex_all-cons m ms hm in cc
hex_injective (m ∷ ms) (n ∷ ns) (hm, hms) (hn, hns) e =
    let joined : hex_digit m ∷ hex_all ms ≡ hex_digit n ∷ hex_all ns =
      sym (hex_all-cons m ms hm) ∙ e ∙ hex_all-cons n ns hn in
    let first : hex_digit m ≡ hex_digit n = cc in
    let rest : hex_all ms ≡ hex_all ns = cc in
    let same = hex_digit_injective m n hm hn first in
    let others = hex_injective ms ns hms hns rest in cc
