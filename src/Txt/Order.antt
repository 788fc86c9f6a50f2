-- ===== src/Txt/Order.antt =====
-- Go's `<` on strings. It compares bytes, which for UTF-8 is the order of the code points.
use photoprism.Prelude.{
  ◌≡◌, refl, ◌≢◌, Bool, true, false, [], ◌∷◌, Text, arith, ltb, if◌then◌else◌, ap,
}
use photoprism.Sorting.{IsStrictWeak}
use photoprism.Txt.Unicode.{Unicode, lower}

unfoldable pub text_lt : Text → Text → Bool
text_lt [] [] = false
text_lt [] (b ∷ t) = true
text_lt (a ∷ s) [] = false
text_lt (a ∷ s) (b ∷ t) = if ltb a b then true else if ltb b a then false else text_lt s t

pub text_lt-asym : (s t : Text) → text_lt s t ≡ true → text_lt t s ≡ false
unfolding text_lt
text_lt-asym [] [] h = refl
text_lt-asym [] (b ∷ t) h = refl
text_lt-asym (a ∷ s) [] h = cc
text_lt-asym (a ∷ s) (b ∷ t) h = ground (arith, text_lt-asym s t)

pub text_le_trans : (s t r : Text) → text_lt t s ≡ false → text_lt r t ≡ false → text_lt r s ≡ false
unfolding text_lt
text_le_trans [] t [] h k = refl
text_le_trans [] [] (c ∷ r) h k = refl
text_le_trans [] (b ∷ t) (c ∷ r) h k = refl
text_le_trans (a ∷ s) [] r h k = cc
text_le_trans (a ∷ s) (b ∷ t) [] h k = cc
text_le_trans (a ∷ s) (b ∷ t) (c ∷ r) h k = ground (arith, text_le_trans s t r)

pub not-text_lt-nil : (s : Text) → text_lt s [] ≡ false
unfolding text_lt
not-text_lt-nil [] = refl
not-text_lt-nil (c ∷ s) = refl

pub text_lt_of_le_of_ne : (s t : Text) → text_lt t s ≡ false → s ≢ t → text_lt s t ≡ true
unfolding text_lt
text_lt_of_le_of_ne [] [] h ne = absurd (ne refl)
text_lt_of_le_of_ne [] (b ∷ t) h ne = refl
text_lt_of_le_of_ne (a ∷ s) [] h ne = cc
text_lt_of_le_of_ne (a ∷ s) (b ∷ t) h ne =
    ground (arith, text_lt_of_le_of_ne s t, λ (e : s ≡ t). ap (◌∷◌ a) e)

-- The `less` of `SortCaseInsensitive`.
abbrev pub less_lower : Unicode → Text → Text → Bool
less_lower u s t = text_lt (lower u s) (lower u t)

pub less_lower-IsStrictWeak : (u : Unicode) → IsStrictWeak (less_lower u)
less_lower-IsStrictWeak u = record {
  asym = λ s t. text_lt-asym (lower u s) (lower u t);
  trans_not = λ s t r. text_le_trans (lower u s) (lower u t) (lower u r);
}
