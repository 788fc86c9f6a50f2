-- ===== src/Colors/LightMap/Compared.antt =====
-- The number that `Diff` computes by shifts, compared with one that is read off the nine tests.
use photoprism.Prelude.{
  ℕ, suc, ◌+◌, ◌*◌, ◌%◌, ◌^◌, ◌≤◌, ◌<◌, ◌≡◌, ◌∙◌, refl, sym, ap, zero, Option-cases, inl, inr, Bool,
  true, false, List, [], ◌∷◌, Option, none, some, ◌>>=◌, length, ltb, if◌then◌else◌, arith,
}
use native.Mathlib.Nat.{zero-add}
use photoprism.Colors.LightMap.{
  LightMap, DiffValue, diff_values, luminance_at, sum_at, is_brighter, diff_bits, diff,
}

-- The value of binary digits, the first one the highest.
unfoldable pub binary : List Bool → ℕ
binary [] = 0
binary (b ∷ bs) = if b then 2 ^ length bs + binary bs else binary bs

unfoldable pub compared : LightMap → List DiffValue → Option (List Bool)
compared m [] = some []
compared m (val ∷ vals) = do
  brighter ← is_brighter m val
  rest ← compared m vals
  some (brighter ∷ rest)

add_binary : ℕ → Option (List Bool) → Option ℕ
add_binary r none = none
add_binary r (some bs) = some (r * 2 ^ length bs + binary bs)

positive_power : (n : ℕ) → 1 ≤ 2 ^ n
positive_power zero = omega arith
positive_power (suc n) = omega (arith, positive_power n)

digit_of : Bool → ℕ
digit_of b = if b then 1 else 0

-- room for one more digit
module _ (r n : ℕ) (room : (r + 1) * 2 ^ suc n ≤ 2 ^ 32) where
  small : r * 2 + 2 ≤ 2 ^ 32
  small = grind (arith, positive_power n)

  room_after : (b : Bool) → (r * 2 + digit_of b + 1) * 2 ^ n ≤ 2 ^ 32
  unfolding digit_of
  room_after true = grind arith
  room_after false = let odd : (r * 2 + 1) * 2 ^ n ≤ 2 ^ 32 = grind arith in grind (arith, odd)

shift_lem :
    (r : ℕ) (b : Bool)
    → r * 2 + 2 ≤ 2 ^ 32
    → (if b then ((r * 2) % 2 ^ 32 + 1) % 2 ^ 32 else (r * 2) % 2 ^ 32) ≡ r * 2 + digit_of b
unfolding digit_of
shift_lem r true h = omega arith
shift_lem r false h = omega arith

add_binary-cons :
    (r : ℕ) (b : Bool) (o : Option (List Bool))
    → add_binary (r * 2 + digit_of b) o ≡ add_binary r (o >>= λ rest. some (b ∷ rest))
unfolding add_binary binary digit_of
add_binary-cons r b none = refl
add_binary-cons r true (some bs) = ap some (grind arith)
add_binary-cons r false (some bs) = ap some (grind arith)

diff_bits_lem :
    (m : LightMap) (vals : List DiffValue) (r : ℕ)
    → (r + 1) * 2 ^ length vals ≤ 2 ^ 32
    → diff_bits m vals r ≡ add_binary r (compared m vals)
unfolding diff_bits compared add_binary binary
diff_bits_lem m [] r h = ap some (omega arith)
diff_bits_lem m (val ∷ vals) r h =
    let fits : r * 2 + 2 ≤ 2 ^ 32 = small r (length vals) h in
    elim (Option-cases (is_brighter m val)) [
      | inl e ↦ rw e refl
      | inr (b, e) ↦ rw e (
          rw (shift_lem r b fits) (
            diff_bits_lem m vals (r * 2 + digit_of b) (room_after r (length vals) h b)
            ∙ add_binary-cons r b (compared m vals)))
    ]

-- The nine tests: whether the place in the middle is brighter than those at its sides, and each
-- corner than its two neighbours, with some tolerance.
-- a b c
-- d e f
-- g h i
unfoldable pub tests_of : (a b c d e f g h i : ℕ) → List Bool
tests_of a b c d e f g h i =
    ltb (b + d + f + h) (e + e + e + e + 4)
    ∷ ltb b (a + 4)
    ∷ ltb d (a + 4)
    ∷ ltb b (c + 4)
    ∷ ltb f (c + 4)
    ∷ ltb d (g + 4)
    ∷ ltb h (g + 4)
    ∷ ltb f (i + 4)
    ∷ ltb h (i + 4)
    ∷ []

compared-tests :
    (a b c d e f g h i : ℕ)
    → compared (a ∷ b ∷ c ∷ d ∷ e ∷ f ∷ g ∷ h ∷ i ∷ []) diff_values
      ≡ some (tests_of a b c d e f g h i)
unfolding compared is_brighter sum_at luminance_at tests_of
compared-tests a b c d e f g h i = simp zero-add

-- Diff of nine luminances is 512 and the binary number of nine tests: whether the place in the
-- middle is brighter, with a tolerance, than the mean of its four neighbours, and each corner than
-- each of its two. It never reads out of range, and the shifts lose no digit.
pub diff_lem :
    (a b c d e f g h i : ℕ)
    → diff (a ∷ b ∷ c ∷ d ∷ e ∷ f ∷ g ∷ h ∷ i ∷ [])
      ≡ some (512 + binary (tests_of a b c d e f g h i))
unfolding diff add_binary tests_of
diff_lem a b c d e f g h i =
    let m : LightMap = a ∷ b ∷ c ∷ d ∷ e ∷ f ∷ g ∷ h ∷ i ∷ [] in
    diff_bits_lem m diff_values 1 (omega arith) ∙ rw (compared-tests a b c d e f g h i) refl

binary_bound : (bs : List Bool) → binary bs < 2 ^ length bs
unfolding binary
binary_bound [] = omega arith
binary_bound (b ∷ bs) =
    let double : 2 ^ suc (length bs) ≡ 2 ^ length bs * 2 = omega arith in
    ground (arith, binary_bound bs, double)

binary_injective : (bs cs : List Bool) → length bs ≡ length cs → binary bs ≡ binary cs → bs ≡ cs
unfolding binary
binary_injective [] [] l e = refl
binary_injective [] (c ∷ cs) l e = absurd (omega arith)
binary_injective (b ∷ bs) [] l e = absurd (omega arith)
binary_injective (b ∷ bs) (c ∷ cs) l e =
    let lengths : length bs ≡ length cs = omega (arith, l) in
    let powers : 2 ^ length bs ≡ 2 ^ length cs = ap (λ n. 2 ^ n) lengths in
    let rest = binary_injective bs cs lengths in
    grind (arith, binary_bound bs, binary_bound cs, powers, rest)

-- two light maps with the same number pass the same tests
diff-tests :
    (a b c d e f g h i a' b' c' d' e' f' g' h' i' : ℕ)
    → diff (a ∷ b ∷ c ∷ d ∷ e ∷ f ∷ g ∷ h ∷ i ∷ [])
      ≡ diff (a' ∷ b' ∷ c' ∷ d' ∷ e' ∷ f' ∷ g' ∷ h' ∷ i' ∷ [])
    → tests_of a b c d e f g h i ≡ tests_of a' b' c' d' e' f' g' h' i'
unfolding tests_of
diff-tests a b c d e f g h i a' b' c' d' e' f' g' h' i' same =
    let values : some (512 + binary (tests_of a b c d e f g h i))
        ≡ some (512 + binary (tests_of a' b' c' d' e' f' g' h' i')) =
      sym (diff_lem a b c d e f g h i) ∙ same ∙ diff_lem a' b' c' d' e' f' g' h' i' in
    binary_injective _ _ refl (grind (arith, values))
