-- ===== src/Colors/LightMap.antt =====
-- `LightMap.Diff` of pkg/colors/lightmap.go: a number that similar images share.
pub mod Compared
use photoprism.Prelude.{
  ℕ, zero, suc, ◌+◌, ◌*◌, ◌%◌, ◌^◌, Bool, List, [], ◌∷◌, Option, none, some, ◌>>=◌, length, ltb,
  ◌==◌, if◌then◌else◌,
}

abbrev pub LightMap : Type 0
LightMap = List ℕ

-- `diffValue`: the places that are added up on each side
pub record DiffValue : Type 0 where
  a : List ℕ
  b : List ℕ

abbrev pub diff_values : List DiffValue
diff_values =
    record { a = 4 ∷ 4 ∷ 4 ∷ 4 ∷ []; b = 1 ∷ 3 ∷ 5 ∷ 7 ∷ [] }
    ∷ record { a = 0 ∷ []; b = 1 ∷ [] }
    ∷ record { a = 0 ∷ []; b = 3 ∷ [] }
    ∷ record { a = 2 ∷ []; b = 1 ∷ [] }
    ∷ record { a = 2 ∷ []; b = 5 ∷ [] }
    ∷ record { a = 6 ∷ []; b = 3 ∷ [] }
    ∷ record { a = 6 ∷ []; b = 7 ∷ [] }
    ∷ record { a = 8 ∷ []; b = 5 ∷ [] }
    ∷ record { a = 8 ∷ []; b = 7 ∷ [] }
    ∷ []

-- `m[i]`; none is an index out of range
unfoldable pub luminance_at : LightMap → ℕ → Option ℕ
luminance_at [] i = none
luminance_at (l ∷ m) zero = some l
luminance_at (l ∷ m) (suc i) = luminance_at m i

unfoldable pub sum_at : LightMap → List ℕ → ℕ → Option ℕ
sum_at m [] sum = some sum
sum_at m (i ∷ is) sum = do l ← luminance_at m i; sum_at m is (sum + l)

-- the test of one pass: `a+4 > b`
unfoldable pub is_brighter : LightMap → DiffValue → Option Bool
is_brighter m val = do a ← sum_at m val.a 0; b ← sum_at m val.b 0; some (ltb b (a + 4))

unfoldable pub diff_bits : LightMap → List DiffValue → ℕ → Option ℕ
diff_bits m [] result = some result
diff_bits m (val ∷ vals) result = do
  brighter ← is_brighter m val
  let shifted = (result * 2) % 2 ^ 32
  diff_bits m vals (if brighter then (shifted + 1) % 2 ^ 32 else shifted)

-- none is a panic
unfoldable pub diff : LightMap → Option ℕ
diff m = if length m == 9 then diff_bits m diff_values 1 else some 0
