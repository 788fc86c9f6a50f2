-- ===== src/Colors/Tests.antt =====
-- Tests of the colors, and examples.
use photoprism.Prelude.{◌+◌, ◌≤◌, ◌≡◌, refl, true, List, [], ◌∷◌, map, some, codes, length, arith}
use photoprism.Colors.{
  Color, black, blue, green, red, color_code, colors_hex, hex_all, hex_byte, hex_digit,
}
use photoprism.Colors.Digits.{hex_injective}
use photoprism.Colors.LightMap.{LightMap, diff}
use photoprism.Colors.LightMap.Compared.{binary, tests_of, diff_lem}
use photoprism.Colors.Perception.{ColorPerception, perceived, media_colors}
use photoprism.Colors.Perception.Main.{score, media_colors-main}

-- an image whose first pixel is dark and whose others are bright
abbrev corner : LightMap
corner = 1 ∷ 12 ∷ 12 ∷ 12 ∷ 12 ∷ 12 ∷ 12 ∷ 12 ∷ 12 ∷ []

diff-corner : diff corner ≡ some 831
unfolding diff photoprism.Colors.LightMap.diff_bits photoprism.Colors.LightMap.is_brighter
    photoprism.Colors.LightMap.sum_at photoprism.Colors.LightMap.luminance_at
diff-corner = refl

diff_lem_example : diff corner ≡ some (512 + binary (tests_of 1 12 12 12 12 12 12 12 12))
diff_lem_example = diff_lem 1 12 12 12 12 12 12 12 12

hex_of_corner : hex_all corner ≡ codes "1CCCCCCCC"
unfolding hex_all hex_byte hex_digit
hex_of_corner = refl

hex_of_colors : colors_hex (blue ∷ red ∷ []) ≡ codes "6E"
unfolding colors_hex color_code hex_all hex_byte hex_digit
hex_of_colors = refl

hex_injective_example : corner ≡ corner
hex_injective_example = hex_injective corner corner (ground arith) (ground arith) refl

abbrev pixels : List Color
pixels = green ∷ blue ∷ blue ∷ []

media_colors-main_example :
    (p : ColorPerception) × (media_colors
        (λ (c : Color). c)
        color_code
        (λ cs. length cs)
        true
        (some pixels)
      ≡ perceived p)
    × (p.colors ≡ map (λ c. c) pixels)
    × (p.luminance ≡ map color_code pixels)
    × ((c : Color) → score c (map (λ c. c) pixels) ≤ score p.main_color (map (λ c. c) pixels))
media_colors-main_example =
    media_colors-main (λ (c : Color). c) color_code (λ cs. length cs) pixels (omega arith)
