-- ===== src/Colors.antt =====
-- The colors of pkg/colors: colors.go and luminance.go. A color is stored as one hexadecimal digit.
pub mod LightMap
pub mod Digits
pub mod Perception
mod Tests
use photoprism.Prelude.{ℕ, ◌+◌, ◌/◌, ◌%◌, List, [], ◌∷◌, ◌++◌, map, Text, codes, ltb, if◌then◌else◌}

-- `Color`, in the order of the constants.
pub data Color : Type 0 where
  black : Color
  brown : Color
  grey : Color
  white : Color
  purple : Color
  gold : Color
  blue : Color
  cyan : Color
  teal : Color
  green : Color
  lime : Color
  yellow : Color
  magenta : Color
  orange : Color
  red : Color
  pink : Color

-- the value of the constant
unfoldable pub color_code : Color → ℕ
color_code black = 0
color_code brown = 1
color_code grey = 2
color_code white = 3
color_code purple = 4
color_code gold = 5
color_code blue = 6
color_code cyan = 7
color_code teal = 8
color_code green = 9
color_code lime = 10
color_code yellow = 11
color_code magenta = 12
color_code orange = 13
color_code red = 14
color_code pink = 15

-- `Names`
unfoldable pub color_name : Color → Text
color_name black = codes "black"
color_name brown = codes "brown"
color_name grey = codes "grey"
color_name white = codes "white"
color_name purple = codes "purple"
color_name gold = codes "gold"
color_name blue = codes "blue"
color_name cyan = codes "cyan"
color_name teal = codes "teal"
color_name green = codes "green"
color_name lime = codes "lime"
color_name yellow = codes "yellow"
color_name magenta = codes "magenta"
color_name orange = codes "orange"
color_name red = codes "red"
color_name pink = codes "pink"

-- `Weights`
unfoldable pub weight : Color → ℕ
weight black = 2
weight brown = 2
weight grey = 1
weight white = 2
weight purple = 4
weight gold = 4
weight blue = 3
weight cyan = 4
weight teal = 4
weight green = 3
weight lime = 5
weight yellow = 5
weight magenta = 5
weight orange = 4
weight red = 4
weight pink = 4

unfoldable pub hex_digit : ℕ → ℕ
hex_digit n = if ltb n 10 then 48 + n else 55 + n

-- `fmt.Sprintf("%X", n)` for a number of 8 bits
unfoldable pub hex_byte : ℕ → Text
hex_byte n = if ltb n 16 then hex_digit n ∷ [] else hex_digit (n / 16) ∷ hex_digit (n % 16) ∷ []

unfoldable pub hex_all : List ℕ → Text
hex_all [] = []
hex_all (n ∷ ns) = hex_byte n ++ hex_all ns

-- `Colors.Hex`
unfoldable pub colors_hex : List Color → Text
colors_hex cs = hex_all (map color_code cs)
