-- ===== src/Colors/Perception.antt =====
-- `MediaFile.Colors` of internal/photoprism/colors.go, with `ColorPerception` of
-- pkg/colors/perception.go. The classification of a pixel and the conversions of floating point numbers
-- are parameters.
pub mod Main
use photoprism.Prelude.{
  ℕ, ◌+◌, ◌%◌, ◌^◌, Bool, List, [], ◌∷◌, ◌++◌, Option, none, some, ltb, ◌==◌, if◌then◌else◌,
}
use photoprism.Colors.{Color, black, color_code, weight}
use photoprism.Colors.LightMap.{LightMap}

pub record ColorPerception : Type 0 where
  pub colors : List Color
  pub main_color : Color
  pub luminance : LightMap
  pub chroma : ℕ

-- the local variables of the loop
pub record Count : Type 0 where
  perception : ColorPerception
  color_count : Color → Option ℕ
  main_color_count : ℕ

pub data ColorsError : Type 0 where
  not_a_jpeg : ColorsError
  cannot_open : ColorsError

pub data Perceived : Type 0 where
  failed : ColorsError → Perceived
  perceived : ColorPerception → Perceived

unfoldable pub same_color : Color → Color → Bool
same_color c d = color_code c == color_code d

-- `colorCount[i] += weight` where there is an entry: `uint16` wraps around
unfoldable pub counted : Option ℕ → ℕ → ℕ
counted none w = w
counted (some n) w = (n + w) % 2 ^ 16

-- Go's zero values
abbrev pub no_perception : ColorPerception
no_perception = record { colors = []; main_color = black; luminance = []; chroma = 0 }

abbrev pub no_count : Count
no_count = record { perception = no_perception; color_count = λ c. none; main_color_count = 0 }

module _ {P : Type 0} (color_of : P → Color) (luminance_of : P → ℕ) (chroma_of : List P → ℕ) where
  unfoldable pub count_pixel : P → Count → Count
  count_pixel pixel s =
      let i = color_of pixel in
      let n = counted (s.color_count i) (weight i) in
      let leads = ltb s.main_color_count n in
      record {
        perception = record {
          colors = s.perception.colors ++ i ∷ [];
          main_color = if leads then i else s.perception.main_color;
          luminance = s.perception.luminance ++ luminance_of pixel ∷ [];
          chroma = s.perception.chroma;
        };
        color_count = λ c. if same_color c i then some n else s.color_count c;
        main_color_count = if leads then n else s.main_color_count;
      }

  unfoldable pub count_pixels : List P → Count → Count
  count_pixels [] s = s
  count_pixels (pixel ∷ pixels) s = count_pixels pixels (count_pixel pixel s)

  -- `Colors` of the pixels, row by row, of the small image; none is an image that cannot be opened.
  unfoldable pub media_colors : (is_jpeg : Bool) → Option (List P) → Perceived
  media_colors is_jpeg image =
      if is_jpeg
      then (elim image [
        | none ↦ failed cannot_open
        | some pixels ↦
            perceived
              (record (count_pixels pixels no_count).perception { chroma = chroma_of pixels })
      ])
      else failed not_a_jpeg
