-- ===== src/Library/Index/Classify.antt =====
-- internal/photoprism/index_mediafile.go, `classifyImage`: the labels of an image that are worth keeping.
use photoprism.Prelude.{
  ℕ, ◌-◌, ◌/◌, ◌+◌, List, [], ◌∷◌, ◌++◌, Text, codes, leb, ltb, ◌==◌, if◌then◌else◌, Option, none,
  some,
}
use photoprism.Prelude.Int.{ℤ, pos, negsuc, ltb_ℤ, eqb_ℤ}
use photoprism.Sorting.{Sorter}
use photoprism.Classify.{Label, less}

-- the bits of the float32 1.0
abbrev float_one : ℕ
float_one = 0x3f80_0000

-- A square image is seen whole in one thumbnail.
unfoldable pub thumbs : ℕ → List Text
thumbs aspect_ratio =
    if aspect_ratio == float_one
    then codes "tile_224" ∷ []
    else codes "tile_224" ∷ codes "left_224" ∷ codes "right_224" ∷ []

-- Thumbnails that cannot be made or classified are passed over.
unfoldable pub image_labels : (Text → Option (List Label)) → List Text → List Label
image_labels classify [] = []
image_labels classify (thumb ∷ more) = elim (classify thumb) [
  | none ↦ image_labels classify more
  | some labels ↦ labels ++ image_labels classify more
]

-- `100 - label.Uncertainty`
unfoldable pub confidence_of : ℤ → ℤ
confidence_of (pos n) = if leb n 100 then pos (100 - n) else negsuc (n - 101)
confidence_of (negsuc n) = pos (101 + n)

-- Go's division by 3, towards 0
unfoldable pub third : ℤ → ℤ
third (pos n) = pos (n / 3)
third (negsuc n) = if ltb n 2 then pos 0 else negsuc ((n - 2) / 3)

-- The confidence that counts at a label.
unfoldable pub leading : ℤ → Label → ℤ
unfolding confidence_of
leading confidence label =
    if eqb_ℤ confidence (pos 0) then confidence_of label.uncertainty else confidence

-- The loop over the sorted labels, with `confidence`.
unfoldable pub confident : ℤ → List Label → List Label
unfolding leading third confidence_of
confident confidence [] = []
confident confidence (label ∷ labels) =
    let c = leading confidence label in
    let rest = confident c labels in
    if ltb_ℤ (third c) (confidence_of label.uncertainty) then label ∷ rest else rest

unfoldable pub classify_image : (Text → Option (List Label)) → Sorter Label → ℕ → List Label
unfolding thumbs image_labels confident
classify_image classify sorter aspect_ratio =
    confident (pos 0) (sorter.sort less (image_labels classify (thumbs aspect_ratio)))
