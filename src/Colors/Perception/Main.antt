-- ===== src/Colors/Perception/Main.antt =====
-- The main color that `MediaFile.Colors` finds while it counts.
use photoprism.Prelude.{
  ℕ, zero, suc, ◌+◌, ◌*◌, ◌^◌, ◌≤◌, ◌<◌, ◌≡◌, refl, sym, ap, ◌∙◌, Bool, true, false, List, [], ◌∷◌,
  ◌++◌, map, Option, none, some, length, length-append, length-append, ltb, if◌then◌else◌, arith,
}
use mathlib.Core.Path.{subst}
use mathlib.Core.List.{append-nil, append_assoc}
use photoprism.Colors.{
  Color, black, brown, grey, white, purple, gold, blue, cyan, teal, green, lime, yellow, magenta,
  orange, red, pink, color_code, weight,
}
use photoprism.Colors.Perception.{
  ColorPerception, Count, perceived, same_color, counted, count_pixel, count_pixels, media_colors,
  no_count,
}

-- How often a color occurs.
unfoldable pub occurrences : Color → List Color → ℕ
occurrences c [] = 0
occurrences c (d ∷ ds) = if same_color c d then suc (occurrences c ds) else occurrences c ds

-- What the pixels of one color weigh together.
unfoldable pub score : Color → List Color → ℕ
score c cs = weight c * occurrences c cs

abbrev nth : List Color → ℕ → Color
nth [] n = black
nth (c ∷ cs) zero = c
nth (c ∷ cs) (suc n) = nth cs n

of_code : ℕ → Color
of_code n =
    nth
      (black ∷ brown ∷ grey ∷ white ∷ purple ∷ gold ∷ blue ∷ cyan ∷ teal ∷ green ∷ lime ∷ yellow
        ∷ magenta ∷ orange ∷ red ∷ pink ∷ [])
      n

of_code-color_code : (c : Color) → of_code (color_code c) ≡ c
unfolding of_code color_code
of_code-color_code c = ground arith

same_color_sound : (c d : Color) → same_color c d ≡ true → c ≡ d
unfolding same_color
same_color_sound c d h =
    let codes : color_code c ≡ color_code d = ground (arith, h) in
    sym (of_code-color_code c) ∙ ap of_code codes ∙ of_code-color_code d

same_color_refl : (c : Color) → same_color c c ≡ true
unfolding same_color
same_color_refl c = ground arith

weight_bounds : (c : Color) → (1 ≤ weight c) × (weight c ≤ 5)
unfolding weight
weight_bounds c = ground arith

occurrences-le : (c : Color) (cs : List Color) → occurrences c cs ≤ length cs
unfolding occurrences
occurrences-le c [] = omega arith
occurrences-le c (d ∷ ds) = ground (arith, occurrences-le c ds)

occurrences-snoc :
    (c d : Color) (cs : List Color)
    → occurrences c (cs ++ d ∷ [])
      ≡ (if same_color c d then suc (occurrences c cs) else occurrences c cs)
unfolding occurrences
occurrences-snoc c d [] = refl
occurrences-snoc c d (e ∷ cs) = ground (arith, occurrences-snoc c d cs)

-- the entry of a color in the map
entry : ℕ → ℕ → Option ℕ
entry zero n = none
entry (suc k) n = some n

weighted-le : (w k : ℕ) → w ≤ 5 → w * k ≤ 5 * k
weighted-le w k h = grind arith

counted_lem : (w k : ℕ) → w ≤ 5 → 5 * suc k < 2 ^ 16 → counted (entry k (w * k)) w ≡ w * suc k
unfolding counted entry
counted_lem w zero h fits = omega arith
counted_lem w (suc k) h fits = grind (arith, weighted-le w (suc (suc k)) h)

-- what the loop has counted after the pixels so far
record IsCounted (s : Count) : Type 0 where
  entries :
      (c : Color)
      → s.color_count c ≡ entry (occurrences c s.perception.colors) (score c s.perception.colors)
  leader : s.main_color_count ≡ score s.perception.main_color s.perception.colors
  most : (c : Color) → score c s.perception.colors ≤ s.main_color_count

module _ {P : Type 0} (color_of : P → Color) (luminance_of : P → ℕ) (chroma_of : List P → ℕ) where
  module _ (pixel : P) (s : Count) (counted_so_far : IsCounted s)
      (fits : 5 * suc (length s.perception.colors) < 2 ^ 16) where
    abbrev color : Color
    color = color_of pixel

    abbrev cs : List Color
    cs = s.perception.colors

    new_count :
        counted (s.color_count color) (weight color) ≡ weight color * suc (occurrences color cs)
    unfolding score
    new_count = rw (counted_so_far.entries color) (
        counted_lem (weight color) (occurrences color cs) (weight_bounds color).1
          (omega (arith, occurrences-le color cs)))

    score-same : score color (cs ++ color ∷ []) ≡ weight color * suc (occurrences color cs)
    unfolding score
    score-same = rw (occurrences-snoc color color cs, same_color_refl color) refl

    score-other : (c : Color) → same_color c color ≡ false → score c (cs ++ color ∷ []) ≡ score c cs
    unfolding score
    score-other c differs = rw (occurrences-snoc c color cs, differs) refl

    score-grows : score color cs < score color (cs ++ color ∷ [])
    unfolding score
    score-grows = rw score-same (grind (arith, weight_bounds color))

    new_score : counted (s.color_count color) (weight color) ≡ score color (cs ++ color ∷ [])
    new_score = new_count ∙ sym score-same

    new_entry :
        (c : Color) (b : Bool)
        → same_color c color ≡ b
        → (if b then some (counted (s.color_count color) (weight color)) else s.color_count c)
          ≡ entry (occurrences c (cs ++ color ∷ [])) (score c (cs ++ color ∷ []))
    unfolding entry
    new_entry c true same =
        let found : occurrences color (cs ++ color ∷ []) ≡ suc (occurrences color cs) =
          rw (occurrences-snoc color color cs, same_color_refl color) refl in
        rw (same_color_sound c color same, found) (ap some new_score)
    new_entry c false differs =
        let count : occurrences c (cs ++ color ∷ []) ≡ occurrences c cs =
          rw (occurrences-snoc c color cs, differs) refl in
        rw (count, score-other c differs) (counted_so_far.entries c)

    score-leads :
        (c : Color) (b : Bool)
        → same_color c color ≡ b
        → s.main_color_count ≡ score c cs
        → ltb s.main_color_count (score color (cs ++ color ∷ [])) ≡ false
        → s.main_color_count ≡ score c (cs ++ color ∷ [])
    score-leads c true same main behind =
        let own : s.main_color_count ≡ score color cs =
          rw (sym (same_color_sound c color same)) main in
        absurd (ground (arith, behind, score-grows, own))
    score-leads c false differs main behind = main ∙ sym (score-other c differs)

    new_leader :
        (b : Bool)
        → ltb s.main_color_count (score color (cs ++ color ∷ [])) ≡ b
        → (if b then score color (cs ++ color ∷ []) else s.main_color_count)
          ≡ score (if b then color else s.perception.main_color) (cs ++ color ∷ [])
    new_leader true leads = refl
    new_leader false behind =
        score-leads s.perception.main_color _ refl counted_so_far.leader behind

    below :
        (c : Color) (b : Bool)
        → same_color c color ≡ b
        → score c (cs ++ color ∷ []) ≤ (
            if ltb s.main_color_count (score color (cs ++ color ∷ []))
            then score color (cs ++ color ∷ [])
            else s.main_color_count)
    below c true same = rw (same_color_sound c color same) (ground arith)
    below c false differs =
        rw (score-other c differs) (
          let most : score c cs ≤ s.main_color_count = counted_so_far.most c in
          ground (arith, most))

    count_pixel-IsCounted : IsCounted (count_pixel color_of luminance_of chroma_of pixel s)
    unfolding count_pixel
    count_pixel-IsCounted = record {
      entries = λ c. new_entry c _ refl;
      leader = rw new_score (new_leader _ refl);
      most = λ c. rw new_score (below c _ refl);
    }

  count_pixels-IsCounted :
      (pixels : List P) (s : Count)
      → IsCounted s
      → 5 * (length s.perception.colors + length pixels) < 2 ^ 16
      → IsCounted (count_pixels color_of luminance_of chroma_of pixels s)
  unfolding count_pixels count_pixel
  count_pixels-IsCounted [] s counted_so_far fits = counted_so_far
  count_pixels-IsCounted (pixel ∷ pixels) s counted_so_far fits =
      count_pixels-IsCounted pixels (count_pixel color_of luminance_of chroma_of pixel s)
        (count_pixel-IsCounted pixel s counted_so_far (omega arith))
        (let longer : length (s.perception.colors ++ color_of pixel ∷ [])
              ≡ length s.perception.colors + 1 =
            length-append s.perception.colors (color_of pixel ∷ []) in
          omega (arith, longer))

  count_pixels-lists :
      (pixels : List P) (s : Count)
      → ((count_pixels color_of luminance_of chroma_of pixels s).perception.colors
          ≡ s.perception.colors ++ map color_of pixels)
        × ((count_pixels color_of luminance_of chroma_of pixels s).perception.luminance
            ≡ s.perception.luminance ++ map luminance_of pixels)
  unfolding count_pixels count_pixel
  count_pixels-lists [] s = (sym (append-nil _), sym (append-nil _))
  count_pixels-lists (pixel ∷ pixels) s =
      let (colors, luminance) =
        count_pixels-lists pixels (count_pixel color_of luminance_of chroma_of pixel s) in
      (
        colors ∙ append_assoc s.perception.colors (color_of pixel ∷ []) (map color_of pixels),
        luminance
            ∙ append_assoc s.perception.luminance (luminance_of pixel ∷ [])
                (map luminance_of pixels),
      )

  no_count-IsCounted : IsCounted no_count
  unfolding occurrences score entry weight
  no_count-IsCounted = record { entries = λ c. refl; leader = refl; most = ground arith }

  -- Colors of a JPEG file whose small image opens always returns a perception. It has the color and the
  -- luminance of each pixel in order, and when five times the number of pixels is below 2^16, no
  -- color weighs more over all pixels than the main color.
  pub media_colors-main :
      (pixels : List P)
      → 5 * length pixels < 2 ^ 16
      → (p : ColorPerception) × (media_colors color_of luminance_of chroma_of true (some pixels)
          ≡ perceived p)
        × (p.colors ≡ map color_of pixels)
        × (p.luminance ≡ map luminance_of pixels)
        × ((c : Color) → score c (map color_of pixels) ≤ score p.main_color (map color_of pixels))
  unfolding media_colors
  media_colors-main pixels fits =
      let end : Count = count_pixels color_of luminance_of chroma_of pixels no_count in
      let done : IsCounted end =
        count_pixels-IsCounted pixels no_count no_count-IsCounted (omega arith) in
      let (colors, luminance) = count_pixels-lists pixels no_count in
      (
        record end.perception { chroma = chroma_of pixels },
        refl,
        colors,
        luminance,
        λ c.
            rw (sym colors)
              (subst (λ k. score c end.perception.colors ≤ k) done.leader (done.most c)),
      )
