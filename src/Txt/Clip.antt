-- ===== src/Txt/Clip.antt =====
-- pkg/txt/clip.go: trimming and clipping of text that users and metadata supply.
use photoprism.Prelude.{
  ℕ, zero, suc, ◌-◌, ◌≤◌, ◌<◌, ◌≡◌, refl, ap, Bool, true, false, ◌||◌, [], ◌∷◌, ◌++◌, Text, length,
  take, is_nil, length-take-le, arith, ltb, ◌==◌, if◌then◌else◌,
}
use photoprism.Txt.Unicode.{is_space}

abbrev pub clip_default : ℕ
clip_default = 160

abbrev pub clip_slug : ℕ
clip_slug = 80

abbrev pub clip_keyword : ℕ
clip_keyword = 40

abbrev pub clip_description : ℕ
clip_description = 16000

unfoldable pub trim_left : Text → Text
trim_left [] = []
trim_left (c ∷ s) = elim (is_space c) [ true ↦ trim_left s | false ↦ c ∷ s ]

-- A text without the white space at its end.
unfoldable pub trim_right : Text → Text
trim_right [] = []
trim_right (c ∷ s) = elim (trim_right s) [
  | [] ↦ elim (is_space c) [ true ↦ [] | false ↦ c ∷ [] ]
  | d ∷ t ↦ c ∷ d ∷ t
]

-- `strings.TrimSpace`.
unfoldable pub trim_space : Text → Text
unfolding trim_left trim_right
trim_space s = trim_right (trim_left s)

-- A text longer than `size` is cut to `size - 1` runes.
unfoldable pub clip : Text → ℕ → Text
clip s size =
    let t = trim_space s in
    if is_nil t || size == 0 then [] else if ltb size (length t) then take (size - 1) t else t

-- What `Clip` returns, by the length of the trimmed text: nothing is left of a blank text or at size
-- 0; a text that fits is returned trimmed; a longer one is cut to exactly `size - 1` runes.
pub clip_cases :
    (s : Text) (size : ℕ)
    → (length (clip s size) ≤ size)
      × (length (trim_space s) ≤ size → clip s size ≡ trim_space s)
      × (0 < size → size < length (trim_space s) → clip s size ≡ take (size - 1) (trim_space s))
unfolding clip
clip_cases s size =
    (ground (arith, length-take-le (size - 1) (trim_space s)), ground arith, ground arith)

-- What is left after trimming has no white space at its end, and trimming again changes nothing.
trim_right_idem : (s : Text) → trim_right (trim_right s) ≡ trim_right s
unfolding trim_right
trim_right_idem [] = refl
trim_right_idem (c ∷ s) = ground (arith, trim_right_idem s)

trim_left_idem : (s : Text) → trim_left (trim_left s) ≡ trim_left s
unfolding trim_left
trim_left_idem [] = refl
trim_left_idem (c ∷ s) = ground (arith, trim_left_idem s)

length-trim_left-le : (s : Text) → length (trim_left s) ≤ length s
unfolding trim_left
length-trim_left-le [] = omega arith
length-trim_left-le (c ∷ s) = ground (arith, length-trim_left-le s)

trim_left-trim_right : (s : Text) → trim_left s ≡ s → trim_left (trim_right s) ≡ trim_right s
unfolding trim_left trim_right
trim_left-trim_right [] h = refl
trim_left-trim_right (c ∷ s) h = ground (arith, ap length h, length-trim_left-le s)

pub trim_space_idem : (s : Text) → trim_space (trim_space s) ≡ trim_space s
unfolding trim_space
trim_space_idem s =
    rw (trim_left-trim_right (trim_left s) (trim_left_idem s)) (trim_right_idem (trim_left s))

-- Some rune is no white space.
abbrev pub has_ink : Text → Bool
has_ink [] = false
has_ink (c ∷ s) = elim (is_space c) [ true ↦ has_ink s | false ↦ true ]

pub has_ink-append_right : (s t : Text) → has_ink t ≡ true → has_ink (s ++ t) ≡ true
has_ink-append_right [] t h = h
has_ink-append_right (c ∷ s) t h = ground (arith, has_ink-append_right s t h)

has_ink-trim_left : (s : Text) → has_ink s ≡ true → has_ink (trim_left s) ≡ true
unfolding trim_left
has_ink-trim_left [] h = h
has_ink-trim_left (c ∷ s) h = ground (arith, has_ink-trim_left s)

trim_right-ne-nil : (s : Text) → has_ink s ≡ true → is_nil (trim_right s) ≡ false
unfolding trim_right
trim_right-ne-nil [] h = cc
trim_right-ne-nil (c ∷ s) h = ground (arith, trim_right-ne-nil s)

trim_space-ne-nil : (s : Text) → has_ink s ≡ true → is_nil (trim_space s) ≡ false
unfolding trim_space
trim_space-ne-nil s h = trim_right-ne-nil (trim_left s) (has_ink-trim_left s h)

is_nil-take : (n : ℕ) (s : Text) → 0 < n → is_nil s ≡ false → is_nil (take n s) ≡ false
is_nil-take zero s p h = absurd (omega arith)
is_nil-take (suc n) [] p h = h
is_nil-take (suc n) (c ∷ s) p h = refl

-- A text that is not blank is still there after clipping to two runes or more.
pub clip-ne-nil : (s : Text) (size : ℕ) → has_ink s ≡ true → 1 < size → is_nil (clip s size) ≡ false
unfolding clip
clip-ne-nil s size h k =
    ground (arith, trim_space-ne-nil s h, is_nil-take (size - 1) (trim_space s))
