-- ===== src/Rnd/Shape.antt =====
-- pkg/rnd: the shape of tokens and identifiers.
use photoprism.Prelude.{
  ℕ, zero, suc, ◌+◌, ◌-◌, ◌/◌, ◌%◌, ◌^◌, ◌≤◌, ◌<◌, ◌≡◌, refl, ap, Bool, true, ◌||◌, ◌&&◌, List, [],
  ◌∷◌, ◌++◌, Text, ltb, leb, ◌==◌, some, take, arith, length, length-append, All, All-append,
  All-take, Bool-cases, inl, inr,
}
use photoprism.Rnd.{digit, digits, format_uint, pad_from, token, ppid, is_ppid, is_uid}
use photoprism.Rnd.Digits.{length-digits-le, length-digits-gt, digits-enough}

-- A digit or a letter in lower case.
abbrev pub is_base36 : ℕ → Bool
is_base36 c = (leb b'0' c && leb c b'9') || (leb b'a' c && leb c b'z')

abbrev pub Base36 : Text → Type 0
Base36 = All (λ c. is_base36 c ≡ true)

is_base36-digit : (n : ℕ) → n < 36 → is_base36 (digit n) ≡ true
is_base36-digit n h = ground (arith, h)

digits-Base36 : (fuel n : ℕ) (acc : Text) → Base36 acc → Base36 (digits fuel n acc)
unfolding digits
digits-Base36 zero n acc h = h
digits-Base36 (suc fuel) n acc h = elim (Bool-cases (ltb n 36)) [
  | inl e ↦ rw e (is_base36-digit n (ground (arith, e)), h)
  | inr e ↦ rw e (
      digits-Base36 fuel (n / 36) (digit (n % 36) ∷ acc)
        (is_base36-digit (n % 36) (omega arith), h))
]

pad_from-Base36 : (missing i : ℕ) → missing + i ≤ 14 → Base36 (pad_from missing i)
unfolding pad_from
pad_from-Base36 zero i h = tt
pad_from-Base36 (suc missing) i h =
    (ground (arith, h), pad_from-Base36 missing (suc i) (omega (arith, h)))

length-pad_from : (missing i : ℕ) → length (pad_from missing i) ≡ missing
unfolding pad_from
length-pad_from zero i = refl
length-pad_from (suc missing) i = ap suc (length-pad_from missing (suc i))

length-take : {A : Type 0} (k : ℕ) (l : List A) → k ≤ length l → length (take k l) ≡ k
length-take zero l h = refl
length-take (suc k) [] h = absurd (omega (arith, h))
length-take (suc k) (x ∷ l) h = ap suc (length-take k l (omega (arith, h)))

-- A token of 1 to 10 characters is drawn, of that length, in base 36.
pub token-Base36 :
    (random size : ℕ)
    → 1 ≤ size
    → size ≤ 10
    → (t : Text) × (token random size ≡ some t) × (length t ≡ size) × Base36 t
unfolding token format_uint
token-Base36 random size low high =
    let r = digits 13 random [] in
    let p = pad_from (14 - length r) (length r) in
    let short : length r ≤ 13 = omega (arith, length-digits-le 13 random []) in
    let long : size ≤ length (r ++ p) =
      omega (arith, high, short, length-append r p, length-pad_from (14 - length r) (length r)) in
    (
      take size (r ++ p),
      ground (arith, low, high),
      length-take size (r ++ p) long,
      All-take (λ c. is_base36 c ≡ true) size (r ++ p)
          (All-append (λ c. is_base36 c ≡ true) r p (digits-Base36 13 random [] tt)
            (pad_from-Base36 (14 - length r) (length r) (omega (arith, short)))),
    )

is_uid-prefix : (prefix p : ℕ) (s : Text) → length s ≡ 15 → is_uid (prefix ∷ s) p ≡ (prefix == p)
unfolding is_uid is_ppid
is_uid-prefix prefix p s h = ground (arith, h)

ppid-parts :
    (seconds random prefix : ℕ) (t : Text)
    → 6 ≤ length (format_uint seconds)
    → token random 9 ≡ some t
    → ppid seconds random prefix ≡ some (prefix ∷ (take 6 (format_uint seconds) ++ t))
unfolding ppid
ppid-parts seconds random prefix t enough drawn = ground (arith, enough, drawn)

format_uint-Base36 : (n : ℕ) → Base36 (format_uint n)
unfolding format_uint
format_uint-Base36 n = digits-Base36 13 n [] tt

length-format_uint : (n : ℕ) → 36 ^ 5 ≤ n → 6 ≤ length (format_uint n)
unfolding format_uint
length-format_uint n late = omega (arith, length-digits-gt 5 13 n [] (omega arith) late)

-- From the second 36^5 of Unix time on, in December 1971, an identifier is drawn whatever the random number: it has 16 characters, the prefix and 15 in
-- base 36, and is recognized with its prefix and with no other.
pub ppid-is_uid :
    (seconds random prefix : ℕ)
    → 36 ^ 5 ≤ seconds
    → (s : Text) × (ppid seconds random prefix ≡ some (prefix ∷ s))
      × (length s ≡ 15)
      × Base36 s
      × ((p : ℕ) → is_uid (prefix ∷ s) p ≡ (prefix == p))
ppid-is_uid seconds random prefix late =
    let (t, drawn, nine, plain) = token-Base36 random 9 (omega arith) (omega arith) in
    let r = format_uint seconds in
    let enough = length-format_uint seconds late in
    let six = length-take 6 r enough in
    let whole : length (take 6 r ++ t) ≡ 15 =
      omega (arith, length-append (take 6 r) t, six, nine) in
    (
      take 6 r ++ t,
      ppid-parts seconds random prefix t enough drawn,
      whole,
      All-append (λ c. is_base36 c ≡ true) (take 6 r) t
          (All-take (λ c. is_base36 c ≡ true) 6 r (format_uint-Base36 seconds)) plain,
      λ p. is_uid-prefix prefix p (take 6 r ++ t) whole,
    )

-- Thirteen digits are all digits of a number of 64 bits.
pub format_uint-enough :
    (n more : ℕ) → n < 2 ^ 64 → 12 ≤ more → format_uint n ≡ digits (suc more) n []
unfolding format_uint
format_uint-enough n more h le = digits-enough 12 more n [] (omega (arith, h)) le
