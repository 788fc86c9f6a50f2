-- ===== src/Clock.antt =====
-- The part of Go's `time.Time` that the program uses. `nanos` counts nanoseconds of UTC since the
-- zero time, the 1st of January of year 1, and `wall` counts them on the clock of the time's own
-- zone; the calendar is read off `wall`. Times before the zero time are not represented. Zone
-- offsets are whole seconds, so rounding to a second moves both alike.
use photoprism.Prelude.{
  ℕ, zero, suc, ◌+◌, ◌-◌, ◌*◌, ◌/◌, ◌%◌, ◌≡◌, refl, Bool, List, [], ◌∷◌, Text, codes, length, ◌≤◌,
  arith, ltb, leb, ◌==◌, if◌then◌else◌,
}
use Prim.Native.Nat.{min}

pub record Time : Type 0 where
  pub nanos : ℕ
  pub wall : ℕ

abbrev pub zero_time : Time
zero_time = record { nanos = 0; wall = 0 }

abbrev pub is_zero : Time → Bool
is_zero t = t.nanos == 0

abbrev pub before : Time → Time → Bool
before a b = ltb a.nanos b.nanos

abbrev pub equal : Time → Time → Bool
equal a b = a.nanos == b.nanos

abbrev pub second : ℕ
second = 1_000_000_000

-- `t.UTC()`.
abbrev pub to_utc : Time → Time
to_utc t = record t { wall = t.nanos }

abbrev round_nanos : ℕ → ℕ
round_nanos n = (n + 500_000_000) / second * second

-- `t.Round(time.Second)`: half a second rounds up.
abbrev pub round_second : Time → Time
round_second t = record { nanos = round_nanos t.nanos; wall = round_nanos t.wall }

-- Days of the wall clock since the zero time, and the day within the year with the year.
unfoldable pub civil : ℕ → ℕ × ℕ
civil days =
    let n400 = days / 146097 in
    let r400 = days % 146097 in
    let n100 = min (r400 / 36524) 3 in
    let r100 = r400 - n100 * 36524 in
    let n4 = r100 / 1461 in
    let r4 = r100 % 1461 in
    let n1 = min (r4 / 365) 3 in (400 * n400 + 100 * n100 + 4 * n4 + n1 + 1, r4 - n1 * 365)

abbrev day_length : ℕ
day_length = 86400 * second

unfoldable pub year : Time → ℕ
unfolding civil
year t = (civil (t.wall / day_length)).0

is_leap : ℕ → Bool
is_leap y = if y % 4 == 0 then (if y % 100 == 0 then y % 400 == 0 else leb 0 1) else leb 1 0

unfoldable pub month_from : ℕ → ℕ → List ℕ → ℕ
month_from m day [] = m
month_from m day (len ∷ rest) = elim (ltb day len) [
  | Bool.true ↦ m
  | Bool.false ↦ month_from (m + 1) (day - len) rest
]

-- The lengths of all months but the last.
unfoldable pub month_lengths : ℕ → List ℕ
unfolding is_leap
month_lengths y =
    31 ∷ (if is_leap y then 29 else 28) ∷ 31 ∷ 30 ∷ 31 ∷ 30 ∷ 31 ∷ 31 ∷ 30 ∷ 31 ∷ 30 ∷ []

unfoldable pub month : Time → ℕ
month t =
    month_from 1 (civil (t.wall / day_length)).1 (month_lengths (civil (t.wall / day_length)).0)

digit : ℕ → ℕ
digit n = b'0' + n % 10

more_digits : ℕ → ℕ → Text → Text
more_digits zero n out = out
more_digits (suc f) n out =
    let rest = more_digits f (n / 10) (digit n ∷ out) in if n == 0 then out else rest

-- `t.Format("2006")`: four digits at least.
unfoldable pub format_year : Time → Text
unfolding year digit more_digits
format_year t =
    let y = year t in
    more_digits y (y / 10000) (digit (y / 1000) ∷ digit (y / 100) ∷ digit (y / 10) ∷ digit y ∷ [])

-- `time.Date(y, 1, 1, 0, 0, 0, 0, time.UTC)`.
abbrev pub new_year : ℕ → Time
new_year y =
    let p = y - 1 in
    let n = (365 * p + p / 4 - p / 100 + p / 400) * day_length in record { nanos = n; wall = n }

year_of_new_year :
    (year (new_year 2008) ≡ 2008)
    × (month (new_year 2012) ≡ 1)
    × (format_year (new_year 1999) ≡ codes "1999")
unfolding year month civil month_from month_lengths format_year
year_of_new_year = (refl, refl, refl)

month_from_bounds :
    (m day : ℕ) (lens : List ℕ)
    → (m ≤ month_from m day lens) × (month_from m day lens ≤ m + length lens)
unfolding month_from
month_from_bounds m day [] = omega arith
month_from_bounds m day (len ∷ rest) = ground (arith, month_from_bounds (m + 1) (day - len) rest)

length-month_lengths : (y : ℕ) → length (month_lengths y) ≡ 11
unfolding month_lengths
length-month_lengths y = refl

-- A month is a number from 1 to 12.
pub month_bounds : (t : Time) → (1 ≤ month t) × (month t ≤ 12)
unfolding month
month_bounds t =
    let (y, day) = civil (t.wall / day_length) in
    omega (arith, month_from_bounds 1 day (month_lengths y), length-month_lengths y)
