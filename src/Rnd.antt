-- ===== src/Rnd.antt =====
-- pkg/rnd: tokens and identifiers in base 36.
pub mod Digits
pub mod Shape
mod Tests
use photoprism.Prelude.{
  ℕ, zero, suc, ◌+◌, ◌-◌, ◌*◌, ◌/◌, ◌%◌, Bool, true, false, ◌||◌, ◌&&◌, List, [], ◌∷◌, ◌++◌, is_nil,
  Text, ltb, ◌==◌, if◌then◌else◌, Option, none, some, length, take,
}

abbrev pub digit : ℕ → ℕ
digit n = if ltb n 10 then b'0' + n else b'a' + (n - 10)

-- The digits of a number before those that are there already: at most as many as there is fuel.
unfoldable pub digits : ℕ → ℕ → Text → Text
digits zero n acc = acc
digits (suc fuel) n acc =
    let rest = digits fuel (n / 36) (digit (n % 36) ∷ acc) in
    if ltb n 36 then digit n ∷ acc else rest

-- `FormatInt` and `FormatUint` to the base 36: 13 digits are enough for 64 bits.
unfoldable pub format_uint : ℕ → Text
unfolding digits
format_uint n = digits 13 n []

-- The loop that fills up to 14 bytes: the byte at `i` is 123 - (14 - i).
unfoldable pub pad_from : ℕ → ℕ → Text
pad_from zero i = []
pad_from (suc missing) i = (109 + i) ∷ pad_from missing (suc i)

-- `Token`, with the random number: none is a panic.
unfoldable pub token : ℕ → ℕ → Option Text
unfolding format_uint pad_from
token random size =
    if ltb 10 size || ltb size 1
    then none
    else (let r = format_uint random in some (take size (r ++ pad_from (14 - length r) (length r))))

-- `PPID`, with the seconds of the clock and the random number: a slice behind the end panics.
unfoldable pub ppid : ℕ → ℕ → ℕ → Option Text
unfolding token
ppid seconds random prefix =
    let r = format_uint seconds in
    if ltb (length r) 6
    then none
    else (elim (token random 9) [ some t ↦ some (prefix ∷ (take 6 r ++ t)) | none ↦ none ])

unfoldable pub is_ppid : Text → ℕ → Bool
is_ppid [] prefix = false
is_ppid (c ∷ s) prefix = length (c ∷ s) == 16 && c == prefix

-- `IsUID`: a UUID, or an identifier of the program.
unfoldable pub is_uid : Text → ℕ → Bool
unfolding is_ppid
is_uid s prefix = if length s == 36 then true else is_ppid s prefix
