-- ===== src/Form/Value.antt =====
-- internal/form: the fields of a form as reflection shows them, and what forms take from libraries.
use photoprism.Prelude.{ℕ, ◌+◌, ◌*◌, ◌^◌, ◌%◌, ◌-◌, Bool, false, List, [], Text, Option, ltb}
use photoprism.Prelude.Int.{ℤ, pos, negsuc}
use photoprism.Clock.{Time, zero_time, second}
use photoprism.Txt.Unicode.{Unicode}

-- The types of fields that the type switches tell apart. A float is its bit pattern, an unsigned integer
-- comes with its width. Every signed integer of a form is an `int`.
pub data Value : Type 0 where
  time_value : Time → Value
  float_value : ℕ → Value
  int_value : ℤ → Value
  uint_value : ℕ → ℕ → Value
  string_value : Text → Value
  bool_value : Bool → Value
  other_value : Value

-- A field: its name, its tags `form` and `serialize`, and its value.
pub record Field : Type 0 where
  pub name : Text
  pub tag : Text
  pub info : Text
  pub value : Value

abbrev pub Form : Type 0
Form = List Field

-- What forms call: `unicode`, `strings.Title`, `strconv`, `fmt`, and the package dateparse.
pub record Library : Type 0 where
  pub unicode : Unicode
  pub title : Text → Text
  pub atoi : Text → Option ℤ
  pub itoa : ℤ → Text
  pub parse_float : Text → Option ℕ
  pub format_float : ℕ → Text
  pub parse_any : Text → Option Time
  pub format_date : Time → Text
  pub format_time : Time → Text

-- The value that a new struct has in the field.
abbrev pub zero_of : Value → Value
zero_of (time_value t) = time_value zero_time
zero_of (float_value b) = float_value 0
zero_of (int_value z) = int_value (pos 0)
zero_of (uint_value w n) = uint_value w 0
zero_of (string_value s) = string_value []
zero_of (bool_value b) = bool_value false
zero_of other_value = other_value

-- The hour and the minute are 0.
abbrev pub is_midnight : Time → Bool
is_midnight t = ltb (t.wall % (86400 * second)) (60 * second)

-- `uint64(intValue)`, cut to the width of the field.
abbrev pub to_uint : ℕ → ℤ → ℕ
to_uint w (pos n) = n % 2 ^ w
to_uint w (negsuc n) = (2 ^ 64 - (1 + n)) % 2 ^ w

-- An assignment of a text to a field, which Go's types allow for a text field alone.
abbrev pub assign_text : Text → Value → Value
assign_text t (string_value s) = string_value t
assign_text t v = v

-- The field of a new struct.
abbrev pub cleared : Field → Field
cleared f = record f { value = zero_of f.value }
