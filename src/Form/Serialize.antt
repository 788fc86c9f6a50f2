-- ===== src/Form/Serialize.antt =====
-- internal/form/serialize.go: a form as a query.
use photoprism.Prelude.{
  Bool, true, false, not, ◌&&◌, ◌||◌, List, [], ◌∷◌, ◌++◌, keep, any, is_nil, Text, codes, text_eq,
  ◌==◌, if◌then◌else◌, Option, none, some,
}
use photoprism.Prelude.Int.{pos, eqb_ℤ}
use photoprism.Clock.{is_zero}
use photoprism.Txt.Clip.{trim_space}
use photoprism.Form.Value.{
  Value, time_value, float_value, int_value, uint_value, string_value, bool_value, other_value,
  Field, Form, Library, is_midnight,
}

abbrev pub without_quotes : Text → Text
without_quotes s = keep (λ c. not (c == b'"')) s

abbrev pub quoted : Text → Text
quoted s = b'"' ∷ (s ++ b'"' ∷ [])

-- The text of a field's value; none where the value is empty.
unfoldable pub serialize_value : Library → Value → Option Text
serialize_value g (time_value t) =
    if is_zero t
    then none
    else if is_midnight t
    then some (g.format_date t)
    else some (quoted (g.format_time t))
serialize_value g (int_value z) = if eqb_ℤ z (pos 0) then none else some (g.itoa z)
serialize_value g (uint_value w n) = if n == 0 then none else some (g.itoa (pos n))
serialize_value g (float_value b) =
    if b == 0 || b == 0x80000000 then none else some (g.format_float b)
serialize_value g (string_value s) =
    let val = trim_space (without_quotes s) in
    if is_nil val then none else if any (λ c. c == b' ') val then some (quoted val) else some val
serialize_value g (bool_value b) = if b then some (codes "true") else none
serialize_value g other_value = none

-- A field with a tag, unless it is left out.
abbrev pub is_serialized : Bool → Field → Bool
is_serialized all f = not (is_nil f.tag) && (not (text_eq f.info (codes "-")) || all)

-- The elements of `q`.
unfoldable pub serialize_fields : Library → Bool → Form → List Text
unfolding serialize_value
serialize_fields g all [] = []
serialize_fields g all (f ∷ fs) =
    let rest = serialize_fields g all fs in
    elim (is_serialized all f) [
      | true ↦ elim (serialize_value g f.value) [
        | some t ↦ (f.tag ++ b':' ∷ t) ∷ rest
        | none ↦ rest
      ]
      | false ↦ rest
    ]

-- `strings.Join(q, " ")`.
unfoldable pub join_words : List Text → Text
join_words [] = []
join_words (t ∷ []) = t
join_words (t ∷ u ∷ ts) = t ++ b' ' ∷ join_words (u ∷ ts)

unfoldable pub serialize : Library → Bool → Form → Text
unfolding serialize_fields join_words
serialize g all f = join_words (serialize_fields g all f)
