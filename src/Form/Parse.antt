-- ===== src/Form/Parse.antt =====
-- internal/form/search.go: a query as the values of a form, one character at a time.
pub mod Scan
use photoprism.Prelude.{
  ℕ, ◌≡◌, Bool, true, false, not, ◌&&◌, ◌||◌, List, [], ◌∷◌, ◌++◌, is_nil, Text, codes, text_eq,
  ◌==◌, if◌then◌else◌, Option, none, some,
}
use photoprism.Prelude.Int.{ℤ}
use photoprism.Txt.Unicode.{is_space}
use photoprism.Txt.Clip.{trim_space}
use photoprism.Form.Value.{
  Value, time_value, float_value, int_value, uint_value, string_value, bool_value, other_value,
  Field, Form, Library, to_uint, assign_text,
}
use photoprism.Form.Serialize.{join_words}

pub data ParseError : Type 0 where
  invalid_value unsupported_type : ParseError
  unknown_filter : Text → ParseError

-- `txt.Bool`.
unfoldable pub bool_of : Text → Bool
bool_of s =
    let t = trim_space s in
    not (is_nil t || text_eq t (codes "0") || text_eq t (codes "false") || text_eq t (codes "no"))

-- What the switch on the type of a field makes of a text: the value of the field, and the error.
unfoldable pub convert : Library → Value → Text → Value × Option ParseError
convert g (time_value t) s = elim (g.parse_any s) [
  | some u ↦ (time_value u, none)
  | none ↦ (time_value t, some invalid_value)
]
convert g (float_value b) s = elim (g.parse_float s) [
  | some c ↦ (float_value c, none)
  | none ↦ (float_value b, some invalid_value)
]
convert g (int_value z) s = elim (g.atoi s) [
  | some y ↦ (int_value y, none)
  | none ↦ (int_value z, some invalid_value)
]
convert g (uint_value w n) s = elim (g.atoi s) [
  | some y ↦ (uint_value w (to_uint w y), none)
  | none ↦ (uint_value w n, some invalid_value)
]
convert g (string_value t) s = (string_value s, none)
convert g (bool_value b) s = (bool_value (bool_of s), none)
convert g other_value s = (other_value, some unsupported_type)

-- `FieldByName` and `Set`.
unfoldable pub set_field : Library → Text → Text → Form → Form × Option ParseError
unfolding convert
set_field g name s [] = ([], some (unknown_filter name))
set_field g name s (f ∷ fs) =
    let (v, e) = convert g f.value s in
    let (rest, e') = set_field g name s fs in
    if text_eq f.name name then (record f { value = v } ∷ fs, e) else (f ∷ rest, e')

-- The variables of the loop, with the form.
pub record Scanner : Type 0 where
  pub key : Text
  pub value : Text
  pub escaped : Bool
  pub is_key_value : Bool
  pub words : List Text
  pub error : Option ParseError
  pub form : Form

abbrev pub start_scan : Form → Scanner
start_scan f = record {
  key = [];
  value = [];
  escaped = false;
  is_key_value = false;
  words = [];
  error = none;
  form = f;
}

-- What white space outside of quotes does, before the variables are reset.
unfoldable pub end_token : Library → Scanner → Scanner
end_token g s =
    if s.is_key_value
    then (let (f, e) = set_field g (g.title s.key) s.value s.form in
        record s { form = f; error = elim e [ some x ↦ some x | none ↦ s.error ] })
    else if is_nil (trim_space s.key)
    then s
    else record s { words = s.words ++ trim_space s.key ∷ [] }

-- The body of the loop.
unfoldable pub scan_char : Library → Scanner → ℕ → Scanner
unfolding end_token
scan_char g s c =
    if is_space c && not s.escaped
    then record (end_token g s) { key = []; value = []; escaped = false; is_key_value = false }
    else if c == b':'
    then record s { is_key_value = true }
    else if c == b'"'
    then record s { escaped = not s.escaped }
    else if s.is_key_value
    then record s { value = s.value ++ c ∷ [] }
    else record s { key = s.key ++ g.unicode.to_lower c ∷ [] }

unfoldable pub scan : Library → Scanner → Text → Scanner
unfolding scan_char
scan g s [] = s
scan g s (c ∷ t) = scan g (scan_char g s c) t

-- `GetQuery` and `SetQuery`: the field "Query".
unfoldable pub get_query : Form → Text
get_query [] = []
get_query (f ∷ fs) =
    if text_eq f.name (codes "Query")
    then (elim f.value [ string_value s ↦ s | _ ↦ [] ])
    else get_query fs

unfoldable pub set_query : Text → Form → Form
set_query q [] = []
set_query q (f ∷ fs) =
    if text_eq f.name (codes "Query")
    then record f { value = assign_text q f.value } ∷ fs
    else f ∷ set_query q fs

-- `ParseQueryString`.
unfoldable pub parse_query_string : Library → Form → Form × Option ParseError
unfolding scan get_query set_query join_words
parse_query_string g f =
    let s = scan g (start_scan (set_query [] f)) (trim_space (get_query f) ++ 10 ∷ []) in
    (if is_nil s.words then s.form else set_query (join_words s.words) s.form, s.error)
