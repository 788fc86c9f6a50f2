-- ===== src/Form/Searches.antt =====
-- internal/form: the search forms with their fields, as a new struct has them, and their parsing.
use photoprism.Prelude.{
  ℕ, false, not, ◌&&◌, [], ◌∷◌, is_nil, Text, codes, text_eq, if◌then◌else◌, Option,
}
use photoprism.Prelude.Int.{pos}
use photoprism.Clock.{zero_time}
use photoprism.Form.Value.{
  time_value, float_value, int_value, uint_value, string_value, bool_value, Field, Form, Library,
  assign_text,
}
use photoprism.Form.Parse.{ParseError, parse_query_string}

abbrev text_field : Text → Text → Field
text_field name tag = record { name = name; tag = tag; info = []; value = string_value [] }

abbrev flag_field : Text → Text → Field
flag_field name tag = record { name = name; tag = tag; info = []; value = bool_value false }

abbrev number_field : Text → Text → Field
number_field name tag = record { name = name; tag = tag; info = []; value = int_value (pos 0) }

abbrev float_field : Text → Text → Field
float_field name tag = record { name = name; tag = tag; info = []; value = float_value 0 }

abbrev time_field : Text → Text → Field
time_field name tag = record { name = name; tag = tag; info = []; value = time_value zero_time }

abbrev unsigned_field : ℕ → Text → Text → Field
unsigned_field w name tag = record { name = name; tag = tag; info = []; value = uint_value w 0 }

abbrev not_serialized : Field → Field
not_serialized f = record f { info = codes "-" }

-- `PhotoSearch`.
abbrev pub photo_search : Form
photo_search =
    text_field (codes "Query") (codes "q")
    ∷ text_field (codes "ID") (codes "id")
    ∷ text_field (codes "Type") (codes "type")
    ∷ text_field (codes "Path") (codes "path")
    ∷ text_field (codes "Folder") (codes "folder")
    ∷ text_field (codes "Name") (codes "name")
    ∷ text_field (codes "Title") (codes "title")
    ∷ text_field (codes "Hash") (codes "hash")
    ∷ flag_field (codes "Video") (codes "video")
    ∷ flag_field (codes "Photo") (codes "photo")
    ∷ flag_field (codes "Duplicate") (codes "duplicate")
    ∷ flag_field (codes "Archived") (codes "archived")
    ∷ flag_field (codes "Error") (codes "error")
    ∷ float_field (codes "Lat") (codes "lat")
    ∷ float_field (codes "Lng") (codes "lng")
    ∷ unsigned_field 64 (codes "Dist") (codes "dist")
    ∷ float_field (codes "Fmin") (codes "fmin")
    ∷ float_field (codes "Fmax") (codes "fmax")
    ∷ unsigned_field 8 (codes "Chroma") (codes "chroma")
    ∷ unsigned_field 32 (codes "Diff") (codes "diff")
    ∷ flag_field (codes "Mono") (codes "mono")
    ∷ flag_field (codes "Portrait") (codes "portrait")
    ∷ flag_field (codes "Location") (codes "location")
    ∷ text_field (codes "Album") (codes "album")
    ∷ text_field (codes "Label") (codes "label")
    ∷ text_field (codes "Country") (codes "country")
    ∷ number_field (codes "Year") (codes "year")
    ∷ number_field (codes "Month") (codes "month")
    ∷ text_field (codes "Color") (codes "color")
    ∷ number_field (codes "Quality") (codes "quality")
    ∷ flag_field (codes "Review") (codes "review")
    ∷ number_field (codes "Camera") (codes "camera")
    ∷ number_field (codes "Lens") (codes "lens")
    ∷ time_field (codes "Before") (codes "before")
    ∷ time_field (codes "After") (codes "after")
    ∷ flag_field (codes "Favorite") (codes "favorite")
    ∷ flag_field (codes "Public") (codes "public")
    ∷ flag_field (codes "Private") (codes "private")
    ∷ flag_field (codes "Safe") (codes "safe")
    ∷ not_serialized (number_field (codes "Count") (codes "count"))
    ∷ not_serialized (number_field (codes "Offset") (codes "offset"))
    ∷ not_serialized (text_field (codes "Order") (codes "order"))
    ∷ not_serialized (flag_field (codes "Merged") (codes "merged"))
    ∷ []

-- A text field of a struct.
unfoldable pub text_of : Text → Form → Text
text_of name [] = []
text_of name (f ∷ fs) =
    if text_eq f.name name then (elim f.value [ string_value s ↦ s | _ ↦ [] ]) else text_of name fs

unfoldable pub set_text : Text → Text → Form → Form
set_text name t [] = []
set_text name t (f ∷ fs) =
    if text_eq f.name name
    then record f { value = assign_text t f.value } ∷ fs
    else f ∷ set_text name t fs

-- `PhotoSearch.ParseQueryString` and `GeoSearch.ParseQueryString`.
unfoldable pub parse_search : Library → Form → Form × Option ParseError
unfolding text_of set_text
parse_search g f =
    let (h, e) = parse_query_string g f in
    let folder = text_of (codes "Folder") h in
    if is_nil (text_of (codes "Path") h) && not (is_nil folder)
    then (set_text (codes "Path") folder h, e)
    else (h, e)
