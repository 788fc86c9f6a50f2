-- ===== src/Entity/Geo.antt =====
-- internal/entity/location.go, place.go and country.go: the tables of places, found by coordinates or by an answer of
-- a geocoding service.
use photoprism.Prelude.{
  ℕ, suc, Bool, true, false, not, ◌||◌, ◌&&◌, List, [], ◌∷◌, ◌++◌, map, is_nil, Text, codes,
  text_eq, ltb, ◌==◌, if◌then◌else◌, Option, none, some,
}
use photoprism.Prelude.Int.{ℤ}
use photoprism.Classify.{Label}
use photoprism.Txt.Unicode.{byte_length}
use photoprism.Txt.Words.{keywords, unique_words}
use photoprism.Entity.Source.{src_location}
use photoprism.Entity.Tables.{Tables}
use photoprism.Entity.Place.{Place, Location, unknown_place, is_prefix}

pub record Country : Type 0 where
  pub id : Text
  pub country_slug : Text
  pub country_name : Text

-- The tables, and how many places and countries were published as new.
pub record PlaceStore : Type 0 where
  pub places : List Place
  pub locations : List Location
  pub countries : List Country
  pub new_places : ℕ
  pub new_countries : ℕ

-- A location as `QueryApi` fills it in.
pub record Answer : Type 0 where
  pub id : Text
  pub label : Text
  pub city : Text
  pub state : Text
  pub country : Text
  pub keyword_string : Text
  pub name : Text
  pub category : Text
  pub source : Text

-- What places take from outside: the S2 token of coordinates, the services, `slug.MakeLang`, the names of countries,
-- what the database accepts, and what others do to it before the second look.
pub record GeoService : Type 0 where
  pub token : ℕ → ℕ → Text
  pub query : Text → Option Answer
  pub slug : Text → Text
  pub creates_place : PlaceStore → Place → Bool
  pub creates_location : PlaceStore → Location → Bool
  pub creates_country : PlaceStore → Country → Bool
  pub meanwhile : PlaceStore → PlaceStore

-- `NewLocation`.
abbrev pub new_location : GeoService → ℕ → ℕ → Location
new_location g lat lng = record {
  loc_uid = g.token lat lng;
  place = none;
  place_uid = [];
  loc_name = [];
  loc_category = [];
  loc_source = [];
}

-- `FindPlaceByLabel`.
unfoldable pub find_place_by_label : Text → Text → List Place → Option Place
find_place_by_label uid label [] = none
find_place_by_label uid label (p ∷ ps) =
    if text_eq p.place_uid uid || (not (is_nil label) && text_eq p.loc_label label)
    then some p
    else find_place_by_label uid label ps

-- `Preload("Place")` and `First` with the id.
unfoldable pub find_location : Text → PlaceStore → List Location → Option Location
unfolding find_place_by_label
find_location uid s [] = none
find_location uid s (l ∷ ls) =
    if text_eq l.loc_uid uid
    then some (record l { place = find_place_by_label l.place_uid [] s.places })
    else find_location uid s ls

-- The place that an answer stands for.
abbrev pub answered_place : Answer → Place
answered_place a = record {
  place_uid = a.id;
  loc_label = a.label;
  loc_city = a.city;
  loc_state = a.state;
  loc_country = a.country;
  loc_keywords = a.keyword_string;
}

-- The place of an answer: one with the id or the label, or a new one, or the unknown place where it is refused.
unfoldable pub place_of : GeoService → PlaceStore → Answer → PlaceStore × Place
unfolding find_place_by_label
place_of g s a = elim (find_place_by_label a.id a.label s.places) [
  | some p ↦ (s, p)
  | none ↦
      if g.creates_place s (answered_place a)
      then (
        record s { places = s.places ++ answered_place a ∷ []; new_places = suc s.new_places },
        answered_place a,
      )
      else (s, unknown_place)
]

-- `Location.Find`, with whether it returned no error.
unfoldable pub find : GeoService → PlaceStore → Location → PlaceStore × Location × Bool
unfolding find_location place_of
find g s m = elim (find_location m.loc_uid s s.locations) [
  | some l ↦ (s, l, true)
  | none ↦ elim (g.query m.loc_uid) [
    | none ↦ (s, m, false)
    | some a ↦
        let (t, p) = place_of g s a in
        let n : Location = record m {
          place = some p;
          place_uid = p.place_uid;
          loc_name = a.name;
          loc_category = a.category;
          loc_source = a.source;
        } in
        if g.creates_location t n
        then (record t { locations = t.locations ++ n ∷ [] }, n, true)
        else (let u = g.meanwhile t in
            elim (find_location n.loc_uid u u.locations) [
              | some l ↦ (u, l, true)
              | none ↦ (u, n, false)
            ])
  ]
]

-- `ReplaceSpaces(s, "-")`.
abbrev pub replace_spaces : Text → Text
replace_spaces s = map (λ c. if c == b' ' then b'-' else c) s

-- `Location.Keywords`, with the place.
unfoldable pub location_keywords : Tables → Location → Place → List Text
location_keywords t l p =
    let found = keywords t.unicode t.stopword in
    unique_words t.unicode t.sort_words (
      found (replace_spaces p.loc_city)
      ++ (found (replace_spaces p.loc_state)
          ++ (found (replace_spaces (t.country_name p.loc_country))
              ++ (found l.loc_category ++ (found l.loc_name ++ found p.loc_keywords)))))

-- The text before the first occurrence of the separator.
unfoldable pub before_text : Text → Text → Option Text
before_text sep [] = none
before_text sep (c ∷ s) =
    if is_prefix sep (c ∷ s)
    then some []
    else (elim (before_text sep s) [ some r ↦ some (c ∷ r) | none ↦ none ])

-- It is cut where it begins behind the second byte.
unfoldable pub cut_behind : Text → Text → Text
cut_behind sep name = elim (before_text sep name) [
  | none ↦ name
  | some r ↦ if ltb 1 (byte_length r) then r else name
]

-- `LocationLabel`.
unfoldable pub location_label : Text → ℤ → ℤ → Label
unfolding cut_behind
location_label name uncertainty priority = record {
  name = cut_behind (codes " - ") (cut_behind (codes " / ") name);
  source = src_location;
  uncertainty = uncertainty;
  priority = priority;
  categories = [];
}

abbrev pub unknown_country : Tables → Country
unknown_country t = record {
  id = codes "zz";
  country_slug = codes "zz";
  country_name = t.country_name (codes "zz");
}

-- `altCountryNames`.
abbrev pub alternative_name : Text → Text
alternative_name name =
    if text_eq name (codes "United States of America") || text_eq name (codes "United States")
    then codes "USA"
    else if is_nil name
    then codes "Unknown"
    else name

-- `NewCountry`.
unfoldable pub new_country : GeoService → Tables → Text → Text → Country
new_country g t code name = if is_nil code then unknown_country t else record {
  id = code;
  country_slug = g.slug (alternative_name name);
  country_name = alternative_name name;
}

unfoldable pub find_country : Text → List Country → Option Country
find_country id [] = none
find_country id (c ∷ cs) = if text_eq c.id id then some c else find_country id cs

-- `FirstOrCreateCountry`; the caller does not use the row.
unfoldable pub first_or_create_country : GeoService → PlaceStore → Country → PlaceStore
unfolding find_country
first_or_create_country g s m = elim (find_country m.id s.countries) [
  | some c ↦ s
  | none ↦
      if g.creates_country s m
      then record s {
        countries = s.countries ++ m ∷ [];
        new_countries = if text_eq m.id (codes "zz") then s.new_countries else suc s.new_countries;
      }
      else s
]
