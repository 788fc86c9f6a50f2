-- ===== src/Entity/Place.antt =====
-- internal/entity/place.go and location.go: places and the locations in them, as photos use them.
use photoprism.Prelude.{
  Bool, true, false, ◌||◌, ◌&&◌, [], ◌∷◌, Text, codes, text_eq, ltb, ◌==◌, Option, some,
}
use photoprism.Txt.Unicode.{byte_length}

pub record Place : Type 0 where
  pub place_uid : Text
  pub loc_label : Text
  pub loc_city : Text
  pub loc_state : Text
  pub loc_country : Text
  pub loc_keywords : Text

pub record Location : Type 0 where
  pub loc_uid : Text
  pub place : Option Place
  pub place_uid : Text
  pub loc_name : Text
  pub loc_category : Text
  pub loc_source : Text

abbrev pub unknown_place : Place
unknown_place = record {
  place_uid = codes "zz";
  loc_label = codes "Unknown";
  loc_city = codes "Unknown";
  loc_state = codes "Unknown";
  loc_country = codes "zz";
  loc_keywords = [];
}

abbrev pub unknown_location : Location
unknown_location = record {
  loc_uid = codes "zz";
  place = some unknown_place;
  place_uid = codes "zz";
  loc_name = [];
  loc_category = [];
  loc_source = [];
}

abbrev pub is_prefix : Text → Text → Bool
is_prefix [] s = true
is_prefix (b ∷ t) [] = false
is_prefix (b ∷ t) (c ∷ s) = b == c && is_prefix t s

-- `strings.Contains(s, t)`.
unfoldable pub contains : Text → Text → Bool
contains [] t = is_prefix t []
contains (c ∷ s) t = is_prefix t (c ∷ s) || contains s t

abbrev pub location_unknown : Location → Bool
location_unknown l = text_eq l.loc_uid [] || text_eq l.loc_uid (codes "zz")

abbrev pub place_unknown : Place → Bool
place_unknown p = text_eq p.place_uid [] || text_eq p.place_uid (codes "zz")

abbrev pub no_city : Place → Bool
no_city p = text_eq p.loc_city []

-- More than 16 bytes.
abbrev pub long_city : Place → Bool
long_city p = ltb 16 (byte_length p.loc_city)

-- The receiver's city is looked for in the text.
abbrev pub city_contains : Place → Text → Bool
city_contains p text = contains text p.loc_city
