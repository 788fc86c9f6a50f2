-- ===== src/Entity/Photo.antt =====
-- internal/entity/photo.go: the photo and its own rules. A method that mutates `*Photo` returns the
-- new photo.
pub mod Setters
pub mod Priority
pub mod Dates
pub mod Quality
pub mod Title
pub mod Titled
pub mod Examples
pub mod Save
pub mod Locate
pub mod Edit
mod Tests
use photoprism.Prelude.{
  ℕ, ◌≡◌, Bool, true, false, not, ◌||◌, ◌&&◌, List, [], ◌∷◌, Text, codes, text_eq, ltb, ◌==◌,
  Option, none, some,
}
use photoprism.Prelude.Int.{ℤ}
use photoprism.Clock.{Time}
use photoprism.Entity.Place.{Place, Location, location_unknown, place_unknown}

pub record Details : Type 0 where
  pub photo_id : ℕ
  pub keywords : Text
  pub notes : Text
  pub subject : Text
  pub artist : Text
  pub copyright : Text

-- Floating point numbers (coordinates, f-number) stand by their bit patterns. The rows of other tables that hang on a
-- photo are left out but for the location, the place and the details.
pub record Photo : Type 0 where
  pub id : ℕ
  pub document_id : Text
  pub taken_at : Time
  pub taken_at_local : Time
  pub taken_src : Text
  pub photo_uid : Text
  pub photo_type : Text
  pub photo_title : Text
  pub title_src : Text
  pub photo_description : Text
  pub description_src : Text
  pub details : Details
  pub photo_path : Text
  pub photo_name : Text
  pub photo_favorite : Bool
  pub photo_private : Bool
  pub time_zone : Text
  pub place_uid : Text
  pub loc_uid : Text
  pub loc_src : Text
  pub photo_lat : ℕ
  pub photo_lng : ℕ
  pub photo_altitude : ℤ
  pub photo_country : Text
  pub photo_year : ℤ
  pub photo_month : ℤ
  pub photo_iso : ℤ
  pub photo_exposure : Text
  pub photo_f_number : ℕ
  pub photo_focal_length : ℤ
  pub photo_quality : ℤ
  pub photo_resolution : ℕ
  pub camera_id : ℕ
  pub camera_serial : Text
  pub camera_src : Text
  pub lens_id : ℕ
  pub location : Option Location
  pub place : Option Place
  pub edited_at : Option Time
  pub maintained_at : Option Time
  pub deleted_at : Option Time

-- A float32 is zero at two bit patterns, those of 0 and -0.
abbrev pub float_is_zero : ℕ → Bool
float_is_zero bits = bits == 0 || bits == 0x8000_0000

unfoldable pub has_id : Photo → Bool
has_id m = ltb 0 m.id && not (text_eq m.photo_uid [])

unfoldable pub no_location : Photo → Bool
no_location m = text_eq m.loc_uid [] || text_eq m.loc_uid (codes "zz")

unfoldable pub has_lat_lng : Photo → Bool
has_lat_lng m = not (float_is_zero m.photo_lat) && not (float_is_zero m.photo_lng)

unfoldable pub no_place : Photo → Bool
no_place m = text_eq m.place_uid [] || text_eq m.place_uid (codes "zz")

abbrev pub has_title : Photo → Bool
has_title m = not (text_eq m.photo_title [])

abbrev pub has_description : Photo → Bool
has_description m = not (text_eq m.photo_description [])

abbrev pub details_loaded : Photo → Bool
details_loaded m = m.details.photo_id == m.id

-- `LocationLoaded`, with the location and its place, which are then not nil.
unfoldable pub loaded_location : Photo → Option (Location × Place)
loaded_location m = elim m.location [
  | none ↦ none
  | some loc ↦ elim loc.place [
    | none ↦ none
    | some place ↦ elim (location_unknown loc) [ true ↦ none | false ↦ some (loc, place) ]
  ]
]

-- `PlaceLoaded`, with the place.
unfoldable pub loaded_place : Photo → Option Place
loaded_place m = elim m.place [
  | none ↦ none
  | some place ↦ elim (place_unknown place) [ true ↦ none | false ↦ some place ]
]
