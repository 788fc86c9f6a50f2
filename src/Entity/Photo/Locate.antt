-- ===== src/Entity/Photo/Locate.antt =====
-- internal/entity/photo_location.go, and `SavePhotoForm` of photo.go: the place of a photo by its coordinates, and
-- a photo that was edited.
pub mod Located
use photoprism.Prelude.{
  ℕ, suc, ◌≡◌, Bool, true, false, not, ◌||◌, ◌&&◌, List, [], ◌∷◌, ◌++◌, is_nil, Text, codes,
  text_eq, ◌==◌, if◌then◌else◌, Option, none, some,
}
use photoprism.Prelude.Int.{ℤ, pos, negsuc}
use photoprism.Clock.{Time, to_utc}
use photoprism.Classify.{Label}
use photoprism.Txt.Words.{unique_keywords}
use photoprism.Entity.Source.{src_manual}
use photoprism.Entity.Place.{Place, Location, unknown_place, unknown_location}
use photoprism.Entity.Tables.{Tables}
use photoprism.Entity.Geo.{
  PlaceStore, GeoService, new_location, find, location_keywords, location_label, new_country,
  first_or_create_country,
}
use photoprism.Entity.Photo.{Photo, Details, has_id, has_lat_lng, details_loaded}
use photoprism.Entity.Photo.Setters.{update_year_month}
use photoprism.Entity.Photo.Title.{update_title}
use photoprism.Entity.Photo.Quality.{quality_score}
use photoprism.Entity.Label.{PhotoLabel, LabelStore, LabelDatabase, add_labels, classify_labels}
use photoprism.Entity.Keyword.{index_keywords}
use photoprism.Entity.Photo.Save.{
  PhotoStore, Surroundings, SaveError, empty_id, add_keywords, write_photo, join_commas,
}

-- What the time of a place takes from outside: the time zones of coordinates, and a local time in a zone as
-- `ParseInLocation` reads it, where the zone is known.
pub record Zones : Type 0 where
  pub zones_at : ℕ → ℕ → Option (List Text)
  pub in_zone : Text → Time → Option Time

-- `GetTimeZone`.
unfoldable pub get_time_zone : Zones → Photo → Text
get_time_zone z m =
    if has_lat_lng m
    then (elim (z.zones_at m.photo_lat m.photo_lng) [
      | some (zone ∷ zones) ↦ zone
      | some [] ↦ codes "UTC"
      | none ↦ codes "UTC"
    ])
    else codes "UTC"

-- `GetTakenAt`.
unfoldable pub get_taken_at : Zones → Photo → Time
get_taken_at z m = elim (z.in_zone m.time_zone m.taken_at_local) [
  | some t ↦ to_utc t
  | none ↦ m.taken_at
]

-- The fields that a location gives, with its place.
unfoldable pub with_location : Zones → Photo → Location → Place → Photo
unfolding get_time_zone get_taken_at
with_location z m l p =
    let there = record m {
      location = some l;
      loc_uid = l.loc_uid;
      place = some p;
      place_uid = l.place_uid;
      photo_country = p.loc_country;
    } in
    if text_eq m.taken_src src_manual
    then there
    else (let zoned = record there { time_zone = get_time_zone z there } in
        record zoned { taken_at = get_taken_at z zoned })

abbrev pub without_location : Photo → Photo
without_location m = record m {
  location = some unknown_location;
  loc_uid = unknown_location.loc_uid;
  place = some unknown_place;
  place_uid = unknown_place.place_uid;
}

-- The country of the place, where there is none yet.
unfoldable pub fill_country : Photo → Photo
fill_country m = elim m.place [
  | none ↦ m
  | some p ↦
      if is_nil m.photo_country || text_eq m.photo_country (codes "zz")
      then record m { photo_country = p.loc_country }
      else m
]

-- The location that was found, with its place, unless it is unknown.
abbrev pub known_location : Bool → Location → Option Place
known_location found l = if found && not (text_eq l.loc_uid (codes "zz")) then l.place else none

-- `UpdateLocation`: the tables, the photo, the keywords and the labels.
unfoldable pub update_location :
    Tables → Zones → GeoService → PlaceStore → Photo → PlaceStore × Photo × List Text × List Label
unfolding with_location fill_country find location_keywords location_label new_country
    first_or_create_country
update_location t z g s m =
    let (r, l, found) = find g s (new_location g m.photo_lat m.photo_lng) in
    elim (known_location found l) [
      | none ↦ (r, fill_country (without_location m), [], [])
      | some p ↦ (
        first_or_create_country g r (new_country g t p.loc_country (t.country_name p.loc_country)),
        fill_country (with_location z m l p),
        location_keywords t l p,
        (if is_nil l.loc_category
            then []
            else location_label l.loc_category (pos 0) (negsuc 0) ∷ []),
      )
    ]
