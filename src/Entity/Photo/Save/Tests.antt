-- ===== src/Entity/Photo/Save/Tests.antt =====
-- A photo with a place that was guessed, beside one in Berlin, and the theorems at it.
use photoprism.Prelude.{◌≡◌, refl, true, false, [], ◌∷◌, codes, text_eq, Option, none, some}
use photoprism.Clock.{new_year, year, civil}
use photoprism.Entity.Tables.{plain}
use photoprism.Entity.Photo.{Photo, has_id, no_location, no_place}
use photoprism.Entity.Photo.Examples.{blank}
use photoprism.Entity.Keyword.Examples.{database}
use photoprism.Entity.Photo.Save.{
  SaveError, empty_id, PhotoStore, Surroundings, save, wants_position, estimate_position, placed,
  maintain,
}
use photoprism.Entity.Photo.Save.Sound.{Improved, Written, save-Improved, maintain-Improved}

abbrev surroundings : Surroundings
surroundings = record {
  tables = plain;
  keyword_database = database;
  now = new_year 2020;
  accepts = λ m. true;
  nearest = λ photos t. elim photos [ [] ↦ none | p ∷ ps ↦ some p ];
}

abbrev berlin : Photo
berlin = record blank { id = 2; place_uid = codes "de:berlin"; photo_country = codes "de" }

abbrev one_photo : PhotoStore
one_photo = record {
  photos = berlin ∷ [];
  index = record { keyword_rows = []; photo_keywords = [] };
  counted = 0;
}

placed_test : (placed surroundings one_photo blank).photo_country ≡ codes "de"
unfolding placed estimate_position wants_position no_location no_place text_eq
placed_test = refl

no_id_test : (save surroundings one_photo (record blank { id = 0 }) []).2 ≡ some empty_id
unfolding save has_id
no_id_test = refl

abbrev saved : PhotoStore × Photo × Option SaveError
saved = save surroundings one_photo blank []

save-Improved_example :
    Improved surroundings blank saved.1 × Written one_photo saved.0 saved.1 saved.2
unfolding has_id text_eq year civil
save-Improved_example = save-Improved surroundings one_photo blank [] refl refl

abbrev maintained : PhotoStore × Photo × Option SaveError
maintained = maintain surroundings one_photo blank []

maintain-Improved_example :
    Improved surroundings (placed surroundings one_photo blank) maintained.1
    × Written one_photo maintained.0 maintained.1 maintained.2
    × (wants_position blank ≡ false
        → placed surroundings one_photo blank
          ≡ record blank { maintained_at = some (new_year 2020) })
    × (placed surroundings one_photo blank ≡ record blank {
      place = (placed surroundings one_photo blank).place;
      place_uid = (placed surroundings one_photo blank).place_uid;
      photo_country = (placed surroundings one_photo blank).photo_country;
      loc_src = (placed surroundings one_photo blank).loc_src;
      maintained_at = some (new_year 2020);
    })
unfolding has_id text_eq year civil
maintain-Improved_example = maintain-Improved surroundings one_photo blank [] refl refl
