-- ===== src/Entity/Photo/Edit/Tests.antt =====
-- An edit that moves a photo, and the theorems at it.
use photoprism.Prelude.{◌≡◌, refl, false, [], ◌∷◌, codes, text_eq, Option, some}
use photoprism.Prelude.Int.{pos}
use photoprism.Clock.{new_year}
use photoprism.Entity.Source.{src_manual}
use photoprism.Entity.Tables.{plain}
use photoprism.Entity.Geo.{find, find_location, place_of, find_place_by_label}
use photoprism.Entity.Photo.{Photo}
use photoprism.Entity.Photo.Examples.{blank}
use photoprism.Entity.Photo.Locate.{
  update_location, fill_country, with_location, get_time_zone, get_taken_at,
}
use photoprism.Entity.Photo.Locate.Located.{Located, update_location-Located}
use photoprism.Entity.Photo.Save.{SaveError}
use photoprism.Entity.Photo.Edit.{PhotoForm, EditStore, save_photo_form}
use photoprism.Entity.Photo.Edit.Examples.{geo, zones, copier, services, no_places}
use photoprism.Entity.Photo.Edit.Edited.{EditOf, CopiesNoId, save_photo_form-EditOf}

copier-CopiesNoId : CopiesNoId copier
copier-CopiesNoId f m n h = ap_id h
  where
    ap_id : {a b : Photo} → some a ≡ some b → b.id ≡ a.id
    ap_id e = cc

abbrev store : EditStore
store = record {
  photo_store = record {
    photos = blank ∷ [];
    index = record { keyword_rows = []; photo_keywords = [] };
    counted = 0;
  };
  place_store = no_places;
  label_store = record { labels = []; photo_labels = []; categories = []; published = [] };
}

abbrev form : PhotoForm
form = record {
  photo_type = codes "image";
  taken_at = new_year 2019;
  taken_at_local = new_year 2019;
  taken_src = [];
  time_zone = [];
  photo_title = [];
  title_src = [];
  photo_description = [];
  description_src = [];
  details = blank.details;
  photo_favorite = false;
  photo_private = false;
  photo_lat = 0x42525000;
  photo_lng = 0x41570000;
  photo_altitude = pos 0;
  photo_country = [];
  loc_uid = [];
  loc_src = src_manual;
  place_uid = [];
  camera_src = [];
}

update_location_test :
    (update_location plain zones geo no_places blank).1.photo_country ≡ codes "de"
unfolding update_location fill_country with_location get_time_zone get_taken_at find find_location
    place_of find_place_by_label text_eq
update_location_test = refl

update_location-Located_example : Located blank (update_location plain zones geo no_places blank).1
update_location-Located_example = update_location-Located plain zones geo no_places blank

abbrev result : EditStore × Photo × Option SaveError
result = save_photo_form services store blank [] form

save_photo_form-EditOf_example : EditOf services.surroundings blank store result.0 result.1 result.2
save_photo_form-EditOf_example =
    save_photo_form-EditOf services store blank [] form copier-CopiesNoId
