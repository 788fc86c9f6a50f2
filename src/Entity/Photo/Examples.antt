-- ===== src/Entity/Photo/Examples.antt =====
-- A photo that was taken at the start of 2019, for tests.
use photoprism.Prelude.{false, [], codes, none}
use photoprism.Prelude.Int.{pos}
use photoprism.Clock.{new_year}
use photoprism.Entity.Photo.{Photo}

abbrev pub blank : Photo
blank = record {
  id = 1;
  document_id = [];
  taken_at = new_year 2019;
  taken_at_local = new_year 2019;
  taken_src = [];
  photo_uid = codes "pt9jtdre2lvl0yh7";
  photo_type = codes "image";
  photo_title = [];
  title_src = [];
  photo_description = [];
  description_src = [];
  details = record {
    photo_id = 1;
    keywords = [];
    notes = [];
    subject = [];
    artist = [];
    copyright = [];
  };
  photo_path = [];
  photo_name = [];
  photo_favorite = false;
  photo_private = false;
  time_zone = [];
  place_uid = [];
  loc_uid = [];
  loc_src = [];
  photo_lat = 0;
  photo_lng = 0;
  photo_altitude = pos 0;
  photo_country = [];
  photo_year = pos 0;
  photo_month = pos 0;
  photo_iso = pos 0;
  photo_exposure = [];
  photo_f_number = 0;
  photo_focal_length = pos 0;
  photo_quality = pos 0;
  photo_resolution = 12;
  camera_id = 1;
  camera_serial = [];
  camera_src = [];
  lens_id = 1;
  location = none;
  place = none;
  edited_at = none;
  maintained_at = none;
  deleted_at = none;
}
