-- ===== src/Library/Index/Tests.antt =====
-- A photo whose title and time a user has set, with one file that has changed since, and a copy of it.
use photoprism.Prelude.{
  ℕ, suc, ◌+◌, ◌≤◌, ◌≡◌, ◌≢◌, refl, true, false, List, [], ◌∷◌, All, codes, text_eq, none, some,
  arith,
}
use photoprism.Prelude.Int.{pos}
use photoprism.Clock.{new_year, year, civil}
use photoprism.Colors.{blue}
use photoprism.Colors.Perception.{perceived}
use photoprism.Entity.Source.{src_manual, src_meta}
use photoprism.Entity.Photo.{Photo}
use photoprism.Entity.Photo.Examples.{blank}
use photoprism.Entity.Photo.Priority.{KeepsManual}
use photoprism.Entity.Photo.Edit.Examples.{services, no_places}
use photoprism.Txt.Unicode.{byte_length}
use photoprism.Library.Index.Records.{
  Media, MetaData, File, Setting, IndexStore, IndexResult, skipped, with_status, file_changed,
}
use photoprism.Library.Index.Lookup.{
  no_file, begin, find_file, enter, start_photo, find_primary, claim_primary,
}
use photoprism.Library.Index.Apply.{apply_type, apply_jpeg, with_colors, meta_file, describe}
use photoprism.Library.Index.Rows.{save_row, write_first, write_file}
use photoprism.Library.Index.{
  index_media_file, gather, prepare, write_all, write_second, finish_file,
}
use photoprism.Library.Index.Written.{photo_with_id}
use photoprism.Library.Index.Passed.{Reason, passes, index_media_file-Passed}
use photoprism.Library.Index.Files.{FilesApart, index_media_file-FilesApart}
use photoprism.Library.Index.Again.{
  Indexed, indexes, index_media_file-Indexed, index_media_file-again,
}
use photoprism.Library.Index.Manual.{Timed}
use photoprism.Library.Index.Kept.{chosen, index_media_file-kept}

abbrev meta_data : MetaData
meta_data = record {
  failed = false;
  document_id = [];
  instance_id = [];
  taken_at = new_year 2018;
  taken_at_local = new_year 2018;
  time_zone = [];
  duration = 0;
  codec = [];
  title = codes "DSC 0815";
  subject = [];
  keywords = codes "beach";
  comment = [];
  artist = [];
  description = [];
  copyright = [];
  camera_owner = [];
  camera_serial = [];
  lat = 0;
  lng = 0;
  altitude = pos 0;
  width = 4;
  height = 3;
}

abbrev media : Media
media = record {
  base = codes "a";
  relative_path = codes "2019";
  relative_name = codes "2019/a.jpg";
  hash = codes "f00d";
  size = pos 700;
  modified = new_year 2020;
  is_sidecar = false;
  is_jpeg = true;
  is_xmp = false;
  is_raw = false;
  is_video = false;
  file_type = codes "jpg";
  mime_type = codes "image/jpeg";
  orientation = 1;
  width = 4;
  height = 3;
  aspect_ratio = 0x3faa_e148;
  colors =
      perceived (record { colors = blue ∷ []; main_color = blue; luminance = 5 ∷ []; chroma = 9 });
  meta_data = meta_data;
  xmp = none;
  camera_model = [];
  camera_make = [];
  lens_model = [];
  lens_make = [];
  focal_length = pos 0;
  f_number = 0;
  iso = pos 0;
  exposure = [];
  taken_at = (new_year 2018, src_meta);
  nsfw = false;
}

-- an id above all others
next_id : List File → ℕ
next_id [] = 1
next_id (f ∷ files) = suc (f.id + next_id files)

above : (n : ℕ) (files : List File) → next_id files ≤ n → All (λ g. g.id ≢ n) files
unfolding next_id
above n [] h = tt
above n (f ∷ files) h = (omega arith, above n files (omega arith))

abbrev setting : Setting
setting = record {
  surroundings = services.surroundings;
  zones = services.zones;
  geo = services.geo;
  label_database = services.label_database;
  camera_database = record {
    slug = λ t. t;
    slug_lang = λ t. t;
    unknown_camera = record {
      id = 1;
      camera_slug = codes "zz";
      camera_model = codes "Unknown";
      camera_make = [];
    };
    unknown_lens = record {
      id = 1;
      lens_slug = codes "zz";
      lens_model = codes "Unknown";
      lens_make = [];
    };
    create_camera = λ s c. none;
    create_lens = λ s l. none;
  };
  exists = λ n. true;
  ratio = λ w h. 0;
  from_yaml = none;
  classify = λ thumb. none;
  disable_tensor_flow = true;
  detect_private = false;
  rescan = false;
  writes_details = λ p. true;
  new_photo_id = λ photos. 7;
  new_file_id = next_id;
  new_photo_uid = codes "pt9jtdre2lvl0yh8";
  new_file_uid = codes "ft9jtdre2lvl0yh8";
  accepts_file = λ files f. true;
}

fresh : (files : List File) → All (λ g. g.id ≢ setting.new_file_id files) files
fresh files = above (next_id files) files (omega arith)

abbrev edited : Photo
edited = record blank {
  photo_title = codes "Holiday";
  title_src = src_manual;
  taken_src = src_manual;
}

abbrev old_file : File
old_file = record no_file {
  id = 1;
  photo_id = 1;
  file_name = codes "2019/a.jpg";
  file_hash = codes "beef";
  file_type = codes "jpg";
  file_primary = true;
  file_size = pos 600;
}

abbrev store : IndexStore
store = record {
  photo_store = record {
    photos = edited ∷ [];
    index = record { keyword_rows = []; photo_keywords = [] };
    counted = 0;
  };
  place_store = no_places;
  label_store = record { labels = []; photo_labels = []; categories = []; published = [] };
  camera_store = record { cameras = []; lenses = [] };
  files = old_file ∷ [];
  downloads = [];
  new_photos = 0;
  new_private = 0;
  new_videos = 0;
  new_files = 0;
}

-- what a run through the indexer computes with
bundle : Unit {0}
unfolding index_media_file begin find_file enter start_photo find_primary claim_primary file_changed
    prepare apply_type apply_jpeg with_colors gather meta_file describe write_all write_first
    save_row write_second finish_file write_file text_eq byte_length indexes passes chosen
bundle = tt

abbrev result : IndexStore × IndexResult
result = index_media_file setting store (some media) []

index_media_file-Indexed_example : Indexed media result.0 result.1
unfolding bundle
index_media_file-Indexed_example = index_media_file-Indexed setting media store [] refl

index_media_file-again_example :
    index_media_file setting result.0 (some media) [] ≡ (result.0, with_status skipped)
unfolding bundle
index_media_file-again_example =
    index_media_file-again setting media fresh store [] [] (tt, tt) refl refl

index_media_file-FilesApart_example : FilesApart result.0.files
index_media_file-FilesApart_example =
    index_media_file-FilesApart setting media fresh store [] (tt, tt)

edited-Timed : Timed edited
unfolding year civil
edited-Timed = record { taken = λ a. refl; local = λ a. refl }

index_media_file-kept_example :
    (row : Photo) × (photo_with_id result.1.photo_id result.0 ≡ some row) × KeepsManual edited row
unfolding bundle
index_media_file-kept_example =
    index_media_file-kept setting media store [] edited (ground arith) refl edited-Timed refl

abbrev copy : Media
copy = record media { relative_name = codes "b.jpg"; hash = codes "beef" }

abbrev passed : IndexStore × IndexResult
passed = index_media_file setting store (some copy) []

index_media_file-Passed_example : (passed.0 ≡ store) × Reason setting copy store passed.1.status
unfolding bundle
index_media_file-Passed_example = index_media_file-Passed setting copy store [] refl
