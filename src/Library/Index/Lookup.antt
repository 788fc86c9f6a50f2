-- ===== src/Library/Index/Lookup.antt =====
-- internal/photoprism/index_mediafile.go, lines 85 to 168: the rows of a media file, and whether it is indexed at all.
use photoprism.Prelude.{
  ℕ, Bool, true, false, not, ◌&&◌, List, [], codes, first, text_eq, ◌==◌, if◌then◌else◌, Option,
  none, some,
}
use photoprism.Prelude.Int.{pos, negsuc, eqb_ℤ}
use photoprism.Clock.{zero_time, equal}
use photoprism.Entity.Source.{type_image}
use photoprism.Entity.Photo.{Photo, Details}
use photoprism.Entity.Photo.Edit.{float_differs}
use photoprism.Library.Index.Records.{
  Media, has_document_id, has_instance_id, has_time_and_place, File, file_changed, IndexStore,
  Setting, IndexStatus, skipped, duplicate, archived,
}

-- Go's zero values.
abbrev pub no_details : Details
no_details = record {
  photo_id = 0;
  keywords = [];
  notes = [];
  subject = [];
  artist = [];
  copyright = [];
}

abbrev pub no_photo : Photo
no_photo = record {
  id = 0;
  document_id = [];
  taken_at = zero_time;
  taken_at_local = zero_time;
  taken_src = [];
  photo_uid = [];
  photo_type = [];
  photo_title = [];
  title_src = [];
  photo_description = [];
  description_src = [];
  details = no_details;
  photo_path = [];
  photo_name = [];
  photo_favorite = false;
  photo_private = false;
  time_zone = [];
  place_uid = [];
  loc_uid = [];
  loc_src = [];
  photo_lat = 0;
  photo_lng = 0;
  photo_altitude = pos 0;
  photo_country = [];
  photo_year = pos 0;
  photo_month = pos 0;
  photo_iso = pos 0;
  photo_exposure = [];
  photo_f_number = 0;
  photo_focal_length = pos 0;
  photo_quality = pos 0;
  photo_resolution = 0;
  camera_id = 0;
  camera_serial = [];
  camera_src = [];
  lens_id = 0;
  location = none;
  place = none;
  edited_at = none;
  maintained_at = none;
  deleted_at = none;
}

abbrev pub no_file : File
no_file = record {
  id = 0;
  instance_id = [];
  photo_id = 0;
  photo_uid = [];
  file_uid = [];
  file_name = [];
  file_root = [];
  original_name = [];
  file_hash = [];
  file_modified = zero_time;
  file_size = pos 0;
  file_codec = [];
  file_type = [];
  file_mime = [];
  file_primary = false;
  file_sidecar = false;
  file_missing = false;
  file_portrait = false;
  file_video = false;
  file_duration = 0;
  file_width = 0;
  file_height = 0;
  file_orientation = 0;
  file_aspect_ratio = 0;
  file_main_color = [];
  file_colors = [];
  file_luminance = [];
  file_diff = 0;
  file_chroma = 0;
  file_error = [];
  deleted_at = none;
}

pub data FoundFile : Type 0 where
  is_duplicate : FoundFile
  found : File → FoundFile
  absent : FoundFile

abbrev pub has_name : Media → File → Bool
has_name m f = text_eq f.file_name m.relative_name

abbrev pub has_hash : Media → File → Bool
has_hash m f = text_eq f.file_hash m.hash

abbrev pub has_instance : Media → File → Bool
has_instance m f = text_eq f.instance_id m.meta_data.instance_id

abbrev pub found_or_absent : Option File → FoundFile
found_or_absent none = absent
found_or_absent (some f) = found f

-- The queries for the row of the file; all rows count, deleted ones too.
unfoldable pub find_file : Setting → Media → List File → FoundFile
find_file w m files = elim (first (has_name m) files) [
  | some f ↦ found f
  | none ↦ if m.is_sidecar then absent else (elim (first (has_hash m) files) [
    | some f ↦ if w.exists f.file_name then is_duplicate else found f
    | none ↦
        if has_instance_id m.meta_data
        then found_or_absent (first (has_instance m) files)
        else absent
  ])
]

abbrev pub has_path : Media → Photo → Bool
has_path m p = text_eq p.photo_path m.relative_path && text_eq p.photo_name m.base

abbrev pub has_place : Media → Photo → Bool
has_place m p =
    not (float_differs p.photo_lat m.meta_data.lat)
    && not (float_differs p.photo_lng m.meta_data.lng)
    && equal p.taken_at m.meta_data.taken_at

abbrev pub has_document : Media → Photo → Bool
has_document m p = text_eq p.document_id m.meta_data.document_id

abbrev pub or_else : Option Photo → Option Photo → Option Photo
or_else none p = p
or_else (some p) q = some p

-- The queries for the photo of a file that has no row yet.
unfoldable pub find_photo : Media → List Photo → Option Photo
find_photo m photos = or_else (first (has_path m) photos) (
    or_else (if has_time_and_place m.meta_data then first (has_place m) photos else none)
      (if has_document_id m.meta_data then first (has_document m) photos else none))

-- What the function works on between its queries and its writes.
pub record Work : Type 0 where
  pub file : File
  pub primary_file : File
  pub file_exists : Bool
  pub photo : Photo
  pub photo_exists : Bool

pub data Begun : Type 0 where
  stopped : IndexStatus → Begun
  going : Work → Begun

-- A photo as `First` returns it: the rows that hang on it are not loaded.
abbrev pub unloaded : Photo → Photo
unloaded p = record p { details = no_details; location = none; place = none }

abbrev pub at_path : Media → Photo → Photo
at_path m p = record p { photo_path = m.relative_path; photo_name = m.base }

-- The photo to work on.
unfoldable pub start_photo : Media → Option Photo → Photo
start_photo m none =
    at_path m (record no_photo { photo_type = type_image; photo_quality = negsuc 0 })
start_photo m (some p) = at_path m (unloaded p)

abbrev pub is_primary_of : ℕ → File → Bool
is_primary_of id f =
    text_eq f.file_type (codes "jpg")
    && f.file_primary
    && f.photo_id == id
    && (elim f.deleted_at [ none ↦ true | some t ↦ false ])

-- The primary file of the photo, where there is one and the file is not primary itself.
unfoldable pub find_primary : List File → File → Option Photo → Option File
find_primary files f none = none
find_primary files f (some p) = if f.file_primary then none else first (is_primary_of p.id) files

unfoldable pub claim_primary : Media → Option File → File → File
claim_primary m (some q) f = f
claim_primary m none f = if f.file_primary then f else record f { file_primary = m.is_jpeg }

-- Photos that were purged come back with their primary file; others that are deleted are passed over.
unfoldable pub enter : Media → List File → Bool → File → Option Photo → Begun
unfolding start_photo find_primary claim_primary
enter m files file_exists f p =
    let primary = find_primary files f p in
    let claimed = claim_primary m primary f in
    let photo = start_photo m p in
    let work : Photo → Work = λ n. record {
      file = claimed;
      primary_file = (elim primary [ none ↦ no_file | some q ↦ q ]);
      file_exists = file_exists;
      photo = n;
      photo_exists = (elim p [ none ↦ false | some o ↦ true ]);
    } in
    if eqb_ℤ photo.photo_quality (negsuc 0) && claimed.file_primary
    then going (work (record photo { deleted_at = none }))
    else (elim photo.deleted_at [ none ↦ going (work photo) | some t ↦ stopped archived ])

unfoldable pub begin : Setting → Media → IndexStore → Begun
unfolding find_file find_photo enter
begin w m s = elim (find_file w m s.files) [
  | is_duplicate ↦ stopped duplicate
  | absent ↦ enter m s.files false no_file (find_photo m s.photo_store.photos)
  | found f ↦ elim (first (λ (p : Photo). p.id == f.photo_id) s.photo_store.photos) [
    | none ↦ enter m s.files true f none
    | some p ↦
        if not (file_changed f m.size m.modified) && not w.rescan
        then stopped skipped
        else enter m s.files true f (some p)
  ]
]
