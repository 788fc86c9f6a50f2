-- ===== src/Library/Index/Apply.antt =====
-- internal/photoprism/index_mediafile.go, lines 170 to 379: what a media file changes in its rows, by its type and from its
-- metadata.
use photoprism.Prelude.{
  ℕ, ◌+◌, ◌*◌, ◌/◌, false, not, ◌||◌, ◌&&◌, List, [], is_nil, Text, text_eq, ltb, ◌==◌,
  if◌then◌else◌, Option, none, some,
}
use photoprism.Clock.{is_zero}
use photoprism.Txt.Unicode.{byte_length}
use photoprism.Colors.{color_name, colors_hex, hex_all}
use photoprism.Colors.LightMap.{diff}
use photoprism.Colors.Perception.{failed, perceived}
use photoprism.Classify.{Label}
use photoprism.Entity.Source.{
  src_auto, src_meta, src_xmp, type_image, type_live, type_video, type_raw,
}
use photoprism.Entity.Place.{unknown_place, unknown_location}
use photoprism.Entity.Geo.{PlaceStore}
use photoprism.Entity.Camera.{
  Camera, Lens, CameraStore, CameraDatabase, new_camera, new_lens, first_or_create_camera,
  first_or_create_lens,
}
use photoprism.Entity.Photo.{Photo, Details, has_lat_lng}
use photoprism.Entity.Photo.Setters.{set_title, set_description, set_taken_at, set_coordinates}
use photoprism.Entity.Photo.Locate.{update_location, without_location}
use photoprism.Library.Index.Records.{
  Media, MetaData, has_document_id, has_instance_id, is_portrait, File, Setting,
}
use photoprism.Library.Index.Lookup.{Work}

-- The fields of a file that come from its colors.
unfoldable pub with_colors : Media → File → File
with_colors m f = elim m.colors [
  | failed e ↦ f
  | perceived p ↦ record f {
    file_main_color = color_name p.main_color;
    file_colors = colors_hex p.colors;
    file_luminance = hex_all p.luminance;
    file_diff = (elim (diff p.luminance) [ none ↦ 0 | some d ↦ d ]);
    file_chroma = p.chroma;
  }
]

-- `math.Round` of the pixels in millions
abbrev pub megapixels : ℕ → ℕ → ℕ
megapixels width height = (width * height + 500_000) / 1_000_000

abbrev pub raise_resolution : ℕ → Photo → Photo
raise_resolution n p = if ltb p.photo_resolution n then record p { photo_resolution = n } else p

unfoldable pub apply_jpeg : Media → Work → Work
unfolding with_colors
apply_jpeg m w =
    let f = with_colors m w.file in
    if ltb 0 m.width && ltb 0 m.height
    then record w {
      file = record f {
        file_width = m.width;
        file_height = m.height;
        file_aspect_ratio = m.aspect_ratio;
        file_portrait = ltb m.width m.height;
      };
      photo = raise_resolution (megapixels m.width m.height) w.photo;
    }
    else record w { file = f }

abbrev pub or_text : Text → Text → Text
or_text old new = if is_nil old && not (is_nil new) then new else old

-- The details that an XMP file fills in.
abbrev pub xmp_details : MetaData → Photo → Photo
xmp_details d p =
    let details : Details = p.details in
    record p {
      details = record details {
        notes = or_text details.notes d.comment;
        artist = or_text details.artist d.artist;
        copyright = or_text details.copyright d.copyright;
      };
    }

unfoldable pub apply_xmp : Media → Photo → Photo
apply_xmp m p = elim m.xmp [
  | none ↦ p
  | some d ↦ xmp_details d (set_description (set_title p d.title src_xmp) d.description src_xmp)
]

abbrev pub apply_raw : Photo → Photo
apply_raw p = if text_eq p.photo_type type_image then record p { photo_type = type_raw } else p

-- The size of the primary file, where the video has none, and its colors.
abbrev pub with_primary : File → File → File
with_primary q f =
    let sized : File =
      if f.file_width == 0 && ltb 0 q.file_width
      then record f {
        file_width = q.file_width;
        file_height = q.file_height;
        file_aspect_ratio = q.file_aspect_ratio;
        file_portrait = q.file_portrait;
      }
      else f in
    if ltb 0 q.file_diff
    then record sized {
      file_diff = q.file_diff;
      file_main_color = q.file_main_color;
      file_chroma = q.file_chroma;
      file_luminance = q.file_luminance;
      file_colors = q.file_colors;
    }
    else sized

-- A video of at most 3.1 seconds is a live photo.
unfoldable pub apply_video : Setting → Media → Work → Work
apply_video v m w =
    let d = m.meta_data in
    record w {
      file = with_primary w.primary_file (record w.file {
        file_codec = d.codec;
        file_width = d.width;
        file_height = d.height;
        file_duration = d.duration;
        file_aspect_ratio = v.ratio d.width d.height;
        file_portrait = is_portrait d;
      });
      photo = raise_resolution (megapixels d.width d.height) (record w.photo {
        photo_type =
            if d.duration == 0 || ltb 3_100_000_000 d.duration then type_video else type_live;
      });
    }

unfoldable pub apply_type : Setting → Media → Work → Work
unfolding apply_jpeg apply_xmp apply_video
apply_type v m w =
    if m.is_jpeg
    then apply_jpeg m w
    else if m.is_xmp
    then record w { photo = apply_xmp m w.photo }
    else if m.is_raw
    then record w { photo = apply_raw w.photo }
    else if m.is_video
    then apply_video v m w
    else w

-- The file obviously exists.
abbrev pub revive : File → File
revive f = record f { deleted_at = none; file_missing = false; file_error = [] }

abbrev pub meta_details : MetaData → Details → Details
meta_details d details =
    let artist = or_text (or_text details.artist d.artist) d.camera_owner in
    record details {
      notes = if is_nil details.notes then d.comment else details.notes;
      subject = if is_nil details.subject then d.subject else details.subject;
      keywords = if is_nil details.keywords then d.keywords else details.keywords;
      artist = artist;
    }

-- What metadata sets through the setters.
unfoldable pub with_meta : MetaData → Photo → Photo
with_meta d p =
    set_coordinates
      (set_taken_at (set_description (set_title p d.title src_meta) d.description src_meta)
        d.taken_at d.taken_at_local d.time_zone src_meta)
      d.lat d.lng d.altitude src_meta

unfoldable pub meta_photo : MetaData → Photo → Photo
unfolding with_meta
meta_photo d p =
    if d.failed
    then p
    else (let n = with_meta d p in
        record n {
          details = meta_details d n.details;
          camera_serial = if is_nil n.camera_serial then d.camera_serial else n.camera_serial;
          document_id =
              if has_document_id d && is_nil n.document_id then d.document_id else n.document_id;
        })

unfoldable pub meta_file : MetaData → File → File
meta_file d f =
    if not d.failed && (has_instance_id d && is_nil f.instance_id)
    then record f { instance_id = d.instance_id }
    else f

abbrev pub camera_id_of : CameraDatabase → Option Camera → ℕ
camera_id_of d none = d.unknown_camera.id
camera_id_of d (some c) = c.id

abbrev pub lens_id_of : CameraDatabase → Option Lens → ℕ
lens_id_of d none = d.unknown_lens.id
lens_id_of d (some l) = l.id

-- The camera, the lens and the exposure, unless the user has chosen the camera.
unfoldable pub update_camera : CameraDatabase → Media → CameraStore → Photo → CameraStore × Photo
unfolding first_or_create_camera first_or_create_lens new_camera new_lens
update_camera d m s p =
    if text_eq p.camera_src src_auto
    then (let (t, camera) =
          first_or_create_camera d s (new_camera d m.camera_model m.camera_make) in
        let (r, lens) = first_or_create_lens d t (new_lens d m.lens_model m.lens_make) in
        (
          r,
          record p {
            camera_id = camera_id_of d camera;
            lens_id = lens_id_of d lens;
            photo_focal_length = m.focal_length;
            photo_f_number = m.f_number;
            photo_iso = m.iso;
            photo_exposure = m.exposure;
          },
        ))
    else (s, p)

-- The time that the file itself suggests, where there is none.
unfoldable pub fill_time : Media → Photo → Photo
fill_time m p =
    if is_zero p.taken_at || is_zero p.taken_at_local
    then set_taken_at p m.taken_at.0 m.taken_at.0 [] m.taken_at.1
    else p

unfoldable pub locate : Setting → PlaceStore → Photo → PlaceStore × Photo × List Text × List Label
unfolding update_location
locate v s p =
    if has_lat_lng p
    then update_location v.surroundings.tables v.zones v.geo s p
    else (s, without_location p, [], [])

-- Unknown locations and places, where none was found.
unfoldable pub fill_places : Photo → Photo
fill_places p =
    let n =
      if ltb (byte_length p.loc_uid) 2
      then record p { location = some unknown_location; loc_uid = unknown_location.loc_uid }
      else p in
    if ltb (byte_length n.place_uid) 2
    then record n {
      place = some unknown_place;
      place_uid = unknown_place.place_uid;
      photo_country = unknown_place.loc_country;
    }
    else n

-- The fields of the row that describe the file itself.
unfoldable pub describe : Media → Text → File → File
describe m original_name f = record f {
  original_name = if is_nil original_name then f.original_name else original_name;
  file_sidecar = m.is_sidecar;
  file_video = m.is_video;
  file_root = [];
  file_name = m.relative_name;
  file_hash = m.hash;
  file_size = m.size;
  file_modified = m.modified;
  file_type = m.file_type;
  file_mime = m.mime_type;
  file_orientation = m.orientation;
}
