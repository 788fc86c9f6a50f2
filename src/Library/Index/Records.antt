-- ===== src/Library/Index/Records.antt =====
-- What the indexer reads and writes: a media file with its metadata (internal/photoprism/mediafile.go,
-- internal/meta/data.go), the rows of files (internal/entity/file.go), and its tables.
use photoprism.Prelude.{
  ℕ, Bool, true, not, ◌&&◌, List, [], Text, leb, ltb, if◌then◌else◌, Option, none, some,
}
use photoprism.Prelude.Int.{ℤ, eqb_ℤ}
use photoprism.Clock.{Time, is_zero, equal, round_second}
use photoprism.Txt.Unicode.{byte_length}
use photoprism.Colors.Perception.{Perceived}
use photoprism.Classify.{Label}
use photoprism.Entity.Photo.{Photo, float_is_zero}
use photoprism.Entity.Photo.Locate.{Zones}
use photoprism.Entity.Photo.Save.{PhotoStore, Surroundings}
use photoprism.Entity.Geo.{PlaceStore, GeoService}
use photoprism.Entity.Label.{LabelStore, LabelDatabase}
use photoprism.Entity.Camera.{CameraStore, CameraDatabase}
use photoprism.Workers.SyncTable.{FileSync}

-- `meta.Data`, as far as the indexer uses it; `failed` is its field `Error`.
pub record MetaData : Type 0 where
  pub failed : Bool
  pub document_id : Text
  pub instance_id : Text
  pub taken_at : Time
  pub taken_at_local : Time
  pub time_zone : Text
  pub duration : ℕ
  pub codec : Text
  pub title : Text
  pub subject : Text
  pub keywords : Text
  pub comment : Text
  pub artist : Text
  pub description : Text
  pub copyright : Text
  pub camera_owner : Text
  pub camera_serial : Text
  pub lat : ℕ
  pub lng : ℕ
  pub altitude : ℤ
  pub width : ℕ
  pub height : ℕ

abbrev pub has_document_id : MetaData → Bool
has_document_id d = leb 15 (byte_length d.document_id)

abbrev pub has_instance_id : MetaData → Bool
has_instance_id d = leb 15 (byte_length d.instance_id)

abbrev pub has_time_and_place : MetaData → Bool
has_time_and_place d =
    not (is_zero d.taken_at) && not (float_is_zero d.lat) && not (float_is_zero d.lng)

abbrev pub is_portrait : MetaData → Bool
is_portrait d = ltb d.width d.height

-- What `MediaFile` answers about one file; `xmp` is what `meta.XMP` reads from it, and `taken_at` is `TakenAt`
-- with its source. Floating point numbers stand by their bit patterns.
pub record Media : Type 0 where
  pub base : Text
  pub relative_path : Text
  pub relative_name : Text
  pub hash : Text
  pub size : ℤ
  pub modified : Time
  pub is_sidecar : Bool
  pub is_jpeg : Bool
  pub is_xmp : Bool
  pub is_raw : Bool
  pub is_video : Bool
  pub file_type : Text
  pub mime_type : Text
  pub orientation : ℕ
  pub width : ℕ
  pub height : ℕ
  pub aspect_ratio : ℕ
  pub colors : Perceived
  pub meta_data : MetaData
  pub xmp : Option MetaData
  pub camera_model : Text
  pub camera_make : Text
  pub lens_model : Text
  pub lens_make : Text
  pub focal_length : ℤ
  pub f_number : ℕ
  pub iso : ℤ
  pub exposure : Text
  pub taken_at : Time × Text
  pub nsfw : Bool

-- `File`, less its links, notes and times of rows.
pub record File : Type 0 where
  pub id : ℕ
  pub instance_id : Text
  pub photo_id : ℕ
  pub photo_uid : Text
  pub file_uid : Text
  pub file_name : Text
  pub file_root : Text
  pub original_name : Text
  pub file_hash : Text
  pub file_modified : Time
  pub file_size : ℤ
  pub file_codec : Text
  pub file_type : Text
  pub file_mime : Text
  pub file_primary : Bool
  pub file_sidecar : Bool
  pub file_missing : Bool
  pub file_portrait : Bool
  pub file_video : Bool
  pub file_duration : ℕ
  pub file_width : ℕ
  pub file_height : ℕ
  pub file_orientation : ℕ
  pub file_aspect_ratio : ℕ
  pub file_main_color : Text
  pub file_colors : Text
  pub file_luminance : Text
  pub file_diff : ℕ
  pub file_chroma : ℕ
  pub file_error : Text
  pub deleted_at : Option Time

-- `File.Changed`.
unfoldable pub file_changed : File → ℤ → Time → Bool
file_changed m size modified = elim m.deleted_at [
  | some t ↦ true
  | none ↦
      if not (eqb_ℤ m.file_size size)
      then true
      else not (equal (round_second m.file_modified) (round_second modified))
]

-- The tables, and how many photos, private photos, videos and files were published as new.
pub record IndexStore : Type 0 where
  pub photo_store : PhotoStore
  pub place_store : PlaceStore
  pub label_store : LabelStore
  pub camera_store : CameraStore
  pub files : List File
  pub downloads : List FileSync
  pub new_photos : ℕ
  pub new_private : ℕ
  pub new_videos : ℕ
  pub new_files : ℕ

-- The settings, and what the indexer takes from outside: whether a file of the originals exists, the aspect ratio of a
-- size, what reading a YAML file beside the media file makes of a photo, where there is one, and
-- whether it went well, the labels of TensorFlow for a kind of thumbnail (none is an error), new
-- identifiers, and what the database accepts and numbers. `writes_details` says whether a save of a photo
-- writes the details that hang on it.
pub record Setting : Type 0 where
  pub surroundings : Surroundings
  pub zones : Zones
  pub geo : GeoService
  pub label_database : LabelDatabase
  pub camera_database : CameraDatabase
  pub exists : Text → Bool
  pub ratio : ℕ → ℕ → ℕ
  pub from_yaml : Option (Photo → Photo × Bool)
  pub classify : Text → Option (List Label)
  pub disable_tensor_flow : Bool
  pub detect_private : Bool
  pub rescan : Bool
  pub writes_details : Photo → Bool
  pub new_photo_id : List Photo → ℕ
  pub new_file_id : List File → ℕ
  pub new_photo_uid : Text
  pub new_file_uid : Text
  pub accepts_file : List File → File → Bool

pub data IndexStatus : Type 0 where
  updated added skipped duplicate archived failed : IndexStatus

pub record IndexResult : Type 0 where
  pub status : IndexStatus
  pub file_id : ℕ
  pub file_uid : Text
  pub photo_id : ℕ
  pub photo_uid : Text

-- Go's zero value, with the status.
abbrev pub with_status : IndexStatus → IndexResult
with_status status = record {
  status = status;
  file_id = 0;
  file_uid = [];
  photo_id = 0;
  photo_uid = [];
}
