-- ===== src/Library/Index.antt =====
-- internal/photoprism/index_mediafile.go: `Index.MediaFile`, which brings the rows of one media file up to date, and
-- `NonCanonical` of canonical.go.
pub mod Records
pub mod Lookup
pub mod Apply
pub mod Classify
pub mod Rows
pub mod Written
pub mod Own
pub mod Passed
pub mod Files
pub mod Saved
pub mod Again
pub mod Manual
pub mod Kept
mod Tests
use photoprism.Prelude.{
  ℕ, Bool, true, false, not, ◌||◌, ◌&&◌, List, [], ◌∷◌, ◌++◌, any, is_nil, length, keep, Text,
  codes, text_eq, ◌==◌, if◌then◌else◌, Option, none, some,
}
use photoprism.Prelude.Int.{ℤ, pos, leb_ℤ}
use photoprism.Txt.Unicode.{byte_length}
use photoprism.Txt.Words.{keywords, filename_keywords, unique_words}
use photoprism.Classify.{Label, label_keywords}
use photoprism.Entity.Source.{type_live, type_video}
use photoprism.Entity.Tables.{Tables}
use photoprism.Entity.Photo.{Photo, Details}
use photoprism.Entity.Photo.Setters.{update_year_month}
use photoprism.Entity.Photo.Title.{update_title}
use photoprism.Entity.Photo.Quality.{quality_score}
use photoprism.Entity.Photo.Save.{PhotoStore, join_commas}
use photoprism.Entity.Photo.Edit.{related_labels}
use photoprism.Entity.Label.{PhotoLabel, LabelStore, add_labels, classify_labels}
use photoprism.Entity.Keyword.{index_keywords}
use photoprism.Library.Index.Records.{
  Media, File, IndexStore, Setting, IndexStatus, updated, added, IndexResult, with_status,
}
use photoprism.Library.Index.Records as M
use photoprism.Library.Index.Lookup.{Work, Begun, stopped, going, begin}
use photoprism.Library.Index.Apply.{
  apply_type, revive, meta_photo, meta_file, update_camera, fill_time, locate, fill_places,
  describe,
}
use photoprism.Library.Index.Classify.{classify_image}
use photoprism.Library.Index.Rows.{
  save_row, write_first, write_file, update_video_infos, set_download_file_id,
}

-- A base name that the importer would not have made.
unfoldable pub non_canonical : Text → Bool
non_canonical base =
    not (byte_length base == 24)
    || not (length (keep (λ c. c == b'_') base) == 2)
    || any (λ c. any (λ d. d == c) (codes "-~!@#$%^&*()+=<>?,.")) base

-- What a primary file adds: the photo, the labels, the words of its location, and the tables.
pub record Gathered : Type 0 where
  pub store : IndexStore
  pub file : File
  pub photo : Photo
  pub labels : List Label
  pub words : List Text

-- The labels of the image, and whether it is private.
unfoldable pub look_at : Setting → Media → Bool → Photo → Photo × List Label
unfolding classify_image
look_at v m photo_exists p = if v.disable_tensor_flow then (p, []) else (
  (if not photo_exists && v.detect_private then record p { photo_private = m.nsfw } else p),
  classify_image v.classify v.surroundings.tables.sort_labels m.aspect_ratio,
)

-- What is read from the file where it is the primary one of its photo.
unfoldable pub gather : Setting → Media → IndexStore → Work → Gathered
unfolding look_at meta_photo meta_file update_camera fill_time locate
gather v m s w =
    if not w.file.file_primary
    then record { store = s; file = w.file; photo = w.photo; labels = []; words = [] }
    else (let (seen, labels) = look_at v m w.photo_exists w.photo in
        let (cameras, shot) =
          update_camera v.camera_database m s.camera_store (meta_photo m.meta_data seen) in
        let (places, there, words, more) = locate v s.place_store (fill_time m shot) in
        record {
          store = record s { camera_store = cameras; place_store = places };
          file = meta_file m.meta_data w.file;
          photo = there;
          labels = labels ++ more;
          words = words;
        })

-- All changes before the first write.
unfoldable pub prepare : Setting → Media → Text → IndexStore → Work → Gathered
unfolding apply_type gather fill_places describe
prepare v m original_name s w =
    let typed = apply_type v m w in
    let g = gather v m s (record typed { file = revive typed.file }) in
    record g {
      file = describe m original_name g.file;
      photo = update_year_month (fill_places g.photo);
    }

-- The keywords of a photo, with the words of its file names, its location, its color and its labels.
unfoldable pub photo_keywords : Tables → Media → File → Photo → List Text → List Label → List Text
unfolding non_canonical
photo_keywords t m f p words labels =
    let of_name = filename_keywords t.unicode t.stopword in
    unique_words t.unicode t.sort_words (
      keywords t.unicode t.stopword p.details.keywords
      ++ ((if non_canonical m.base then of_name m.relative_path ++ of_name m.base else [])
          ++ (words
              ++ (of_name f.original_name
                  ++ (f.file_main_color ∷ label_keywords t.unicode t.stopword labels)))))

-- The title, the keywords and the score of a photo by its primary file.
unfoldable pub finish_photo : Tables → Media → File → Photo → List Text → List PhotoLabel → Photo
unfolding photo_keywords
finish_photo t m f p words rows =
    let (titled, sorted, error) = update_title t p (classify_labels rows) in
    let details : Details = titled.details in
    let worded = record titled {
      details = record details {
        keywords = join_commas (photo_keywords t m f titled words sorted);
      };
    } in
    record worded { photo_quality = pos (quality_score t.unicode worded) }

-- The score of a photo that is not hidden, by another of its files.
abbrev pub rescored : Tables → Photo → Photo
rescored t p =
    if leb_ℤ (pos 0) p.photo_quality
    then record p { photo_quality = pos (quality_score t.unicode p) }
    else p

-- The second write of the photo, and its keywords; none where the row is refused.
unfoldable pub write_second :
    Setting
    → Media
    → IndexStore
    → File
    → Photo
    → List Text
    → List PhotoLabel
    → Option (IndexStore × Photo)
unfolding finish_photo save_row
write_second v m s f p words rows =
    let t = v.surroundings.tables in
    if f.file_primary
    then (elim (save_row v s.photo_store (finish_photo t m f p words rows)) [
      | none ↦ none
      | some (r, n) ↦
          let (index, indexed) = index_keywords t v.surroundings.keyword_database r.index n in
          some (record s { photo_store = record r { index = index } }, n)
    ])
    else (elim (save_row v s.photo_store (rescored t p)) [
      | none ↦ none
      | some (r, n) ↦ some (record s { photo_store = r }, n)
    ])

-- What is left to do once the row of the file is written.
unfoldable pub after_file : Text → Photo → File → IndexStore → IndexStore
unfolding update_video_infos set_download_file_id
after_file downloaded_as p f s = record s {
  files =
      if (text_eq p.photo_type type_video || text_eq p.photo_type type_live) && f.file_primary
      then update_video_infos f s.files
      else s.files;
  downloads = set_download_file_id downloaded_as f.id s.downloads;
}

-- The result for a photo whose first write went well.
abbrev pub photo_result : IndexStatus → Photo → IndexResult
photo_result status p = record (with_status status) { photo_id = p.id; photo_uid = p.photo_uid }

abbrev pub downloaded_name : Media → Text → Text
downloaded_name m original_name = if is_nil original_name then m.relative_name else original_name

-- The row of the file, and the result.
unfoldable pub finish_file :
    Setting → Media → Text → IndexStore → Bool → File → Photo → IndexStore × IndexResult
unfolding write_file after_file
finish_file v m original_name s file_exists f p = elim (write_file v s file_exists f) [
  | none ↦ (s, photo_result M.failed p)
  | some (t, n) ↦ (
    after_file (downloaded_name m original_name) p n t,
    record (photo_result (if file_exists then updated else added) p) {
      file_id = n.id;
      file_uid = n.file_uid;
    },
  )
]

-- The labels of the photo, and the file that belongs to it.
unfoldable pub join_labels : Setting → IndexStore → Photo → List Label → IndexStore
join_labels v s p labels = record s {
  label_store = add_labels v.label_database s.label_store p.id labels;
}

abbrev pub belongs : Photo → File → File
belongs p f = record f { photo_id = p.id; photo_uid = p.photo_uid }

-- The writes.
unfoldable pub write_all :
    Setting → Media → Text → Bool → Bool → Gathered → IndexStore × IndexResult
unfolding write_first join_labels write_second finish_file
write_all v m original_name photo_exists file_exists g =
    elim (write_first v g.store photo_exists g.photo) [
      | none ↦ (g.store, with_status M.failed)
      | some (s, p) ↦
          let t = join_labels v s p g.labels in
          let rows = related_labels p.id t.label_store t.label_store.photo_labels in
          let f = belongs p g.file in
          elim (write_second v m t f p g.words rows) [
            | none ↦ (t, photo_result M.failed p)
            | some (r, n) ↦ finish_file v m original_name r file_exists f n
          ]
    ]

-- `Index.MediaFile`; none is a media file that is nil.
unfoldable pub index_media_file :
    Setting → IndexStore → Option Media → Text → IndexStore × IndexResult
unfolding begin prepare write_all
index_media_file v s none original_name = (s, with_status M.failed)
index_media_file v s (some m) original_name = elim (begin v m s) [
  | stopped status ↦ (s, with_status status)
  | going w ↦
      write_all v m original_name w.photo_exists w.file_exists (prepare v m original_name s w)
]
