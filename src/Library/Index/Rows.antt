-- ===== src/Library/Index/Rows.antt =====
-- How the indexer writes rows: internal/photoprism/index_mediafile.go, lines 397 to 442 and 513 to 557, with the hooks of
-- internal/entity/photo.go and file.go, `UpdateVideoInfos`, and `SetDownloadFileID` of internal/query.
use photoprism.Prelude.{
  ℕ, suc, Bool, true, false, not, ◌&&◌, List, [], ◌∷◌, ◌++◌, first, is_nil, Text, text_eq, ◌==◌,
  if◌then◌else◌, Option, none, some,
}
use photoprism.Rnd.{is_uid}
use photoprism.Entity.Source.{src_yaml, type_video}
use photoprism.Entity.Photo.{Photo, Details, has_description}
use photoprism.Entity.Photo.Save.{PhotoStore, before_save, put_photo}
use photoprism.Workers.SyncTable.{FileSync, FileStatus, downloaded}
use photoprism.Library.Index.Records.{File, IndexStore, Setting}
use photoprism.Library.Index.Lookup.{no_details}

-- The details in the table that belong to a photo.
unfoldable pub stored_details : ℕ → List Photo → Details
stored_details id photos = elim (first (λ (p : Photo). p.id == id) photos) [
  | none ↦ no_details
  | some p ↦ p.details
]

-- The photo after its save, and its row: details that are written with the photo belong to it.
unfoldable pub linked : Setting → List Photo → Photo → Photo × Photo
unfolding stored_details
linked v photos p =
    let details : Details = p.details in
    let n = record p { details = record details { photo_id = p.id } } in
    if v.writes_details p then (n, n) else (p, record p { details = stored_details p.id photos })

-- `Save` of the database library; none where the row is refused.
unfoldable pub save_row : Setting → PhotoStore → Photo → Option (PhotoStore × Photo)
unfolding before_save put_photo linked
save_row v s p =
    let (n, row) = linked v s.photos (before_save v.surroundings.now p) in
    if v.surroundings.accepts n
    then some (record s { photos = put_photo row s.photos }, n)
    else none

-- `BeforeCreate` of photos.
unfoldable pub before_create : Setting → Photo → Photo
unfolding is_uid
before_create v p = if is_uid p.photo_uid b'p' then p else record p { photo_uid = v.new_photo_uid }

-- `Create` of the database library.
unfoldable pub create_row : Setting → PhotoStore → Photo → Option (PhotoStore × Photo)
unfolding before_create save_row
create_row v s p = save_row v s (record (before_create v p) { id = v.new_photo_id s.photos })

-- The photo from its YAML file, where there is one, or a photo that is no favorite.
unfoldable pub restore : Setting → Photo → Photo
restore v p = elim v.from_yaml [
  | none ↦ record p { photo_favorite = false }
  | some load ↦
      (let (n, loaded) = load p in
        if loaded && has_description n && not (has_description p) && is_nil n.description_src
        then record n { description_src = src_yaml }
        else n)
]

-- The events for a new photo.
unfoldable pub publish_photo : Photo → IndexStore → IndexStore
publish_photo p s = record s {
  new_photos = suc s.new_photos;
  new_private = if p.photo_private then suc s.new_private else s.new_private;
  new_videos = if text_eq p.photo_type type_video then suc s.new_videos else s.new_videos;
}

-- The first write of the photo.
unfoldable pub write_first : Setting → IndexStore → Bool → Photo → Option (IndexStore × Photo)
unfolding save_row create_row restore publish_photo
write_first v s true p = elim (save_row v s.photo_store p) [
  | none ↦ none
  | some (t, n) ↦ some (record s { photo_store = t }, n)
]
write_first v s false p = elim (create_row v s.photo_store (restore v p)) [
  | none ↦ none
  | some (t, n) ↦ some (publish_photo n (record s { photo_store = t }), n)
]

-- The row with the id is replaced, or there is a new one.
unfoldable pub put_file : File → List File → List File
put_file f [] = f ∷ []
put_file f (g ∷ files) = if g.id == f.id then f ∷ files else g ∷ put_file f files

-- `BeforeCreate` of files.
unfoldable pub new_file_row : Setting → List File → File → File
unfolding is_uid
new_file_row v files f = record f {
  id = v.new_file_id files;
  file_uid = if is_uid f.file_uid b'f' then f.file_uid else v.new_file_uid;
}

-- The last write of the file: none where the row is refused.
unfoldable pub write_file : Setting → IndexStore → Bool → File → Option (IndexStore × File)
unfolding put_file new_file_row
write_file v s true f =
    if v.accepts_file s.files f then some (record s { files = put_file f s.files }, f) else none
write_file v s false f =
    let n = new_file_row v s.files f in
    if v.accepts_file s.files n
    then some (record s { files = s.files ++ n ∷ []; new_files = suc s.new_files }, n)
    else none

abbrev pub or_old : ℕ → ℕ → ℕ
or_old old new = if new == 0 then old else new

abbrev pub or_old_text : Text → Text → Text
or_old_text old new = if is_nil new then old else new

-- `Updates` of a struct passes fields over that are zero.
unfoldable pub with_infos : File → File → File
with_infos f g = record g {
  file_width = or_old g.file_width f.file_width;
  file_height = or_old g.file_height f.file_height;
  file_orientation = or_old g.file_orientation f.file_orientation;
  file_aspect_ratio = or_old g.file_aspect_ratio f.file_aspect_ratio;
  file_main_color = or_old_text g.file_main_color f.file_main_color;
  file_colors = or_old_text g.file_colors f.file_colors;
  file_luminance = or_old_text g.file_luminance f.file_luminance;
  file_diff = or_old g.file_diff f.file_diff;
  file_chroma = or_old g.file_chroma f.file_chroma;
}

-- The videos of the photo, but for rows that are deleted.
unfoldable pub is_video_of : ℕ → File → Bool
is_video_of photo_id g =
    g.photo_id == photo_id && g.file_video && (elim g.deleted_at [ none ↦ true | some t ↦ false ])

-- `UpdateVideoInfos`.
unfoldable pub update_video_infos : File → List File → List File
unfolding with_infos is_video_of
update_video_infos f [] = []
update_video_infos f (g ∷ files) =
    (if is_video_of f.photo_id g then with_infos f g else g) ∷ update_video_infos f files

abbrev is_downloaded : FileStatus → Bool
is_downloaded downloaded = true
is_downloaded _ = false

abbrev rooted : Text → Text
rooted [] = []
rooted (c ∷ name) = if c == b'/' then c ∷ name else b'/' ∷ c ∷ name

-- `SetDownloadFileID`; an empty name is an error that is logged.
unfoldable pub set_download_file_id : Text → ℕ → List FileSync → List FileSync
set_download_file_id name id [] = []
set_download_file_id name id (r ∷ rows) =
    (if not (is_nil name)
        && text_eq r.remote_name (rooted name)
        && is_downloaded r.status
        && r.file_id == 0
      then record r { file_id = id }
      else r)
    ∷ set_download_file_id name id rows
