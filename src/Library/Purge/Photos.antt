-- ===== src/Library/Purge/Photos.antt =====
-- internal/photoprism/purge.go, lines 118 to 165, with `PhotosMissing` of internal/query/photo.go, and `Photo.Delete` of
-- internal/entity/photo.go: photos without files are deleted.
pub mod Rows
pub mod Alive
mod Tests
use photoprism.Prelude.{
  ℕ, zero, suc, ◌+◌, Bool, true, false, not, ◌&&◌, ◌||◌, List, [], ◌∷◌, map, take, drop, keep, any,
  Text, text_eq, codes, ◌==◌, if◌then◌else◌, Option, none, some,
}
use photoprism.Clock.{Time}
use photoprism.Entity.Photo.{Photo}
use photoprism.Entity.Label.{PhotoLabel}
use photoprism.Library.Index.Records.{File}
use photoprism.Library.Purge.{End, finished, purge_canceled, failed, limit}

-- The tables: photos, files, the keywords and the labels of photos, and the albums by the identifiers of
-- their photos.
pub record PhotoTables : Type 0 where
  pub photos : List Photo
  pub files : List File
  pub photo_keywords : List (ℕ × ℕ)
  pub photo_labels : List PhotoLabel
  pub photo_albums : List (Text × Text)

-- The options and what the loop meets; `refused` says whether the database refuses to delete the row of the
-- photo.
pub record PhotoSetting : Type 0 where
  pub dry : Bool
  pub hard : Bool
  pub now : Time
  pub refused : Photo → Bool
  pub canceled : Photo → Bool
  pub canceled_after : ℕ → Bool
  pub query_failed : ℕ → Bool

abbrev pub is_deleted : Option Time → Bool
is_deleted none = false
is_deleted (some t) = true

-- Another file of the photo that is there.
abbrev pub is_other : Photo → File → File → Bool
is_other p a b = b.photo_id == p.id && (not (b.id == a.id) && not b.file_missing)

-- A file of the photo is missing, and no other one is there.
abbrev pub is_last : List File → Photo → File → Bool
is_last files p a = a.photo_id == p.id && (a.file_missing && not (any (is_other p a) files))

unfoldable pub is_missing : List File → Photo → Bool
is_missing files p =
    any (is_last files p) files
    && (not (text_eq p.photo_type (codes "text")) && not (is_deleted p.deleted_at))

-- `PhotosMissing`; the table lists its rows in the order of their ids.
unfoldable pub photos_missing : ℕ → PhotoTables → List Photo
photos_missing offset s = take limit (drop offset (keep (is_missing s.files) s.photos))

-- `Delete` with a condition, which passes rows over that are deleted.
abbrev pub soft_delete_file : Time → ℕ → File → File
soft_delete_file now id f =
    if f.photo_id == id && not (is_deleted f.deleted_at)
    then record f { deleted_at = some now }
    else f

abbrev pub soft_delete_photo : Time → ℕ → Photo → Photo
soft_delete_photo now id p =
    if p.id == id && not (is_deleted p.deleted_at) then record p { deleted_at = some now } else p

-- `Photo.Delete(false)`, with whether it returned no error: that of the last statement.
unfoldable pub soft_delete : PhotoSetting → Photo → PhotoTables → PhotoTables × Bool
soft_delete w m s =
    let t : PhotoTables = record s { files = map (soft_delete_file w.now m.id) s.files } in
    if w.refused m
    then (t, false)
    else (record t { photos = map (soft_delete_photo w.now m.id) t.photos }, true)

-- `DeletePermanently`.
unfoldable pub delete_permanently : PhotoSetting → Photo → PhotoTables → PhotoTables × Bool
delete_permanently w m s =
    let t : PhotoTables = record s {
      files = keep (λ f. not (f.photo_id == m.id)) s.files;
      photo_keywords = keep (λ r. not (r.0 == m.id)) s.photo_keywords;
      photo_labels = keep (λ r. not (r.photo_id == m.id)) s.photo_labels;
      photo_albums = keep (λ r. not (text_eq r.0 m.photo_uid)) s.photo_albums;
    } in
    if w.refused m
    then (t, false)
    else (record t { photos = keep (λ p. not (p.id == m.id)) t.photos }, true)

unfoldable pub delete_photo : PhotoSetting → Photo → PhotoTables → PhotoTables × Bool
unfolding soft_delete delete_permanently
delete_photo w m s = if w.hard then delete_permanently w m s else soft_delete w m s

-- One photo: the tables and `purgedPhotos`.
unfoldable pub purge_photo :
    PhotoSetting → Photo → PhotoTables → List Text → PhotoTables × List Text
unfolding delete_photo
purge_photo w m s purged =
    if any (text_eq m.photo_uid) purged
    then (s, purged)
    else if w.dry
    then (s, m.photo_uid ∷ purged)
    else (let (t, deleted) = delete_photo w m s in
        (t, if deleted then m.photo_uid ∷ purged else purged))

-- One page, and whether the loop ran to its end.
unfoldable pub purge_photo_page :
    PhotoSetting → List Photo → PhotoTables → List Text → PhotoTables × List Text × Bool
unfolding purge_photo
purge_photo_page w [] s purged = (s, purged, true)
purge_photo_page w (m ∷ ms) s purged =
    let (t, more) = purge_photo w m s purged in
    let rest = purge_photo_page w ms t more in
    elim (w.canceled m) [ true ↦ (s, purged, false) | false ↦ rest ]

-- The loop over the pages, on fuel.
unfoldable pub purge_photos :
    ℕ → PhotoSetting → ℕ → PhotoTables → List Text → Option (PhotoTables × List Text × End)
unfolding purge_photo_page photos_missing
purge_photos zero w offset s purged = none
purge_photos (suc fuel) w offset s purged =
    let page = photos_missing offset s in
    let (t, more, on) = purge_photo_page w page s purged in
    let rest = purge_photos fuel w (offset + limit) t more in
    if w.query_failed offset then some (s, purged, failed) else elim page [
      | [] ↦ some (s, purged, finished)
      | m ∷ ms ↦ if not on || w.canceled_after offset then some (t, more, purge_canceled) else rest
    ]
