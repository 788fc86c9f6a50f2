-- ===== src/Entity/Photo/Edit.antt =====
-- internal/entity/photo.go, `SavePhotoForm`, with the form of internal/form/photo.go: a photo that was edited.
pub mod Edited
pub mod Examples
mod Tests
use photoprism.Prelude.{
  ℕ, suc, Bool, true, false, not, ◌||◌, ◌&&◌, List, [], ◌∷◌, Text, text_eq, ◌==◌, if◌then◌else◌,
  Option, none, some,
}
use photoprism.Prelude.Int.{ℤ, pos}
use photoprism.Clock.{Time, to_utc}
use photoprism.Txt.Words.{unique_keywords}
use photoprism.Entity.Source.{src_manual}
use photoprism.Entity.Tables.{Tables}
use photoprism.Entity.Geo.{PlaceStore, GeoService}
use photoprism.Entity.Photo.{Photo, Details, has_id, has_lat_lng, float_is_zero}
use photoprism.Entity.Photo.Setters.{update_year_month}
use photoprism.Entity.Photo.Title.{update_title}
use photoprism.Entity.Photo.Quality.{quality_score}
use photoprism.Entity.Photo.Locate.{Zones, update_location}
use photoprism.Entity.Photo.Save.{
  PhotoStore, Surroundings, SaveError, empty_id, not_copied, add_keywords, write_photo, join_commas,
}
use photoprism.Entity.Label.{
  LabelRow, PhotoLabel, LabelStore, LabelDatabase, add_labels, classify_labels,
}
use photoprism.Entity.Keyword.{index_keywords}

-- The fields of the form that a photo of the model has.
pub record PhotoForm : Type 0 where
  pub photo_type : Text
  pub taken_at : Time
  pub taken_at_local : Time
  pub taken_src : Text
  pub time_zone : Text
  pub photo_title : Text
  pub title_src : Text
  pub photo_description : Text
  pub description_src : Text
  pub details : Details
  pub photo_favorite : Bool
  pub photo_private : Bool
  pub photo_lat : ℕ
  pub photo_lng : ℕ
  pub photo_altitude : ℤ
  pub photo_country : Text
  pub loc_uid : Text
  pub loc_src : Text
  pub place_uid : Text
  pub camera_src : Text

-- The library deepcopier: the target with the fields of the source, or an error.
pub record Copier : Type 0 where
  pub copy : PhotoForm → Photo → Option Photo
  pub copy_details : Details → Details → Option Details

pub record Services : Type 0 where
  pub surroundings : Surroundings
  pub zones : Zones
  pub geo : GeoService
  pub label_database : LabelDatabase
  pub copier : Copier

pub record EditStore : Type 0 where
  pub photo_store : PhotoStore
  pub place_store : PlaceStore
  pub label_store : LabelStore

-- `!=` on float32 values that are numbers.
abbrev pub float_differs : ℕ → ℕ → Bool
float_differs a b = not (a == b || (float_is_zero a && float_is_zero b))

unfoldable pub label_with_id : ℕ → List LabelRow → Option LabelRow
label_with_id id [] = none
label_with_id id (l ∷ ls) = if l.id == id && not l.is_deleted then some l else label_with_id id ls

-- `Related(&m.Labels)`, with the labels loaded.
unfoldable pub related_labels : ℕ → LabelStore → List PhotoLabel → List PhotoLabel
unfolding label_with_id
related_labels id s [] = []
related_labels id s (r ∷ rs) =
    if r.photo_id == id
    then record r { label = label_with_id r.label_id s.labels } ∷ related_labels id s rs
    else related_labels id s rs

-- The details of the form, where they belong to the photo.
unfoldable pub edit_details : Services → PhotoForm → Photo → Option Photo
unfolding join_commas
edit_details v f m =
    if f.details.photo_id == m.id
    then (elim (v.copier.copy_details f.details m.details) [
      | none ↦ none
      | some d ↦
          let t = v.surroundings.tables in
          some (record m {
            details = record d {
              keywords = join_commas (unique_keywords t.unicode t.stopword t.sort_words d.keywords);
            };
          })
    ])
    else some m

-- The place and the labels of new coordinates, which were set by hand.
unfoldable pub relocate :
    Services → EditStore → Bool → Photo → List PhotoLabel → EditStore × Photo × List PhotoLabel
unfolding update_location add_labels related_labels add_keywords
relocate v s changed m rows =
    let t = v.surroundings.tables in
    if has_lat_lng m && changed && text_eq m.loc_src src_manual
    then (let (places, n, keywords, labels) = update_location t v.zones v.geo s.place_store m in
        let label_store = add_labels v.label_database s.label_store n.id labels in
        (
          record s { place_store = places; label_store = label_store },
          add_keywords t n keywords,
          related_labels n.id label_store label_store.photo_labels,
        ))
    else (s, m, rows)

-- The title, the index, the time of the edit and the score.
unfoldable pub finish_edit :
    Surroundings → PhotoStore → Photo → List PhotoLabel → PhotoStore × Photo
unfolding update_title index_keywords quality_score
finish_edit e s m rows =
    let t = e.tables in
    let titled = (update_title t m (classify_labels rows)).0 in
    let (index, indexed) = index_keywords t e.keyword_database s.index titled in
    let edited = record titled { edited_at = some (to_utc e.now) } in
    (
      record s { index = index },
      record edited { photo_quality = pos (quality_score t.unicode edited) },
    )

-- `SavePhotoForm`. The photo is passed by value, so the result is seen in the tables alone; it is given here
-- with the error. `rows` are the labels that the photo was loaded with.
unfoldable pub save_photo_form :
    Services
    → EditStore
    → Photo
    → List PhotoLabel
    → PhotoForm
    → EditStore × Photo × Option SaveError
unfolding edit_details relocate finish_edit write_photo
save_photo_form v s m rows f = elim (v.copier.copy f m) [
  | none ↦ (s, m, some not_copied)
  | some n ↦
      if not (has_id n)
      then (s, n, some empty_id)
      else (elim (edit_details v f (update_year_month n)) [
        | none ↦ (s, n, some not_copied)
        | some o ↦
            let changed =
              float_differs m.photo_lat f.photo_lat || float_differs m.photo_lng f.photo_lng in
            let (r, located, labels) = relocate v s changed o rows in
            let (t, edited) = finish_edit v.surroundings r.photo_store located labels in
            let (u, written, error) = write_photo v.surroundings t edited in
            elim error [
              | some x ↦ (record r { photo_store = u }, written, some x)
              | none ↦
                  (record r { photo_store = record u { counted = suc u.counted } }, written, none)
            ]
      ])
]
