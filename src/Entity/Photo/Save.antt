-- ===== src/Entity/Photo/Save.antt =====
-- internal/entity/photo.go, `Save` and `BeforeSave`, and photo_maintenance.go: a photo is brought up to date and written.
pub mod Sound
mod Tests
use photoprism.Prelude.{
  ℕ, suc, Bool, true, false, not, ◌||◌, ◌&&◌, List, [], ◌∷◌, ◌++◌, Text, codes, text_eq, ◌==◌,
  if◌then◌else◌, Option, none, some,
}
use photoprism.Prelude.Int.{pos}
use photoprism.Clock.{Time, is_zero}
use photoprism.Txt.Words.{unique_words, unique_keywords}
use photoprism.Classify.{Label, label_keywords}
use photoprism.Entity.Source.{src_auto, src_estimate}
use photoprism.Entity.Tables.{Tables}
use photoprism.Entity.Photo.{Photo, Details, has_id, no_location, no_place, details_loaded}
use photoprism.Entity.Photo.Setters.{update_year_month}
use photoprism.Entity.Photo.Title.{update_title}
use photoprism.Entity.Photo.Quality.{quality_score}
use photoprism.Entity.Label.{PhotoLabel, classify_labels}
use photoprism.Entity.Keyword.{KeywordIndex, KeywordDatabase, index_keywords}

pub data SaveError : Type 0 where
  empty_id refused not_copied : SaveError

-- The table of photos with the keyword index, and how often the counts of photos were updated.
pub record PhotoStore : Type 0 where
  pub photos : List Photo
  pub index : KeywordIndex
  pub counted : ℕ

-- What a save takes from outside: the tables, the keyword database, the clock, whether the row is accepted, and
-- the photo with a place that was taken at the nearest time, where the query finds one.
pub record Surroundings : Type 0 where
  pub tables : Tables
  pub keyword_database : KeywordDatabase
  pub now : Time
  pub accepts : Photo → Bool
  pub nearest : List Photo → Time → Option Photo

-- `strings.Join(words, ", ")`.
unfoldable pub join_commas : List Text → Text
join_commas [] = []
join_commas (w ∷ []) = w
join_commas (w ∷ v ∷ ws) = w ++ (codes ", " ++ join_commas (v ∷ ws))

-- The keywords with those of the labels.
unfoldable pub add_keywords : Tables → Photo → List Text → Photo
unfolding join_commas
add_keywords t m more =
    let w = unique_keywords t.unicode t.stopword t.sort_words m.details.keywords in
    let joined = join_commas (unique_words t.unicode t.sort_words (w ++ more)) in
    let details : Details = m.details in record m { details = record details { keywords = joined } }

-- What `Save` and `Maintain` do before the row is written: the date, the title, the keywords, which see
-- the labels as `UpdateTitle` has sorted them, the index and the score.
unfoldable pub improve : Surroundings → PhotoStore → Photo → List Label → PhotoStore × Photo
unfolding add_keywords
improve e s m labels =
    let t = e.tables in
    let (titled, sorted, error) = update_title t (update_year_month m) labels in
    let worded =
      if details_loaded titled
      then add_keywords t titled (label_keywords t.unicode t.stopword sorted)
      else titled in
    let (index, indexed) = index_keywords t e.keyword_database s.index worded in
    (
      record s { index = index },
      record worded { photo_quality = pos (quality_score t.unicode worded) },
    )

-- `BeforeSave`, which the database library calls.
unfoldable pub before_save : Time → Photo → Photo
before_save now m =
    if is_zero m.taken_at || is_zero m.taken_at_local
    then record m { taken_at = now; taken_at_local = now }
    else m

-- The row with the id is replaced, or there is a new one.
unfoldable pub put_photo : Photo → List Photo → List Photo
put_photo m [] = m ∷ []
put_photo m (p ∷ ps) = if p.id == m.id then m ∷ ps else p ∷ put_photo m ps

unfoldable pub write_photo :
    Surroundings → PhotoStore → Photo → PhotoStore × Photo × Option SaveError
unfolding before_save put_photo
write_photo e s m =
    let n = before_save e.now m in
    if e.accepts n
    then (record s { photos = put_photo n s.photos }, n, none)
    else (s, n, some refused)

-- `Save`: the counts are updated where the row was written.
unfoldable pub save :
    Surroundings → PhotoStore → Photo → List PhotoLabel → PhotoStore × Photo × Option SaveError
unfolding improve write_photo
save e s m rows =
    if not (has_id m)
    then (s, m, some empty_id)
    else (let (improved, n) = improve e s m (classify_labels rows) in
        let (t, written, error) = write_photo e improved n in
        elim error [
          | some x ↦ (t, written, some x)
          | none ↦ (record t { counted = suc t.counted }, written, none)
        ])

-- `EstimatePosition`.
unfoldable pub estimate_position : Surroundings → PhotoStore → Photo → Photo
estimate_position e s m = elim (e.nearest s.photos m.taken_at) [
  | none ↦ m
  | some recent ↦ if no_place recent then m else record m {
    place = recent.place;
    place_uid = recent.place_uid;
    photo_country = recent.photo_country;
    loc_src = src_estimate;
  }
]

-- The position is a guess, or there is none.
unfoldable pub wants_position : Photo → Bool
wants_position m = no_location m && (text_eq m.loc_src src_auto || text_eq m.loc_src src_estimate)

-- The first steps of `Maintain`.
unfoldable pub placed : Surroundings → PhotoStore → Photo → Photo
unfolding estimate_position wants_position
placed e s m =
    let begun = record m { maintained_at = some e.now } in
    if wants_position begun then estimate_position e s begun else begun

-- `Maintain`.
unfoldable pub maintain :
    Surroundings → PhotoStore → Photo → List PhotoLabel → PhotoStore × Photo × Option SaveError
unfolding improve write_photo placed
maintain e s m rows =
    if not (has_id m)
    then (s, m, some empty_id)
    else (let (improved, n) = improve e s (placed e s m) (classify_labels rows) in
        write_photo e improved n)
