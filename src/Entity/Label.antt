-- ===== src/Entity/Label.antt =====
-- internal/entity/label.go and photo_label.go: labels, the labels of photos, and `AddLabels` of photo.go. The
-- tables are in the order of their primary keys.
pub mod Added
pub mod Examples
mod Tests
use photoprism.Prelude.{
  ℕ, Bool, true, false, not, ◌||◌, ◌&&◌, List, [], ◌∷◌, ◌++◌, is_nil, Text, codes, text_eq, ◌==◌,
  if◌then◌else◌, Option, none, some,
}
use photoprism.Prelude.Int.{ℤ, pos, negsuc, ltb_ℤ, eqb_ℤ}
use photoprism.Classify.{Label}
use photoprism.Txt.Unicode.{Unicode}
use photoprism.Txt.Title.{title_case}
use photoprism.Txt.Clip.{clip, clip_default, clip_slug}

-- `Label` of the package entity, less its links and times.
pub record LabelRow : Type 0 where
  pub id : ℕ
  pub label_uid : Text
  pub label_slug : Text
  pub custom_slug : Text
  pub label_name : Text
  pub label_priority : ℤ
  pub label_favorite : Bool
  pub label_description : Text
  pub label_notes : Text
  pub photo_count : ℕ
  pub is_deleted : Bool

-- A row that joins a photo and a label; the label is there where it is preloaded.
pub record PhotoLabel : Type 0 where
  pub photo_id : ℕ
  pub label_id : ℕ
  pub label_src : Text
  pub uncertainty : ℤ
  pub label : Option LabelRow

-- The tables, the pairs of labels and categories, and the labels whose creation was published.
pub record LabelStore : Type 0 where
  pub labels : List LabelRow
  pub photo_labels : List PhotoLabel
  pub categories : List (ℕ × ℕ)
  pub published : List LabelRow

-- What labels take from outside: the Unicode tables, `slug.Make`, and what the database makes of a write:
-- the row as it is inserted, or nothing where it is refused, and whether an update is accepted.
pub record LabelDatabase : Type 0 where
  pub unicode : Unicode
  pub slug : Text → Text
  pub create : LabelStore → LabelRow → Option LabelRow
  pub saves : LabelStore → LabelRow → Bool
  pub joins : LabelStore → ℕ → ℕ → Bool
  pub creates_link : LabelStore → PhotoLabel → Bool
  pub updates_link : LabelStore → PhotoLabel → Bool

-- `Label.Title` of the package classify.
abbrev pub label_text : Unicode → Label → Text
label_text u l = title_case u (clip l.name clip_default)

unfoldable pub new_label : LabelDatabase → Text → ℤ → LabelRow
new_label d name priority =
    let clipped = clip name clip_default in
    let label_name = title_case d.unicode (if is_nil clipped then codes "Unknown" else clipped) in
    let label_slug = d.slug (clip label_name clip_slug) in
    record {
      id = 0;
      label_uid = [];
      label_slug = label_slug;
      custom_slug = label_slug;
      label_name = label_name;
      label_priority = priority;
      label_favorite = false;
      label_description = [];
      label_notes = [];
      photo_count = 1;
      is_deleted = false;
    }

-- `Where("label_slug = ? OR custom_slug = ?")` with `First`, which passes deleted rows over.
unfoldable pub find_label : Text → Text → List LabelRow → Option LabelRow
find_label slug custom [] = none
find_label slug custom (l ∷ ls) =
    if not l.is_deleted && (text_eq l.label_slug slug || text_eq l.custom_slug custom)
    then some l
    else find_label slug custom ls

-- `FirstOrCreateLabel`.
unfoldable pub first_or_create_label :
    LabelDatabase → LabelStore → LabelRow → LabelStore × Option LabelRow
first_or_create_label d s m = elim (find_label m.label_slug m.custom_slug s.labels) [
  | some l ↦ (s, some l)
  | none ↦ elim (d.create s m) [
    | none ↦ (s, none)
    | some l ↦ (
      record s {
        labels = s.labels ++ l ∷ [];
        published = if ltb_ℤ l.label_priority (pos 0) then s.published else s.published ++ l ∷ [];
      },
      some l,
    )
  ]
]

unfoldable pub set_name : LabelDatabase → LabelRow → Text → LabelRow
set_name d m name =
    let new_name = clip name clip_default in
    if is_nil new_name then m else record m {
      label_name = title_case d.unicode new_name;
      custom_slug = d.slug (clip name clip_slug);
    }

-- `Save` of a row that is there.
unfoldable pub save_label : LabelRow → List LabelRow → List LabelRow
save_label m [] = []
save_label m (l ∷ ls) = (if l.id == m.id then m else l) ∷ save_label m ls

abbrev with_priority : LabelRow → ℤ → LabelRow
with_priority m priority = record m { label_priority = priority }

abbrev with_slugs : LabelRow → LabelRow
with_slugs m =
    if is_nil m.custom_slug
    then record m { custom_slug = m.label_slug }
    else if is_nil m.label_slug
    then record m { label_slug = m.custom_slug }
    else m

abbrev renames : LabelRow → Text → Bool
renames m title = text_eq m.custom_slug m.label_slug && not (text_eq title m.label_name)

-- The row that `UpdateClassify` is left with, and whether it is saved.
unfoldable pub classified : LabelDatabase → LabelRow → Label → LabelRow × Bool
unfolding set_name
classified d m label =
    let n = with_slugs (with_priority m label.priority) in
    let title = label_text d.unicode label in
    let renamed = if renames n title then set_name d n title else n in
    (
      renamed,
      not (eqb_ℤ m.label_priority label.priority)
          || is_nil m.custom_slug
          || is_nil m.label_slug
          || renames n title,
    )

-- The loop over the categories: it ends with the first that cannot be joined.
unfoldable pub add_categories : LabelDatabase → LabelStore → ℕ → List Text → LabelStore × Bool
unfolding first_or_create_label new_label
add_categories d s id [] = (s, true)
add_categories d s id (category ∷ cs) =
    let (t, row) =
      first_or_create_label d s (new_label d (title_case d.unicode category) (negsuc 2)) in
    elim row [
      | none ↦ add_categories d t id cs
      | some sn ↦
          let rest =
            add_categories d (record t { categories = t.categories ++ (id, sn.id) ∷ [] }) id cs in
          if d.joins t id sn.id then rest else (t, false)
    ]

-- `UpdateClassify`, with whether it returned no error.
unfoldable pub update_classify : LabelDatabase → LabelStore → LabelRow → Label → LabelStore × Bool
unfolding classified add_categories
update_classify d s m label =
    let (n, save) = classified d m label in
    if save && not (d.saves s n)
    then (s, false)
    else add_categories d (if save then record s { labels = save_label n s.labels } else s) n.id
        label.categories

abbrev pub new_photo_label : ℕ → ℕ → ℤ → Text → PhotoLabel
new_photo_label photo_id label_id uncertainty source = record {
  photo_id = photo_id;
  label_id = label_id;
  label_src = source;
  uncertainty = uncertainty;
  label = none;
}

-- The row with the primary key.
unfoldable pub find_photo_label : ℕ → ℕ → List PhotoLabel → Option PhotoLabel
find_photo_label photo_id label_id [] = none
find_photo_label photo_id label_id (r ∷ rs) =
    if r.photo_id == photo_id && r.label_id == label_id
    then some r
    else find_photo_label photo_id label_id rs

-- `FirstOrCreatePhotoLabel`.
unfoldable pub first_or_create_photo_label :
    LabelDatabase → LabelStore → PhotoLabel → LabelStore × Option PhotoLabel
first_or_create_photo_label d s m = elim (find_photo_label m.photo_id m.label_id s.photo_labels) [
  | some r ↦ (s, some r)
  | none ↦
      if d.creates_link s m
      then (record s { photo_labels = s.photo_labels ++ m ∷ [] }, some m)
      else (s, none)
]

-- `Updates` of the uncertainty and the source.
unfoldable pub update_photo_label : ℕ → ℕ → ℤ → Text → List PhotoLabel → List PhotoLabel
update_photo_label photo_id label_id uncertainty source [] = []
update_photo_label photo_id label_id uncertainty source (r ∷ rs) =
    (if r.photo_id == photo_id && r.label_id == label_id
      then record r { uncertainty = uncertainty; label_src = source }
      else r)
    ∷ update_photo_label photo_id label_id uncertainty source rs

-- The last steps for a label, with its row in the table.
unfoldable pub link_label : LabelDatabase → LabelStore → ℕ → ℕ → Label → LabelStore
unfolding first_or_create_photo_label update_photo_label
link_label d s photo_id label_id label =
    let (t, row) =
      first_or_create_photo_label d s
        (new_photo_label photo_id label_id label.uncertainty label.source) in
    elim row [
      | none ↦ t
      | some r ↦
          if ltb_ℤ label.uncertainty r.uncertainty
            && ltb_ℤ r.uncertainty (pos 100)
            && d.updates_link t r
          then record t {
            photo_labels =
                update_photo_label r.photo_id r.label_id label.uncertainty label.source
                  t.photo_labels;
          }
          else t
    ]

-- The body of the loop of `AddLabels`.
unfoldable pub add_label : LabelDatabase → LabelStore → ℕ → Label → LabelStore
unfolding first_or_create_label new_label update_classify link_label
add_label d s photo_id label =
    let (t, row) =
      first_or_create_label d s (new_label d (label_text d.unicode label) label.priority) in
    elim row [
      | none ↦ t
      | some m ↦ link_label d (update_classify d t m label).0 photo_id m.id label
    ]

unfoldable pub add_labels : LabelDatabase → LabelStore → ℕ → List Label → LabelStore
unfolding add_label
add_labels d s photo_id [] = s
add_labels d s photo_id (label ∷ ls) = add_labels d (add_label d s photo_id label) photo_id ls

-- `ClassifyLabel`.
abbrev pub classify_label : PhotoLabel → LabelRow → Label
classify_label r l = record {
  name = l.label_name;
  source = r.label_src;
  uncertainty = r.uncertainty;
  priority = l.label_priority;
  categories = [];
}

-- `ClassifyLabels`: rows whose label is not loaded are passed over.
unfoldable pub classify_labels : List PhotoLabel → List Label
classify_labels [] = []
classify_labels (r ∷ rs) = elim r.label [
  | some l ↦ classify_label r l ∷ classify_labels rs
  | none ↦ classify_labels rs
]
