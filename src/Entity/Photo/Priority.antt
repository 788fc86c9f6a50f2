-- ===== src/Entity/Photo/Priority.antt =====
-- internal/entity/photo.go: values that users set by hand against other sources.
use photoprism.Prelude.{
  ℕ, ◌≡◌, refl, ◌≢◌, true, false, List, [], ◌∷◌, Text, text_eq_iff, text_eq_refl, length, ◌≤◌,
  arith, All, ◌⊎◌,
}
use photoprism.Prelude.Int.{ℤ}
use photoprism.Clock.{Time}
use photoprism.Txt.Clip.{clip, clip_cases, clip_default}
use photoprism.Entity.Source.{src_auto, src_manual}
use photoprism.Entity.Photo.{Photo, has_title, has_description}
use photoprism.Entity.Photo.Setters.{
  yields, set_title, set_description, set_taken_at, set_coordinates,
}

-- A call of one of the setters.
pub data Edit : Type 0 where
  title : Text → Text → Edit
  description : Text → Text → Edit
  taken_at : Time → Time → Text → Text → Edit
  coordinates : ℕ → ℕ → ℤ → Text → Edit

abbrev pub source_of : Edit → Text
source_of (title t source) = source
source_of (description t source) = source
source_of (taken_at taken local zone source) = source
source_of (coordinates lat lng altitude source) = source

abbrev pub apply : Photo → Edit → Photo
apply m (title t source) = set_title m t source
apply m (description t source) = set_description m t source
apply m (taken_at taken local zone source) = set_taken_at m taken local zone source
apply m (coordinates lat lng altitude source) = set_coordinates m lat lng altitude source

abbrev pub apply_all : Photo → List Edit → Photo
apply_all m [] = m
apply_all m (e ∷ es) = apply_all (apply m e) es

-- What `m` holds by hand is in `n` unchanged.
pub record KeepsManual (m n : Photo) : Type 0 where
  pub title_kept :
      m.title_src ≡ src_manual
      → has_title m ≡ true
      → (n.title_src ≡ src_manual) × (n.photo_title ≡ m.photo_title)
  pub description_kept :
      m.description_src ≡ src_manual
      → has_description m ≡ true
      → (n.description_src ≡ src_manual) × (n.photo_description ≡ m.photo_description)
  pub taken_kept :
      m.taken_src ≡ src_manual
      → (n.taken_src ≡ src_manual)
        × (n.taken_at ≡ m.taken_at)
        × (n.taken_at_local ≡ m.taken_at_local)
        × (n.time_zone ≡ m.time_zone)
  pub coordinates_kept :
      m.loc_src ≡ src_manual
      → (n.loc_src ≡ src_manual)
        × (n.photo_lat ≡ m.photo_lat)
        × (n.photo_lng ≡ m.photo_lng)
        × (n.photo_altitude ≡ m.photo_altitude)

not_yields : (old new : Text) → old ≡ src_manual → new ≢ src_manual → yields old new ≡ false
not_yields old new h k =
    ground (arith, text_eq_iff old src_auto, text_eq_iff old new, text_eq_iff new src_manual)

pub apply-KeepsManual :
    (m : Photo) (e : Edit) → source_of e ≢ src_manual → KeepsManual m (apply m e)
unfolding set_title set_description set_taken_at set_coordinates
apply-KeepsManual m (title t source) h = record {
  title_kept = λ a b. ground (arith, not_yields m.title_src source a h);
  description_kept = λ a b. ground arith;
  taken_kept = λ a. ground arith;
  coordinates_kept = λ a. ground arith;
}
apply-KeepsManual m (description t source) h = record {
  title_kept = λ a b. ground arith;
  description_kept = λ a b. ground (arith, not_yields m.description_src source a h);
  taken_kept = λ a. ground arith;
  coordinates_kept = λ a. ground arith;
}
apply-KeepsManual m (taken_at taken local zone source) h = record {
  title_kept = λ a b. ground arith;
  description_kept = λ a b. ground arith;
  taken_kept = λ a. ground (arith, not_yields m.taken_src source a h);
  coordinates_kept = λ a. ground arith;
}
apply-KeepsManual m (coordinates lat lng altitude source) h = record {
  title_kept = λ a b. ground arith;
  description_kept = λ a b. ground arith;
  taken_kept = λ a. ground arith;
  coordinates_kept = λ a. ground (arith, not_yields m.loc_src source a h);
}

pub KeepsManual-refl : (m : Photo) → KeepsManual m m
KeepsManual-refl m = record {
  title_kept = λ a b. (a, refl);
  description_kept = λ a b. (a, refl);
  taken_kept = λ a. (a, refl, refl, refl);
  coordinates_kept = λ a. (a, refl, refl, refl);
}

pub KeepsManual-trans : (m n o : Photo) → KeepsManual m n → KeepsManual n o → KeepsManual m o
KeepsManual-trans m n o h k = record {
  title_kept = λ a b. ground (arith, h.title_kept a b, k.title_kept);
  description_kept = λ a b. ground (arith, h.description_kept a b, k.description_kept);
  taken_kept = λ a. ground (arith, h.taken_kept a, k.taken_kept);
  coordinates_kept = λ a. ground (arith, h.coordinates_kept a, k.coordinates_kept);
}

-- However many setters are called with sources other than "manual", a title, a description, a time
-- with its zone and coordinates that were set by hand stay as they were, with their source. (For the
-- title and the description this takes one that is not empty.)
pub manual_kept :
    (m : Photo) (es : List Edit)
    → All (λ e. source_of e ≢ src_manual) es
    → KeepsManual m (apply_all m es)
manual_kept m [] h = KeepsManual-refl m
manual_kept m (e ∷ es) (h, hs) =
    KeepsManual-trans m (apply m e) (apply_all (apply m e) es) (apply-KeepsManual m e h)
      (manual_kept (apply m e) es hs)

-- A title set by hand takes effect whatever was there before, unless it is blank; every call of
-- `SetTitle` leaves the photo as it is or writes its own clipped text with its source; and no title of
-- more than 160 runes replaces one of at most 160.
pub set_title_lem :
    (m : Photo) (t source : Text)
    → (clip t clip_default ≢ []
        → set_title m t src_manual
          ≡ record m { photo_title = clip t clip_default; title_src = src_manual })
      × ((set_title m t source ≡ m)
          ⊎ ((set_title m t source).photo_title ≡ clip t clip_default)
            × ((set_title m t source).title_src ≡ source))
      × (length m.photo_title ≤ 160 → length (set_title m t source).photo_title ≤ 160)
unfolding set_title
set_title_lem m t source = (
  λ ne. ground (arith, text_eq_iff (clip t clip_default) [], text_eq_refl src_manual),
  ground arith,
  λ h. ground (arith, (clip_cases t clip_default).0),
)
