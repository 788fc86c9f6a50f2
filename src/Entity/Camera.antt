-- ===== src/Entity/Camera.antt =====
-- internal/entity/camera.go and lens.go: the tables of cameras and lenses, found by their names.
use photoprism.Prelude.{
  ℕ, ◌&&◌, List, [], ◌∷◌, ◌++◌, length, drop, is_nil, Text, text_eq, if◌then◌else◌, Option, none,
  some,
}
use photoprism.Txt.Clip.{clip, clip_default, clip_slug, trim_space}
use photoprism.Entity.Place.{is_prefix}

pub record Camera : Type 0 where
  pub id : ℕ
  pub camera_slug : Text
  pub camera_model : Text
  pub camera_make : Text

pub record Lens : Type 0 where
  pub id : ℕ
  pub lens_slug : Text
  pub lens_model : Text
  pub lens_make : Text

pub record CameraStore : Type 0 where
  pub cameras : List Camera
  pub lenses : List Lens

-- What cameras take from outside: `slug.Make`, `slug.MakeLang`, the variables `UnknownCamera` and `UnknownLens`
-- as they stand, and the row that the database makes of a new one, or nothing.
pub record CameraDatabase : Type 0 where
  pub slug : Text → Text
  pub slug_lang : Text → Text
  pub unknown_camera : Camera
  pub unknown_lens : Lens
  pub create_camera : CameraStore → Camera → Option Camera
  pub create_lens : CameraStore → Lens → Option Lens

-- The model without the maker in front of it.
abbrev pub bare_model : Text → Text → Text
bare_model model make =
    if is_prefix make model then trim_space (drop (length make) model) else model

unfoldable pub new_camera : CameraDatabase → Text → Text → Camera
new_camera d model_name make_name =
    let clipped = clip model_name clip_default in
    let make = clip make_name clip_default in
    let model = bare_model clipped make in
    if is_nil clipped then d.unknown_camera else record {
      id = 0;
      camera_slug = d.slug (clip (if is_nil make then model else make ++ (b' ' ∷ model)) clip_slug);
      camera_model = model;
      camera_make = make;
    }

unfoldable pub find_camera : Text → Text → List Camera → Option Camera
find_camera model make [] = none
find_camera model make (c ∷ cs) =
    if text_eq c.camera_model model && text_eq c.camera_make make
    then some c
    else find_camera model make cs

-- `FirstOrCreateCamera`.
unfoldable pub first_or_create_camera :
    CameraDatabase → CameraStore → Camera → CameraStore × Option Camera
unfolding find_camera
first_or_create_camera d s m = elim (find_camera m.camera_model m.camera_make s.cameras) [
  | some c ↦ (s, some c)
  | none ↦ elim (d.create_camera s m) [
    | none ↦ (s, none)
    | some c ↦ (record s { cameras = s.cameras ++ c ∷ [] }, some c)
  ]
]

unfoldable pub new_lens : CameraDatabase → Text → Text → Lens
new_lens d model_name make_name =
    let model = trim_space model_name in
    if is_nil model then d.unknown_lens else record {
      id = 0;
      lens_slug = d.slug_lang model;
      lens_model = model;
      lens_make = trim_space make_name;
    }

unfoldable pub find_lens : Text → List Lens → Option Lens
find_lens slug [] = none
find_lens slug (l ∷ ls) = if text_eq l.lens_slug slug then some l else find_lens slug ls

-- `FirstOrCreateLens`.
unfoldable pub first_or_create_lens :
    CameraDatabase → CameraStore → Lens → CameraStore × Option Lens
unfolding find_lens
first_or_create_lens d s m = elim (find_lens m.lens_slug s.lenses) [
  | some l ↦ (s, some l)
  | none ↦ elim (d.create_lens s m) [
    | none ↦ (s, none)
    | some l ↦ (record s { lenses = s.lenses ++ l ∷ [] }, some l)
  ]
]
