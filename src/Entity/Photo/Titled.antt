-- ===== src/Entity/Photo/Titled.antt =====
-- internal/entity/photo.go: what `UpdateTitle` leaves behind.
use photoprism.Prelude.{
  ◌≤◌, ◌≡◌, refl, sym, Bool, true, false, not, ◌||◌, List, [], ◌∷◌, ◌++◌, Text, codes, text_eq,
  text_eq_iff, text_eq-nil, length, Option, none, some, arith, ◌⊎◌, inl, inr, Bool-cases,
  Option-cases,
}
use mathlib.Core.Path.{subst}
use photoprism.Classify
use photoprism.Classify.{Label}
use photoprism.Clock.{format_year}
use photoprism.Txt.Title.{title_case}
use photoprism.Txt.Unicode.{is_space}
use photoprism.Txt.Clip.{clip, has_ink, has_ink-append_right, clip-ne-nil}
use photoprism.Entity.Source.{src_auto, title_unknown}
use photoprism.Entity.Tables.{Tables}
use photoprism.Entity.Photo.{Photo, has_title, loaded_location, loaded_place}
use photoprism.Entity.Photo.Setters.{set_title}
use photoprism.Entity.Photo.Priority.{set_title_lem}
use photoprism.Entity.Photo.Title.{
  was_modified, set_choice, join_two, location_choice, place_choice, date_title, plain_title,
  finish_title, place_title, update_title,
}

-- A title is at most 160 runes long.
abbrev pub HasShortTitle : Photo → Type 0
HasShortTitle m = length m.photo_title ≤ 160

set_choice-HasShortTitle :
    (m : Photo) (choice : Option Text) → HasShortTitle m → HasShortTitle (set_choice m choice)
set_choice-HasShortTitle m none h = h
set_choice-HasShortTitle m (some t) h = (set_title_lem m t src_auto).2 h

-- The first step sets one title or none.
pub place_title_choice :
    (t : Tables) (m : Photo) (labels : List Label)
    → (choice : Option Text) × ((place_title t m labels).1 ≡ set_choice m choice)
unfolding place_title
place_title_choice t m labels = elim (Option-cases (loaded_location m)) [
  | inr ((loc, place), e) ↦ (
    location_choice t m loc place (Classify.title t.sort_labels labels loc.loc_name).0,
    rw (e, place_title),
  )
  | inl e ↦ elim (Option-cases (loaded_place m)) [
    | inr (place, k) ↦
        (place_choice t m place (Classify.title t.sort_labels labels []).0, rw (e, k, place_title))
    | inl k ↦ (none, rw (e, k, place_title))
  ]
]

-- A title that may be replaced by an automatic one.
IsOpen : Photo → Type 0
IsOpen m = (text_eq m.title_src src_auto ≡ true) ⊎ (has_title m ≡ false)

set_title-IsOpen : (m : Photo) (x : Text) → IsOpen m → IsOpen (set_title m x src_auto)
unfolding set_title IsOpen
set_title-IsOpen m x h = ground (arith, text_eq_iff src_auto src_auto)

-- An open title is there after an automatic one that is not blank.
set_title_has :
    (m : Photo) (x : Text) → IsOpen m → has_ink x ≡ true → has_title (set_title m x src_auto) ≡ true
unfolding set_title IsOpen
set_title_has m x h k = ground (arith, clip-ne-nil x 160 k, text_eq-nil (clip x 160))

set_choice-IsOpen : (m : Photo) (choice : Option Text) → IsOpen m → IsOpen (set_choice m choice)
set_choice-IsOpen m none h = h
set_choice-IsOpen m (some x) h = set_title-IsOpen m x h

has_ink-join_two : (a b : Text) → has_ink (join_two a b) ≡ true
unfolding is_space
has_ink-join_two a b = has_ink-append_right a (codes " / " ++ b) refl

has_ink-date_title : (m : Photo) → has_ink (date_title m) ≡ true
unfolding date_title is_space
has_ink-date_title m = ground (arith, has_ink-join_two title_unknown (format_year m.taken_at_local))

-- The first label is one whose name is blank in title case.
abbrev pub BlankFirst : Tables → List Label → Type 0
BlankFirst t [] = ⊥
BlankFirst t (label ∷ labels) = has_ink (title_case t.unicode label.name) ≡ false

has_ink-plain_title :
    (t : Tables) (m : Photo) (labels : List Label)
    → (has_ink (plain_title t m labels) ≡ true) ⊎ BlankFirst t labels
unfolding plain_title
has_ink-plain_title t m [] = inl (has_ink-date_title m)
has_ink-plain_title t m (label ∷ labels) = ground (
  arith,
  has_ink-date_title m,
  has_ink-join_two (title_case t.unicode label.name) (format_year m.taken_at),
)

module _ (t : Tables) (m : Photo) (labels : List Label) where
  finish_title_has :
      (known : Bool)
      → IsOpen m
      → (has_title (finish_title t known m labels) ≡ true) ⊎ BlankFirst t labels
  finish_title_has known h = elim (Bool-cases (not known || not (has_title m))) [
    | inl more ↦ elim (has_ink-plain_title t m labels) [
      | inl ink ↦ inl (rw more (set_title_has m (plain_title t m labels) h ink))
      | inr blank ↦ inr blank
    ]
    | inr done ↦ inl (rw done (ground arith))
  ]

  finish_title-HasShortTitle :
      (known : Bool) → HasShortTitle m → HasShortTitle (finish_title t known m labels)
  finish_title-HasShortTitle known h = elim (Bool-cases (not known || not (has_title m))) [
    | inl more ↦ rw more ((set_title_lem m (plain_title t m labels) src_auto).2 h)
    | inr done ↦ rw done h
  ]

module _ (t : Tables) (m : Photo) (labels : List Label) where
  abbrev first_step : Bool × Photo × List Label
  first_step = place_title t m labels

  first_step-IsOpen : IsOpen m → IsOpen first_step.1
  first_step-IsOpen h =
      let (choice, e) = place_title_choice t m labels in
      subst IsOpen (sym e) (set_choice-IsOpen m choice h)

  first_step-HasShortTitle : HasShortTitle m → HasShortTitle first_step.1
  first_step-HasShortTitle h =
      let (choice, e) = place_title_choice t m labels in
      subst HasShortTitle (sym e) (set_choice-HasShortTitle m choice h)

  update_title_open :
      (text_eq m.title_src src_auto ≡ true) ⊎ (has_title m ≡ false)
      → update_title t m labels
        ≡ (finish_title t first_step.0 first_step.1 first_step.2, first_step.2, none)
  unfolding update_title
  update_title_open h = ground arith

  update_title_closed :
      text_eq m.title_src src_auto ≡ false
      → has_title m ≡ true
      → update_title t m labels ≡ (m, labels, some was_modified)
  unfolding update_title
  update_title_closed h k = ground arith

  open_cases :
      ((text_eq m.title_src src_auto ≡ true) ⊎ (has_title m ≡ false))
      ⊎ ((text_eq m.title_src src_auto ≡ false) × (has_title m ≡ true))
  open_cases = ground arith

  -- `UpdateTitle` refuses a photo with a title that is not automatic, and leaves it as it is, labels
  -- included. Otherwise it reports no error and the photo has a title afterwards, except where the
  -- first label's name is blank. A title of at most 160 runes is not replaced by a longer one.
  pub update_title_lem :
      (text_eq m.title_src src_auto ≡ false
        → has_title m ≡ true
        → update_title t m labels ≡ (m, labels, some was_modified))
      × ((text_eq m.title_src src_auto ≡ true) ⊎ (has_title m ≡ false)
          → ((update_title t m labels).2 ≡ none)
            × ((has_title (update_title t m labels).0 ≡ true)
                ⊎ BlankFirst t (update_title t m labels).1))
      × (HasShortTitle m → HasShortTitle (update_title t m labels).0)
  unfolding IsOpen
  update_title_lem = (
    update_title_closed,
    λ h.
        rw (update_title_open h)
          (refl, finish_title_has t first_step.1 first_step.2 first_step.0 (first_step-IsOpen h)),
    λ h. elim open_cases [
      | inl o ↦ rw (update_title_open o) (
          finish_title-HasShortTitle t first_step.1 first_step.2 first_step.0
            (first_step-HasShortTitle h))
      | inr (o, k) ↦ rw (update_title_closed o k) h
    ],
  )
