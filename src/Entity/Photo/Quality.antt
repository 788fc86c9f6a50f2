-- ===== src/Entity/Photo/Quality.antt =====
-- internal/entity/photo_quality.go, and `SetFavorite` with the counter that it publishes.
use photoprism.Prelude.{
  ℕ, suc, ◌+◌, ◌≤◌, ◌≡◌, refl, ◌≢◌, Bool, true, false, not, ◌||◌, ◌&&◌, List, [], ◌∷◌, ◌++◌, Text,
  codes, text_eq, text_eq_iff, any, ltb, leb, if◌then◌else◌, arith, none, some,
}
use photoprism.Prelude.Int.{pos}
use photoprism.Clock.{before, new_year}
use photoprism.Txt.Unicode.{Unicode, lower}
use photoprism.Txt.Words.{words}
use photoprism.Entity.Source.{src_auto, type_image}
use photoprism.Entity.Photo.{Photo, has_lat_lng}

-- `QualityBlacklist`.
unfoldable pub blacklisted_word : Text → Bool
blacklisted_word w =
    text_eq w (codes "screenshot") || text_eq w (codes "screenshots") || text_eq w (codes "info")

unfoldable pub blacklisted : Unicode → Photo → Bool
blacklisted u m =
    if text_eq m.details.keywords []
    then false
    else any (λ w. blacklisted_word (lower u w)) (words u m.details.keywords)

abbrev pub is_edited : Photo → Bool
is_edited m = elim m.edited_at [ none ↦ false | some t ↦ true ]

-- The points for age and resolution.
unfoldable pub age_score : Photo → ℕ
age_score m =
    if before m.taken_at (new_year 2008)
    then 1
    else if before m.taken_at (new_year 2012) && leb 1 m.photo_resolution
    then 1
    else if leb 2 m.photo_resolution
    then 1
    else 0

unfoldable pub quality_score : Unicode → Photo → ℕ
quality_score u m =
    let score =
      (if m.photo_favorite then 3 else 0)
      + (if text_eq m.taken_src src_auto then 0 else 1)
      + (if has_lat_lng m then 1 else 0)
      + age_score m
      + (if blacklisted u m then 0 else 1) in
    if ltb score 3 && (not (text_eq m.photo_type type_image) || is_edited m) then 3 else score

-- What `SetFavorite` publishes on "count.favorites".
pub data Count : Type 0 where
  plus_one minus_one : Count

abbrev is_deleted : Photo → Bool
is_deleted m = elim m.deleted_at [ none ↦ false | some t ↦ true ]

-- `saved` says whether the database accepted the update: the row changes before it is written.
unfoldable pub set_favorite : Unicode → Bool → Photo → Bool → Photo × List Count
set_favorite u saved m favorite =
    let n = record m { photo_favorite = favorite } in
    let n' = record n { photo_quality = pos (quality_score u n) } in
    let changed = if m.photo_favorite then not favorite else favorite in
    if not saved
    then (n', [])
    else if changed && not (is_deleted m)
    then (n', (if favorite then plus_one else minus_one) ∷ [])
    else (n', [])

age_score-le : (m : Photo) → age_score m ≤ 1
unfolding age_score
age_score-le m = ground arith

-- Of the parts of the score only the first looks at the favorite flag.
score_parts :
    (u : Unicode) (m : Photo) (favorite : Bool)
    → let n = record m { photo_favorite = favorite } in
      (has_lat_lng n ≡ has_lat_lng m)
      × (age_score n ≡ age_score m)
      × (blacklisted u n ≡ blacklisted u m)
unfolding has_lat_lng age_score blacklisted
score_parts u m favorite = (refl, refl, refl)

-- The score lies between 0 and 7, a favorite has at least 3, and so has a photo that was edited or is
-- not a plain image; making a photo a favorite never lowers its score.
pub quality_bounds :
    (u : Unicode) (m : Photo)
    → (quality_score u m ≤ 7)
      × (m.photo_favorite ≡ true → 3 ≤ quality_score u m)
      × (is_edited m ≡ true → 3 ≤ quality_score u m)
      × (m.photo_type ≢ type_image → 3 ≤ quality_score u m)
      × (quality_score u m ≤ quality_score u (record m { photo_favorite = true }))
unfolding quality_score
quality_bounds u m = (
  ground (arith, age_score-le m),
  λ h. ground arith,
  λ h. ground arith,
  λ h. ground (arith, text_eq_iff m.photo_type type_image),
  ground (arith, score_parts u m true),
)

-- The favorites that a photo which is not deleted stands for.
abbrev favorites : Photo → ℕ
favorites m = if m.photo_favorite then 1 else 0

abbrev plus : List Count → ℕ
plus [] = 0
plus (plus_one ∷ cs) = suc (plus cs)
plus (minus_one ∷ cs) = plus cs

abbrev minus : List Count → ℕ
minus [] = 0
minus (plus_one ∷ cs) = minus cs
minus (minus_one ∷ cs) = suc (minus cs)

-- A sequence of calls on one photo, all of which the database accepts.
abbrev pub toggle_all : Unicode → Photo → List Bool → Photo × List Count
toggle_all u m [] = (m, [])
toggle_all u m (f ∷ fs) =
    let (n, cs) = set_favorite u true m f in let (o, ds) = toggle_all u n fs in (o, cs ++ ds)

plus-append : (cs ds : List Count) → plus (cs ++ ds) ≡ plus cs + plus ds
plus-append [] ds = omega arith
plus-append (plus_one ∷ cs) ds = omega (arith, plus-append cs ds)
plus-append (minus_one ∷ cs) ds = plus-append cs ds

minus-append : (cs ds : List Count) → minus (cs ++ ds) ≡ minus cs + minus ds
minus-append [] ds = omega arith
minus-append (plus_one ∷ cs) ds = minus-append cs ds
minus-append (minus_one ∷ cs) ds = omega (arith, minus-append cs ds)

set_favorite-counts :
    (u : Unicode) (m : Photo) (f : Bool)
    → is_deleted m ≡ false
    → (is_deleted (set_favorite u true m f).0 ≡ false)
      × (favorites m + plus (set_favorite u true m f).1
          ≡ favorites (set_favorite u true m f).0 + minus (set_favorite u true m f).1)
unfolding set_favorite
set_favorite-counts u m f h = ground arith

-- The counter that clients keep is exact: over any sequence of calls of `SetFavorite` on a photo that
-- is not deleted, all accepted by the database, the published steps up less the steps down are the
-- change of the photo's favorite flag.
pub favorites_counted :
    (u : Unicode) (m : Photo) (fs : List Bool)
    → is_deleted m ≡ false
    → favorites m + plus (toggle_all u m fs).1
      ≡ favorites (toggle_all u m fs).0 + minus (toggle_all u m fs).1
favorites_counted u m [] h = refl
favorites_counted u m (f ∷ fs) h =
    let n = (set_favorite u true m f).0 in
    let (still, step) = set_favorite-counts u m f h in
    omega (
      arith,
      step,
      favorites_counted u n fs still,
      plus-append (set_favorite u true m f).1 (toggle_all u n fs).1,
      minus-append (set_favorite u true m f).1 (toggle_all u n fs).1,
    )
