-- ===== src/Entity/Photo/Tests.antt =====
-- Photos in small, and the theorems at them.
use photoprism.Prelude.{
  ℕ, ◌+◌, ◌≤◌, ◌≡◌, refl, ◌≢◌, true, false, List, [], ◌∷◌, codes, text_eq, none, some, ◌⊎◌,
}
use photoprism.Prelude.Int.{pos}
use photoprism.Clock.{
  zero_time, new_year, year, month, civil, month_from, month_lengths, format_year,
}
use photoprism.Classify
use photoprism.Classify.{Label}
use photoprism.Sorting.Insertion.{insertion_sort, insert}
use photoprism.Txt.Unicode.{ascii, byte_length, is_space}
use photoprism.Txt.Clip.{clip, trim_space}
use photoprism.Txt.Title.{title_case}
use photoprism.Txt.Words.{words}
use photoprism.Entity.Source.{src_auto, src_manual, src_meta, src_xmp, type_image}
use photoprism.Entity.Place.{Place, Location, contains}
use photoprism.Entity.Tables.{plain}
use photoprism.Entity.Photo.{Photo, has_title, has_lat_lng, loaded_location, loaded_place}
use photoprism.Entity.Photo.Examples.{blank}
use photoprism.Entity.Photo.Setters.{set_title, set_taken_at, update_year_month}
use photoprism.Entity.Photo.Priority.{Edit, apply_all, KeepsManual, manual_kept}
use photoprism.Entity.Photo.Quality.{
  Count, quality_score, quality_bounds, blacklisted, blacklisted_word, age_score, set_favorite,
  toggle_all, favorites_counted,
}
use photoprism.Entity.Photo.Title.{
  was_modified, update_title, place_title, plain_title, date_title, label_title, name_title,
  city_title, location_choice, place_choice,
}
use photoprism.Entity.Photo.Titled.{update_title_lem, BlankFirst, HasShortTitle}

abbrev named : Photo
named = record blank { photo_title = codes "Sunset"; title_src = src_manual }

abbrev edits : List Edit
edits =
    Edit.title (codes "IMG 1") src_meta
    ∷ Edit.coordinates 7 8 (pos 3) src_xmp
    ∷ Edit.taken_at (new_year 2018) zero_time [] src_meta
    ∷ []

manual_kept_example : KeepsManual named (apply_all named edits)
manual_kept_example = manual_kept named edits (λ e. cc, (λ e. cc, (λ e. cc, tt)))

-- What the tests compute with.
tests : Unit {0}
unfolding text_eq set_title clip trim_space is_space title_case year civil month month_from
    month_lengths format_year set_taken_at update_year_month update_title place_title plain_title
    date_title label_title name_title city_title location_choice place_choice loaded_location
    loaded_place quality_score blacklisted blacklisted_word age_score has_lat_lng words byte_length
    contains Classify.title insertion_sort insert set_favorite
tests = tt

cat : Label
cat = record {
  name = codes "tabby cat";
  source = codes "image";
  uncertainty = pos 20;
  priority = pos 1;
  categories = [];
}

-- With no place, the first label gives the title, with the year where the time is known.
title_tests :
    ((update_title plain blank []).0.photo_title ≡ codes "Unknown")
    × ((update_title plain blank (cat ∷ [])).0.photo_title ≡ codes "Tabby Cat")
    × ((update_title plain (record blank { taken_src = src_meta }) (cat ∷ [])).0.photo_title
        ≡ codes "Tabby Cat / 2019")
    × ((update_title plain named (cat ∷ [])).2 ≡ some was_modified)
unfolding tests cat
title_tests = (refl, refl, refl, refl)

abbrev berlin : Place
berlin = record {
  place_uid = codes "de:1";
  loc_label = codes "Berlin";
  loc_city = codes "Berlin";
  loc_state = [];
  loc_country = codes "de";
  loc_keywords = [];
}

abbrev museum : Location
museum = record {
  loc_uid = codes "47a8";
  place = some berlin;
  place_uid = codes "de:1";
  loc_name = codes "Pergamon";
  loc_category = [];
  loc_source = [];
}

place_tests :
    ((update_title plain (record blank { location = some museum }) []).0.photo_title
      ≡ codes "Pergamon / Berlin / 2019")
    × ((update_title plain (record blank { location = some museum }) (cat ∷ [])).0.photo_title
        ≡ codes "Tabby Cat / Berlin / 2019")
unfolding tests cat
place_tests = (refl, refl)

quality_tests :
    (quality_score ascii blank ≡ 2)
    × (quality_score ascii (record blank { edited_at = some zero_time }) ≡ 3)
    × (quality_score ascii (record blank { photo_favorite = true; taken_src = src_meta }) ≡ 6)
unfolding tests
quality_tests = (refl, refl, refl)

favorite_test :
    (toggle_all ascii blank (true ∷ true ∷ false ∷ [])).1 ≡ Count.plus_one ∷ Count.minus_one ∷ []
unfolding tests
favorite_test = refl

update_title_lem_example :
    (text_eq named.title_src src_auto ≡ false
      → has_title named ≡ true
      → update_title plain named [] ≡ (named, [], some was_modified))
    × ((text_eq named.title_src src_auto ≡ true) ⊎ (has_title named ≡ false)
        → ((update_title plain named []).2 ≡ none)
          × ((has_title (update_title plain named []).0 ≡ true)
              ⊎ BlankFirst plain (update_title plain named []).1))
    × (HasShortTitle named → HasShortTitle (update_title plain named []).0)
update_title_lem_example = update_title_lem plain named []

quality_bounds_example :
    (quality_score ascii blank ≤ 7)
    × (blank.photo_favorite ≡ true → 3 ≤ quality_score ascii blank)
    × (false ≡ true → 3 ≤ quality_score ascii blank)
    × (blank.photo_type ≢ type_image → 3 ≤ quality_score ascii blank)
    × (quality_score ascii blank ≤ quality_score ascii (record blank { photo_favorite = true }))
quality_bounds_example = quality_bounds ascii blank

favorites_counted_example : ◌≡◌ {A = ℕ} (0 + 1) (1 + 0)
unfolding tests
favorites_counted_example = favorites_counted ascii blank (true ∷ []) refl
