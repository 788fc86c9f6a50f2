-- ===== src/Entity/Photo/Title.antt =====
-- `UpdateTitle` of internal/entity/photo.go: the title that labels, place and date suggest.
use photoprism.Prelude.{
  Bool, true, false, not, ◌||◌, ◌&&◌, List, [], ◌∷◌, ◌++◌, Text, codes, text_eq, ltb, if◌then◌else◌,
  Option, none, some,
}
use photoprism.Prelude.Int.{pos, negsuc, leb_ℤ}
use photoprism.Clock.{is_zero, format_year}
use photoprism.Classify.{Label}
use photoprism.Classify
use photoprism.Txt.Unicode.{byte_length}
use photoprism.Txt.Title.{title_case}
use photoprism.Entity.Source.{src_auto, title_unknown}
use photoprism.Entity.Place.{Place, Location, contains, no_city, long_city, city_contains}
use photoprism.Entity.Tables.{Tables}
use photoprism.Entity.Photo.{Photo, has_title, loaded_location, loaded_place}
use photoprism.Entity.Photo.Setters.{set_title}

-- The error of `UpdateTitle`: the title was modified.
pub data TitleError : Type 0 where
  was_modified : TitleError

-- `a / b` and `a / b / c`.
abbrev pub join_two : Text → Text → Text
join_two a b = a ++ (codes " / " ++ b)

abbrev pub join_three : Text → Text → Text → Text
join_three a b c = join_two a (join_two b c)

-- A label gives the title: with the country where the city is missing, long or named already.
unfoldable pub label_title : Tables → Photo → Place → Text → Text
label_title t m place title =
    if no_city place || long_city place || city_contains place title
    then join_three (title_case t.unicode title) (t.country_name place.loc_country)
        (format_year m.taken_at)
    else join_three (title_case t.unicode title) place.loc_city (format_year m.taken_at)

-- The city and the country give the title.
unfoldable pub city_title : Tables → Photo → Place → Text
city_title t m place =
    if ltb 20 (byte_length place.loc_city)
    then join_two place.loc_city (format_year m.taken_at)
    else join_three place.loc_city (t.country_name place.loc_country) (format_year m.taken_at)

-- The name of a location gives the title.
unfoldable pub name_title : Tables → Photo → Location → Place → Text
name_title t m loc place =
    if ltb 45 (byte_length loc.loc_name)
    then title_case t.unicode loc.loc_name
    else if ltb 20 (byte_length loc.loc_name)
        || ltb 16 (byte_length place.loc_city)
        || contains loc.loc_name place.loc_city
    then join_two loc.loc_name (format_year m.taken_at)
    else join_three loc.loc_name place.loc_city (format_year m.taken_at)

-- Where a city and a country are known.
abbrev pub has_city_country : Tables → Place → Bool
has_city_country t place =
    not (text_eq place.loc_city []) && not (text_eq (t.country_name place.loc_country) [])

-- Every call of `SetTitle` in `UpdateTitle` has the source "auto"; in some branches there is none.
abbrev pub set_choice : Photo → Option Text → Photo
set_choice m none = m
set_choice m (some title) = set_title m title src_auto

-- The branch with a loaded location, with the title that the labels suggest.
unfoldable pub location_choice : Tables → Photo → Location → Place → Text → Option Text
location_choice t m loc place title =
    if not (text_eq title [])
    then some (label_title t m place title)
    else if not (text_eq loc.loc_name []) && not (text_eq place.loc_city [])
    then some (name_title t m loc place)
    else if has_city_country t place
    then some (city_title t m place)
    else none

-- The branch with a loaded place.
unfoldable pub place_choice : Tables → Photo → Place → Text → Option Text
place_choice t m place title =
    if not (text_eq title [])
    then some (label_title t m place title)
    else if has_city_country t place
    then some (city_title t m place)
    else none

-- The title with no label that would do: the year too where the time is no guess.
unfoldable pub date_title : Photo → Text
date_title m =
    if not (is_zero m.taken_at_local) && not (text_eq m.taken_src src_auto)
    then join_two title_unknown (format_year m.taken_at_local)
    else title_unknown

-- The title of a photo with no known place: its first label and, where the time is no guess, the year.
unfoldable pub plain_title : Tables → Photo → List Label → Text
plain_title t m [] = date_title m
plain_title t m (label ∷ labels) =
    if leb_ℤ (negsuc 0) label.priority
      && leb_ℤ label.uncertainty (pos 85)
      && not (text_eq label.name [])
    then (if not (text_eq m.taken_src src_auto)
        then join_two (title_case t.unicode label.name) (format_year m.taken_at)
        else title_case t.unicode label.name)
    else date_title m

-- The last step: with no known place, or still without a title.
abbrev pub finish_title : Tables → Bool → Photo → List Label → Photo
finish_title t known m labels =
    if not known || not (has_title m) then set_title m (plain_title t m labels) src_auto else m

-- Whether the place is known, the photo and the labels after the first step, which may sort them.
unfoldable pub place_title : Tables → Photo → List Label → Bool × Photo × List Label
unfolding location_choice place_choice
place_title t m labels = elim (loaded_location m) [
  | some (loc, place) ↦
      let (title, sorted) = Classify.title t.sort_labels labels loc.loc_name in
      (true, set_choice m (location_choice t m loc place title), sorted)
  | none ↦ elim (loaded_place m) [
    | some place ↦
        let (title, sorted) = Classify.title t.sort_labels labels [] in
        (true, set_choice m (place_choice t m place title), sorted)
    | none ↦ (false, m, labels)
  ]
]

-- The photo, the labels (sorted in place by `Labels.Title`) and the error, if any.
unfoldable pub update_title : Tables → Photo → List Label → Photo × List Label × Option TitleError
update_title t m labels =
    if not (text_eq m.title_src src_auto) && has_title m
    then (m, labels, some was_modified)
    else let (known, n, sorted) = place_title t m labels in
      (finish_title t known n sorted, sorted, none)
