-- ===== src/Entity/Photo/Setters.antt =====
-- The setters of internal/entity/photo.go, which let a value stand that came from another source.
use photoprism.Prelude.{ℕ, Bool, not, ◌||◌, ◌&&◌, [], Text, text_eq, is_nil, ltb, if◌then◌else◌}
use photoprism.Prelude.Int.{ℤ, pos, negsuc}
use photoprism.Clock.{Time, is_zero, year, month, round_second, to_utc}
use photoprism.Txt.Clip.{clip, clip_default, clip_description}
use photoprism.Entity.Source.{src_auto, src_manual}
use photoprism.Entity.Photo.{Photo, has_title, has_description, float_is_zero}

-- A value of source `old` yields to `new` only if it was automatic, came from the same source, or
-- `new` is manual.
abbrev pub yields : Text → Text → Bool
yields old new = text_eq old src_auto || text_eq old new || text_eq new src_manual

unfoldable pub set_title : Photo → Text → Text → Photo
set_title m title source =
    let new_title = clip title clip_default in
    if text_eq new_title []
    then m
    else if not (yields m.title_src source) && has_title m
    then m
    else record m { photo_title = new_title; title_src = source }

unfoldable pub set_description : Photo → Text → Text → Photo
set_description m desc source =
    let new_desc = clip desc clip_description in
    if text_eq new_desc []
    then m
    else if not (yields m.description_src source) && has_description m
    then m
    else record m { photo_description = new_desc; description_src = source }

-- A time that is not set, or one before the year 1000.
abbrev pub no_time : Time → Bool
no_time t = is_zero t || ltb (year t) 1000

-- The last branch of `UpdateYearMonth`, with the local time in place.
abbrev pub date_fields : Photo → Photo
date_fields m =
    if text_eq m.taken_src src_auto
    then record m { photo_year = negsuc 0; photo_month = negsuc 0 }
    else record m {
      photo_year = pos (year m.taken_at_local);
      photo_month = pos (month m.taken_at_local);
    }

unfoldable pub update_year_month : Photo → Photo
update_year_month m =
    if no_time m.taken_at
    then m
    else date_fields
        (if no_time m.taken_at_local then record m { taken_at_local = m.taken_at } else m)

-- The fields that `SetTakenAt` writes before it updates the year and the month.
abbrev pub with_taken : Photo → Time → Time → Text → Text → Photo
with_taken m taken local zone source =
    let utc = to_utc (round_second taken) in
    record m {
      taken_at = utc;
      taken_src = source;
      taken_at_local = if no_time local then utc else round_second local;
      time_zone = if is_nil zone then m.time_zone else zone;
    }

unfoldable pub set_taken_at : Photo → Time → Time → Text → Text → Photo
unfolding update_year_month
set_taken_at m taken local zone source =
    if no_time taken
    then m
    else if not (yields m.taken_src source)
    then m
    else update_year_month (with_taken m taken local zone source)

unfoldable pub set_coordinates : Photo → ℕ → ℕ → ℤ → Text → Photo
set_coordinates m lat lng altitude source =
    if float_is_zero lat && float_is_zero lng
    then m
    else if not (yields m.loc_src source)
    then m
    else record m { photo_lat = lat; photo_lng = lng; photo_altitude = altitude; loc_src = source }
