-- ===== src/Entity/Photo/Dates.antt =====
-- internal/entity/photo.go: the year and the month that a photo is listed under.
use photoprism.Prelude.{◌≡◌, ◌≢◌, false, Text, text_eq_iff, arith, inl, inr, Bool-cases}
use photoprism.Prelude.Int.{pos, negsuc}
use photoprism.Clock.{Time, year, month, to_utc, round_second}
use photoprism.Entity.Source.{src_auto}
use photoprism.Entity.Photo.{Photo}
use photoprism.Entity.Photo.Setters.{yields, no_time, with_taken, update_year_month, set_taken_at}

-- A photo that is dated: the listed year and month are those of the local time, or both -1 where the
-- time is only a guess.
pub record IsDated (m : Photo) : Type 0 where
  pub utc : no_time m.taken_at ≡ false
  pub guessed : m.taken_src ≡ src_auto → (m.photo_year ≡ negsuc 0) × (m.photo_month ≡ negsuc 0)
  pub known :
      m.taken_src ≢ src_auto
      → (m.photo_year ≡ pos (year m.taken_at_local))
        × (m.photo_month ≡ pos (month m.taken_at_local))
  pub local : no_time m.taken_at_local ≡ false

-- `UpdateYearMonth` dates every photo whose time is set, in the year 1000 or later.
pub update_year_month-IsDated :
    (m : Photo) → no_time m.taken_at ≡ false → IsDated (update_year_month m)
unfolding update_year_month
update_year_month-IsDated m h = record {
  utc = ground arith;
  guessed = λ e. ground (arith, text_eq_iff m.taken_src src_auto);
  known = λ e. ground (arith, text_eq_iff m.taken_src src_auto);
  local = ground arith;
}

-- `SetTakenAt` keeps a dated photo dated, whether it takes the new time or refuses it. (The condition
-- excludes a time in the year 1000 of its zone that UTC still counts to the year 999.)
pub set_taken_at-IsDated :
    (m : Photo) (taken local : Time) (zone source : Text)
    → (no_time taken ≡ false → no_time (to_utc (round_second taken)) ≡ false)
    → IsDated m
    → IsDated (set_taken_at m taken local zone source)
unfolding set_taken_at
set_taken_at-IsDated m taken local zone source fits v = elim (Bool-cases (no_time taken)) [
  | inl none ↦ rw (none, set_taken_at) v
  | inr real ↦ elim (Bool-cases (yields m.taken_src source)) [
    | inl ok ↦
        rw (real, ok, set_taken_at)
          (update_year_month-IsDated (with_taken m taken local zone source) (fits real))
    | inr refused ↦ rw (real, refused, set_taken_at) v
  ]
]
