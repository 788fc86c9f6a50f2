-- ===== src/Library/Purge/Photos/Tests.antt =====
-- A photo with a file, beside one that has lost its file, and the theorem at them.
use photoprism.Prelude.{◌≡◌, refl, true, false, [], ◌∷◌, In, here, later, codes, some, arith}
use photoprism.Clock.{new_year}
use photoprism.Entity.Photo.{Photo}
use photoprism.Entity.Photo.Examples.{blank}
use photoprism.Library.Index.Records.{File}
use photoprism.Library.Index.Lookup.{no_file}
use photoprism.Library.Purge.{finished}
use photoprism.Library.Purge.Photos.{
  PhotoTables, PhotoSetting, is_missing, photos_missing, purge_photos, purge_photo_page,
  purge_photo, delete_photo, delete_permanently,
}
use photoprism.Library.Purge.Photos.Rows.{SameFlags}
use photoprism.Library.Purge.Photos.Alive.{EndsSparing, purge_photos-EndsSparing}

abbrev lost : Photo
lost = record blank { id = 2; photo_uid = codes "pt9jtdre2lvl0yh9" }

abbrev lost_file : File
lost_file = record no_file { id = 2; photo_id = 2; file_missing = true }

abbrev file : File
file = record no_file { id = 1; photo_id = 1 }

abbrev tables : PhotoTables
tables = record {
  photos = blank ∷ lost ∷ [];
  files = file ∷ lost_file ∷ [];
  photo_keywords = (2, 7) ∷ [];
  photo_labels = [];
  photo_albums = [];
}

abbrev setting : PhotoSetting
setting = record {
  dry = false;
  hard = true;
  now = new_year 2020;
  refused = λ p. false;
  canceled = λ p. false;
  canceled_after = λ n. false;
  query_failed = λ n. false;
}

run_test :
    purge_photos 3 setting 0 tables []
    ≡ some (
      record tables { photos = blank ∷ []; files = file ∷ []; photo_keywords = [] },
      lost.photo_uid ∷ [],
      finished,
    )
unfolding purge_photos photos_missing is_missing purge_photo_page purge_photo delete_photo
    delete_permanently photoprism.Prelude.text_eq
run_test = refl

tables-SameFlags : SameFlags tables.files
tables-SameFlags f g here here e = refl
tables-SameFlags f g here (later here) e = absurd (ground (arith, e))
tables-SameFlags f g (later here) here e = absurd (ground (arith, e))
tables-SameFlags f g (later here) (later here) e = refl
tables-SameFlags f g (later (later i)) j e = elim i [ ]
tables-SameFlags f g i (later (later j)) e = elim j [ ]

purge_photos-EndsSparing_example : EndsSparing setting tables (purge_photos 3 setting 0 tables [])
purge_photos-EndsSparing_example =
    purge_photos-EndsSparing setting 2 0 tables [] (omega arith) tables-SameFlags
