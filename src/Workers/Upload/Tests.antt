-- ===== src/Workers/Upload/Tests.antt =====
-- An upload of one file, and the theorem at it.
use photoprism.Prelude.{true, false, [], ◌∷◌, codes, none}
use photoprism.Clock.{zero_time}
use photoprism.Workers.Examples.{cloud}
use photoprism.Workers.Upload.{LocalFile, Transfer, upload}
use photoprism.Workers.Upload.Written.{Written, upload-Written}

abbrev picture : LocalFile
picture = record {
  id = 1;
  file_name = codes "a.jpg";
  file_size = 9;
  raw = false;
  missing = false;
  deleted = false;
}

abbrev fine : LocalFile → Transfer
fine f = record {
  canceled_before = false;
  dir_created = true;
  sent = true;
  canceled_after = false;
  saved = true;
  now = zero_time;
}

upload-Written_example :
    Written (λ n. n) cloud fine [] (upload (λ n. n) cloud none fine (picture ∷ []) []).0
upload-Written_example = (upload-Written (λ n. n) cloud fine none (picture ∷ []) []).0
