-- ===== src/Workers/Download/Tests.antt =====
-- One round of the download, and the theorem at a file that failed too often.
use photoprism.Prelude.{
  ◌≡◌, refl, ◌≢◌, true, false, List, [], ◌∷◌, codes, none, some, Text, text_eq, Option, arith,
}
use photoprism.Clock.{zero_time}
use photoprism.Sorting.Insertion.{insert, insertion_sort}
use photoprism.Txt.Order.{text_lt}
use photoprism.Workers.Examples.{cloud}
use photoprism.Workers.Sync.{complete}
use photoprism.Workers.SyncTable.{FileSync, new, find_row, update_row, has_key}
use photoprism.Workers.Download.{
  Answer, file_syncs, add_to_group, group_all, related_downloads, fetched, download_file,
  download_files, fresh, jobs_of, download_groups, download,
}
use photoprism.Workers.Download.Stuck.{IsStuck, download-IsStuck}

abbrev bad_row : FileSync
bad_row = record {
  remote_name = codes "/a.jpg";
  account_id = 1;
  file_id = 0;
  remote_date = zero_time;
  remote_size = 10;
  status = new;
  error = codes "404";
  errors = 2;
}

abbrev good_row : FileSync
good_row = record bad_row { remote_name = codes "/b.jpg"; errors = 0 }

abbrev fine : FileSync → Answer
fine f = record {
  canceled_before = false;
  exists_local = false;
  error = none;
  canceled_after = false;
  saved = true;
}

abbrev media : Text → Option (Text × List Text)
media n = some (n, n ∷ n ∷ [])

-- The second file is fetched and handed on once.
round_test :
    (download (λ n. n) cloud none fine media (bad_row ∷ good_row ∷ [])).1
    ≡ record { file_name = codes "/b.jpg"; related = codes "/b.jpg" ∷ [] } ∷ []
unfolding download related_downloads file_syncs group_all add_to_group insertion_sort insert text_lt
    text_eq download_groups download_files download_file fetched jobs_of fresh update_row has_key
round_test = refl

bad_row-IsStuck : IsStuck cloud 1 (codes "/a.jpg") bad_row (bad_row ∷ good_row ∷ [])
unfolding find_row has_key text_eq
bad_row-IsStuck = record {
  present = refl;
  gave_up = ((λ h. (refl, refl)), ((λ h. ground arith), tt));
}

download-IsStuck_example :
    IsStuck cloud 1
      (codes "/a.jpg")
      bad_row
      (download (λ n. n) cloud none fine media (bad_row ∷ good_row ∷ [])).0
    × ((download (λ n. n) cloud none fine media (bad_row ∷ good_row ∷ [])).2 ≢ complete)
download-IsStuck_example =
    download-IsStuck (λ n. n) cloud none fine media (codes "/a.jpg") bad_row
      (bad_row ∷ good_row ∷ []) bad_row-IsStuck
