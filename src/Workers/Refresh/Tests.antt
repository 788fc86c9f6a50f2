-- ===== src/Workers/Refresh/Tests.antt =====
-- A refresh of two remote files, and the theorem at it.
use photoprism.Prelude.{◌≡◌, refl, true, false, List, [], ◌∷◌, codes, some, text_eq}
use photoprism.Clock.{zero_time}
use photoprism.Txt.Unicode.{ascii}
use photoprism.Workers.Examples.{cloud}
use photoprism.Workers.SyncTable.{FileSync, downloaded, find_row}
use photoprism.Workers.Refresh.{RemoteFile, Directory, listed, walked, refresh_account}
use photoprism.Workers.Refresh.Rows.{Renewed}
use photoprism.Workers.Refresh.Kept.{refresh_account-Keeps}

abbrev picture : RemoteFile
picture = record {
  abs = codes "/a.jpg";
  name = codes "a.jpg";
  date = record { nanos = 7; wall = 7 };
  size = 10;
}

abbrev film : RemoteFile
film = record picture { abs = codes "/b.txt"; name = codes "b.txt" }

abbrev old_row : FileSync
old_row = record {
  remote_name = codes "/a.jpg";
  account_id = 1;
  file_id = 5;
  remote_date = zero_time;
  remote_size = 10;
  status = downloaded;
  error = [];
  errors = 0;
}

abbrev tree : List Directory
tree =
    record {
      canceled = false;
      listing = listed (
          record { file = picture; canceled = false; accepted = true }
          ∷ record { file = film; canceled = false; accepted = true }
          ∷ []);
    }
    ∷ []

refresh_account-Keeps_example :
    (g : FileSync) × (find_row 1
        (codes "/a.jpg")
        (refresh_account ascii cloud (walked tree) (old_row ∷ [])).0
      ≡ some g)
    × Renewed old_row g
unfolding find_row text_eq
refresh_account-Keeps_example =
    refresh_account-Keeps ascii cloud (walked tree) (old_row ∷ []) 1 (codes "/a.jpg") old_row refl
