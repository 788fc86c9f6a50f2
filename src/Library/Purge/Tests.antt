-- ===== src/Library/Purge/Tests.antt =====
-- A purge of two files, one of which is gone, and the theorem at it.
use photoprism.Prelude.{◌∷◌, [], ◌≡◌, refl, true, false, List, codes, text_eq, some, arith, All}
use photoprism.Library.Purge.{
  IndexFile, Setting, existing, existing_files, purge_row, purge_file, purge_page, purge_files,
  finished,
}
use photoprism.Library.Purge.Complete.{Seen, purge_files-Seen}
use photoprism.Library.Purge.Marks.{EndsSound, Marked-refl, purge_files-EndsSound}

abbrev gone : IndexFile
gone = record {
  id = 1;
  file_name = codes "a.jpg";
  missing = false;
  primary = true;
  deleted = false;
}

abbrev there : IndexFile
there = record gone { id = 2; file_name = codes "b.jpg" }

abbrev setting : Setting
setting = record {
  full_name = λ n. n;
  in_path = λ n. true;
  ignored = λ n. false;
  on_disk = λ n. text_eq n (codes "b.jpg");
  dry = false;
  refused = λ f. false;
  canceled = λ f. false;
  canceled_after = λ n. false;
  query_failed = λ n. false;
}

abbrev table : List IndexFile
table = gone ∷ there ∷ []

run_test :
    purge_files 2 setting 0 table []
    ≡ some
        (record gone { missing = true; primary = false } ∷ there ∷ [], codes "a.jpg" ∷ [], finished)
unfolding purge_files purge_page purge_file purge_row existing_files existing text_eq
run_test = refl

purge_files-EndsSound_example : EndsSound setting table (purge_files 3 setting 0 table [])
purge_files-EndsSound_example =
    purge_files-EndsSound setting 2 0 table table [] (omega arith) (Marked-refl setting table, tt)

abbrev rehearsal : Setting
rehearsal = record setting { dry = true }

dry_test : purge_files 2 rehearsal 0 table [] ≡ some (table, codes "a.jpg" ∷ [], finished)
unfolding purge_files purge_page purge_file existing_files existing text_eq
dry_test = refl

purge_files-Seen_example :
    (table ≡ table) × All (Seen rehearsal refl (codes "a.jpg" ∷ [])) (existing rehearsal table)
purge_files-Seen_example =
    purge_files-Seen rehearsal refl 2 table table (codes "a.jpg" ∷ []) dry_test
