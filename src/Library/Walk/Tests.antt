-- ===== src/Library/Walk/Tests.antt =====
-- A walk over two pictures that belong together, and the theorem at it.
use photoprism.Prelude.{
  ◌≡◌, ◌≤◌, refl, true, false, List, [], ◌∷◌, Text, codes, text_eq, none, some,
}
use photoprism.Fs.Ignore
use photoprism.Fs.Ignore.{new_ignore_list, ignore, item_ignore, load_config}
use photoprism.Library.Walk.{
  is_done, Links, Seen, follow, skip_walk, new_files, Visit, visit_entry, walk,
}
use photoprism.Library.Walk.Once.{job_times, at_start, walk-Once}

abbrev disk : Ignore.Disk
disk = record {
  read_lines = λ n. none;
  file_exists = λ n. false;
  to_lower = λ t. t;
  join = λ a b. b;
  base = λ n. n;
  dir = λ n. codes "/i";
}

abbrev links : Links
links = record { leads_to_dir = λ n. false; resolved = λ n. none }

abbrev seen : Seen
seen = record { done = []; ignore_list = new_ignore_list (codes ".ppignore") true false }

abbrev file : Text → List Text → Visit
file name related = record {
  entry = record { name = name; is_dir = false; is_symlink = false };
  canceled = false;
  media = some related;
}

abbrev visits : List Visit
visits =
    file (codes "a.jpg") (codes "a.jpg" ∷ codes "a.raw" ∷ [])
    ∷ file (codes ".b") (codes ".b" ∷ [])
    ∷ file (codes "a.raw") (codes "a.jpg" ∷ codes "a.raw" ∷ [])
    ∷ []

walk_test :
    (walk disk links (codes "/i") (at_start seen) visits).jobs
    ≡ record { file_name = codes "a.jpg"; related = codes "a.jpg" ∷ codes "a.raw" ∷ [] } ∷ []
unfolding walk visit_entry skip_walk follow new_files ignore item_ignore load_config text_eq
    Ignore.has_prefix
walk_test = refl

walk-Once_example :
    (job_times (codes "a.raw") (walk disk links (codes "/i") (at_start seen) visits).jobs ≤ 1)
    × (is_done (codes "a.raw") (walk disk links (codes "/i") (at_start seen) visits).seen.done
          ≡ false
        → job_times (codes "a.raw") (walk disk links (codes "/i") (at_start seen) visits).jobs ≡ 0)
walk-Once_example = walk-Once disk links (codes "/i") seen visits (codes "a.raw")
