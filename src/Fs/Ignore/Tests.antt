-- ===== src/Fs/Ignore/Tests.antt =====
-- Patterns and an ignore file, and the theorems at them.
use photoprism.Prelude.{◌≡◌, refl, true, [], ◌∷◌, ◌++◌, codes, text_eq, some}
use photoprism.Fs.Ignore.{
  Disk, IgnoreItem, IgnoreList, new_ignore_list, has_prefix, has_suffix, item_ignore, items_of,
  append_items, load_config, load_dir, ignore,
}
use photoprism.Fs.Ignore.Stays.{appending, entering, call_all, ignore-call_all}

-- Every file lies in "photos".
abbrev disk : Disk
disk = record {
  dir = λ n. codes "photos";
  base = λ n. n;
  join = λ a b. a ++ codes "/" ++ b;
  to_lower = λ s. s;
  file_exists = λ n. true;
  read_lines = λ n. some (codes "# no screenshots" ∷ codes "*.png" ∷ []);
}

abbrev item : IgnoreItem
item = record { dir = codes "photos/"; pattern = codes "IMG*" }

-- The last byte before the star does not count.
end_star_test : item_ignore item (codes "photos") (codes "IMAGE") ≡ true
unfolding item_ignore has_prefix has_suffix text_eq
end_star_test = refl

abbrev loaded : IgnoreList
loaded = (load_dir disk (new_ignore_list (codes ".ppignore") true true) (codes "photos")).0

loaded_test : (ignore disk loaded (codes "a.png")).1 ≡ true
unfolding ignore load_dir load_config append_items items_of item_ignore has_prefix has_suffix
    text_eq
loaded_test = refl

ignore-call_all_example :
    (ignore disk
      (call_all disk loaded
        (appending (codes "photos") (codes "b*" ∷ []) ∷ entering (codes "photos") ∷ []))
      (codes "a.png")).1
    ≡ true
ignore-call_all_example =
    ignore-call_all disk loaded (codes "a.png")
      (appending (codes "photos") (codes "b*" ∷ []) ∷ entering (codes "photos") ∷ []) loaded_test
