-- ===== src/Library/Import/Tests.antt =====
-- Two files of one content and a third one with a name that is taken, and the theorems at them.
use photoprism.Prelude.{
  ℕ, zero, suc, ◌≡◌, refl, ap, arith, true, false, List, [], ◌∷◌, Text, codes, text_eq, Option,
  none, some, length,
}
use photoprism.Txt.Unicode.{ascii}
use photoprism.Fs.FileType.{extension, get_media_type, get_file_type, media_type_of, file_ext}
use photoprism.Library.Import.{
  Disk, read, delete, copied, System, hash_of, ImportError, Target, ImportOptions, candidate,
  free_name, is_sidecar, indexed_name, destination_filename, copy_file, remove_file, move_file,
  import_file, import_files, remove_hidden, start_import,
}
use photoprism.Library.Walk.{WalkState}
use photoprism.Fs.Ignore.{new_ignore_list}
use photoprism.Library.Import.Fresh.{
  PadsApart, IsTrue, Destination, destination_filename-Destination,
}
use photoprism.Library.Import.Safe.{start_import-Keeps}

ones : ℕ → Text
ones zero = []
ones (suc n) = b'1' ∷ ones n

abbrev system : System
system = record {
  unicode = ascii;
  hash = λ c. c ∷ [];
  renames = λ d f n. true;
  copies = λ d f n. copied;
  removes = λ d f. true;
  first_file_by_hash = λ h. none;
  pad = ones;
}

system-PadsApart : PadsApart system
unfolding ones
system-PadsApart zero zero h = refl
system-PadsApart zero (suc j) h = absurd cc
system-PadsApart (suc i) zero h = absurd cc
system-PadsApart (suc i) (suc j) h =
    let rest : ones i ≡ ones j = ground (arith, h) in ap suc (system-PadsApart i j rest)

abbrev target : Target
target = record {
  originals = codes "/o";
  folder = codes "/o/2019/06";
  canonical = codes "20190601_A";
}

abbrev disk : Disk
disk =
    (codes "/i/a.jpg", 1)
    ∷ (codes "/i/b.jpg", 1)
    ∷ (codes "/i/c.jpg", 2)
    ∷ (codes "/i/.d", 4)
    ∷ (codes "/o/x.jpg", 3)
    ∷ []

abbrev files : List Text
files = codes "/i/a.jpg" ∷ codes "/i/b.jpg" ∷ codes "/i/c.jpg" ∷ []

-- A walk that met the three files in two jobs, and a hidden file.
abbrev walked : WalkState
walked = record {
  seen = record {
    done = files;
    ignore_list = record (new_ignore_list (codes ".ppignore") true false) {
      hidden_files = codes "/i/.d" ∷ [];
    };
  };
  directories = [];
  jobs =
      record { file_name = codes "/i/a.jpg"; related = codes "/i/a.jpg" ∷ codes "/i/b.jpg" ∷ [] }
      ∷ record { file_name = codes "/i/c.jpg"; related = codes "/i/c.jpg" ∷ [] }
      ∷ [];
}

-- Two workers whose files are mixed.
abbrev steps : List (Target × Text)
steps = (target, codes "/i/a.jpg") ∷ (target, codes "/i/c.jpg") ∷ (target, codes "/i/b.jpg") ∷ []

abbrev moving : ImportOptions
moving = record { move = true; remove_dot_files = true; remove_existing_files = true }

bundle : Unit {0}
unfolding read delete candidate free_name is_sidecar indexed_name destination_filename copy_file
    remove_file move_file import_file import_files remove_hidden start_import text_eq extension
    get_media_type get_file_type media_type_of file_ext ones
bundle = tt

start_import_test :
    start_import system moving walked steps disk
    ≡ (codes "/o/2019/06/20190601_A.1.jpg", 2)
      ∷ (codes "/o/2019/06/20190601_A.jpg", 1)
      ∷ (codes "/o/x.jpg", 3)
      ∷ []
unfolding bundle
start_import_test = refl

start_import-Keeps_example :
    read (codes "/o/x.jpg") (start_import system moving walked steps disk) ≡ some 3
unfolding bundle
start_import-Keeps_example =
    start_import-Keeps system moving walked steps disk (codes "/o/x.jpg") 3
      (refl, (refl, (refl, tt))) refl refl refl

system-IsTrue : IsTrue system target disk
system-IsTrue h n e there = absurd cc

destination_filename-Destination_example :
    (r : Text × Option ImportError) × (destination_filename system target disk
        (codes "/i/a.jpg")
        (suc (length disk))
      ≡ some r)
    × Destination system disk (hash_of system disk (codes "/i/a.jpg")) r
destination_filename-Destination_example =
    destination_filename-Destination system target disk (codes "/i/a.jpg") system-PadsApart
      system-IsTrue
