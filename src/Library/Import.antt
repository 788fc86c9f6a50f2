-- ===== src/Library/Import.antt =====
-- internal/photoprism/import.go, import_worker.go and mediafile.go: files that are moved or copied to the originals.
pub mod Fresh
pub mod Safe
mod Tests
use photoprism.Prelude.{
  ℕ, zero, suc, ◌+◌, ◌≡◌, Bool, true, false, not, ◌||◌, ◌&&◌, List, [], ◌∷◌, ◌++◌, keep, is_nil,
  Text, codes, text_eq, ◌==◌, if◌then◌else◌, Option, none, some, length,
}
use photoprism.Txt.Unicode.{Unicode, lower}
use photoprism.Library.Walk.{WalkState}
use photoprism.Fs.FileType.{MediaType, media_sidecar, extension, get_media_type}

-- The files on the disk with their contents, which are numbered.
abbrev pub Disk : Type 0
Disk = List (Text × ℕ)

unfoldable pub read : Text → Disk → Option ℕ
read n [] = none
read n ((m, c) ∷ d) = if text_eq m n then some c else read n d

-- `FileExists`.
abbrev pub file_exists : Text → Disk → Bool
file_exists n d = elim (read n d) [ none ↦ false | some c ↦ true ]

unfoldable pub delete : Text → Disk → Disk
delete n [] = []
delete n ((m, c) ∷ d) = let rest = delete n d in if text_eq m n then rest else (m, c) ∷ rest

abbrev pub write : Text → ℕ → Disk → Disk
write n c d = (n, c) ∷ delete n d

-- What copying comes to: no file is opened, some other content is left behind, or the content is there.
pub data CopyOutcome : Type 0 where
  not_opened : CopyOutcome
  broken : ℕ → CopyOutcome
  copied : CopyOutcome

-- What imports take from outside: SHA1, the answers of the operating system, the row of the index with a hash, and
-- `fmt.Sprintf("%05d")`.
pub record System : Type 0 where
  pub unicode : Unicode
  pub hash : ℕ → Text
  pub renames : Disk → Text → Text → Bool
  pub copies : Disk → Text → Text → CopyOutcome
  pub removes : Disk → Text → Bool
  pub first_file_by_hash : Text → Option Text
  pub pad : ℕ → Text

-- `fs.Hash`.
abbrev pub hash_of : System → Disk → Text → Text
hash_of y d n = elim (read n d) [ none ↦ [] | some c ↦ y.hash c ]

pub data ImportError : Type 0 where
  identical already_exists : ImportError

-- The path of the originals, and of the main file the canonical name and the folder of its date.
pub record Target : Type 0 where
  pub originals : Text
  pub folder : Text
  pub canonical : Text

-- `filepath.Join` of a clean path and a name.
abbrev pub join_path : Text → Text → Text
join_path p n = p ++ b'/' ∷ n

-- `result` at an iteration.
unfoldable pub candidate : System → Target → Text → ℕ → Text
candidate y g ext zero = join_path g.folder (g.canonical ++ ext)
candidate y g ext (suc i) = join_path g.folder (g.canonical ++ b'.' ∷ (y.pad (suc i) ++ ext))

-- The loop: the name that it ends with and the error, unless it runs out of fuel.
unfoldable pub free_name :
    System → Target → Disk → Text → Text → ℕ → ℕ → Option (Text × Option ImportError)
unfolding candidate
free_name y g d ext hash i zero = none
free_name y g d ext hash i (suc fuel) =
    let rest = free_name y g d ext hash (suc i) fuel in
    let result = candidate y g ext i in
    if file_exists result d
    then (if text_eq hash (hash_of y d result) then some (result, some already_exists) else rest)
    else some (result, none)

-- The extension of a media file, and whether it is a sidecar.
abbrev pub file_extension : System → Text → Text
file_extension y f = lower y.unicode (extension f)

abbrev is_media_sidecar : MediaType → Bool
is_media_sidecar media_sidecar = true
is_media_sidecar _ = false

unfoldable pub is_sidecar : System → Text → Bool
is_sidecar y f = is_media_sidecar (get_media_type y.unicode f)

-- The file of the index with the hash, for what is no sidecar.
unfoldable pub indexed_name : System → Target → Disk → Text → Option Text
unfolding is_sidecar
indexed_name y g d f =
    if is_sidecar y f then none else (elim (y.first_file_by_hash (hash_of y d f)) [
      | none ↦ none
      | some n ↦ some (join_path g.originals n)
    ])

-- `DestinationFilename`.
unfoldable pub destination_filename :
    System → Target → Disk → Text → ℕ → Option (Text × Option ImportError)
unfolding indexed_name free_name
destination_filename y g d f fuel = elim (indexed_name y g d f) [
  | some existing ↦ some (existing, (if file_exists existing d then some identical else none))
  | none ↦ free_name y g d (file_extension y f) (hash_of y d f) 0 fuel
]

-- `MediaFile.Copy`.
unfoldable pub copy_file : System → Disk → Text → Text → Disk × Bool
copy_file y d f dest = elim (read f d) [
  | none ↦ (d, false)
  | some c ↦ elim (y.copies d f dest) [
    | not_opened ↦ (d, false)
    | broken part ↦ (write dest part d, false)
    | copied ↦ (write dest c d, true)
  ]
]

unfoldable pub remove_file : System → Disk → Text → Disk × Bool
remove_file y d f = if y.removes d f then (delete f d, true) else (d, false)

-- `MediaFile.Move`: a file that cannot be renamed is copied and removed.
unfoldable pub move_file : System → Disk → Text → Text → Disk × Bool
unfolding copy_file remove_file
move_file y d f dest = elim (read f d) [
  | none ↦ (d, false)
  | some c ↦
      if y.renames d f dest
      then (write dest c (delete f d), true)
      else (let (e, ok) = copy_file y d f dest in if ok then remove_file y e f else (e, false))
]

pub record ImportOptions : Type 0 where
  pub move : Bool
  pub remove_dot_files : Bool
  pub remove_existing_files : Bool

-- The body of the loop of `ImportWorker` over the related files: the disk, and whether the destination of the main
-- file was set; the loop ends early only without fuel.
unfoldable pub import_file : System → ImportOptions → Target → Disk → Text → Disk
unfolding destination_filename move_file copy_file remove_file
import_file y o g d f = elim (destination_filename y g d f (suc (length d))) [
  | none ↦ d
  | some (dest, error) ↦ elim error [
    | none ↦ if o.move then (move_file y d f dest).0 else (copy_file y d f dest).0
    | some e ↦ if o.remove_existing_files then (remove_file y d f).0 else d
  ]
]

-- The workers over the files of their jobs, with the target of each job: in the order in which the files are come to,
-- which mixes the jobs when there are several workers.
unfoldable pub import_files : System → ImportOptions → Disk → List (Target × Text) → Disk
unfolding import_file
import_files y o d [] = d
import_files y o d ((g, f) ∷ steps) = import_files y o (import_file y o g d f) steps

-- The loop over `Hidden`.
unfoldable pub remove_hidden : System → Disk → List Text → Disk
unfolding remove_file
remove_hidden y d [] = d
remove_hidden y d (f ∷ fs) =
    let rest = remove_hidden y d fs in
    let after = remove_hidden y (remove_file y d f).0 fs in
    if not (file_exists f d) then rest else after

-- `Import.Start` once its walk has come to an end: the workers, and then the hidden files that the walk met. Only empty
-- directories are removed besides, which hold no files.
unfoldable pub start_import :
    System → ImportOptions → WalkState → List (Target × Text) → Disk → Disk
unfolding import_files remove_hidden
start_import y o w steps d =
    let imported = import_files y o d steps in
    if o.remove_dot_files
    then remove_hidden y imported w.seen.ignore_list.hidden_files
    else imported
