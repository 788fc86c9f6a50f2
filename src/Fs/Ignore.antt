-- ===== src/Fs/Ignore.antt =====
-- pkg/fs/ignore.go: the list of name patterns that indexing and importing leave out. Names are lists of
-- bytes here, since the code cuts patterns by bytes.
pub mod Patterns
pub mod Stays
mod Tests
use photoprism.Prelude.{
  ℕ, ◌-◌, ◌≡◌, Bool, true, false, not, ◌&&◌, ◌||◌, List, [], ◌∷◌, ◌++◌, length, take, drop, any,
  Text, codes, text_eq, leb, ◌==◌, if◌then◌else◌, Option, none, some,
}

-- Go's `filepath` and `strings.ToLower`, the disk, and the lines of a file (none where it cannot be read).
pub record Disk : Type 0 where
  pub dir : Text → Text
  pub base : Text → Text
  pub join : Text → Text → Text
  pub to_lower : Text → Text
  pub file_exists : Text → Bool
  pub read_lines : Text → Option (List Text)

pub record IgnoreItem : Type 0 where
  pub dir : Text
  pub pattern : Text

abbrev pub new_ignore_item : Disk → Text → Text → Bool → IgnoreItem
new_ignore_item d dir pattern case_sensitive =
    if case_sensitive
    then record { dir = dir ++ codes "/"; pattern = pattern }
    else record { dir = d.to_lower dir ++ codes "/"; pattern = d.to_lower pattern }

unfoldable pub has_prefix : Text → Text → Bool
has_prefix s [] = true
has_prefix [] (b ∷ t) = false
has_prefix (c ∷ s) (b ∷ t) = c == b && has_prefix s t

unfoldable pub has_suffix : Text → Text → Bool
has_suffix s t = leb (length t) (length s) && text_eq (drop (length s - length t) s) t

-- `IgnoreItem.Ignore`.
unfoldable pub item_ignore : IgnoreItem → Text → Text → Bool
item_ignore i dir base =
    if not (has_prefix (dir ++ codes "/") i.dir)
    then false
    else if has_prefix i.pattern (codes "*")
    then has_suffix base (drop 1 i.pattern)
    else if has_suffix i.pattern (codes "*")
    then has_prefix base (take (length i.pattern - 2) i.pattern)
    else text_eq i.pattern base

-- `Log` is left out. `config_files` has the files that were read, with their lines, the latest last.
pub record IgnoreList : Type 0 where
  pub items : List IgnoreItem
  pub hidden_files : List Text
  pub ignored_files : List Text
  pub config_files : List (Text × List Text)
  pub config_file : Text
  pub ignore_hidden : Bool
  pub case_sensitive : Bool

abbrev pub new_ignore_list : Text → Bool → Bool → IgnoreList
new_ignore_list config_file ignore_hidden case_sensitive = record {
  items = [];
  hidden_files = [];
  ignored_files = [];
  config_files = [];
  config_file = config_file;
  ignore_hidden = ignore_hidden;
  case_sensitive = case_sensitive;
}

pub data IgnoreError : Type 0 where
  empty_directory_name empty_ignore_file_name no_ignore_file not_readable : IgnoreError

-- A pattern that is neither empty nor a comment.
abbrev pub is_pattern : Text → Bool
is_pattern p = not (text_eq p []) && not (has_prefix p (codes "#"))

unfoldable pub items_of : Disk → Bool → Text → List Text → List IgnoreItem
items_of d case_sensitive dir [] = []
items_of d case_sensitive dir (p ∷ ps) =
    if is_pattern p
    then new_ignore_item d dir p case_sensitive ∷ items_of d case_sensitive dir ps
    else items_of d case_sensitive dir ps

unfoldable pub append_items : Disk → IgnoreList → Text → List Text → IgnoreList × Option IgnoreError
append_items d l dir patterns =
    if text_eq dir []
    then (l, some empty_directory_name)
    else (record l { items = l.items ++ items_of d l.case_sensitive dir patterns }, none)

-- `ConfigFile`.
unfoldable pub load_config : Disk → IgnoreList → Text → IgnoreList × Option IgnoreError
load_config d l file_name = elim (d.read_lines file_name) [
  | none ↦ (l, some not_readable)
  | some lines ↦
      append_items d (record l { config_files = l.config_files ++ (file_name, lines) ∷ [] })
        (d.dir file_name) lines
]

-- `Dir`.
unfoldable pub load_dir : Disk → IgnoreList → Text → IgnoreList × Option IgnoreError
load_dir d l dir =
    let file_name = d.join dir l.config_file in
    if text_eq dir []
    then (l, some empty_directory_name)
    else if text_eq l.config_file []
    then (l, some empty_ignore_file_name)
    else if any (λ e. text_eq e.0 file_name) l.config_files
    then (l, none)
    else if not (d.file_exists file_name)
    then (l, some no_ignore_file)
    else load_config d l file_name

-- `IgnoreList.Ignore`.
unfoldable pub ignore : Disk → IgnoreList → Text → IgnoreList × Bool
ignore d l file_name =
    let fold = λ (s : Text). if l.case_sensitive then s else d.to_lower s in
    let dir = fold (d.dir file_name) in
    let base = fold (d.base file_name) in
    if not (text_eq l.config_file []) && text_eq base l.config_file
    then ((load_config d l file_name).0, true)
    else if l.ignore_hidden && has_prefix (d.base file_name) (codes ".")
    then (record l { hidden_files = l.hidden_files ++ file_name ∷ [] }, true)
    else if any (λ i. item_ignore i dir base) l.items
    then (record l { ignored_files = l.ignored_files ++ file_name ∷ [] }, true)
    else (l, false)
