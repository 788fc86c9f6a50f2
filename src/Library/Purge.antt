-- ===== src/Library/Purge.antt =====
-- internal/photoprism/purge.go: the first loop of `Start`, which marks the files that are gone. The answers
-- of the disk and of the database and the cancellations are arguments.
pub mod Marks
pub mod Photos
pub mod Complete
mod Tests
use photoprism.Prelude.{
  ℕ, zero, suc, ◌+◌, ◌≡◌, Bool, true, false, not, ◌&&◌, ◌||◌, List, [], ◌∷◌, take, drop, keep, any,
  Text, text_eq, ◌==◌, if◌then◌else◌, Option, none, some,
}

-- A row of `files`, in the fields that matter here.
pub record IndexFile : Type 0 where
  pub id : ℕ
  pub file_name : Text
  pub missing : Bool
  pub primary : Bool
  pub deleted : Bool

-- The options and what the worker meets. `full_name` joins a name with the originals path, `in_path` is the
-- condition on the path, and `refused` says for which files the database refuses the update.
pub record Setting : Type 0 where
  pub full_name : Text → Text
  pub in_path : Text → Bool
  pub ignored : Text → Bool
  pub on_disk : Text → Bool
  pub dry : Bool
  pub refused : IndexFile → Bool
  pub canceled : IndexFile → Bool
  pub canceled_after : ℕ → Bool
  pub query_failed : ℕ → Bool

abbrev pub limit : ℕ
limit = 500

-- The files that `query.ExistingFiles` numbers; the table lists its rows in the order of their ids.
unfoldable pub existing : Setting → List IndexFile → List IndexFile
existing w table = keep (λ f. not f.missing && not f.deleted && w.in_path f.file_name) table

unfoldable pub existing_files : Setting → ℕ → List IndexFile → List IndexFile
existing_files w offset table = take limit (drop offset (existing w table))

-- `File.Purge`.
abbrev pub purged_row : IndexFile → IndexFile
purged_row f = record f { missing = true; primary = false }

unfoldable pub purge_row : ℕ → List IndexFile → List IndexFile
purge_row id [] = []
purge_row id (f ∷ fs) = (if f.id == id then purged_row f else f) ∷ purge_row id fs

-- One file: the table and the names in `purgedFiles`.
unfoldable pub purge_file :
    Setting → IndexFile → List IndexFile → List Text → List IndexFile × List Text
purge_file w f table purged =
    let n = w.full_name f.file_name in
    if w.ignored n || any (text_eq n) purged
    then (table, purged)
    else if w.on_disk n
    then (table, purged)
    else if w.dry
    then (table, n ∷ purged)
    else if w.refused f
    then (table, purged)
    else (purge_row f.id table, n ∷ purged)

-- One page, and whether the loop ran to its end.
unfoldable pub purge_page :
    Setting → List IndexFile → List IndexFile → List Text → List IndexFile × List Text × Bool
unfolding purge_file
purge_page w [] table purged = (table, purged, true)
purge_page w (f ∷ fs) table purged =
    let (table', purged') = purge_file w f table purged in
    let rest = purge_page w fs table' purged' in
    elim (w.canceled f) [ true ↦ (table, purged, false) | false ↦ rest ]

pub data End : Type 0 where
  finished purge_canceled failed : End

-- The loop over the pages, on fuel.
unfoldable pub purge_files :
    ℕ → Setting → ℕ → List IndexFile → List Text → Option (List IndexFile × List Text × End)
unfolding purge_page existing_files
purge_files zero w offset table purged = none
purge_files (suc fuel) w offset table purged =
    let page = existing_files w offset table in
    let (table', purged', on) = purge_page w page table purged in
    let rest = purge_files fuel w (offset + limit) table' purged' in
    if w.query_failed offset then some (table, purged, failed) else elim page [
      | [] ↦ some (table, purged, finished)
      | f ∷ fs ↦
          if not on || w.canceled_after offset then some (table', purged', purge_canceled) else rest
    ]
