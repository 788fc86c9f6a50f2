-- ===== src/Library/Walk.antt =====
-- pkg/fs/walk.go and the callback of `Import.Start` in internal/photoprism/import.go: a walk over a directory that
-- groups the files it meets into jobs. The rows of folders that it creates are left out.
pub mod Once
mod Tests
use photoprism.Prelude.{
  ℕ, Bool, true, false, not, ◌||◌, ◌&&◌, List, [], ◌∷◌, ◌++◌, any, Text, text_eq, if◌then◌else◌,
  Option, none, some,
}
use photoprism.Fs.Ignore
use photoprism.Fs.Ignore.{IgnoreList, ignore}

-- The map `done`.
abbrev pub is_done : Text → List Text → Bool
is_done n done = any (λ m. text_eq m n) done

-- What the disk says of symbolic links: whether one points to a directory, and where it leads.
pub record Links : Type 0 where
  pub leads_to_dir : Text → Bool
  pub resolved : Text → Option Text

pub record Entry : Type 0 where
  pub name : Text
  pub is_dir : Bool
  pub is_symlink : Bool

-- The variables that a walk shares with its callback.
pub record Seen : Type 0 where
  pub done : List Text
  pub ignore_list : IgnoreList

-- What a link to a directory does: it is marked, or not to be walked.
unfoldable pub follow : Links → List Text → Text → Bool → Bool → List Text × Bool
follow k done name ignored was_done = elim (k.resolved name) [
  | none ↦ (done, true)
  | some target ↦
      if ignored || was_done || is_done target done then (done, true) else (target ∷ done, false)
]

-- `SkipWalk`: what was seen, whether the entry is skipped, and whether its directory is.
unfoldable pub skip_walk : Ignore.Disk → Links → Seen → Entry → Seen × Bool × Bool
unfolding follow
skip_walk disk k s e =
    let was_done = is_done e.name s.done in
    let (l, ignored) = ignore disk s.ignore_list e.name in
    if e.is_symlink
    then (let (done, dir) =
          if k.leads_to_dir e.name
          then follow k s.done e.name ignored was_done
          else (s.done, false) in
        (record { done = e.name ∷ done; ignore_list = l }, true, dir))
    else if e.is_dir
    then (record { done = e.name ∷ s.done; ignore_list = l }, true, ignored || was_done)
    else if ignored || was_done
    then (record { done = e.name ∷ s.done; ignore_list = l }, true, false)
    else (record { done = s.done; ignore_list = l }, false, false)

pub record ImportJob : Type 0 where
  pub file_name : Text
  pub related : List Text

-- The loop over the related files: those that were not done, and the map with them.
unfoldable pub new_files : List Text → List Text → List Text × List Text
new_files [] done = ([], done)
new_files (f ∷ fs) done =
    let skipped = new_files fs done in
    let (files, last) = new_files fs (f ∷ done) in
    if is_done f done then skipped else (f ∷ files, last)

pub record WalkState : Type 0 where
  pub seen : Seen
  pub directories : List Text
  pub jobs : List ImportJob

-- What happens at an entry, with the answers of the flag and of the disk: the related files of a media file, if it is one
-- and they can be listed.
pub record Visit : Type 0 where
  pub entry : Entry
  pub canceled : Bool
  pub media : Option (List Text)

-- The callback, with whether the walk goes on.
unfoldable pub visit_entry : Ignore.Disk → Links → Text → WalkState → Visit → WalkState × Bool
unfolding skip_walk new_files
visit_entry disk k import_path s v =
    let name = v.entry.name in
    let dirs =
      if v.entry.is_dir && not (text_eq name import_path)
      then s.directories ++ name ∷ []
      else s.directories in
    let (seen, skip, dir) = skip_walk disk k s.seen v.entry in
    let (files, done) = new_files (elim v.media [ none ↦ [] | some related ↦ related ]) seen.done in
    if v.canceled
    then (s, false)
    else if skip
    then (record s { seen = seen; directories = dirs }, true)
    else (elim v.media [
      | none ↦ (record s { seen = seen; directories = dirs }, true)
      | some related ↦ (
        record {
          seen = record seen { done = name ∷ done };
          directories = dirs;
          jobs = s.jobs ++ record { file_name = name; related = files } ∷ [];
        },
        true,
      )
    ])

-- A walk, in whatever order and with whatever entries it comes.
unfoldable pub walk : Ignore.Disk → Links → Text → WalkState → List Visit → WalkState
unfolding visit_entry
walk disk k import_path s [] = s
walk disk k import_path s (v ∷ vs) =
    let (t, goes_on) = visit_entry disk k import_path s v in
    let rest = walk disk k import_path t vs in if goes_on then rest else t
