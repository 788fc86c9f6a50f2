-- ===== src/Workers/Download.antt =====
-- internal/workers/sync_download.go: new remote files are fetched in groups and handed on. What the disk,
-- the WebDAV client and the database answer, and what is found out about a fetched file, are arguments.
pub mod Chosen
pub mod Stuck
mod Tests
use photoprism.Prelude.{
  ℕ, ◌+◌, ◌≡◌, Bool, true, false, not, ◌&&◌, ◌||◌, List, [], ◌∷◌, ◌++◌, take, keep, any, Text,
  text_eq, ltb, ◌==◌, if◌then◌else◌, Option, none, some,
}
use photoprism.Prelude.Int.{pos, ltb_ℤ}
use photoprism.Sorting.Insertion.{insertion_sort}
use photoprism.Txt.Order.{text_lt}
use photoprism.Workers.Account.{Account}
use photoprism.Workers.Sync.{Outcome, failed, incomplete, complete}
use photoprism.Workers.SyncTable.{
  FileStatus, new, ignored, exists, downloaded, uploaded, FileSync, update_row,
}

-- What the worker meets at one file: `Canceled` before it, whether the local file is there, the error of
-- `Download`, `Canceled` behind it, and whether the database accepts the row.
pub record Answer : Type 0 where
  pub canceled_before : Bool
  pub exists_local : Bool
  pub error : Option Text
  pub canceled_after : Bool
  pub saved : Bool

abbrev pub is_new : FileSync → Bool
is_new f = elim f.status [ new ↦ true | _ ↦ false ]

abbrev pub max_results : ℕ
max_results = 1000

-- `query.FileSyncs` of one account: its new rows in the order of their names, which are distinct.
unfoldable pub file_syncs : ℕ → ℕ → List FileSync → List FileSync
unfolding insertion_sort
file_syncs account_id limit table = take limit (
    insertion_sort (λ f g. text_lt f.remote_name g.remote_name)
      (keep (λ f. (account_id == 0 || f.account_id == account_id) && is_new f) table))

abbrev pub Group : Type 0
Group = Text × List FileSync

unfoldable pub add_to_group : Text → FileSync → List Group → List Group
add_to_group k f [] = (k, f ∷ []) ∷ []
add_to_group k f ((j, fs) ∷ gs) =
    if text_eq j k then (j, fs ++ f ∷ []) ∷ gs else (j, fs) ∷ add_to_group k f gs

unfoldable pub group_all : (Text → Text) → List FileSync → List Group → List Group
group_all abs_base [] gs = gs
group_all abs_base (f ∷ fs) gs = group_all abs_base fs (add_to_group (abs_base f.remote_name) f gs)

-- `relatedDownloads`: the loop ends behind the file with the number 951. The groups come in the order of
-- their first files; the order in which Go visits a map is open. `abs_base` is `fs.AbsBase`.
unfoldable pub related_downloads : (Text → Text) → ℕ → List FileSync → List Group
unfolding group_all file_syncs
related_downloads abs_base account_id table =
    group_all abs_base (take 952 (file_syncs account_id max_results table)) []

-- The row behind `Stat` and `Download`.
unfoldable pub fetched : Answer → FileSync → FileSync
fetched r f = if r.exists_local then record f { status = exists } else elim r.error [
  | some e ↦ record f { errors = f.errors + 1; error = e }
  | none ↦ record f { status = downloaded }
]

-- One file: the table, the entry `files[i]`, and whether the worker goes on.
unfoldable pub download_file :
    Account → Answer → FileSync → List FileSync → List FileSync × FileSync × Bool
download_file a r f table =
    if r.canceled_before
    then (table, f, false)
    else if ltb_ℤ a.retry_limit (pos f.errors)
    then (table, f, true)
    else if not r.exists_local && r.canceled_after
    then (table, f, false)
    else if r.saved
    then (update_row f.account_id f.remote_name (λ g. fetched r f) table, fetched r f, true)
    else (table, f, true)

unfoldable pub download_files :
    Account
    → (FileSync → Answer)
    → List FileSync
    → List FileSync
    → List FileSync × List FileSync × Bool
unfolding download_file
download_files a answer [] table = (table, [], true)
download_files a answer (f ∷ fs) table =
    let (table', f', on) = download_file a (answer f) f table in
    let (later, fs', goes_on) = download_files a answer fs table' in
    elim on [ true ↦ (later, f' ∷ fs', goes_on) | false ↦ (table', f' ∷ fs, false) ]

-- An index or import job: the file, and the related files that no job had before.
pub record Job : Type 0 where
  pub file_name : Text
  pub related : List Text

-- The loop over `related.Files`, with the keys of `done`.
unfoldable pub fresh : List Text → List Text → List Text × List Text
fresh [] done = ([], done)
fresh (n ∷ ns) done =
    let (rf, seen) = fresh ns (n ∷ done) in
    let skipped = fresh ns done in
    elim (any (text_eq n) done) [ true ↦ skipped | false ↦ (n ∷ rf, seen) ]

-- `media` says which file the downloaded one is and which files are related, if it is a media file.
unfoldable pub jobs_of :
    (Text → Option (Text × List Text)) → List FileSync → List Text → List Job × List Text
unfolding fresh
jobs_of media [] done = ([], done)
jobs_of media (f ∷ fs) done =
    let skipped = jobs_of media fs done in
    elim f.status [
      | downloaded ↦ elim (media f.remote_name) [
        | none ↦ skipped
        | some (name, names) ↦
            let (rf, seen) = fresh names done in
            let (rest, last) = jobs_of media fs (name ∷ seen) in
            (record { file_name = name; related = rf } ∷ rest, last)
      ]
      | _ ↦ skipped
    ]

unfoldable pub download_groups :
    Account
    → (FileSync → Answer)
    → (Text → Option (Text × List Text))
    → List Group
    → List FileSync
    → List Text
    → List FileSync × List Job
unfolding download_files jobs_of
download_groups a answer media [] table done = (table, [])
download_groups a answer media ((k, fs) ∷ gs) table done =
    let (table', fs', on) = download_files a answer fs table in
    let (jobs, seen) = jobs_of media fs' done in
    let (last, rest) = download_groups a answer media gs table' seen in
    elim on [ true ↦ (last, jobs ++ rest) | false ↦ (table', []) ]

-- `refused` is the error of the query, if there is one.
unfoldable pub download :
    (Text → Text)
    → Account
    → Option Text
    → (FileSync → Answer)
    → (Text → Option (Text × List Text))
    → List FileSync
    → List FileSync × List Job × Outcome
unfolding related_downloads download_groups
download abs_base a (some e) answer media table = (table, [], failed e)
download abs_base a none answer media table = elim (related_downloads abs_base a.id table) [
  | [] ↦ (table, [], complete)
  | g ∷ gs ↦
      let (table', jobs) = download_groups a answer media (g ∷ gs) table [] in
      (table', jobs, incomplete)
]
