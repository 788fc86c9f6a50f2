-- ===== src/Workers/Upload.antt =====
-- internal/workers/sync_upload.go: local files that an account does not have are uploaded. What the WebDAV
-- client and the database answer are arguments.
pub mod Written
mod Tests
use photoprism.Prelude.{
  ℕ, ◌≡◌, Bool, true, false, not, ◌&&◌, ◌||◌, List, [], ◌∷◌, ◌++◌, take, keep, any, Text, ltb, ◌==◌,
  if◌then◌else◌, Option, none, some,
}
use photoprism.Clock.{Time}
use photoprism.Sorting.Insertion.{insertion_sort}
use photoprism.Txt.Order.{text_lt}
use photoprism.Workers.Account.{Account}
use photoprism.Workers.Sync.{Outcome, failed, incomplete, complete}
use photoprism.Workers.SyncTable.{FileSync, uploaded, find_row, update_row}

-- A row of `files`, in the fields that matter here; the type of a file is raw or not.
pub record LocalFile : Type 0 where
  pub id : ℕ
  pub file_name : Text
  pub file_size : ℕ
  pub raw : Bool
  pub missing : Bool
  pub deleted : Bool

-- The account has a row for the file already.
abbrev pub has_row : ℕ → List FileSync → LocalFile → Bool
has_row account_id table f =
    any (λ r. ltb 0 r.file_id && r.account_id == account_id && r.file_id == f.id) table

-- `query.AccountUploads`; the names of files are distinct.
unfoldable pub account_uploads : Account → ℕ → List FileSync → List LocalFile → List LocalFile
unfolding insertion_sort
account_uploads a limit table files = take limit (
    insertion_sort (λ f g. text_lt f.file_name g.file_name)
      (keep
        (λ f.
          not f.missing && not f.deleted && not (has_row a.id table f) && (a.sync_raw || not f.raw))
        files))

-- What the worker meets at one file: `Canceled` before it, whether the folder was made and the file
-- uploaded, `Canceled` behind it, whether the row was saved, and when.
pub record Transfer : Type 0 where
  pub canceled_before : Bool
  pub dir_created : Bool
  pub sent : Bool
  pub canceled_after : Bool
  pub saved : Bool
  pub now : Time

-- `Save`: the row with the key is overwritten, or a new one is added.
unfoldable pub save_row : FileSync → List FileSync → List FileSync
save_row g table = elim (find_row g.account_id g.remote_name table) [
  | some f ↦ update_row g.account_id g.remote_name (λ h. g) table
  | none ↦ table ++ g ∷ []
]

abbrev pub uploaded_row : Account → Transfer → Text → LocalFile → FileSync
uploaded_row a r remote_name f = record {
  remote_name = remote_name;
  account_id = a.id;
  file_id = f.id;
  remote_date = r.now;
  remote_size = f.file_size;
  status = uploaded;
  error = [];
  errors = 0;
}

-- `remote` joins the sync path with the name. The table, and whether the worker goes on.
unfoldable pub upload_file :
    (Text → Text) → Account → Transfer → LocalFile → List FileSync → List FileSync × Bool
upload_file remote a r f table =
    if r.canceled_before
    then (table, false)
    else if not r.dir_created
    then (table, true)
    else if not r.sent
    then (table, true)
    else if r.canceled_after
    then (table, false)
    else (if r.saved then save_row (uploaded_row a r (remote f.file_name) f) table else table, true)

unfoldable pub upload_files :
    (Text → Text)
    → Account
    → (LocalFile → Transfer)
    → List LocalFile
    → List FileSync
    → List FileSync
unfolding upload_file
upload_files remote a answer [] table = table
upload_files remote a answer (f ∷ fs) table =
    let (table', on) = upload_file remote a (answer f) f table in
    let rest = upload_files remote a answer fs table' in elim on [ true ↦ rest | false ↦ table' ]

-- `refused` is the error of the query, if there is one.
unfoldable pub upload :
    (Text → Text)
    → Account
    → Option Text
    → (LocalFile → Transfer)
    → List LocalFile
    → List FileSync
    → List FileSync × Outcome
unfolding account_uploads upload_files
upload remote a (some e) answer files table = (table, failed e)
upload remote a none answer files table = elim (account_uploads a 250 table files) [
  | [] ↦ (table, complete)
  | f ∷ fs ↦ (upload_files remote a answer (f ∷ fs) table, incomplete)
]
