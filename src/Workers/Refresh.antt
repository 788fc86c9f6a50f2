-- ===== src/Workers/Refresh.antt =====
-- internal/workers/sync_refresh.go: the local list of remote files. What the WebDAV client lists, the
-- cancellations and the refusals of the database enter as arguments.
pub mod Rows
pub mod Kept
mod Tests
use photoprism.Prelude.{
  ℕ, ◌≡◌, Bool, true, false, not, ◌&&◌, List, [], ◌∷◌, Text, ◌==◌, if◌then◌else◌, Option, none,
  some,
}
use photoprism.Clock.{Time, equal}
use photoprism.Txt.Unicode.{Unicode}
use photoprism.Fs.FileType.{
  MediaType, media_raw, media_image, media_video, media_sidecar, media_other, get_media_type,
}
use photoprism.Workers.Account.{Account, is_web_dav}
use photoprism.Workers.Sync.{Outcome, failed, incomplete, complete}
use photoprism.Workers.SyncTable.{
  FileStatus, new, ignored, exists, downloaded, uploaded, FileSync, new_file_sync, first_or_create,
  update_row,
}

-- A file that the client lists.
pub record RemoteFile : Type 0 where
  pub abs : Text
  pub name : Text
  pub date : Time
  pub size : ℕ

-- One round of the inner loop: the file, whether the worker is canceled before it, and whether the
-- database accepts what is written for it.
pub record Item : Type 0 where
  pub file : RemoteFile
  pub canceled : Bool
  pub accepted : Bool

pub data Listing : Type 0 where
  listed : List Item → Listing
  not_listed : Text → Listing

-- One round of the outer loop.
pub record Directory : Type 0 where
  pub canceled : Bool
  pub listing : Listing

-- The supported types are downloaded, raw images only on request.
unfoldable pub wanted : Account → MediaType → FileStatus
wanted a media_image = new
wanted a media_sidecar = new
wanted a media_raw = if a.sync_raw then new else ignored
wanted a _ = ignored

abbrev pub is_raw : MediaType → Bool
is_raw media_raw = true
is_raw _ = false

abbrev pub is_ignored : FileStatus → Bool
is_ignored ignored = true
is_ignored _ = false

abbrev pub is_downloaded : FileStatus → Bool
is_downloaded downloaded = true
is_downloaded _ = false

-- The two updates behind `FirstOrCreateFileSync`: a raw image that was ignored and is now wanted, and a
-- downloaded file that has another date now.
abbrev pub to_new : FileSync → FileSync
to_new f = record f { status = new }

abbrev pub to_changed : RemoteFile → FileSync → FileSync
to_changed r f = record f { status = new; remote_date = r.date; remote_size = r.size }

unfoldable pub renew : Account → RemoteFile → MediaType → FileSync → List FileSync → List FileSync
renew a r media f table =
    if is_ignored f.status && (is_raw media && a.sync_raw)
    then update_row a.id r.abs to_new table
    else if is_downloaded f.status && not (equal f.remote_date r.date)
    then update_row a.id r.abs (to_changed r) table
    else table

unfoldable pub refresh_file : Unicode → Account → Bool → RemoteFile → List FileSync → List FileSync
refresh_file u a accepted r table =
    let media = get_media_type u r.name in
    let (table', row) =
      first_or_create accepted (new_file_sync a.id r.abs r.date r.size (wanted a media)) table in
    elim row [ none ↦ table' | some f ↦ if accepted then renew a r media f table' else table' ]

-- The inner loop, with the outcome none where it ran to its end.
pub refresh_files : Unicode → Account → List Item → List FileSync → List FileSync × Option Outcome
refresh_files u a [] table = (table, none)
refresh_files u a (i ∷ is) table = elim i.canceled [
  | true ↦ (table, some incomplete)
  | false ↦ refresh_files u a is (refresh_file u a i.accepted i.file table)
]

pub refresh_dirs : Unicode → Account → List Directory → List FileSync → List FileSync × Outcome
unfolding refresh_files
refresh_dirs u a [] table = (table, complete)
refresh_dirs u a (d ∷ ds) table = elim d.canceled [
  | true ↦ (table, incomplete)
  | false ↦ elim d.listing [
    | not_listed e ↦ (table, failed e)
    | listed is ↦
        let (table', stop) = refresh_files u a is table in
        let rest = refresh_dirs u a ds table' in elim stop [ some o ↦ (table', o) | none ↦ rest ]
  ]
]

-- What `Directories` returned: the subdirectories with the sync path, or an error.
pub data Tree : Type 0 where
  walked : List Directory → Tree
  not_walked : Text → Tree

unfoldable pub refresh_account : Unicode → Account → Tree → List FileSync → List FileSync × Outcome
unfolding refresh_dirs
refresh_account u a (walked ds) table =
    if is_web_dav a then refresh_dirs u a ds table else (table, incomplete)
refresh_account u a (not_walked e) table =
    if is_web_dav a then (table, failed e) else (table, incomplete)
