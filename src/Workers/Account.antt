-- ===== src/Workers/Account.antt =====
-- internal/entity/account.go: a remote account, in the fields that the workers read and write.
use photoprism.Prelude.{ℕ, Bool, false, Text, [], codes, text_eq, Option, if◌then◌else◌}
use photoprism.Prelude.Int.{ℤ}
use photoprism.Clock.{Time}

-- The values of `SyncStatus`; anything else in the column falls into the `default` of the switch.
pub data SyncStatus : Type 0 where
  refresh download upload synced : SyncStatus
  other : Text → SyncStatus

-- `sync_date` is none where the column is NULL.
pub record Account : Type 0 where
  pub id : ℕ
  pub acc_type : Text
  pub acc_error : Text
  pub acc_errors : ℕ
  pub acc_share : Bool
  pub acc_sync : Bool
  pub retry_limit : ℤ
  pub share_path : Text
  pub share_size : Text
  pub share_expires : ℤ
  pub sync_path : Text
  pub sync_status : SyncStatus
  pub sync_interval : ℤ
  pub sync_date : Option Time
  pub sync_upload : Bool
  pub sync_download : Bool
  pub sync_filenames : Bool
  pub sync_raw : Bool

-- `remote.ServiceWebDAV`, the only service that the workers support.
abbrev pub is_web_dav : Account → Bool
is_web_dav a = text_eq a.acc_type (codes "webdav")

-- `SaveForm` behind the copying of the form into the account: only WebDAV accounts share or sync,
-- paths have a default, and a change of a synced account starts a new refresh.
unfoldable pub save_form : Account → Account
save_form a =
    let b = if is_web_dav a then a else record a { acc_share = false; acc_sync = false } in
    let root = λ (p : Text). if text_eq p [] then codes "/" else p in
    let c = record b { share_path = root b.share_path; sync_path = root b.sync_path } in
    let again : Bool = elim c.sync_status [ synced ↦ c.acc_sync | _ ↦ false ] in
    if again then record c { sync_status = refresh } else c
