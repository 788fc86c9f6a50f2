-- ===== src/Workers/Sync.antt =====
-- internal/workers/sync.go: one round of the sync worker over the accounts. The jobs that talk to the
-- remote service enter with their outcomes; Workers/Refresh, Workers/Download and Workers/Upload model them.
pub mod Flow
pub mod Rounds
mod Tests
use photoprism.Prelude.{
  ℕ, ◌+◌, ◌*◌, ◌<◌, ◌≡◌, Bool, true, false, not, List, [], ◌∷◌, Text, ltb, Option, none, some,
  if◌then◌else◌,
}
use photoprism.Prelude.Int.{ℤ, pos, pos_part, neg_part, ltb_ℤ}
use photoprism.Clock.{Time, second}
use photoprism.Workers.Account.{
  Account, SyncStatus, refresh, download, upload, synced, other, is_web_dav,
}

-- What `refresh`, `download` and `upload` return: an error, or whether the phase is complete.
pub data Outcome : Type 0 where
  failed : Text → Outcome
  incomplete complete : Outcome

-- What a round meets: the clock, the outcome of the job that it starts, whether the worker is canceled
-- behind the job, and whether the database accepts the update of the account.
pub record Round : Type 0 where
  pub now : Time
  pub outcome : Outcome
  pub canceled : Bool
  pub saved : Bool

-- The local variables that the switch assigns.
pub record Progress : Type 0 where
  pub acc_error : Text
  pub acc_errors : ℕ
  pub sync_status : SyncStatus
  pub sync_date : Option Time
  pub synced : Bool

abbrev pub progress_of : Account → Progress
progress_of a = record {
  acc_error = a.acc_error;
  acc_errors = a.acc_errors;
  sync_status = a.sync_status;
  sync_date = a.sync_date;
  synced = false;
}

abbrev pub with_error : Progress → Text → Progress
with_error p e = record p { acc_error = e; acc_errors = p.acc_errors + 1 }

abbrev pub finish : Progress → Time → Bool → Progress
finish p now event = record p { sync_status = synced; sync_date = some now; synced = event }

-- Where a complete refresh leads: errors are forgotten.
abbrev pub after_refresh : Account → Progress → Time → Progress
after_refresh a p now =
    let q = record p { acc_errors = 0; acc_error = [] } in
    if a.sync_download
    then record q { sync_status = download }
    else if a.sync_upload
    then record q { sync_status = upload }
    else finish q now false

abbrev pub after_download : Account → Progress → Time → Progress
after_download a p now =
    if a.sync_upload then record p { sync_status = upload } else finish p now true

-- The account was synced longer ago than its interval in seconds: date + interval < now.
abbrev pub is_due : Time → ℤ → Time → Bool
is_due date interval now =
    ltb (date.nanos + pos_part interval * second) (now.nanos + neg_part interval * second)

-- The switch on the status.
unfoldable pub phase : Account → SyncStatus → Round → Progress → Progress
phase a refresh r p = elim r.outcome [
  | failed e ↦ with_error p e
  | incomplete ↦ p
  | complete ↦ after_refresh a p r.now
]
phase a download r p = elim r.outcome [
  | failed e ↦ with_error p e
  | incomplete ↦ p
  | complete ↦ after_download a p r.now
]
phase a upload r p = elim r.outcome [
  | failed e ↦ with_error p e
  | incomplete ↦ p
  | complete ↦ finish p r.now true
]
phase a synced r p = elim a.sync_date [
  | none ↦ p
  | some date ↦ if is_due date a.sync_interval r.now then record p { sync_status = refresh } else p
]
phase a (other s) r p = record p { sync_status = refresh }

abbrev pub store : Account → Progress → Account
store a p = record a {
  acc_error = p.acc_error;
  acc_errors = p.acc_errors;
  sync_status = p.sync_status;
  sync_date = p.sync_date;
}

-- What became of one account in the loop: the row, and how the loop goes on.
pub data Visit : Type 0 where
  -- Another service, or sync switched off after too many errors: `continue`.
  skipped : Visit
  disabled : Visit
  -- `Canceled` behind the job: the worker returns, and the progress is lost.
  interrupted : Visit
  -- The four fields were written, and maybe the event "sync.synced" was published.
  updated : Bool → Visit
  -- The database refused.
  unsaved : Visit

unfoldable pub visit : Account → Round → Account × Visit
visit a r =
    if not (is_web_dav a)
    then (a, skipped)
    else if ltb_ℤ a.retry_limit (pos a.acc_errors)
    then (if r.saved
        then (record a { acc_errors = 0; acc_sync = false }, disabled)
        else (a, disabled))
    else let p = phase a a.sync_status r (progress_of a) in
      if r.canceled
      then (a, interrupted)
      else if r.saved
      then (store a p, updated p.synced)
      else (a, unsaved)

abbrev pub stops : Visit → Bool
stops interrupted = true
stops _ = false

-- The loop of `Start` over the accounts that the query found, each with what it meets.
unfoldable pub visit_all : List (Account × Round) → List (Account × Visit)
visit_all [] = []
visit_all ((a, r) ∷ rest) =
    let (b, v) = visit a r in
    let others = visit_all rest in if stops v then (b, v) ∷ [] else (b, v) ∷ others
