-- ===== src/Workers/Sync/Flow.antt =====
-- internal/workers/sync.go: the diagram of an account's sync status, and what a round may write.
use photoprism.Prelude.{◌≡◌, refl, sym, Bool, true, false, Text, some, arith, ◌⊎◌, inl, inr}
use mathlib.Core.Path.{subst}
use photoprism.Workers.Account.{Account, SyncStatus, refresh, download, upload, synced, other}
use photoprism.Workers.Sync.{Round, Progress, progress_of, phase, disabled, updated, visit}

-- From one status of an account with these switches to the next.
pub data Flow (down up : Bool) : SyncStatus → SyncStatus → Type 0 where
  stay : {s : SyncStatus} → Flow down up s s
  pull : down ≡ true → Flow down up refresh download
  push : down ≡ false → up ≡ true → Flow down up refresh upload
  rest : down ≡ false → up ≡ false → Flow down up refresh synced
  then_push : up ≡ true → Flow down up download upload
  then_rest : up ≡ false → Flow down up download synced
  pushed : Flow down up upload synced
  again : Flow down up synced refresh
  begin : {s : Text} → Flow down up (other s) refresh

ruleset edges = (stay, pull, push, rest, then_push, then_rest, pushed, again, begin)

phase-Flow :
    (a : Account) (s : SyncStatus) (r : Round) (p : Progress)
    → p.sync_status ≡ s
    → Flow a.sync_download a.sync_upload s (phase a s r p).sync_status
unfolding phase
phase-Flow a refresh r p h = grind (arith, edges)
phase-Flow a download r p h = grind (arith, edges)
phase-Flow a upload r p h = grind (arith, edges)
phase-Flow a synced r p h = grind (arith, edges)
phase-Flow a (other s) r p h = grind (arith, edges)

-- The status is left alone or comes from the switch.
visit_status :
    (a : Account) (r : Round)
    → ((visit a r).0.sync_status ≡ a.sync_status)
      ⊎ ((visit a r).0.sync_status ≡ (phase a a.sync_status r (progress_of a)).sync_status)
unfolding visit
visit_status a r = ground arith

visit-Flow :
    (a : Account) (r : Round)
    → Flow a.sync_download a.sync_upload a.sync_status (visit a r).0.sync_status
unfolding visit
visit-Flow a r = elim (visit_status a r) [
  | inl e ↦ subst (Flow a.sync_download a.sync_upload a.sync_status) (sym e) stay
  | inr e ↦
      subst (Flow a.sync_download a.sync_upload a.sync_status) (sym e)
        (phase-Flow a a.sync_status r (progress_of a) refl)
]

-- Whatever a round meets, it moves the sync status of an account along the diagram: refresh, then the
-- download if it is switched on, then the upload if that is, then synced, and from there or from an
-- unknown status to refresh. It writes the error, the error count, the status and the date, or else
-- switches sync off and clears the count, and nothing else of the account. The event "sync.synced"
-- is published only where a download or an upload was the last phase.
pub visit_lem :
    (a : Account) (r : Round)
    → let (b, v) = visit a r in
      Flow a.sync_download a.sync_upload a.sync_status b.sync_status
      × (record b {
        acc_error = a.acc_error;
        acc_errors = a.acc_errors;
        acc_sync = a.acc_sync;
        sync_status = a.sync_status;
        sync_date = a.sync_date;
      }
          ≡ a)
      × (b.acc_sync ≡ a.acc_sync ⊎ (b.acc_sync ≡ false) × (b.acc_errors ≡ 0) × (v ≡ disabled))
      × (v ≡ updated true
          → (b.sync_status ≡ synced)
            × (b.sync_date ≡ some r.now)
            × ((a.sync_status ≡ download) ⊎ (a.sync_status ≡ upload)))
unfolding visit phase
visit_lem a r = (visit-Flow a r, ground arith, ground arith, λ h. ground arith)
