-- ===== src/Workers/Sync/Rounds.antt =====
-- internal/workers/sync.go: an account over many rounds.
use photoprism.Prelude.{
  ℕ, zero, suc, ◌+◌, ◌≤◌, ◌≡◌, sym, ◌≢◌, ◌∙◌, true, false, List, [], ◌∷◌, Text, none, if◌then◌else◌,
  arith, ◌⊎◌, All, length, ap, text_eq, codes,
}
use mathlib.Core.Path.{subst}
use photoprism.Prelude.Int.{pos, ◌≤ℤ◌, ◌<ℤ◌}
use photoprism.Workers.Account.{Account, refresh, download, upload, synced, is_web_dav}
use photoprism.Workers.Sync.{failed, complete, Round, progress_of, phase, store, visit}

-- One account over a sequence of rounds.
unfoldable pub rounds : Account → List Round → Account
rounds a [] = a
rounds a (r ∷ rs) = rounds (visit a r).0 rs

-- A round in which the job is done, nobody cancels and the database accepts.
pub record GoesWell (r : Round) : Type 0 where
  pub done : r.outcome ≡ complete
  pub running : r.canceled ≡ false
  pub stored : r.saved ≡ true

-- A round in which the job fails.
pub record GoesWrong (r : Round) : Type 0 where
  pub broken : (e : Text) × (r.outcome ≡ failed e)
  pub running : r.canceled ≡ false
  pub stored : r.saved ≡ true

-- The rounds from a refresh to rest.
abbrev pub rounds_needed : Account → ℕ
rounds_needed a = 1 + ((if a.sync_download then 1 else 0) + (if a.sync_upload then 1 else 0))

visit_well :
    (a : Account) (r : Round)
    → is_web_dav a ≡ true
    → pos a.acc_errors ≤ℤ a.retry_limit
    → GoesWell r
    → (visit a r).0 ≡ store a (phase a a.sync_status r (progress_of a))
unfolding visit
visit_well a r w few g = ground arith

-- A WebDAV account without too many errors whose jobs complete goes from refresh to synced in exactly
-- as many rounds as it has phases: it is synced after them, with no error, at the time of the last.
pub rounds-synced :
    (a : Account) (rs : List Round)
    → is_web_dav a ≡ true
    → pos a.acc_errors ≤ℤ a.retry_limit
    → a.sync_status ≡ refresh
    → length rs ≡ rounds_needed a
    → All GoesWell rs
    → ((rounds a rs).sync_status ≡ synced)
      × ((rounds a rs).acc_errors ≡ 0)
      × ((rounds a rs).sync_date ≢ none)
unfolding rounds visit phase
rounds-synced a [] w few s n g = ground arith
rounds-synced a (r ∷ []) w few s n (g, _) = ground arith
rounds-synced a (r ∷ q ∷ []) w few s n (g, (h, _)) = ground arith
rounds-synced a (r ∷ q ∷ o ∷ []) w few s n (g, (h, (k, _))) = ground arith
rounds-synced a (r ∷ q ∷ o ∷ p ∷ rs) w few s n g = ground arith

-- One failing round in a phase with a job adds one error and leaves the status.
visit_wrong :
    (a : Account) (r : Round)
    → is_web_dav a ≡ true
    → pos a.acc_errors ≤ℤ a.retry_limit
    → (a.sync_status ≡ refresh) ⊎ (a.sync_status ≡ download) ⊎ (a.sync_status ≡ upload)
    → GoesWrong r
    → ((visit a r).0.acc_errors ≡ a.acc_errors + 1)
      × ((visit a r).0.sync_status ≡ a.sync_status)
      × ((visit a r).0.retry_limit ≡ a.retry_limit)
      × ((visit a r).0.acc_type ≡ a.acc_type)
      × ((visit a r).0.acc_sync ≡ a.acc_sync)
unfolding visit phase
visit_wrong a r w few s g = ground (arith, g.broken.1)

visit_over :
    (a : Account) (r : Round)
    → is_web_dav a ≡ true
    → a.retry_limit <ℤ pos a.acc_errors
    → GoesWrong r
    → ((visit a r).0.acc_sync ≡ false) × ((visit a r).0.acc_errors ≡ 0)
unfolding visit
visit_over a r w over g = ground arith

-- A WebDAV account in a phase with a job, with n errors so far: when every round fails, it takes as many
-- rounds as are left to its retry limit plus two until sync is switched off and the count starts
-- again at 0. It is still on one round earlier.
pub rounds-disabled :
    (k : ℕ) (a : Account) (rs : List Round) (limit : ℕ)
    → is_web_dav a ≡ true
    → a.retry_limit ≡ pos limit
    → a.acc_errors + k ≡ limit + 1
    → a.acc_sync ≡ true
    → (a.sync_status ≡ refresh) ⊎ (a.sync_status ≡ download) ⊎ (a.sync_status ≡ upload)
    → All GoesWrong rs
    → (length rs ≤ k → (rounds a rs).acc_sync ≡ true)
      × (length rs ≡ k + 1 → ((rounds a rs).acc_sync ≡ false) × ((rounds a rs).acc_errors ≡ 0))
unfolding rounds
rounds-disabled k a [] limit w l n on s g = (λ h. on, λ h. absurd (omega arith))
rounds-disabled zero a (r ∷ []) limit w l n on s (g, gs) =
    (λ h. absurd (omega arith), λ h. visit_over a r w (ground arith) g)
rounds-disabled zero a (r ∷ q ∷ rs) limit w l n on s g =
    (λ h. absurd (omega arith), λ h. absurd (omega arith))
rounds-disabled (suc k) a (r ∷ rs) limit w l n on s (g, gs) =
    let (errors, status, kept, type, still) = visit_wrong a r w (ground arith) s g in
    let later : (length rs ≤ k → (rounds (visit a r).0 rs).acc_sync ≡ true)
        × (length rs ≡ k + 1
            → ((rounds (visit a r).0 rs).acc_sync ≡ false)
              × ((rounds (visit a r).0 rs).acc_errors ≡ 0)) =
      rounds-disabled k (visit a r).0 rs limit
        (ap (λ (t : Text). text_eq t (codes "webdav")) type ∙ w) (kept ∙ l) (omega arith)
        (still ∙ on) (subst (λ x. (x ≡ refresh) ⊎ (x ≡ download) ⊎ (x ≡ upload)) (sym status) s)
        gs in
    (λ h. later.0 (omega arith), λ h. later.1 (omega arith))
