-- ===== src/Workers/Sync/Tests.antt =====
-- One account on its way, and the theorems at it.
use photoprism.Prelude.{
  ◌≡◌, refl, ◌≢◌, true, false, [], ◌∷◌, codes, none, inl, arith, ◌≤◌, ℕ, text_eq,
}
use photoprism.Clock.{zero_time}
use photoprism.Workers.Examples.{cloud}
use photoprism.Workers.Account.{refresh, upload, synced}
use photoprism.Workers.Sync.{Round, complete, failed, visit, phase}
use photoprism.Workers.Sync.Flow.{Flow, visit_lem}
use photoprism.Workers.Sync.Rounds.{rounds, GoesWell, GoesWrong, rounds-synced, rounds-disabled}

abbrev done : Round
done = record { now = zero_time; outcome = complete; canceled = false; saved = true }

abbrev broken : Round
broken = record done { outcome = failed (codes "404") }

done-GoesWell : GoesWell done
done-GoesWell = record { done = refl; running = refl; stored = refl }

broken-GoesWrong : GoesWrong broken
broken-GoesWrong = record { broken = (codes "404", refl); running = refl; stored = refl }

two_rounds_test : (rounds cloud (done ∷ done ∷ [])).sync_status ≡ upload
unfolding rounds visit text_eq phase
two_rounds_test = refl

visit_lem_example : Flow true true refresh (visit cloud done).0.sync_status
visit_lem_example = (visit_lem cloud done).0

rounds-synced_example :
    ((rounds cloud (done ∷ done ∷ done ∷ [])).sync_status ≡ synced)
    × ((rounds cloud (done ∷ done ∷ done ∷ [])).acc_errors ≡ 0)
    × ((rounds cloud (done ∷ done ∷ done ∷ [])).sync_date ≢ none)
unfolding text_eq
rounds-synced_example =
    rounds-synced cloud (done ∷ done ∷ done ∷ []) refl (omega arith) refl refl
      (done-GoesWell, (done-GoesWell, (done-GoesWell, tt)))

rounds-disabled_example :
    (◌≤◌ 2 2 → (rounds cloud (broken ∷ broken ∷ [])).acc_sync ≡ true)
    × (◌≡◌ {A = ℕ} 2 3
        → ((rounds cloud (broken ∷ broken ∷ [])).acc_sync ≡ false)
          × ((rounds cloud (broken ∷ broken ∷ [])).acc_errors ≡ 0))
unfolding text_eq
rounds-disabled_example =
    rounds-disabled 2 cloud (broken ∷ broken ∷ []) 1 refl refl refl refl (inl refl)
      (broken-GoesWrong, (broken-GoesWrong, tt))
