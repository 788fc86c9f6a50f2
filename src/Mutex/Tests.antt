-- ===== src/Mutex/Tests.antt =====
-- Runs of the busy flag, and the theorems at one of them.
use photoprism.Prelude.{ℕ, ◌≡◌, refl, true, none, some}
use photoprism.Mutex.{still_running, already_running, idle, start, stop, cancel, workers_busy}
use photoprism.Mutex.System.{inside, System, move, enter, interrupt, init, Reach, begin, next}
use photoprism.Mutex.Exclusion.{mutual_exclusion}

-- `TestBusy_Busy`.
busy_test :
    ((start idle).1 ≡ none)
    × ((cancel (start idle).0).canceled ≡ true)
    × ((cancel (start idle).0).busy ≡ true)
    × (stop (cancel (start idle).0) ≡ idle)
    × ((start (start idle).0).1 ≡ some already_running)
    × ((start (cancel (start idle).0)).1 ≡ some still_running)
unfolding start stop cancel
busy_test = (refl, refl, refl, refl, refl, refl)

workers_busy_test :
    workers_busy (record {
      main_worker = idle;
      sync_worker = idle;
      share_worker = (start idle).0;
      prism_worker = idle;
    })
    ≡ true
unfolding workers_busy start
workers_busy_test = refl

abbrev one_inside : System
one_inside = record { flag = (start idle).0; at = move init.at 0 inside }

one_inside-Reach : Reach one_inside
unfolding start
one_inside-Reach = next begin (enter 0 refl refl refl)

abbrev asked : System
asked = record { flag = cancel one_inside.flag; at = one_inside.at }

asked-Reach : Reach asked
asked-Reach = next one_inside-Reach (interrupt refl)

mutual_exclusion_example : ◌≡◌ {A = ℕ} 0 0
mutual_exclusion_example = mutual_exclusion one_inside-Reach 0 0 refl refl
