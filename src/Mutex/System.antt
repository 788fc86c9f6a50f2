-- ===== src/Mutex/System.antt =====
-- Any number of goroutines that share one flag of internal/mutex. A goroutine runs the body of its
-- job only after `Start` returned no error, and only such a goroutine calls `Stop` (its `defer`).
use photoprism.Prelude.{ℕ, ◌≡◌, none, some, ◌==◌, if◌then◌else◌}
use photoprism.Mutex.{Busy, StartError, idle, start, stop, cancel}

-- Where a goroutine stands: outside the job, or between `Start` and `Stop`.
pub data Place : Type 0 where
  outside inside : Place

pub record System : Type 0 where
  pub flag : Busy
  pub at : ℕ → Place

abbrev pub move : (ℕ → Place) → ℕ → Place → ℕ → Place
move f i p j = if i == j then p else f j

-- One call of a method by goroutine `i`; anybody may call `Cancel`.
pub data Step (s t : System) : Type 0 where
  enter :
      (i : ℕ)
      → s.at i ≡ outside
      → (start s.flag).1 ≡ none
      → t ≡ record { flag = (start s.flag).0; at = move s.at i inside }
      → Step s t
  refused :
      (i : ℕ) (e : StartError)
      → s.at i ≡ outside
      → (start s.flag).1 ≡ some e
      → t ≡ record { flag = (start s.flag).0; at = s.at }
      → Step s t
  leave :
      (i : ℕ)
      → s.at i ≡ inside
      → t ≡ record { flag = stop s.flag; at = move s.at i outside }
      → Step s t
  interrupt : t ≡ record { flag = cancel s.flag; at = s.at } → Step s t

abbrev pub init : System
init = record { flag = idle; at = λ _. outside }

pub data Reach : System → Type 0 where
  begin : Reach init
  next : {s t : System} → Reach s → Step s t → Reach t
