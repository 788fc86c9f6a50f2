-- ===== src/Mutex.antt =====
-- internal/mutex: the busy flag that lets one run of a background job at a time, and the four flags
-- of the program. The inner `sync.Mutex` makes each method atomic, so a method is one function.
pub mod System
pub mod Exclusion
mod Tests
use photoprism.Prelude.{Bool, true, false, ◌||◌, Option, none, some, if◌then◌else◌}

pub record Busy : Type 0 where
  pub busy : Bool
  pub canceled : Bool

-- The two errors of `Start`.
pub data StartError : Type 0 where
  still_running already_running : StartError

-- The zero value, with which the package's variables begin.
abbrev pub idle : Busy
idle = record { busy = false; canceled = false }

abbrev pub is_busy : Busy → Bool
is_busy b = b.busy

abbrev pub is_canceled : Busy → Bool
is_canceled b = b.canceled

unfoldable pub start : Busy → Busy × Option StartError
start b =
    if b.canceled
    then (b, some still_running)
    else if b.busy
    then (b, some already_running)
    else (record { busy = true; canceled = false }, none)

unfoldable pub stop : Busy → Busy
stop b = record { busy = false; canceled = false }

unfoldable pub cancel : Busy → Busy
cancel b = if b.busy then record b { canceled = true } else b

-- The package's variables, `Db` apart.
pub record Workers : Type 0 where
  pub main_worker : Busy
  pub sync_worker : Busy
  pub share_worker : Busy
  pub prism_worker : Busy

unfoldable pub workers_busy : Workers → Bool
workers_busy w =
    is_busy w.main_worker
    || is_busy w.sync_worker
    || is_busy w.share_worker
    || is_busy w.prism_worker
