-- ===== src/Mutex/Exclusion.antt =====
-- internal/mutex/busy.go: the states that goroutines sharing a flag can reach.
use photoprism.Prelude.{ℕ, ◌≡◌, true, none, some, arith, ◌⊎◌, inl, inr, Bool-cases}
use photoprism.Mutex.{StartError, start, stop, cancel}
use photoprism.Mutex.System.{
  outside, inside, System, move, Step, enter, refused, leave, interrupt, init, Reach, begin, next,
}

record Inv (s : System) : Type 0 where
  alone : (i j : ℕ) → s.at i ≡ inside → s.at j ≡ inside → i ≡ j
  marked : (i : ℕ) → s.at i ≡ inside → s.flag.busy ≡ true
  held : s.flag.busy ≡ true → (i : ℕ) × (s.at i ≡ inside)
  asked : s.flag.canceled ≡ true → s.flag.busy ≡ true

init-Inv : Inv init
init-Inv = record { alone = λ i j h k. cc; marked = λ i h. cc; held = λ h. cc; asked = λ h. cc }

enter-Inv :
    {s : System} (i : ℕ)
    → Inv s
    → (start s.flag).1 ≡ none
    → Inv (record { flag = (start s.flag).0; at = move s.at i inside })
unfolding start
enter-Inv {s} i v ok = record {
  alone = λ j k hj hk. ground (arith, v.marked j, v.marked k);
  marked = λ j h. ground arith;
  held = λ h. (i, ground arith);
  asked = λ h. ground arith;
}

leave-Inv :
    {s : System} (i : ℕ)
    → Inv s
    → s.at i ≡ inside
    → Inv (record { flag = stop s.flag; at = move s.at i outside })
unfolding stop
leave-Inv {s} i v here = record {
  alone = λ j k hj hk. ground (arith, v.alone i j, v.alone i k);
  marked = λ j h. ground (arith, v.alone i j);
  held = λ h. cc;
  asked = λ h. cc;
}

cancel-Inv : {s : System} → Inv s → Inv (record { flag = cancel s.flag; at = s.at })
unfolding cancel
cancel-Inv {s} v = record {
  alone = v.alone;
  marked = λ j h. ground (arith, v.marked j);
  held = λ h. v.held (ground arith);
  asked = λ h. ground arith;
}

refused-Inv :
    {s : System} (e : StartError)
    → Inv s
    → (start s.flag).1 ≡ some e
    → Inv (record { flag = (start s.flag).0; at = s.at })
unfolding start
refused-Inv {s} e v h = record {
  alone = v.alone;
  marked = λ j k. ground (arith, v.marked j);
  held = λ k. v.held (ground arith);
  asked = λ k. ground arith;
}

Step-Inv : {s t : System} → Step s t → Inv s → Inv t
Step-Inv (enter i out ok e) v = rw e (enter-Inv i v ok)
Step-Inv (refused i x out no_start e) v = rw e (refused-Inv x v no_start)
Step-Inv (leave i here e) v = rw e (leave-Inv i v here)
Step-Inv (interrupt e) v = rw e (cancel-Inv v)

Reach-Inv : {s : System} → Reach s → Inv s
Reach-Inv begin = init-Inv
Reach-Inv (next r st) = Step-Inv st (Reach-Inv r)

-- In every reachable state at most one goroutine is between `Start` and `Stop`.
pub mutual_exclusion :
    {s : System} → Reach s → (i j : ℕ) → s.at i ≡ inside → s.at j ≡ inside → i ≡ j
mutual_exclusion r = (Reach-Inv r).alone

-- In every reachable state `Start` succeeds exactly when no goroutine is between `Start` and `Stop`:
-- a cancellation never outlives the run that it was meant for.
pub start_iff_free :
    {s : System}
    → Reach s
    → ((start s.flag).1 ≡ none → (i : ℕ) → s.at i ≡ outside)
      × (((i : ℕ) → s.at i ≡ outside) → (start s.flag).1 ≡ none)
unfolding start
start_iff_free {s} r = (
  λ ok i. ground (arith, v.marked i, v.asked),
  λ free. elim (Bool-cases s.flag.busy) [
    | inl b ↦ let (i, h) = v.held b in ground (arith, free i)
    | inr b ↦ ground (arith, v.asked)
  ],
)
  where
    v : Inv s
    v = Reach-Inv r

-- Once `Cancel` has reached a run, the flag stays up until the goroutine of that run calls `Stop`: a
-- step from a reachable state lowers it only by the inside goroutine leaving.
pub canceled_until_leave :
    {s t : System}
    → Reach s
    → s.flag.canceled ≡ true
    → Step s t
    → (t.flag.canceled ≡ true) ⊎ ((i : ℕ) × (s.at i ≡ inside) × (t.at i ≡ outside))
unfolding start cancel
canceled_until_leave r h (enter i out ok e) = absurd (ground arith)
canceled_until_leave r h (refused i x out no_start e) = inl (ground arith)
canceled_until_leave r h (leave i here e) = inr (i, here, ground arith)
canceled_until_leave r h (interrupt e) = inl (ground arith)
