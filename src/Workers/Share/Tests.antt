-- ===== src/Workers/Share/Tests.antt =====
-- Two shares of an account, and the theorems at them.
use photoprism.Prelude.{◌≡◌, refl, true, false, List, [], ◌∷◌, codes, some, text_eq}
use mathlib.Core.List.{mem-cons, not-mem-nil}
use mathlib.Core.Logic.Or
use native.Mathlib.Nat.{ℕ_set}
use photoprism.Prelude.Int.{pos}
use photoprism.Clock.{zero_time}
use photoprism.Sorting.Insertion.{insertion}
use photoprism.Workers.Account.{Account}
use photoprism.Workers.Examples.{cloud}
use photoprism.Workers.Share.{
  share_new, share_shared, FileShare, Attempt, Meeting, is_share_new, share_account,
}
use photoprism.Workers.Share.Rows.{Keyed, MovesBy, find_share}
use photoprism.Workers.Share.Moves.{Uploaded, share_account-MovesBy}

abbrev first_share : FileShare
first_share = record {
  file_id = 1;
  account_id = 1;
  remote_name = codes "/a.jpg";
  status = share_new;
  error = [];
  errors = 1;
  created_at = zero_time;
  updated_at = zero_time;
}

abbrev old_share : FileShare
old_share = record first_share { file_id = 2; status = share_shared; errors = 0 }

abbrev shares : List FileShare
shares = first_share ∷ old_share ∷ []

abbrev refused : FileShare → Attempt
refused f = record {
  canceled_before = false;
  dir_created = true;
  thumb_made = true;
  error = some (codes "507");
  canceled_after = false;
  saved = true;
  now = record { nanos = 9; wall = 9 };
}

abbrev meeting : Meeting
meeting = record {
  canceled = false;
  refused = false;
  now = record { nanos = 9; wall = 9 };
  attempt = refused;
}

abbrev expiring : Account
expiring = record cloud { share_expires = pos 0 }

found_prop : (f : FileShare) → IsProp (find_share f shares ≡ some f)
found_prop f = hlevel ℕ_set

shares-Keyed : Keyed shares
unfolding find_share text_eq
shares-Keyed f m =
    Or.elim (found_prop f) (mem-cons.0 m) (λ e. rw e refl)
      (λ n.
        Or.elim (found_prop f) (mem-cons.0 n) (λ e. rw e refl) (λ none. absurd (not-mem-nil none)))

share_account-MovesBy_example :
    MovesBy is_share_new (Uploaded (pos 1)) shares (share_account insertion cloud meeting shares).0
share_account-MovesBy_example = share_account-MovesBy insertion cloud meeting shares shares-Keyed
