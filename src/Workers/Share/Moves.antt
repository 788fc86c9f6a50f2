-- ===== src/Workers/Share/Moves.antt =====
-- internal/workers/share.go: how the rows of an account move in the two loops.
use photoprism.Prelude.{
  ◌+◌, ◌≡◌, sym, true, List, [], Text, some, arith, ◌⊎◌, All, All-take, inl, inr, Bool-cases,
}
use mathlib.Core.List.Perm
use mathlib.Core.Path.{subst}
use photoprism.Prelude.Int.{ℤ, pos, leb_ℤ, ◌≤ℤ◌, ◌<ℤ◌}
use photoprism.Clock.{Time}
use photoprism.Workers.Account.{Account}
use photoprism.Workers.Share.{
  share_error, share_shared, share_removed, FileShare, same_share, save_share, is_share_new,
  is_shared, Db, file_shares, expired_file_shares, Attempt, after_upload, share_file, after_delete,
  unshare_file, each_file, Meeting, share_account, unshare_account,
}
use photoprism.Workers.Share.Rows.{
  find_share, same_share_iff, All-of_mem, mem_of_mem-keep, test_of_mem-keep, Keyed, MovesBy,
  MovesBy-refl, each_file-MovesBy,
}

-- What the first loop makes of a new share: it is shared with no error, or has one error more and is
-- given up where that is beyond a retry limit that is not negative.
pub data Uploaded (limit : ℤ) (f : FileShare) : FileShare → Type 0 where
  sent :
      (now : Time)
      → Uploaded limit f
          (record f { errors = 0; error = []; status = share_shared; updated_at = now })
  retried :
      (e : Text) (now : Time)
      → (limit <ℤ pos 0) ⊎ (pos (f.errors + 1) ≤ℤ limit)
      → Uploaded limit f (record f { errors = f.errors + 1; error = e; updated_at = now })
  given_up :
      (e : Text) (now : Time)
      → pos 0 ≤ℤ limit
      → limit <ℤ pos (f.errors + 1)
      → Uploaded limit f
          (record f { errors = f.errors + 1; error = e; status = share_error; updated_at = now })

-- What the second loop makes of a shared file: it is removed, or has one error more.
pub data Removed (f : FileShare) : FileShare → Type 0 where
  deleted :
      (now : Time)
      → Removed f (record f { errors = 0; error = []; status = share_removed; updated_at = now })
  still_there :
      (e : Text) (now : Time)
      → Removed f (record f { errors = f.errors + 1; error = e; updated_at = now })

after_upload-Uploaded :
    (a : Account) (r : Attempt) (f : FileShare) → Uploaded a.retry_limit f (after_upload a r f)
unfolding after_upload
after_upload-Uploaded a r f = grind (arith, sent, retried, given_up)

after_delete-Removed : (r : Attempt) (f : FileShare) → Removed f (after_delete r f)
unfolding after_delete
after_delete-Removed r f = grind (arith, deleted, still_there)

same_share_refl : (f : FileShare) → same_share f f ≡ true
same_share_refl f = ground (arith, same_share_iff f f)

Uploaded-same : (limit : ℤ) (f g : FileShare) → Uploaded limit f g → same_share f g ≡ true
Uploaded-same limit f g (sent now) = same_share_refl f
Uploaded-same limit f g (retried e now few) = same_share_refl f
Uploaded-same limit f g (given_up e now some_limit over) = same_share_refl f

Removed-same : (f g : FileShare) → Removed f g → same_share f g ≡ true
Removed-same f g (deleted now) = same_share_refl f
Removed-same f g (still_there e now) = same_share_refl f

share_file_cases :
    (a : Account) (r : Attempt) (f : FileShare) (t : List FileShare)
    → ((share_file a r f t).0 ≡ t) ⊎ ((share_file a r f t).0 ≡ save_share (after_upload a r f) t)
unfolding share_file
share_file_cases a r f t = ground arith

unshare_file_cases :
    (r : Attempt) (f : FileShare) (t : List FileShare)
    → ((unshare_file r f t).0 ≡ t) ⊎ ((unshare_file r f t).0 ≡ save_share (after_delete r f) t)
unfolding unshare_file
unshare_file_cases r f t = ground arith

share_account_cases :
    (db : Db) (a : Account) (w : Meeting) (t : List FileShare)
    → ((share_account db a w t).0 ≡ t)
      ⊎ ((share_account db a w t).0
          ≡ (each_file (λ f. share_file a (w.attempt f) f) (file_shares db a t) t).0)
unfolding share_account
share_account_cases db a w t = ground arith

unshare_account_cases :
    (db : Db) (a : Account) (w : Meeting) (t : List FileShare)
    → ((unshare_account db a w t).0 ≡ t)
      ⊎ ((unshare_account db a w t).0
          ≡ (each_file (λ f. unshare_file (w.attempt f) f) (expired_file_shares db a w.now t) t).0)
unfolding unshare_account
unshare_account_cases db a w t = ground arith

share_file_law :
    (a : Account) (r : Attempt) (f : FileShare) (t : List FileShare)
    → ((share_file a r f t).0 ≡ t)
      ⊎ ((g : FileShare) × Uploaded a.retry_limit f g × ((share_file a r f t).0 ≡ save_share g t))
share_file_law a r f t = elim (share_file_cases a r f t) [
  | inl e ↦ inl e
  | inr e ↦ inr (after_upload a r f, after_upload-Uploaded a r f, e)
]

unshare_file_law :
    (r : Attempt) (f : FileShare) (t : List FileShare)
    → ((unshare_file r f t).0 ≡ t)
      ⊎ ((g : FileShare) × Removed f g × ((unshare_file r f t).0 ≡ save_share g t))
unshare_file_law r f t = elim (unshare_file_cases r f t) [
  | inl e ↦ inl e
  | inr e ↦ inr (after_delete r f, after_delete-Removed r f, e)
]

module _ (db : Db) (a : Account) (w : Meeting) (t : List FileShare) (keyed : Keyed t) where
  file_shares-All :
      All (λ f. (find_share f t ≡ some f) × (is_share_new f ≡ true)) (file_shares db a t)
  unfolding file_shares
  file_shares-All = All-take _ 100 _ (
      All-of_mem _ _ (λ f m.
        let m' = (Perm.mem_iff (db.sort-perm _ _)).0 m in
        (keyed f (mem_of_mem-keep _ t f m'), ground (arith, test_of_mem-keep _ t f m'))))

  expired_file_shares-All :
      All (λ f. (find_share f t ≡ some f) × (is_shared f ≡ true)) (expired_file_shares db a w.now t)
  unfolding expired_file_shares
  expired_file_shares-All = elim (Bool-cases (leb_ℤ a.share_expires (pos 0))) [
    | inl e ↦ rw (e, expired_file_shares) tt
    | inr e ↦
        rw (e, expired_file_shares)
          (All-take _ 100 _ (
            All-of_mem _ _ (λ f m.
              let m' = (Perm.mem_iff (db.sort-perm _ _)).0 m in
              (keyed f (mem_of_mem-keep _ t f m'), ground (arith, test_of_mem-keep _ t f m')))))
  ]

  -- The first loop of the share worker over one account, whatever it meets, loses no row and changes only
  -- new shares: a change makes the share shared without an error, or counts one error more, and the
  -- share is given up exactly where that is beyond a retry limit that is not negative.
  pub share_account-MovesBy :
      MovesBy is_share_new (Uploaded a.retry_limit) t (share_account db a w t).0
  unfolding share_account
  share_account-MovesBy = elim (share_account_cases db a w t) [
    | inl e ↦ subst (MovesBy is_share_new (Uploaded a.retry_limit) t) (sym e) (MovesBy-refl _ _ t)
    | inr e ↦ subst (MovesBy is_share_new (Uploaded a.retry_limit) t) (sym e) (
        each_file-MovesBy is_share_new (Uploaded a.retry_limit) t (Uploaded-same a.retry_limit) _
          (file_shares db a t) t (λ f v. share_file_law a (w.attempt f) f v) file_shares-All
          (MovesBy-refl _ _ t))
  ]

  -- The second loop over one account, whatever it meets, loses no row and changes only shared ones: a
  -- change marks the share as removed without an error, or counts one error more.
  pub unshare_account-MovesBy : MovesBy is_shared Removed t (unshare_account db a w t).0
  unfolding unshare_account
  unshare_account-MovesBy = elim (unshare_account_cases db a w t) [
    | inl e ↦ subst (MovesBy is_shared Removed t) (sym e) (MovesBy-refl _ _ t)
    | inr e ↦ subst (MovesBy is_shared Removed t) (sym e) (
        each_file-MovesBy is_shared Removed t Removed-same _ (expired_file_shares db a w.now t) t
          (λ f v. unshare_file_law (w.attempt f) f v) expired_file_shares-All (MovesBy-refl _ _ t))
  ]
