-- ===== src/Workers/Share.antt =====
-- internal/workers/share.go and internal/entity/file_share.go: new shares are uploaded, expired ones
-- removed. What the disk, the WebDAV client and the database answer are arguments.
pub mod Rows
pub mod Moves
mod Tests
use photoprism.Prelude.{
  ℕ, ◌+◌, ◌*◌, ◌≡◌, Bool, true, false, not, ◌&&◌, ◌||◌, List, [], ◌∷◌, take, keep, any, Text, codes,
  text_eq, ltb, ◌==◌, if◌then◌else◌, Option, none, some,
}
use photoprism.Prelude.Int.{ℤ, pos, pos_part, ltb_ℤ, leb_ℤ}
use photoprism.Clock.{Time, before, second}
use photoprism.Sorting.{Sorter}
use photoprism.Workers.Account.{Account, is_web_dav}

pub data ShareStatus : Type 0 where
  share_new share_error share_shared share_removed : ShareStatus

pub record FileShare : Type 0 where
  pub file_id : ℕ
  pub account_id : ℕ
  pub remote_name : Text
  pub status : ShareStatus
  pub error : Text
  pub errors : ℕ
  pub created_at : Time
  pub updated_at : Time

abbrev pub new_file_share : ℕ → ℕ → Text → Time → FileShare
new_file_share file_id account_id remote_name now = record {
  file_id = file_id;
  account_id = account_id;
  remote_name = remote_name;
  status = share_new;
  error = [];
  errors = 0;
  created_at = now;
  updated_at = now;
}

-- The primary key.
abbrev pub same_share : FileShare → FileShare → Bool
same_share f g =
    f.file_id == g.file_id && f.account_id == g.account_id && text_eq f.remote_name g.remote_name

-- `Save` of a row that is there.
unfoldable pub save_share : FileShare → List FileShare → List FileShare
save_share g [] = []
save_share g (f ∷ fs) = (if same_share f g then g else f) ∷ save_share g fs

abbrev pub is_share_new : FileShare → Bool
is_share_new f = elim f.status [ share_new ↦ true | _ ↦ false ]

abbrev pub is_shared : FileShare → Bool
is_shared f = elim f.status [ share_shared ↦ true | _ ↦ false ]

-- `ORDER BY` of the database is a sort of the standard contract.
abbrev pub Db : Type 0
Db = Sorter FileShare

-- `query.FileShares` of the new shares of an account.
unfoldable pub file_shares : Db → Account → List FileShare → List FileShare
file_shares db a table = take 100 (
    db.sort (λ f g. before f.created_at g.created_at)
      (keep (λ f. (a.id == 0 || f.account_id == a.id) && is_share_new f) table))

-- Written before now - interval, for an interval that is not negative.
abbrev pub is_expired : ℕ → Time → FileShare → Bool
is_expired interval now f = ltb (f.updated_at.nanos + interval * second) now.nanos

-- `query.ExpiredFileShares`.
unfoldable pub expired_file_shares : Db → Account → Time → List FileShare → List FileShare
expired_file_shares db a now table =
    if leb_ℤ a.share_expires (pos 0)
    then []
    else take 100 (
        db.sort (λ f g. before f.updated_at g.updated_at)
          (keep
            (λ f.
              f.account_id == a.id && is_shared f && is_expired (pos_part a.share_expires) now f)
            table))

-- The keys of `thumb.Types`.
abbrev pub thumb_types : List Text
thumb_types =
    codes "tile_50"
    ∷ codes "tile_100"
    ∷ codes "tile_224"
    ∷ codes "tile_500"
    ∷ codes "colors"
    ∷ codes "left_224"
    ∷ codes "right_224"
    ∷ codes "fit_720"
    ∷ codes "fit_1280"
    ∷ codes "fit_1920"
    ∷ codes "fit_2048"
    ∷ codes "fit_2560"
    ∷ codes "fit_3840"
    ∷ []

-- What the worker meets at one file: `Canceled` before it, whether the folder and the thumbnail were
-- made, the error of `Upload` or `Delete`, `Canceled` behind it, whether the row was saved, and when.
pub record Attempt : Type 0 where
  pub canceled_before : Bool
  pub dir_created : Bool
  pub thumb_made : Bool
  pub error : Option Text
  pub canceled_after : Bool
  pub saved : Bool
  pub now : Time

-- The row that is saved behind the upload.
unfoldable pub after_upload : Account → Attempt → FileShare → FileShare
after_upload a r f =
    let g : FileShare = elim r.error [
      | some e ↦ record f { errors = f.errors + 1; error = e; updated_at = r.now }
      | none ↦ record f { errors = 0; error = []; status = share_shared; updated_at = r.now }
    ] in
    if leb_ℤ (pos 0) a.retry_limit && ltb_ℤ a.retry_limit (pos g.errors)
    then record g { status = share_error }
    else g

-- One file of the first loop: the table, and whether the worker goes on.
unfoldable pub share_file : Account → Attempt → FileShare → List FileShare → List FileShare × Bool
share_file a r f table =
    if r.canceled_before
    then (table, false)
    else if not r.dir_created
    then (table, true)
    else if not (text_eq a.share_size []) && not (any (text_eq a.share_size) thumb_types)
    then (table, true)
    else if not (text_eq a.share_size []) && not r.thumb_made
    then (table, true)
    else if r.canceled_after
    then (table, false)
    else (if r.saved then save_share (after_upload a r f) table else table, true)

unfoldable pub after_delete : Attempt → FileShare → FileShare
after_delete r f = elim r.error [
  | some e ↦ record f { errors = f.errors + 1; error = e; updated_at = r.now }
  | none ↦ record f { errors = 0; error = []; status = share_removed; updated_at = r.now }
]

-- One file of the second loop.
unfoldable pub unshare_file : Attempt → FileShare → List FileShare → List FileShare × Bool
unshare_file r f table =
    if r.canceled_before
    then (table, false)
    else (if r.saved then save_share (after_delete r f) table else table, true)

-- A loop over files, with the step for one of them.
unfoldable pub each_file :
    (FileShare → List FileShare → List FileShare × Bool)
    → List FileShare
    → List FileShare
    → List FileShare × Bool
each_file step [] table = (table, true)
each_file step (f ∷ fs) table =
    let (table', on) = step f table in
    let rest = each_file step fs table' in elim on [ true ↦ rest | false ↦ (table', false) ]

-- What the worker meets at an account in one of the two loops.
pub record Meeting : Type 0 where
  pub canceled : Bool
  pub refused : Bool
  pub now : Time
  pub attempt : FileShare → Attempt

unfoldable pub share_account : Db → Account → Meeting → List FileShare → List FileShare × Bool
unfolding each_file
share_account db a w table =
    if w.canceled
    then (table, false)
    else if not (is_web_dav a) || w.refused
    then (table, true)
    else each_file (λ f. share_file a (w.attempt f) f) (file_shares db a table) table

unfoldable pub unshare_account : Db → Account → Meeting → List FileShare → List FileShare × Bool
unfolding each_file
unshare_account db a w table =
    if w.canceled
    then (table, false)
    else if not (is_web_dav a) || w.refused
    then (table, true)
    else each_file (λ f. unshare_file (w.attempt f) f) (expired_file_shares db a w.now table) table

unfoldable pub each_account :
    (Account → List FileShare → List FileShare × Bool)
    → List Account
    → List FileShare
    → List FileShare × Bool
each_account step [] table = (table, true)
each_account step (a ∷ later) table =
    let (table', on) = step a table in
    let rest = each_account step later table' in elim on [ true ↦ rest | false ↦ (table', false) ]

-- `Start` behind the flag and the query for the accounts.
unfoldable pub share_start :
    Db → List Account → (Account → Meeting) → (Account → Meeting) → List FileShare → List FileShare
unfolding each_account
share_start db accounts first second table =
    let (table', on) = each_account (λ a. share_account db a (first a)) accounts table in
    let removed = each_account (λ a. unshare_account db a (second a)) accounts table' in
    elim on [ true ↦ removed.0 | false ↦ table' ]
