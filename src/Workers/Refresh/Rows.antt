-- ===== src/Workers/Refresh/Rows.antt =====
-- internal/workers/sync_refresh.go: what a refresh may do to a row that is there.
use photoprism.Prelude.{
  ℕ, ◌≡◌, refl, Bool, not, ◌&&◌, List, [], ◌∷◌, Text, ◌==◌, if◌then◌else◌, some, arith, ◌⊎◌, inl,
  inr, Bool-cases, text_eq, text_eq_iff,
}
use photoprism.Clock.{equal}
use photoprism.Fs.FileType.{MediaType}
use photoprism.Workers.Account.{Account}
use photoprism.Workers.SyncTable.{
  new, ignored, downloaded, FileSync, first_or_create, find_row, has_key, has_key_iff,
  find_row-append, find_row-update_row_self, find_row-update_row_ne,
}
use photoprism.Workers.Refresh.{
  RemoteFile, to_new, to_changed, renew, is_ignored, is_downloaded, is_raw,
}

-- How a row may change: not at all, or to "new" from "ignore" or from "downloaded". Its error count and
-- its link to a local file stay.
pub record Renewed (f g : FileSync) : Type 0 where
  pub status_from : (g ≡ f) ⊎ (g.status ≡ new) × ((f.status ≡ ignored) ⊎ (f.status ≡ downloaded))
  pub same_file : (g.file_id ≡ f.file_id) × (g.errors ≡ f.errors) × (g.remote_name ≡ f.remote_name)

Renewed-refl : (f : FileSync) → Renewed f f
Renewed-refl f = record { status_from = inl refl; same_file = (refl, refl, refl) }

Renewed-trans : (f g h : FileSync) → Renewed f g → Renewed g h → Renewed f h
Renewed-trans f g h p q = record {
  status_from = ground (arith, p.status_from, q.status_from);
  same_file = ground (arith, p.same_file, q.same_file);
}

-- The row that `renew` leaves.
renewed : Account → RemoteFile → MediaType → FileSync → FileSync
renewed a r media f =
    if is_ignored f.status && (is_raw media && a.sync_raw)
    then to_new f
    else if is_downloaded f.status && not (equal f.remote_date r.date)
    then to_changed r f
    else f

renewed-Renewed :
    (a : Account) (r : RemoteFile) (media : MediaType) (f : FileSync)
    → Renewed f (renewed a r media f)
unfolding renewed
renewed-Renewed a r media f = record { status_from = ground arith; same_file = ground arith }

module _ (a : Account) (r : RemoteFile) (media : MediaType) (f : FileSync)
    (table : List FileSync) where
  find_row-renew_self :
      find_row a.id r.abs table ≡ some f
      → find_row a.id r.abs (renew a r media f table) ≡ some (renewed a r media f)
  unfolding renew renewed has_key
  find_row-renew_self h = ground (
    arith,
    find_row-update_row_self a.id r.abs to_new table (λ g. refl),
    find_row-update_row_self a.id r.abs (to_changed r) table (λ g. refl),
  )

  find_row-renew_ne :
      (id : ℕ) (name : Text)
      → ¬ ((a.id ≡ id) × (r.abs ≡ name))
      → find_row id name (renew a r media f table) ≡ find_row id name table
  unfolding renew has_key
  find_row-renew_ne id name ne = ground (
    arith,
    find_row-update_row_ne a.id id r.abs name to_new table (λ g. refl) ne,
    find_row-update_row_ne a.id id r.abs name (to_changed r) table (λ g. refl) ne,
  )

-- No row is lost, and each changes at most as `Renewed` says.
abbrev pub Keeps : List FileSync → List FileSync → Type 0
Keeps table table' =
    (id : ℕ) (name : Text) (f : FileSync)
    → find_row id name table ≡ some f
    → (g : FileSync) × (find_row id name table' ≡ some g) × Renewed f g

pub Keeps-refl : (t : List FileSync) → Keeps t t
Keeps-refl t id name f h = (f, h, Renewed-refl f)

pub Keeps-trans : (t u v : List FileSync) → Keeps t u → Keeps u v → Keeps t v
Keeps-trans t u v p q id name f h =
    let (g, at_g, fg) = p id name f h in
    let (k, at_k, gk) = q id name g at_g in (k, at_k, Renewed-trans f g k fg gk)

same_key : (id id' : ℕ) (name name' : Text) → Dec ((id ≡ id') × (name ≡ name'))
same_key id id' name name' = elim (Bool-cases (id == id' && text_eq name name')) [
  | inl e ↦ yes (ground (arith, text_eq_iff name name'))
  | inr e ↦ no (λ (p, q). ground (arith, text_eq_iff name name'))
]

pub renew-Keeps :
    (a : Account) (r : RemoteFile) (media : MediaType) (f : FileSync) (t : List FileSync)
    → find_row a.id r.abs t ≡ some f
    → Keeps t (renew a r media f t)
renew-Keeps a r media f t at_f id name g at_g = elim (same_key a.id id r.abs name) [
  | yes (p, q) ↦
      let e : f ≡ g = ground (arith, at_f, at_g, p, q) in
      (
        renewed a r media f,
        ground (arith, find_row-renew_self a r media f t at_f, p, q),
        ground (arith, renewed-Renewed a r media f, e),
      )
  | no ne ↦ (g, ground (arith, find_row-renew_ne a r media f t id name ne), Renewed-refl g)
]

find_row-single : (m : FileSync) → find_row m.account_id m.remote_name (m ∷ []) ≡ some m
unfolding find_row
find_row-single m = ground (arith, has_key_iff m.account_id m.remote_name m)

module _ (accepted : Bool) (m : FileSync) (t : List FileSync) where
  pub first_or_create-Keeps : Keeps t (first_or_create accepted m t).0
  unfolding first_or_create
  first_or_create-Keeps id name f h =
      (f, ground (arith, find_row-append id name t (m ∷ [])), Renewed-refl f)

  pub first_or_create-found :
      (f : FileSync)
      → (first_or_create accepted m t).1 ≡ some f
      → find_row m.account_id m.remote_name (first_or_create accepted m t).0 ≡ some f
  unfolding first_or_create
  first_or_create-found f h =
      ground (arith, find_row-append m.account_id m.remote_name t (m ∷ []), find_row-single m)
