-- ===== src/Workers/Refresh/Kept.antt =====
-- internal/workers/sync_refresh.go: what a whole refresh keeps.
use photoprism.Prelude.{
  ◌≡◌, refl, Bool, true, false, List, [], ◌∷◌, Text, inl, inr, Bool-cases, Option-cases, ◌⊎◌,
}
use photoprism.Txt.Unicode.{Unicode}
use photoprism.Fs.FileType.{get_media_type}
use photoprism.Workers.Account.{Account, is_web_dav}
use photoprism.Workers.SyncTable.{FileSync, new_file_sync, first_or_create}
use photoprism.Workers.Refresh.{
  RemoteFile, Item, Directory, Listing, listed, not_listed, wanted, refresh_file, refresh_files,
  refresh_dirs, Tree, walked, not_walked, refresh_account,
}
use photoprism.Workers.Refresh.Rows.{
  Keeps, Keeps-refl, Keeps-trans, renew-Keeps, first_or_create-Keeps, first_or_create-found,
}

refresh_file-Keeps :
    (u : Unicode) (a : Account) (accepted : Bool) (r : RemoteFile) (t : List FileSync)
    → Keeps t (refresh_file u a accepted r t)
unfolding refresh_file
refresh_file-Keeps u a true r t =
    let m : FileSync =
      new_file_sync a.id r.abs r.date r.size (wanted a (get_media_type u r.name)) in
    let kept = first_or_create-Keeps true m t in
    elim (Option-cases (first_or_create true m t).1) [
      | inl e ↦ rw (e, refresh_file) kept
      | inr (f, e) ↦
          rw (e, refresh_file)
            (Keeps-trans t _ _ kept (renew-Keeps a r _ f _ (first_or_create-found true m t f e)))
    ]
refresh_file-Keeps u a false r t =
    let m : FileSync =
      new_file_sync a.id r.abs r.date r.size (wanted a (get_media_type u r.name)) in
    let kept = first_or_create-Keeps false m t in
    elim (Option-cases (first_or_create false m t).1) [
      | inl e ↦ rw (e, refresh_file) kept
      | inr (f, e) ↦ rw (e, refresh_file) kept
    ]

refresh_files-Keeps :
    (u : Unicode) (a : Account) (is : List Item) (t : List FileSync)
    → Keeps t (refresh_files u a is t).0
unfolding refresh_files
refresh_files-Keeps u a [] t = Keeps-refl t
refresh_files-Keeps u a (i ∷ is) t =
    let t' = refresh_file u a i.accepted i.file t in
    let rest : Keeps t (refresh_files u a is t').0 =
      Keeps-trans t t' _ (refresh_file-Keeps u a i.accepted i.file t)
        (refresh_files-Keeps u a is t') in
    elim (Bool-cases i.canceled) [ inl e ↦ rw e (Keeps-refl t) | inr e ↦ rw e rest ]

Listing-cases :
    (l : Listing) → ((x : Text) × (l ≡ not_listed x)) ⊎ ((is : List Item) × (l ≡ listed is))
Listing-cases (not_listed x) = inl (x, refl)
Listing-cases (listed is) = inr (is, refl)

refresh_dirs-Keeps :
    (u : Unicode) (a : Account) (ds : List Directory) (t : List FileSync)
    → Keeps t (refresh_dirs u a ds t).0
unfolding refresh_dirs
refresh_dirs-Keeps u a [] t = Keeps-refl t
refresh_dirs-Keeps u a (d ∷ ds) t = elim (Bool-cases d.canceled) [
  | inl e ↦ rw (e, refresh_dirs) (Keeps-refl t)
  | inr e ↦ elim (Listing-cases d.listing) [
    | inl (x, l) ↦ rw (e, l, refresh_dirs) (Keeps-refl t)
    | inr (is, l) ↦
        let t' = (refresh_files u a is t).0 in
        let seen : Keeps t t' = refresh_files-Keeps u a is t in
        let rest : Keeps t (refresh_dirs u a ds t').0 =
          Keeps-trans t t' _ seen (refresh_dirs-Keeps u a ds t') in
        elim (Option-cases (refresh_files u a is t).1) [
          | inl s ↦ simp (e, l, s, refresh_dirs) rest
          | inr (o, s) ↦ simp (e, l, s, refresh_dirs) seen
        ]
  ]
]

-- A refresh of the remote files, however it ends, loses no row. It changes a row only to the status
-- "new", and only from "ignore" or "downloaded", and leaves its local file, its name and its count of
-- errors: no file that failed, was uploaded or exists is downloaded again.
pub refresh_account-Keeps :
    (u : Unicode) (a : Account) (tree : Tree) (t : List FileSync)
    → Keeps t (refresh_account u a tree t).0
unfolding refresh_account
refresh_account-Keeps u a (walked ds) t = elim (Bool-cases (is_web_dav a)) [
  | inl e ↦ rw e (refresh_dirs-Keeps u a ds t)
  | inr e ↦ rw e (Keeps-refl t)
]
refresh_account-Keeps u a (not_walked x) t = elim (Bool-cases (is_web_dav a)) [
  | inl e ↦ rw e (Keeps-refl t)
  | inr e ↦ rw e (Keeps-refl t)
]
