-- ===== src/Workers/Upload/Written.antt =====
-- internal/workers/sync_upload.go: the rows that an upload writes.
use photoprism.Prelude.{
  ℕ, ◌≡◌, refl, sym, ◌∙◌, true, List, [], ◌∷◌, Text, Option, none, some, arith, ◌⊎◌, inl, inr,
  Bool-cases,
}
use mathlib.Core.Path.{subst}
use photoprism.Workers.Account.{Account}
use photoprism.Workers.Sync.{complete}
use photoprism.Workers.SyncTable.{FileSync, has_key_iff, find_row, find_row-append, update_row}
use photoprism.Workers.Upload.{
  LocalFile, account_uploads, Transfer, save_row, uploaded_row, upload_file, upload_files, upload,
}

find_row-overwrite :
    (id : ℕ) (name : Text) (g : FileSync) (t : List FileSync)
    → (find_row id name (update_row g.account_id g.remote_name (λ h. g) t) ≡ find_row id name t)
      ⊎ (find_row id name (update_row g.account_id g.remote_name (λ h. g) t) ≡ some g)
unfolding find_row update_row
find_row-overwrite id name g [] = inl refl
find_row-overwrite id name g (e ∷ t) = ground (
  arith,
  find_row-overwrite id name g t,
  has_key_iff id name g,
  has_key_iff id name e,
  has_key_iff g.account_id g.remote_name e,
)

find_row-save_row :
    (id : ℕ) (name : Text) (g : FileSync) (t : List FileSync)
    → (find_row id name (save_row g t) ≡ find_row id name t)
      ⊎ (find_row id name (save_row g t) ≡ some g)
unfolding save_row find_row
find_row-save_row id name g t =
    ground (arith, find_row-overwrite id name g t, find_row-append id name t (g ∷ []))

module _ (remote : Text → Text) (a : Account) where
  -- Each key finds what it found, or a row that says "uploaded" for a file that was sent, with no error.
  abbrev pub Written : (LocalFile → Transfer) → List FileSync → List FileSync → Type 0
  Written answer t u =
      (id : ℕ) (name : Text)
      → (find_row id name u ≡ find_row id name t)
        ⊎ ((f : LocalFile) × ((answer f).sent ≡ true)
            × (find_row id name u ≡ some (uploaded_row a (answer f) (remote f.file_name) f)))

  module _ (answer : LocalFile → Transfer) where
    file_cases :
        (f : LocalFile) (t : List FileSync)
        → ((upload_file remote a (answer f) f t).0 ≡ t)
          ⊎ ((answer f).sent ≡ true)
            × ((upload_file remote a (answer f) f t).0
                ≡ save_row (uploaded_row a (answer f) (remote f.file_name) f) t)
    unfolding upload_file
    file_cases f t = ground arith

    file-Written :
        (f : LocalFile) (t u : List FileSync)
        → Written answer t u
        → Written answer t (upload_file remote a (answer f) f u).0
    file-Written f t u w = elim (file_cases f u) [
      | inl e ↦ subst (Written answer t) (sym e) w
      | inr (sent, e) ↦ subst (Written answer t) (sym e) (λ id name.
          elim (find_row-save_row id name (uploaded_row a (answer f) (remote f.file_name) f) u) [
            | inl same ↦ elim (w id name) [
              | inl old ↦ inl (same ∙ old)
              | inr (g, ok, at) ↦ inr (g, ok, same ∙ at)
            ]
            | inr here ↦ inr (f, sent, here)
          ])
    ]

    files-Written :
        (fs : List LocalFile) (t u : List FileSync)
        → Written answer t u
        → Written answer t (upload_files remote a answer fs u)
    unfolding upload_files
    files-Written [] t u w = w
    files-Written (f ∷ fs) t u w =
        let here = file-Written f t u w in
        elim (Bool-cases (upload_file remote a (answer f) f u).1) [
          | inl on ↦
              simp (on, upload_files)
                (files-Written fs t (upload_file remote a (answer f) f u).0 here)
          | inr off ↦ simp (off, upload_files) here
        ]

    Files-cases :
        (l : List LocalFile) → (l ≡ []) ⊎ ((f : LocalFile) × (fs : List LocalFile) × (l ≡ f ∷ fs))
    Files-cases [] = inl refl
    Files-cases (f ∷ fs) = inr (f, fs, refl)

    -- An upload, however it ends, leaves every row as it was or writes one for a file that was sent, with
    -- the status "uploaded" and no error; and it reports the phase complete exactly where the query
    -- succeeds and finds no file to upload.
    pub upload-Written :
        (refused : Option Text) (files : List LocalFile) (t : List FileSync)
        → Written answer t (upload remote a refused answer files t).0
          × ((upload remote a refused answer files t).1 ≡ complete
              → (refused ≡ none) × (account_uploads a 250 t files ≡ []))
          × (refused ≡ none
              → account_uploads a 250 t files ≡ []
              → (upload remote a refused answer files t).1 ≡ complete)
    unfolding upload
    upload-Written (some e) files t =
        ((λ id name. inl refl), (λ h. ground arith), (λ h k. ground arith))
    upload-Written none files t = elim (Files-cases (account_uploads a 250 t files)) [
      | inl x ↦ rw (x, upload) ((λ id name. inl refl), (λ h. (refl, refl)), (λ h k. refl))
      | inr (f, fs, x) ↦
          rw (x, upload)
            (
              files-Written (f ∷ fs) t t (λ id name. inl refl),
              (λ h. ground arith),
              (λ h k. ground arith),
            )
    ]
