-- ===== src/Workers/Download/Stuck.antt =====
-- internal/workers/sync_download.go: what becomes of a remote file that failed too often.
use photoprism.Prelude.{
  ℕ, ◌==◌, ◌&&◌, ◌||◌, ◌≡◌, refl, ◌≢◌, true, false, List, [], ◌∷◌, take, keep, is_nil, Text,
  text_eq, ◌⊎◌, ◌∙◌, Option, none, some, arith, All, All-append, All-take, Bool-cases, inl, inr,
}
use photoprism.Prelude.Int.{ltb_ℤ, pos}
use photoprism.Workers.Account.{Account}
use photoprism.Workers.Sync.{complete}
use photoprism.Workers.SyncTable.{FileSync, has_key, has_key_iff, find_row, update_row}
use photoprism.Workers.Download.{
  Answer, is_new, Group, file_syncs, add_to_group, group_all, related_downloads, fetched,
  download_file, download_files, download_groups, download, jobs_of, max_results,
}
use photoprism.Workers.Download.Chosen.{
  All-keep, All-insertion_sort, is_nil-insertion_sort, is_nil-take, Group-cases, is_nil-group_nil,
}

module _ (a : Account) (id : ℕ) (name : Text) where
  -- A row with the key has the status "new" and more errors than the account allows.
  abbrev pub GaveUp : FileSync → Type 0
  GaveUp f =
      has_key id name f ≡ true → (is_new f ≡ true) × (ltb_ℤ a.retry_limit (pos f.errors) ≡ true)

  -- The row is the one that the table has under the key, and what has the key gave up.
  pub record IsStuck (row : FileSync) (table : List FileSync) : Type 0 where
    pub present : find_row id name table ≡ some row
    pub gave_up : All GaveUp table

  module _ (f h : FileSync) (same : (h.account_id ≡ f.account_id) × (h.remote_name ≡ f.remote_name))
      (other : has_key id name f ≡ false) where
    find_row-overwrite :
        (t : List FileSync)
        → find_row id name (update_row f.account_id f.remote_name (λ g. h) t) ≡ find_row id name t
    unfolding find_row update_row
    find_row-overwrite [] = refl
    find_row-overwrite (g ∷ t) = ground (
      arith,
      find_row-overwrite t,
      has_key_iff id name f,
      has_key_iff id name h,
      has_key_iff id name g,
      has_key_iff f.account_id f.remote_name g,
    )

    All-overwrite :
        (t : List FileSync)
        → All GaveUp t
        → All GaveUp (update_row f.account_id f.remote_name (λ g. h) t)
    unfolding update_row
    All-overwrite [] all = tt
    All-overwrite (g ∷ t) (p, all) = elim (Bool-cases (has_key f.account_id f.remote_name g)) [
      | inl e ↦ rw e (
        λ k. absurd (ground (arith, has_key_iff id name f, has_key_iff id name h)),
        All-overwrite t all,
      )
      | inr e ↦ rw e (p, All-overwrite t all)
    ]

  fetched_same :
      (r : Answer) (f : FileSync)
      → ((fetched r f).account_id ≡ f.account_id) × ((fetched r f).remote_name ≡ f.remote_name)
  unfolding fetched
  fetched_same r f = ground arith

  file_cases :
      (r : Answer) (f : FileSync) (t : List FileSync)
      → ((download_file a r f t).0 ≡ t)
        ⊎ ((download_file a r f t).0 ≡ update_row f.account_id f.remote_name (λ g. fetched r f) t)
  unfolding download_file
  file_cases r f t = ground arith

  -- A row that gave up is passed over; another one is written under its own key.
  download_file-IsStuck :
      (r : Answer) (f row : FileSync) (t : List FileSync)
      → GaveUp f
      → IsStuck row t
      → IsStuck row (download_file a r f t).0
  unfolding download_file
  download_file-IsStuck r f row t p stuck = elim (Bool-cases (has_key id name f)) [
    | inl e ↦
        let (still, over) = p e in
        let kept : (download_file a r f t).0 ≡ t = ground arith in rw kept stuck
    | inr e ↦
        let written : IsStuck row (update_row f.account_id f.remote_name (λ g. fetched r f) t) =
          record {
            present = find_row-overwrite f (fetched r f) (fetched_same r f) e t ∙ stuck.present;
            gave_up = All-overwrite f (fetched r f) (fetched_same r f) e t stuck.gave_up;
          } in
        elim (file_cases r f t) [ inl kept ↦ rw kept stuck | inr done ↦ rw done written ]
  ]

  download_files-IsStuck :
      (answer : FileSync → Answer) (fs : List FileSync) (row : FileSync) (t : List FileSync)
      → All GaveUp fs
      → IsStuck row t
      → IsStuck row (download_files a answer fs t).0
  unfolding download_files
  download_files-IsStuck answer [] row t p stuck = stuck
  download_files-IsStuck answer (f ∷ fs) row t (p, ps) stuck =
      let here = download_file-IsStuck (answer f) f row t p stuck in
      let t' = (download_file a (answer f) f t).0 in
      elim (Bool-cases (download_file a (answer f) f t).2) [
        | inl on ↦ simp (on, download_files) (download_files-IsStuck answer fs row t' ps here)
        | inr off ↦ simp (off, download_files) here
      ]

  abbrev AllGroups : List Group → Type 0
  AllGroups = All (λ g. All GaveUp g.1)

  download_groups-IsStuck :
      (answer : FileSync → Answer) (media : Text → Option (Text × List Text)) (gs : List Group)
      (row : FileSync) (t : List FileSync) (done : List Text)
      → AllGroups gs
      → IsStuck row t
      → IsStuck row (download_groups a answer media gs t done).0
  unfolding download_groups
  download_groups-IsStuck answer media [] row t done p stuck = stuck
  download_groups-IsStuck answer media ((k, fs) ∷ gs) row t done (p, ps) stuck =
      let here = download_files-IsStuck answer fs row t p stuck in
      let (t', fs', on') = download_files a answer fs t in
      elim (Bool-cases (download_files a answer fs t).2) [
        | inl on ↦
            simp (on, download_groups)
              (download_groups-IsStuck answer media gs row t' (jobs_of media fs' done).1 ps here)
        | inr off ↦ simp (off, download_groups) here
      ]

  add_to_group-AllGroups :
      (k : Text) (f : FileSync) (gs : List Group)
      → GaveUp f
      → AllGroups gs
      → AllGroups (add_to_group k f gs)
  unfolding add_to_group
  add_to_group-AllGroups k f [] p h = ((p, tt), tt)
  add_to_group-AllGroups k f ((j, fs) ∷ gs) p (q, h) = elim (Bool-cases (text_eq j k)) [
    | inl e ↦ rw (e, add_to_group) (All-append GaveUp fs (f ∷ []) q (p, tt), h)
    | inr e ↦ rw (e, add_to_group) (q, add_to_group-AllGroups k f gs p h)
  ]

  group_all-AllGroups :
      (base : Text → Text) (fs : List FileSync) (gs : List Group)
      → All GaveUp fs
      → AllGroups gs
      → AllGroups (group_all base fs gs)
  unfolding group_all
  group_all-AllGroups base [] gs p h = h
  group_all-AllGroups base (f ∷ fs) gs (p, ps) h =
      group_all-AllGroups base fs (add_to_group (base f.remote_name) f gs) ps
        (add_to_group-AllGroups (base f.remote_name) f gs p h)

module _ (base : Text → Text) (a : Account) (name : Text) (row : FileSync) (t : List FileSync)
    (stuck : IsStuck a a.id name row t) where
  found_new :
      (f : FileSync) (l : List FileSync)
      → find_row a.id name l ≡ some f
      → All (GaveUp a a.id name) l
      → is_nil (keep (λ h. (a.id == 0 || h.account_id == a.id) && is_new h) l) ≡ false
  unfolding find_row
  found_new f [] h all = absurd (ground arith)
  found_new f (g ∷ l) h (p, all) = ground (arith, found_new f l, p, has_key_iff a.id name g)

  file_syncs-ne-nil : is_nil (file_syncs a.id max_results t) ≡ false
  unfolding file_syncs
  file_syncs-ne-nil = is_nil-take max_results _ (omega arith) (
      is_nil-insertion_sort _ (keep (λ h. (a.id == 0 || h.account_id == a.id) && is_new h) t)
      ∙ found_new row t stuck.present stuck.gave_up)

  file_syncs-GaveUp : All (GaveUp a a.id name) (file_syncs a.id max_results t)
  unfolding file_syncs
  file_syncs-GaveUp = All-take (GaveUp a a.id name) max_results _ (
      All-insertion_sort (GaveUp a a.id name) _ _ (All-keep (GaveUp a a.id name) _ t stuck.gave_up))

  related_downloads-ne-nil : is_nil (related_downloads base a.id t) ≡ false
  unfolding related_downloads
  related_downloads-ne-nil =
      is_nil-group_nil base (take 952 (file_syncs a.id max_results t))
        (is_nil-take 952 (file_syncs a.id max_results t) (omega arith) file_syncs-ne-nil)

  related_downloads-AllGroups : AllGroups a a.id name (related_downloads base a.id t)
  unfolding related_downloads
  related_downloads-AllGroups =
      group_all-AllGroups a a.id name base (take 952 (file_syncs a.id max_results t)) []
        (All-take (GaveUp a a.id name) 952 _ file_syncs-GaveUp) tt

-- When what the table has under the key of a remote file of the account is new and failed more often than the
-- retry limit allows, it blocks the download for good: whatever the worker meets, the very same row, its
-- status, errors and error included, is found under the key afterwards and still blocks, and no round
-- reports the phase complete, so the account never goes on to its upload.
pub download-IsStuck :
    (base : Text → Text) (a : Account) (refused : Option Text) (answer : FileSync → Answer)
    (media : Text → Option (Text × List Text)) (name : Text) (row : FileSync) (t : List FileSync)
    → IsStuck a a.id name row t
    → IsStuck a a.id name row (download base a refused answer media t).0
      × ((download base a refused answer media t).2 ≢ complete)
unfolding download
download-IsStuck base a (some e) answer media name row t stuck = (stuck, λ h. ground arith)
download-IsStuck base a none answer media name row t stuck =
    let all = related_downloads-AllGroups base a name row t stuck in
    elim (Group-cases (related_downloads base a.id t)) [
      | inl e ↦ absurd (ground (arith, e, related_downloads-ne-nil base a name row t stuck))
      | inr (g, gs, e) ↦
          rw (e, download)
            (
              download_groups-IsStuck a a.id name answer media (g ∷ gs) row t [] (rw e at all)
                  stuck,
              λ h. ground arith,
            )
    ]
