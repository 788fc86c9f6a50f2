-- ===== src/Library/Index/Passed.antt =====
-- When the indexer passes a media file over.
use photoprism.Prelude.{
  ◌≡◌, ◌≢◌, refl, Bool, true, false, not, ◌&&◌, first, ◌==◌, Text, Option, none, some, arith, inl,
  inr, Bool-cases, Option-cases,
}
use mathlib.Core.Path.{subst}
use mathlib.Core.List.{Mem}
use photoprism.Entity.Photo.{Photo}
use photoprism.Library.Index.Records.{
  Media, File, file_changed, IndexStore, Setting, IndexStatus, skipped, duplicate, archived, failed,
  updated, added, IndexResult,
}
use photoprism.Library.Index.Lookup.{
  found, find_file, find_photo, stopped, enter, begin, no_file, start_photo,
}
use photoprism.Library.Index.Written.{
  Written, refused_first, refused_second, refused_file, done, write_all-Written, Begun-cases,
  FoundFile-cases,
}
use photoprism.Library.Index.{Gathered, index_media_file, prepare}
use photoprism.Library.Index.Own.{
  first_lem, IsRowOf, IsNew, IsCopyOf, IsPhotoOf, FoundMeans, find_file-FoundMeans,
  find_photo-IsPhotoOf,
}

-- Why a media file is passed over: it is a copy of another file that exists; its row is unchanged and there is no
-- rescan; or its photo is deleted, which is that of its row, or the one that matches where it has no row.
pub data Reason (v : Setting) (m : Media) (s : IndexStore) : IndexStatus → Type 0 where
  same_content : (f : File) → IsCopyOf v m s.files f → Reason v m s duplicate
  unchanged :
      (f : File) (p : Photo)
      → IsRowOf v m s.files f
      → Mem p s.photo_store.photos
      → p.id ≡ f.photo_id
      → file_changed f m.size m.modified ≡ false
      → v.rescan ≡ false
      → Reason v m s skipped
  in_archive :
      (f : File) (p : Photo)
      → IsRowOf v m s.files f
      → Mem p s.photo_store.photos
      → p.id ≡ f.photo_id
      → p.deleted_at ≢ none
      → Reason v m s archived
  match_in_archive :
      (p : Photo)
      → IsNew v m s.files
      → IsPhotoOf m s.photo_store.photos p
      → p.deleted_at ≢ none
      → Reason v m s archived

-- The statuses of files that are passed over.
unfoldable pub passes : IndexStatus → Bool
passes skipped = true
passes duplicate = true
passes archived = true
passes updated = false
passes added = false
passes failed = false

goes_on :
    (v : Setting) (m : Media) (name : Text) (a b : Bool) (g : Gathered)
    (o : IndexStore × IndexResult)
    → Written v m name a b g o
    → passes o.1.status ≡ false
unfolding passes
goes_on v m name a b g _ (refused_first e) = refl
goes_on v m name a b g _ (refused_second s p e) = refl
goes_on v m name a b g _ (refused_file s r p n rows e e2) = refl
goes_on v m name a true g _ (done s r t p n f rows e e2 e3) = refl
goes_on v m name a false g _ (done s r t p n f rows e e2 e3) = refl

module _ (v : Setting) (m : Media) (s : IndexStore) where
  enter-stopped :
      (b : Bool) (f : File) (p : Option Photo) (status : IndexStatus)
      → ((q : Photo) → p ≡ some q → q.deleted_at ≢ none → Reason v m s archived)
      → enter m s.files b f p ≡ stopped status
      → Reason v m s status
  unfolding enter start_photo
  enter-stopped b f none status why e = absurd (ground (arith, e))
  enter-stopped b f (some p) status why e =
      let kind : archived ≡ status = ground (arith, e) in
      let old : p.deleted_at ≢ none = ground (arith, e) in
      subst (Reason v m s) kind (why p refl old)

  row-stopped :
      (status : IndexStatus) (f : File)
      → find_file v m s.files ≡ found f
      → IsRowOf v m s.files f
      → begin v m s ≡ stopped status
      → Reason v m s status
  unfolding begin
  row-stopped status f r of_file e =
      elim (Option-cases (first (λ (p : Photo). p.id == f.photo_id) s.photo_store.photos)) [
        | inl none_there ↦
            enter-stopped true f none status (λ q x. absurd (ground (arith, x)))
              (rw (begin, r, none_there) at e)
        | inr (p, one) ↦
            let (inside, same) =
              first_lem (λ (p : Photo). p.id == f.photo_id) s.photo_store.photos p one in
            let owner : p.id ≡ f.photo_id = ground (arith, same) in
            elim (Bool-cases (not (file_changed f m.size m.modified) && not v.rescan)) [
              | inl skip ↦
                  let kind : skipped ≡ status = ground (arith, e, r, one, skip) in
                  subst (Reason v m s) kind (
                    unchanged f p of_file inside owner (ground (arith, skip))
                      (ground (arith, skip)))
              | inr go ↦
                  enter-stopped true f (some p) status
                    (λ q x old.
                      let same : p ≡ q = ground (arith, x) in
                      subst (λ k. k.deleted_at ≢ none → Reason v m s archived) same
                        (in_archive f p of_file inside owner) old)
                    (rw (begin, r, one, go) at e)
            ]
      ]

  pub begin-stopped : (status : IndexStatus) → begin v m s ≡ stopped status → Reason v m s status
  unfolding begin
  begin-stopped status e =
      let means = find_file-FoundMeans v m s.files in
      elim (FoundFile-cases (find_file v m s.files)) [
        | inl d ↦
            let kind : duplicate ≡ status = ground (arith, e, d) in
            let (f, is_copy) = subst (FoundMeans v m s.files) d means in
            subst (Reason v m s) kind (same_content f is_copy)
        | inr (inl a) ↦
            enter-stopped false no_file (find_photo m s.photo_store.photos) status
              (λ q x.
                match_in_archive q (subst (FoundMeans v m s.files) a means)
                  (find_photo-IsPhotoOf m s.photo_store.photos q x))
              (rw (begin, a) at e)
        | inr (inr (f, r)) ↦ row-stopped status f r (subst (FoundMeans v m s.files) r means) e
      ]

  -- When the status of a media file is "skipped", "skipped duplicate" or "skipped archived", all tables
  -- are as before, and the media file gives the reason. For a duplicate, it is no sidecar, no row has its
  -- name, and a row has its hash whose own file exists. For an unchanged file, its row (the one
  -- with its name; without one, a row with its hash whose file is gone, or else with its instance id)
  -- belongs to a photo and has its size and time, and there is no rescan. For an archived one, the photo
  -- of its row is deleted, or it has no row, and a photo with its path and name, or else with its
  -- time and place or its document id, is deleted.
  pub index_media_file-Passed :
      (name : Text)
      → passes (index_media_file v s (some m) name).1.status ≡ true
      → ((index_media_file v s (some m) name).0 ≡ s)
        × Reason v m s (index_media_file v s (some m) name).1.status
  unfolding index_media_file passes
  index_media_file-Passed name h = elim (Begun-cases (begin v m s)) [
    | inl (status, e) ↦ rw (index_media_file, e) (refl, begin-stopped status e)
    | inr (w, e) ↦
        let g = prepare v m name s w in
        absurd (
          ground (
            arith,
            rw (index_media_file, e) at h,
            goes_on v m name w.photo_exists w.file_exists g _
                (write_all-Written v m name w.photo_exists w.file_exists g),
          ))
  ]
