-- ===== src/Library/Index/Kept.antt =====
-- A photo that users have edited, and that is indexed again.
use photoprism.Prelude.{
  ◌≡◌, ◌≢◌, refl, sym, ap, ◌∙◌, inl, inr, Bool, true, false, first, Text, Option, none, some, arith,
  Bool-cases, Option-cases,
}
use mathlib.Core.Path.{subst}
use photoprism.Entity.Source.{src_manual}
use photoprism.Entity.Photo.{Photo}
use photoprism.Entity.Photo.Priority.{KeepsManual, KeepsManual-refl, KeepsManual-trans}
use photoprism.Library.Index.Records.{Media, File, Setting, IndexStore, IndexResult}
use photoprism.Library.Index.Lookup.{
  found, absent, is_duplicate, find_file, find_photo, no_file, start_photo, Work, begin,
}
use photoprism.Library.Index.Apply.{
  apply_type, revive, meta_photo, update_camera, fill_time, fill_places,
}
use photoprism.Library.Index.Rows.{save_row, write_first}
use photoprism.Library.Index.{
  look_at, gather, prepare, join_labels, after_file, write_all, index_media_file,
}
use photoprism.Library.Index.Written.{
  Begun-cases, Written, refused_first, refused_second, refused_file, done, write_all-Written,
  photo_with_id, Entered, Start, new_row, old_row, begin-Start, is_there,
}
use photoprism.Library.Index.Again.{indexes, write_file-photos, Reason-indexes}
use photoprism.Library.Index.Passed.{begin-stopped}
use photoprism.Library.Index.Saved.{same_id, Saved, save_row-Saved, write_second-SavedAgain}
use photoprism.Library.Index.Manual.{
  same-KeepsManual, look_at-part, apply_type-KeepsManual, meta_photo-KeepsManual,
  update_camera-part, fill_time-KeepsManual, locate-KeepsManual, fill_places-part, Timed,
  update_year_month-KeepsManual, Saved-KeepsManual, stored-KeepsManual, Finished-KeepsManual,
}

module _ (v : Setting) (m : Media) (other : m.taken_at.1 ≢ src_manual) where
  gather-KeepsManual : (s : IndexStore) (w : Work) → KeepsManual w.photo (gather v m s w).photo
  unfolding gather
  gather-KeepsManual s w = elim (Bool-cases w.file.file_primary) [
    | inr e ↦ rw (gather, e) (KeepsManual-refl w.photo)
    | inl e ↦
        let seen = (look_at v m w.photo_exists w.photo).0 in
        let read = meta_photo m.meta_data seen in
        let shot = (update_camera v.camera_database m s.camera_store read).1 in
        let timed = fill_time m shot in
        rw (gather, e)
          (KeepsManual-trans w.photo seen _
            (same-KeepsManual _ _ (look_at-part m v w.photo_exists w.photo))
            (KeepsManual-trans seen read _ (meta_photo-KeepsManual m m.meta_data seen) (
              KeepsManual-trans read shot _
                (same-KeepsManual _ _ (update_camera-part m v.camera_database s.camera_store read))
                (KeepsManual-trans shot timed _ (fill_time-KeepsManual m shot other)
                  (locate-KeepsManual m v s.place_store timed)))))
  ]

  prepare-KeepsManual :
      (name : Text) (s : IndexStore) (w : Work)
      → Timed w.photo
      → KeepsManual w.photo (prepare v m name s w).photo
  unfolding prepare
  prepare-KeepsManual name s w timed =
      let typed : Work = apply_type v m w in
      let revived : Work = record typed { file = revive typed.file } in
      let g = gather v m s revived in
      update_year_month-KeepsManual w.photo (fill_places g.photo) timed (
        KeepsManual-trans w.photo g.photo (fill_places g.photo)
          (KeepsManual-trans w.photo typed.photo g.photo (apply_type-KeepsManual m v w)
            (gather-KeepsManual s revived))
          (same-KeepsManual _ _ (fill_places-part m g.photo)))

  write_first-Saved :
      (s t : IndexStore) (q p : Photo)
      → write_first v s true q ≡ some (t, p)
      → Saved v s.photo_store q t.photo_store p
  unfolding write_first
  write_first-Saved s t q p e = elim (Option-cases (save_row v s.photo_store q)) [
    | inl no_row ↦ absurd (ground (arith, rw (write_first, no_row) at e))
    | inr ((u, n), saved) ↦
        let stores : u ≡ t.photo_store = ground (arith, rw (write_first, saved) at e) in
        let photos : n ≡ p = ground (arith, rw (write_first, saved) at e) in
        subst (λ k. Saved v s.photo_store q k p) stores
          (subst (λ k. Saved v s.photo_store q u k) photos
            (save_row-Saved v s.photo_store q u n saved))
  ]

  Written-kept :
      (name : Text) (s : IndexStore) (w : Work) (b : Bool) (o : IndexStore × IndexResult)
      → Timed w.photo
      → Written v m name true b (prepare v m name s w) o
      → indexes o.1.status ≡ true
      → (row : Photo) × (photo_with_id o.1.photo_id o.0 ≡ some row) × KeepsManual w.photo row
  unfolding indexes after_file join_labels
  Written-kept name s w b _ timed (refused_first e) h = absurd (ground (arith, h))
  Written-kept name s w b _ timed (refused_second s' p e) h = absurd (ground (arith, h))
  Written-kept name s w b _ timed (refused_file s' r p n rows e e2) h = absurd (ground (arith, h))
  Written-kept name s w b _ timed (done s' r t p n f rows e e2 e3) h =
      let again = write_second-SavedAgain v m _ _ p _ rows r n e2 in
      let g = prepare v m name s w in
      let created = write_first-Saved g.store s' g.photo p e in
      let first_kept : KeepsManual w.photo p =
        Saved-KeepsManual v w.photo timed g.store.photo_store s'.photo_store g.photo p
          (prepare-KeepsManual name s w timed) created in
      let between_kept =
        Finished-KeepsManual v w.photo timed p again.between first_kept again.finished in
      let kept =
        Saved-KeepsManual v w.photo timed s'.photo_store again.store again.between n between_kept
          again.saved in
      (
        again.saved.row,
        subst (λ ps. first (same_id n.id) ps ≡ some again.saved.row)
            (sym (ap (λ k. k.photos) (write_file-photos v m r t b _ f e3) ∙ again.photos))
            again.saved.found,
        stored-KeepsManual v w.photo timed s'.photo_store again.store again.between n kept
            again.saved,
      )

-- The photo that the queries of the indexer find.
unfoldable pub chosen : Setting → Media → IndexStore → Option Photo
chosen v m s = elim (find_file v m s.files) [
  | is_duplicate ↦ none
  | absent ↦ find_photo m s.photo_store.photos
  | found f ↦ photo_with_id f.photo_id s
]

module _ (v : Setting) (m : Media) (s : IndexStore) (w : Work) (p : Photo) where
  Entered-some :
      (b : Bool) (f : File) (o : Option Photo)
      → Entered m s.files b f o w
      → o ≡ some p
      → (w.photo ≡ record (start_photo m (some p)) { deleted_at = none }) × (w.photo_exists ≡ true)
  unfolding is_there
  Entered-some b f o h e =
      let there : Entered m s.files b f (some p) w = subst (λ k. Entered m s.files b f k w) e h in
      (there.photo, there.photo_exists)

  Start-chosen :
      Start v m s w
      → chosen v m s ≡ some p
      → (w.photo ≡ record (start_photo m (some p)) { deleted_at = none }) × (w.photo_exists ≡ true)
  unfolding chosen
  Start-chosen (new_row a h) c = Entered-some false no_file _ h (rw (chosen, a) at c)
  Start-chosen (old_row f a h) c = Entered-some true f _ h (rw (chosen, a) at c)

-- When a media file of a photo that is there is updated or added, the row of the photo in the
-- result keeps the title, the description, the time with its zone and the coordinates that were
-- set by hand (the title and the description where they are not empty). This takes a photo whose
-- times are set, the local one in the year 1000 or later, where the time was set by hand, and a
-- file that does not claim a manual time.
pub index_media_file-kept :
    (v : Setting) (m : Media) (s : IndexStore) (name : Text) (p : Photo)
    → m.taken_at.1 ≢ src_manual
    → chosen v m s ≡ some p
    → Timed p
    → indexes (index_media_file v s (some m) name).1.status ≡ true
    → (row : Photo) × (photo_with_id
          (index_media_file v s (some m) name).1.photo_id
          (index_media_file v s (some m) name).0
        ≡ some row)
      × KeepsManual p row
unfolding index_media_file start_photo
index_media_file-kept v m s name p other choice timed h = elim (Begun-cases (begin v m s)) [
  | inl (status, e) ↦ absurd (
      ground (
        arith,
        rw (index_media_file, e) at h,
        Reason-indexes v m s status (begin-stopped v m s status e),
      ))
  | inr (w, e) ↦
      let (same, exists) = Start-chosen v m s w p (begin-Start v m s w e) choice in
      let loaded : Photo = record (start_photo m (some p)) { deleted_at = none } in
      let timed_w : Timed w.photo =
        subst Timed (sym same) (record { taken = timed.taken; local = timed.local }) in
      let written =
        subst
          (λ b.
            Written v m name b w.file_exists (prepare v m name s w)
              (write_all v m name w.photo_exists w.file_exists (prepare v m name s w)))
          exists (write_all-Written v m name w.photo_exists w.file_exists (prepare v m name s w)) in
      let (row, there, kept) =
        Written-kept v m other name s w w.file_exists _ timed_w written
          (rw (index_media_file, e) at h) in
      rw (index_media_file, e)
        (
          row,
          there,
          KeepsManual-trans p w.photo row
              (subst (KeepsManual p) (sym same) (same-KeepsManual p loaded refl)) kept,
        )
]
