-- ===== src/Library/Index/Again.antt =====
-- A media file that is indexed twice.
use photoprism.Prelude.{
  In, here, later, ℕ, ◌≡◌, ◌≢◌, refl, sym, ap, ◌∙◌, inl, inr, Bool, true, false, not, ◌&&◌, ◌||◌,
  List, [], ◌∷◌, ◌++◌, All, first, Text, text_eq, text_eq_iff, ◌==◌, Option, none, some, arith,
  Bool-cases,
}
use mathlib.Core.Path.{subst}
use photoprism.Entity.Source.{type_video, type_live}
use photoprism.Entity.Photo.{Photo}
use photoprism.Library.Index.Records.{
  Media, File, file_changed, IndexStore, Setting, IndexStatus, skipped, updated, added, duplicate,
  archived, failed, IndexResult, with_status,
}
use photoprism.Library.Index.Lookup.{has_name, find_file, Work, begin, found, stopped}
use photoprism.Library.Index.Apply.{revive, apply_type, meta_file, describe}
use photoprism.Library.Index.Rows.{
  put_file, new_file_row, write_file, update_video_infos, with_infos, is_video_of,
}
use photoprism.Library.Index.{
  gather, prepare, belongs, after_file, downloaded_name, index_media_file,
}
use photoprism.Library.Index.Written.{
  Begun-cases, Written, refused_first, refused_second, refused_file, done, write_all-Written,
  photo_with_id,
}
use photoprism.Library.Index.Passed.{
  Reason, same_content, unchanged, in_archive, match_in_archive, begin-stopped,
}
use photoprism.Library.Index.Files.{Differs, FilesApart, index_media_file-FilesApart}
use photoprism.Library.Index.Saved.{same_id, Saved-id, Finished-id, write_second-SavedAgain}

In-put : (f : File) (files : List File) → In f (put_file f files)
unfolding put_file
In-put f [] = here
In-put f (g ∷ files) = elim (Bool-cases (g.id == f.id)) [
  | inl e ↦ rw (put_file, e) here
  | inr e ↦ rw (put_file, e) (later (In-put f files))
]

In-snoc : (f : File) (files : List File) → In f (files ++ f ∷ [])
In-snoc f [] = here
In-snoc f (g ∷ files) = later (In-snoc f files)

-- The row describes the media file as it is, for the photo.
pub record Describes (m : Media) (photo_id : ℕ) (f : File) : Type 0 where
  pub name : f.file_name ≡ m.relative_name
  pub hash : f.file_hash ≡ m.hash
  pub size : f.file_size ≡ m.size
  pub modified : f.file_modified ≡ m.modified
  pub present : f.deleted_at ≡ none
  pub there : f.file_missing ≡ false
  pub photo : f.photo_id ≡ photo_id

with_infos-Describes :
    (m : Media) (id : ℕ) (f g : File) → Describes m id g → Describes m id (with_infos f g)
unfolding with_infos
with_infos-Describes m id f g h = record {
  name = h.name;
  hash = h.hash;
  size = h.size;
  modified = h.modified;
  present = h.present;
  there = h.there;
  photo = h.photo;
}

with_infos-id : (f g : File) → (with_infos f g).id ≡ g.id
unfolding with_infos
with_infos-id f g = refl

In-Differs :
    (g f : File) (files : List File)
    → In f files
    → All (Differs g) files
    → f.file_name ≢ g.file_name
In-Differs g f _ here ((id, name), h) = name
In-Differs g f _ (later {l = files} i) (d, h) = In-Differs g f files i h

-- A row with the id describes the media file.
pub record HasRow (m : Media) (photo_id id : ℕ) (files : List File) : Type 0 where
  pub row : File
  pub inside : In row files
  pub same : row.id ≡ id
  pub describes : Describes m photo_id row

update_video_infos-HasRow :
    (m : Media) (photo_id : ℕ) (f g : File) (files : List File)
    → In g files
    → Describes m photo_id g
    → HasRow m photo_id g.id (update_video_infos f files)
unfolding update_video_infos
update_video_infos-HasRow m photo_id f g _ (here {l = files}) h =
    elim (Bool-cases (is_video_of f.photo_id g)) [
      | inl e ↦
          rw (update_video_infos, e)
            (record {
              row = with_infos f g;
              inside = here;
              same = with_infos-id f g;
              describes = with_infos-Describes m photo_id f g h;
            })
      | inr e ↦
          rw (update_video_infos, e) (record { row = g; inside = here; same = refl; describes = h })
    ]
update_video_infos-HasRow m photo_id f g _ (later {b = k} {l = files} i) h =
    let rest = update_video_infos-HasRow m photo_id f g files i h in
    record {
      row = rest.row;
      inside = later rest.inside;
      same = rest.same;
      describes = rest.describes;
    }

-- In a table with different names the row is the one that its name finds.
In-first :
    (m : Media) (f : File) (files : List File)
    → In f files
    → FilesApart files
    → f.file_name ≡ m.relative_name
    → first (has_name m) files ≡ some f
In-first m f _ (here {l = files}) apart n =
    ground (arith, text_eq_iff f.file_name m.relative_name, n)
In-first m f _ (later {b = g} {l = files} i) (differs, apart) n =
    let other : f.file_name ≢ g.file_name = In-Differs g f files i differs in
    ground (arith, text_eq_iff g.file_name m.relative_name, n, other, In-first m f files i apart n)

after_file-HasRow :
    (m : Media) (name : Text) (photo_id : ℕ) (p : Photo) (f : File) (s : IndexStore)
    → In f s.files
    → Describes m photo_id f
    → HasRow m photo_id f.id (after_file name p f s).files
unfolding after_file
after_file-HasRow m name photo_id p f s i h =
    elim (Bool-cases
      ((text_eq p.photo_type type_video || text_eq p.photo_type type_live) && f.file_primary)) [
        | inl e ↦ rw (after_file, e) (update_video_infos-HasRow m photo_id f f s.files i h)
        | inr e ↦ rw (after_file, e) (record { row = f; inside = i; same = refl; describes = h })
      ]

pair_of : Option (IndexStore × File) → IndexStore × File → IndexStore × File
pair_of none d = d
pair_of (some x) d = x

-- The statuses of files that are indexed.
unfoldable pub indexes : IndexStatus → Bool
indexes updated = true
indexes added = true
indexes skipped = false
indexes duplicate = false
indexes archived = false
indexes failed = false

-- What an indexed file leaves behind: rows of the file and of its photo, which the result names.
pub record Indexed (m : Media) (t : IndexStore) (r : IndexResult) : Type 0 where
  pub file_row : HasRow m r.photo_id r.file_id t.files
  pub photo_row : Photo
  pub photo_found : photo_with_id r.photo_id t ≡ some photo_row

module _ (v : Setting) (m : Media) where
  write_file-In :
      (id : ℕ) (s t : IndexStore) (b : Bool) (f n : File)
      → write_file v s b f ≡ some (t, n)
      → Describes m id f
      → In n t.files × Describes m id n
  unfolding write_file new_file_row pair_of
  write_file-In id s t true f n e h = elim (Bool-cases (v.accepts_file s.files f)) [
    | inr no_row ↦ absurd (ground (arith, rw (write_file, no_row) at e))
    | inl accepted ↦
        subst (λ (x : IndexStore × File). In x.1 x.0.files × Describes m id x.1)
          (ap (λ o. pair_of o (t, n)) (rw (write_file, accepted) at e)) (In-put f s.files, h)
  ]
  write_file-In id s t false f n e h =
      elim (Bool-cases (v.accepts_file s.files (new_file_row v s.files f))) [
        | inr no_row ↦ absurd (ground (arith, rw (write_file, no_row) at e))
        | inl accepted ↦
            subst (λ (x : IndexStore × File). In x.1 x.0.files × Describes m id x.1)
              (ap (λ o. pair_of o (t, n)) (rw (write_file, accepted) at e))
              (
                In-snoc (new_file_row v s.files f) s.files,
                record {
                  name = h.name;
                  hash = h.hash;
                  size = h.size;
                  modified = h.modified;
                  present = h.present;
                  there = h.there;
                  photo = h.photo;
                },
              )
      ]

  pub write_file-photos :
      (s t : IndexStore) (b : Bool) (f n : File)
      → write_file v s b f ≡ some (t, n)
      → t.photo_store ≡ s.photo_store
  unfolding write_file
  write_file-photos s t true f n e = ground (arith, e)
  write_file-photos s t false f n e = ground (arith, e)

  gather-file :
      (s : IndexStore) (w : Work)
      → ((gather v m s w).file.deleted_at ≡ w.file.deleted_at)
        × ((gather v m s w).file.file_missing ≡ w.file.file_missing)
  unfolding gather meta_file
  gather-file s w = ground arith

  prepare-Describes :
      (name : Text) (s : IndexStore) (w : Work) (p : Photo)
      → Describes m p.id (belongs p (prepare v m name s w).file)
  unfolding prepare describe
  prepare-Describes name s w p =
      let typed : Work = apply_type v m w in
      let (present, there) = gather-file s (record typed { file = revive typed.file }) in
      record {
        name = refl;
        hash = refl;
        size = refl;
        modified = refl;
        present = present;
        there = there;
        photo = refl;
      }

  Written-Indexed :
      (name : Text) (s : IndexStore) (w : Work) (a b : Bool) (o : IndexStore × IndexResult)
      → Written v m name a b (prepare v m name s w) o
      → indexes o.1.status ≡ true
      → Indexed m o.0 o.1
  unfolding indexes after_file
  Written-Indexed name s w a b _ (refused_first e) h = absurd (ground (arith, h))
  Written-Indexed name s w a b _ (refused_second s' p e) h = absurd (ground (arith, h))
  Written-Indexed name s w a b _ (refused_file s' r p n rows e e2) h = absurd (ground (arith, h))
  Written-Indexed name s w a b _ (done s' r t p n f rows e e2 e3) h =
      let again = write_second-SavedAgain v m _ _ p _ rows r n e2 in
      let id : n.id ≡ p.id =
        Saved-id v _ again.between again.store n again.saved
        ∙ Finished-id p again.between again.finished in
      let (inside, describes) =
        write_file-In n.id r t b (belongs p (prepare v m name s w).file) f e3
          (rw id (prepare-Describes name s w p)) in
      record {
        file_row = after_file-HasRow m (downloaded_name m name) n.id n f t inside describes;
        photo_row = again.saved.row;
        photo_found =
            subst (λ ps. first (same_id n.id) ps ≡ some again.saved.row)
              (sym (ap (λ k. k.photos) (write_file-photos r t b _ f e3) ∙ again.photos))
              again.saved.found;
      }

  pub Reason-indexes :
      (s : IndexStore) (status : IndexStatus) → Reason v m s status → indexes status ≡ false
  unfolding indexes
  Reason-indexes s _ (same_content f i) = refl
  Reason-indexes s _ (unchanged f p i j a b c) = refl
  Reason-indexes s _ (in_archive f p i j a b) = refl
  Reason-indexes s _ (match_in_archive p i j a) = refl

  -- When the status is "updated" or "added", the id in the result is that of a row that has the
  -- name, the hash, the size and the time of the media file, that is neither missing nor deleted,
  -- and that belongs to the photo of the result, which is in its table.
  pub index_media_file-Indexed :
      (s : IndexStore) (name : Text)
      → indexes (index_media_file v s (some m) name).1.status ≡ true
      → Indexed m (index_media_file v s (some m) name).0 (index_media_file v s (some m) name).1
  unfolding index_media_file indexes
  index_media_file-Indexed s name h = elim (Begun-cases (begin v m s)) [
    | inl (status, e) ↦ absurd (
        ground (
          arith,
          rw (index_media_file, e) at h,
          Reason-indexes s status (begin-stopped v m s status e),
        ))
    | inr (w, e) ↦
        rw (index_media_file, e)
          (Written-Indexed name s w w.photo_exists w.file_exists _
            (write_all-Written v m name w.photo_exists w.file_exists (prepare v m name s w))
            (rw (index_media_file, e) at h))
  ]

  file_unchanged : (id : ℕ) (f : File) → Describes m id f → file_changed f m.size m.modified ≡ false
  unfolding file_changed
  file_unchanged id f h = ground (arith, h.present, h.size, h.modified)

  find_again :
      (s : IndexStore) (f : File) (p : Photo)
      → first (has_name m) s.files ≡ some f
      → photo_with_id f.photo_id s ≡ some p
      → file_changed f m.size m.modified ≡ false
      → v.rescan ≡ false
      → begin v m s ≡ stopped skipped
  unfolding begin find_file
  find_again s f p by_name there same no_rescan =
      let r : find_file v m s.files ≡ found f = rw (find_file, by_name) refl in
      let skip : (not (file_changed f m.size m.modified) && not v.rescan) ≡ true =
        rw (same, no_rescan) refl in
      rw (begin, r, there, skip) refl

  again_stops :
      (t : IndexStore) (name : Text)
      → begin v m t ≡ stopped skipped
      → index_media_file v t (some m) name ≡ (t, with_status skipped)
  unfolding index_media_file
  again_stops t name stops = rw (index_media_file, stops) refl

  -- A media file that was updated or added and is indexed again as it is, without a rescan, is
  -- skipped, and all tables stay as they are. This takes a table of files with different ids and
  -- names, and new ids that are not in use.
  pub index_media_file-again :
      (fresh : (files : List File) → All (λ g. g.id ≢ v.new_file_id files) files)
      → (s : IndexStore) (name name' : Text) → FilesApart s.files
      → v.rescan ≡ false
      → indexes (index_media_file v s (some m) name).1.status ≡ true
      → index_media_file v (index_media_file v s (some m) name).0 (some m) name'
        ≡ ((index_media_file v s (some m) name).0, with_status skipped)
  unfolding index_media_file
  index_media_file-again fresh s name name' apart no_rescan h =
      let t = (index_media_file v s (some m) name).0 in
      let done = index_media_file-Indexed s name h in
      let row = done.file_row.row in
      let describes = done.file_row.describes in
      let by_name : first (has_name m) t.files ≡ some row =
        In-first m row t.files done.file_row.inside
          (index_media_file-FilesApart v m fresh s name apart) describes.name in
      let stops : begin v m t ≡ stopped skipped =
        find_again t row done.photo_row by_name (rw describes.photo done.photo_found)
          (file_unchanged _ row describes) no_rescan in
      again_stops t name' stops
