-- ===== src/Library/Index/Files.antt =====
-- The table of files that the indexer writes: its ids and its names.
use photoprism.Prelude.{
  ℕ, ◌≡◌, ◌≢◌, refl, sym, ap, ◌∙◌, inl, inr, Bool, true, false, ◌&&◌, ◌||◌, List, [], ◌∷◌, ◌++◌,
  All, first, Text, text_eq, text_eq_iff, ◌==◌, Option, none, some, arith, Bool-cases, Option-cases,
}
use mathlib.Core.Path.{subst}
use photoprism.Entity.Photo.{Photo}
use photoprism.Entity.Label.{PhotoLabel}
use photoprism.Entity.Source.{type_video, type_live}
use photoprism.Library.Index.Records.{Media, File, IndexStore, Setting, IndexResult}
use photoprism.Library.Index.Lookup.{
  found, absent, has_name, find_file, find_photo, Work, going, begin, claim_primary, find_primary,
  no_file,
}
use photoprism.Library.Index.Apply.{
  apply_type, apply_jpeg, apply_video, revive, with_colors, meta_file, describe,
}
use photoprism.Library.Index.Rows.{
  publish_photo, put_file, new_file_row, write_file, write_first, update_video_infos, with_infos,
}
use photoprism.Library.Index.{
  Gathered, gather, prepare, join_labels, belongs, write_second, after_file, index_media_file,
}
use photoprism.Library.Index.Written.{
  Begun-cases, Written, refused_first, refused_second, refused_file, done, write_all-Written,
  new_row, old_row, begin-Start, photo_with_id,
}

-- Different rows have different ids and different names.
abbrev pub Differs : File → File → Type 0
Differs f g = (g.id ≢ f.id) × (g.file_name ≢ f.file_name)

abbrev pub FilesApart : List File → Type 0
FilesApart [] = Unit
FilesApart (f ∷ files) = All (Differs f) files × FilesApart files

module _ (P : File → Type 0) (f : File) (pf : P f) where
  All-put : (files : List File) → All P files → All P (put_file f files)
  unfolding put_file
  All-put [] h = (pf, tt)
  All-put (g ∷ files) (p, h) = elim (Bool-cases (g.id == f.id)) [
    | inl e ↦ rw (put_file, e) (pf, h)
    | inr e ↦ rw (put_file, e) (p, All-put files h)
  ]

-- Rows with the name of the file have its id.
abbrev OnlyOwn : File → List File → Type 0
OnlyOwn f files = All (λ g. g.file_name ≡ f.file_name → g.id ≡ f.id) files

put_first :
    (f g : File) (files : List File)
    → g.id ≡ f.id
    → All (Differs g) files
    → OnlyOwn f files
    → All (Differs f) files
put_first f g [] same differs own = tt
put_first f g (h ∷ files) same ((id, name), differs) (own_h, own) =
    (((λ e. id (e ∙ sym same)), λ e. id (own_h e ∙ sym same)), put_first f g files same differs own)

put_file-apart :
    (f : File) (files : List File)
    → FilesApart files
    → OnlyOwn f files
    → FilesApart (put_file f files)
unfolding put_file
put_file-apart f [] apart own = (tt, tt)
put_file-apart f (g ∷ files) (differs, apart) (own_g, own) = elim (Bool-cases (g.id == f.id)) [
  | inl e ↦
      let same : g.id ≡ f.id = ground (arith, e) in
      rw (put_file, e) (put_first f g files same differs own, apart)
  | inr e ↦
      let other : g.id ≢ f.id = ground (arith, e) in
      rw (put_file, e)
        (
          All-put (Differs g) f ((λ h. other (sym h)), λ h. other (own_g (sym h))) files differs,
          put_file-apart f files apart own,
        )
]

All-snoc :
    (f : File) (files : List File) (n : File)
    → All (Differs f) files
    → Differs f n
    → All (Differs f) (files ++ n ∷ [])
All-snoc f [] n h d = (d, tt)
All-snoc f (g ∷ files) n (p, h) d = (p, All-snoc f files n h d)

snoc-apart :
    (files : List File) (n : File)
    → FilesApart files
    → All (Differs n) files
    → FilesApart (files ++ n ∷ [])
snoc-apart [] n apart new = (tt, tt)
snoc-apart (f ∷ files) n (differs, apart) ((id, name), new) =
    (All-snoc f files n differs (λ e. id (sym e), λ e. name (sym e)), snoc-apart files n apart new)

-- The rows before and after have the same ids and names.
data SameNames : List File → List File → Type 0 where
  both_empty : SameNames [] []
  same_row :
      (f g : File) (fs gs : List File)
      → g.id ≡ f.id
      → g.file_name ≡ f.file_name
      → SameNames fs gs
      → SameNames (f ∷ fs) (g ∷ gs)

SameNames-Differs :
    (f g : File) (fs gs : List File)
    → g.id ≡ f.id
    → g.file_name ≡ f.file_name
    → SameNames fs gs
    → All (Differs f) fs
    → All (Differs g) gs
SameNames-Differs f g _ _ i n both_empty h = tt
SameNames-Differs f g _ _ i n (same_row a b fs gs j k rest) ((id, name), h) =
    (((λ e. id (sym j ∙ e ∙ i)), λ e. name (sym k ∙ e ∙ n)), SameNames-Differs f g fs gs i n rest h)

SameNames-apart : (fs gs : List File) → SameNames fs gs → FilesApart fs → FilesApart gs
SameNames-apart _ _ both_empty h = tt
SameNames-apart _ _ (same_row f g fs gs i n rest) (differs, h) =
    (SameNames-Differs f g fs gs i n rest differs, SameNames-apart fs gs rest h)

update_video_infos-SameNames :
    (f : File) (files : List File) → SameNames files (update_video_infos f files)
unfolding update_video_infos with_infos
update_video_infos-SameNames f [] = both_empty
update_video_infos-SameNames f (g ∷ files) =
    same_row g _ files _ (ground arith) (ground arith) (update_video_infos-SameNames f files)

first-none : {A : Type 0} (p : A → Bool) (l : List A) → first p l ≡ none → All (λ a. p a ≡ false) l
first-none p [] e = tt
first-none p (x ∷ l) e = elim (Bool-cases (p x)) [
  | inl h ↦ absurd (ground (arith, e, h))
  | inr h ↦ (h, first-none p l (ground (arith, e, h)))
]

others :
    (g f : File) (files : List File) {name : Text}
    → g.file_name ≡ name
    → g.id ≡ f.id
    → All (Differs g) files
    → All (λ h. h.file_name ≡ name → h.id ≡ f.id) files
others g f [] n i h = tt
others g f (k ∷ files) n i ((id, name), h) =
    ((λ e. absurd (name (e ∙ sym n))), others g f files n i h)

both :
    (i : ℕ) (name : Text) (files : List File)
    → All (λ g. g.id ≢ i) files
    → All (λ g. g.file_name ≢ name) files
    → All (λ g. (g.id ≢ i) × (g.file_name ≢ name)) files
both i name [] h k = tt
both i name (g ∷ files) (a, h) (b, k) = ((a, b), both i name files h k)

module _ (v : Setting) (m : Media) where
  -- The row to write is the only one with the name of the file.
  abbrev Allowed : List File → Bool → File → Type 0
  Allowed files true f = All (λ g. g.file_name ≡ m.relative_name → g.id ≡ f.id) files
  Allowed files false f = All (λ g. g.file_name ≢ m.relative_name) files

  no_name-Allowed :
      (files : List File) (b : Bool) (f : File)
      → All (λ g. has_name m g ≡ false) files
      → Allowed files b f
  no_name-Allowed [] true f h = tt
  no_name-Allowed [] false f h = tt
  no_name-Allowed (g ∷ files) true f (p, h) = (
    (λ e. absurd (ground (arith, p, e, text_eq_iff g.file_name m.relative_name))),
    no_name-Allowed files true f h,
  )
  no_name-Allowed (g ∷ files) false f (p, h) =
      (ground (arith, p, text_eq_iff g.file_name m.relative_name), no_name-Allowed files false f h)

  by_name-Allowed :
      (files : List File) (f : File)
      → FilesApart files
      → first (has_name m) files ≡ some f
      → Allowed files true f
  by_name-Allowed [] f apart e = tt
  by_name-Allowed (g ∷ files) f (differs, apart) e = elim (Bool-cases (has_name m g)) [
    | inl h ↦
        let same : g ≡ f = ground (arith, e, h) in
        let name : g.file_name ≡ m.relative_name = (text_eq_iff g.file_name m.relative_name).0 h in
        (
          (λ x. ap (λ (k : File). k.id) same),
          others g f files name (ap (λ (k : File). k.id) same) differs,
        )
    | inr h ↦ (
      (λ x. absurd (ground (arith, h, x, text_eq_iff g.file_name m.relative_name))),
      by_name-Allowed files f apart (ground (arith, e, h)),
    )
  ]

  find_file-Allowed :
      (files : List File) (f : File)
      → FilesApart files
      → find_file v m files ≡ found f
      → Allowed files true f
  unfolding find_file
  find_file-Allowed files f apart e = elim (Option-cases (first (has_name m) files)) [
    | inr (g, by_name) ↦
        let same : g ≡ f = ground (arith, e, by_name) in
        subst (Allowed files true) same (by_name-Allowed files g apart by_name)
    | inl no_name ↦ no_name-Allowed files true f (first-none (has_name m) files no_name)
  ]

  find_file-absent :
      (files : List File) → find_file v m files ≡ absent → Allowed files false no_file
  unfolding find_file
  find_file-absent files e = elim (Option-cases (first (has_name m) files)) [
    | inr (g, by_name) ↦ absurd (ground (arith, e, by_name))
    | inl no_name ↦ no_name-Allowed files false no_file (first-none (has_name m) files no_name)
  ]

  claim_primary-id : (q : Option File) (f : File) → (claim_primary m q f).id ≡ f.id
  unfolding claim_primary
  claim_primary-id none f = ground arith
  claim_primary-id (some q) f = refl

  Allowed-same :
      (files : List File) (b : Bool) (f g : File)
      → g.id ≡ f.id
      → Allowed files b f
      → Allowed files b g
  Allowed-same files true f g e h = rw e h
  Allowed-same files false f g e h = h

  begin-Allowed :
      (s : IndexStore) (w : Work)
      → FilesApart s.files
      → begin v m s ≡ going w
      → Allowed s.files w.file_exists w.file
  begin-Allowed s w apart e = elim (begin-Start v m s w e) [
    | new_row a h ↦ rw h.exists (
        Allowed-same s.files false no_file w.file
          (ap (λ (k : File). k.id) h.file
            ∙ claim_primary-id (find_primary s.files no_file (find_photo m s.photo_store.photos))
                no_file)
          (find_file-absent s.files a))
    | old_row f r h ↦ rw h.exists (
        Allowed-same s.files true f w.file
          (ap (λ (k : File). k.id) h.file
            ∙ claim_primary-id (find_primary s.files f (photo_with_id f.photo_id s)) f)
          (find_file-Allowed s.files f apart r))
  ]

  apply_type-id : (w : Work) → (apply_type v m w).file.id ≡ w.file.id
  unfolding apply_type apply_jpeg apply_video with_colors
  apply_type-id w = ground arith

  gather-files :
      (s : IndexStore) (w : Work)
      → ((gather v m s w).store.files ≡ s.files) × ((gather v m s w).file.id ≡ w.file.id)
  unfolding gather meta_file
  gather-files s w = ground arith

  prepare-files :
      (name : Text) (s : IndexStore) (w : Work)
      → ((prepare v m name s w).store.files ≡ s.files)
        × ((prepare v m name s w).file.id ≡ w.file.id)
        × ((prepare v m name s w).file.file_name ≡ m.relative_name)
  unfolding prepare describe
  prepare-files name s w =
      let typed : Work = apply_type v m w in
      let (files, id) = gather-files s (record typed { file = revive typed.file }) in
      (files, id ∙ apply_type-id w, refl)

  write_first-files :
      (s t : IndexStore) (b : Bool) (p q : Photo)
      → write_first v s b p ≡ some (t, q)
      → t.files ≡ s.files
  unfolding write_first publish_photo
  write_first-files s t true p q e = ground (arith, e)
  write_first-files s t false p q e = ground (arith, e)

  write_second-files :
      (s t : IndexStore) (f : File) (p q : Photo) (words : List Text) (rows : List PhotoLabel)
      → write_second v m s f p words rows ≡ some (t, q)
      → t.files ≡ s.files
  unfolding write_second
  write_second-files s t f p q words rows e = ground (arith, e)

  module _ (fresh : (files : List File) → All (λ g. g.id ≢ v.new_file_id files) files) where
    write_file-apart :
        (s t : IndexStore) (b : Bool) (f n : File)
        → f.file_name ≡ m.relative_name
        → FilesApart s.files
        → Allowed s.files b f
        → write_file v s b f ≡ some (t, n)
        → FilesApart t.files
    unfolding write_file new_file_row
    write_file-apart s t true f n name apart allowed e =
        let out : put_file f s.files ≡ t.files = ground (arith, e) in
        subst FilesApart out (put_file-apart f s.files apart (rw name allowed))
    write_file-apart s t false f n name apart allowed e =
        let out : s.files ++ new_file_row v s.files f ∷ [] ≡ t.files = ground (arith, e) in
        subst FilesApart out (
          snoc-apart s.files (new_file_row v s.files f) apart (
            both _ _ s.files (fresh s.files)
              (subst (λ k. All (λ (g : File). g.file_name ≢ k) s.files) (sym name) allowed)))

    after_file-apart :
        (name : Text) (p : Photo) (f : File) (s : IndexStore)
        → FilesApart s.files
        → FilesApart (after_file name p f s).files
    unfolding after_file
    after_file-apart name p f s apart =
        elim (Bool-cases
          ((text_eq p.photo_type type_video || text_eq p.photo_type type_live) && f.file_primary)) [
            | inl e ↦
                rw (after_file, e)
                  (SameNames-apart s.files _ (update_video_infos-SameNames f s.files) apart)
            | inr e ↦ rw (after_file, e) apart
          ]

    Written-apart :
        (name : Text) (a b : Bool) (g : Gathered) (o : IndexStore × IndexResult)
        → g.file.file_name ≡ m.relative_name
        → FilesApart g.store.files
        → Allowed g.store.files b g.file
        → Written v m name a b g o
        → FilesApart o.0.files
    unfolding join_labels
    Written-apart name a b g _ n apart allowed (refused_first e) = apart
    Written-apart name a b g _ n apart allowed (refused_second s p e) =
        subst FilesApart (sym (write_first-files g.store s a g.photo p e)) apart
    Written-apart name a b g _ n apart allowed (refused_file s r p q rows e e2) =
        subst FilesApart
          (sym (write_second-files _ r _ p q _ rows e2 ∙ write_first-files g.store s a g.photo p e))
          apart
    Written-apart name a b g _ n apart allowed (done s r t p q f rows e e2 e3) =
        let same : g.store.files ≡ r.files =
          sym
            (write_second-files _ r _ p q _ rows e2 ∙ write_first-files g.store s a g.photo p e) in
        after_file-apart _ q f t (
          write_file-apart r t b (belongs p g.file) f n (subst FilesApart same apart)
            (subst (λ files. Allowed files b (belongs p g.file)) same
              (Allowed-same g.store.files b g.file (belongs p g.file) refl allowed))
            e3)

    -- Where all rows of files have different ids and different names, they have after a media file
    -- was indexed, whatever happened to it. This takes new ids that are not in use.
    pub index_media_file-FilesApart :
        (s : IndexStore) (name : Text)
        → FilesApart s.files
        → FilesApart (index_media_file v s (some m) name).0.files
    unfolding index_media_file
    index_media_file-FilesApart s name apart = elim (Begun-cases (begin v m s)) [
      | inl (status, e) ↦ rw (index_media_file, e) apart
      | inr (w, e) ↦
          let g = prepare v m name s w in
          let (files, id, named) = prepare-files name s w in
          rw (index_media_file, e)
            (Written-apart name w.photo_exists w.file_exists g _ named (rw files apart)
              (subst (λ l. Allowed l w.file_exists g.file) (sym files)
                (Allowed-same s.files w.file_exists w.file g.file id (begin-Allowed s w apart e)))
              (write_all-Written v m name w.photo_exists w.file_exists g))
    ]
