-- ===== src/Library/Index/Own.antt =====
-- internal/photoprism/index_mediafile.go, lines 85 to 168: which row and which photo are those of a media file.
use photoprism.Prelude.{
  ◌≡◌, refl, ◌⊎◌, Bool, true, false, ◌&&◌, List, [], ◌∷◌, first, text_eq, text_eq_iff, Option, none,
  some, if◌then◌else◌, All, arith, inl, inr, Bool-cases, Option-cases,
}
use mathlib.Core.Path.{subst}
use mathlib.Core.List.{Mem, mem-cons_self, mem-cons_of_mem}
use photoprism.Clock.{equal}
use photoprism.Entity.Photo.{Photo}
use photoprism.Entity.Photo.Edit.{float_differs}
use photoprism.Library.Index.Records.{
  Media, File, has_document_id, has_time_and_place, has_instance_id, Setting,
}
use photoprism.Library.Index.Lookup.{
  is_duplicate, found, has_name, has_hash, has_instance, find_file, find_photo, has_path, has_place,
  has_document, or_else, FoundFile, absent, found_or_absent,
}

-- An element that `first` finds is in the list and passes the test.
pub first_lem :
    {A : Type 0} (p : A → Bool) (l : List A) (a : A) → first p l ≡ some a → Mem a l × (p a ≡ true)
first_lem p [] a e = absurd (ground (arith, e))
first_lem p (x ∷ l) a e = elim (Bool-cases (p x)) [
  | inl h ↦
      let same : x ≡ a = ground (arith, e, h) in
      subst (λ b. Mem b (x ∷ l) × (p b ≡ true)) same (mem-cons_self, h)
  | inr h ↦ let rest = first_lem p l a (ground (arith, e, h)) in (mem-cons_of_mem x rest.0, rest.1)
]

-- Where it finds none, every element fails the test.
pub first-none :
    {A : Type 0} (p : A → Bool) (l : List A) → first p l ≡ none → All (λ x. p x ≡ false) l
first-none p [] e = tt
first-none p (x ∷ l) e = (ground (arith, e), first-none p l (ground (arith, e)))

guarded :
    (b : Bool) (p : Photo → Bool) (l : List Photo) (a : Photo)
    → (if b then first p l else none) ≡ some a
    → (b ≡ true) × (first p l ≡ some a)
guarded true p l a e = (refl, e)
guarded false p l a e = absurd (ground (arith, e))

or_else-some :
    (o r : Option Photo) (p : Photo)
    → or_else o r ≡ some p
    → (o ≡ some p) ⊎ ((o ≡ none) × (r ≡ some p))
or_else-some none r p e = inr (refl, e)
or_else-some (some q) r p e = inl e

module _ (v : Setting) (m : Media) (files : List File) where
  -- No row has the name of the media file.
  abbrev pub NewName : Type 0
  NewName = All (λ f. text_eq f.file_name m.relative_name ≡ false) files

  abbrev pub NewHash : Type 0
  NewHash = All (λ f. text_eq f.file_hash m.hash ≡ false) files

  -- The row of the media file: it has its name; or it has its hash and the file of the row is gone, where no row has the
  -- name; or it has its instance id, where no row has the name or the hash.
  pub data IsRowOf (f : File) : Type 0 where
    by_name : Mem f files → f.file_name ≡ m.relative_name → IsRowOf f
    by_hash :
        NewName
        → m.is_sidecar ≡ false
        → Mem f files
        → f.file_hash ≡ m.hash
        → v.exists f.file_name ≡ false
        → IsRowOf f
    by_instance :
        NewName
        → m.is_sidecar ≡ false
        → NewHash
        → has_instance_id m.meta_data ≡ true
        → Mem f files
        → f.instance_id ≡ m.meta_data.instance_id
        → IsRowOf f

  -- There is no row of the media file.
  pub record IsNew : Type 0 where
    pub new_name : NewName
    pub new_hash : m.is_sidecar ≡ false → NewHash
    pub new_instance :
        m.is_sidecar ≡ false
        → has_instance_id m.meta_data ≡ true
        → All (λ f. text_eq f.instance_id m.meta_data.instance_id ≡ false) files

  -- The media file is a copy and no sidecar: no row has its name, but one has its hash, whose own file exists.
  pub record IsCopyOf (f : File) : Type 0 where
    pub new_name : NewName
    pub is_media : m.is_sidecar ≡ false
    pub inside : Mem f files
    pub same_hash : f.file_hash ≡ m.hash
    pub still_there : v.exists f.file_name ≡ true

  -- What the answers of the lookup mean.
  abbrev pub FoundMeans : FoundFile → Type 0
  FoundMeans is_duplicate = (f : File) × IsCopyOf f
  FoundMeans (found f) = IsRowOf f
  FoundMeans absent = IsNew

  instance_means :
      (o : Option File)
      → NewName
      → m.is_sidecar ≡ false
      → NewHash
      → has_instance_id m.meta_data ≡ true
      → first (has_instance m) files ≡ o
      → FoundMeans (found_or_absent o)
  instance_means none name media hash known e = record {
    new_name = name;
    new_hash = λ k. hash;
    new_instance = λ k i. first-none (has_instance m) files e;
  }
  instance_means (some f) name media hash known e =
      let (inside, same) = first_lem (has_instance m) files f e in
      by_instance name media hash known inside ((text_eq_iff _ _).0 same)

  hash_means :
      (f : File)
      → NewName
      → m.is_sidecar ≡ false
      → first (has_hash m) files ≡ some f
      → FoundMeans (if v.exists f.file_name then is_duplicate else found f)
  hash_means f name media e =
      let (inside, same) = first_lem (has_hash m) files f e in
      let same_hash : f.file_hash ≡ m.hash = (text_eq_iff f.file_hash m.hash).0 same in
      elim (Bool-cases (v.exists f.file_name)) [
        | inl there ↦ rw there (
          f,
          record {
            new_name = name;
            is_media = media;
            inside = inside;
            same_hash = same_hash;
            still_there = there;
          },
        )
        | inr gone ↦ rw gone (by_hash name media inside same_hash gone)
      ]

  pub find_file-FoundMeans : FoundMeans (find_file v m files)
  unfolding find_file
  find_file-FoundMeans = elim (Option-cases (first (has_name m) files)) [
    | inr (f, named) ↦
        let (inside, same) = first_lem (has_name m) files f named in
        rw (find_file, named) (by_name inside ((text_eq_iff f.file_name m.relative_name).0 same))
    | inl no_name ↦
        let name = first-none (has_name m) files no_name in
        elim (Bool-cases m.is_sidecar) [
          | inl side ↦
              simp (find_file, no_name, side)
                (record {
                  new_name = name;
                  new_hash = λ k. absurd (ground (arith, side, k));
                  new_instance = λ k i. absurd (ground (arith, side, k));
                })
          | inr media ↦ elim (Option-cases (first (has_hash m) files)) [
            | inr (f, hashed) ↦
                simp (find_file, no_name, media, hashed) (hash_means f name media hashed)
            | inl no_hash ↦
                let hash = first-none (has_hash m) files no_hash in
                elim (Bool-cases (has_instance_id m.meta_data)) [
                  | inl known ↦
                      simp (find_file, no_name, media, no_hash, known)
                        (instance_means (first (has_instance m) files) name media hash known refl)
                  | inr unknown ↦
                      simp (find_file, no_name, media, no_hash, unknown)
                        (record {
                          new_name = name;
                          new_hash = λ k. hash;
                          new_instance = λ k i. absurd (ground (arith, unknown, i));
                        })
                ]
          ]
        ]
  ]

-- The photo of a media file without a row: it has its path and name; or it was taken at its time and place; or it has
-- its document id, where no photo has the path and name.
pub data IsPhotoOf (m : Media) (photos : List Photo) (p : Photo) : Type 0 where
  at_name :
      Mem p photos → p.photo_path ≡ m.relative_path → p.photo_name ≡ m.base → IsPhotoOf m photos p
  at_place :
      All
        (λ q. (text_eq q.photo_path m.relative_path && text_eq q.photo_name m.base) ≡ false)
        photos
      → has_time_and_place m.meta_data ≡ true
      → Mem p photos
      → float_differs p.photo_lat m.meta_data.lat ≡ false
      → float_differs p.photo_lng m.meta_data.lng ≡ false
      → equal p.taken_at m.meta_data.taken_at ≡ true
      → IsPhotoOf m photos p
  of_document :
      All
        (λ q. (text_eq q.photo_path m.relative_path && text_eq q.photo_name m.base) ≡ false)
        photos
      → has_document_id m.meta_data ≡ true
      → Mem p photos
      → p.document_id ≡ m.meta_data.document_id
      → IsPhotoOf m photos p

pub find_photo-IsPhotoOf :
    (m : Media) (photos : List Photo) (p : Photo)
    → find_photo m photos ≡ some p
    → IsPhotoOf m photos p
unfolding find_photo
find_photo-IsPhotoOf m photos p e = elim (or_else-some (first (has_path m) photos) _ p e) [
  | inl by_path ↦
      let (inside, same) = first_lem (has_path m) photos p by_path in
      at_name inside ((text_eq_iff p.photo_path m.relative_path).0 (ground (arith, same)))
        ((text_eq_iff p.photo_name m.base).0 (ground (arith, same)))
  | inr (no_path, rest) ↦
      elim (or_else-some
        (if has_time_and_place m.meta_data then first (has_place m) photos else none) _ p rest) [
          | inl by_place ↦
              let (known, e) =
                guarded (has_time_and_place m.meta_data) (has_place m) photos p by_place in
              let (inside, same) = first_lem (has_place m) photos p e in
              at_place (first-none (has_path m) photos no_path) known inside (ground (arith, same))
                (ground (arith, same)) (ground (arith, same))
          | inr (no_place, by_document) ↦
              let (known, e) =
                guarded (has_document_id m.meta_data) (has_document m) photos p by_document in
              let (inside, same) = first_lem (has_document m) photos p e in
              of_document (first-none (has_path m) photos no_path) known inside
                ((text_eq_iff p.document_id m.meta_data.document_id).0 same)
        ]
]
