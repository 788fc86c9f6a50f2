-- ===== src/Library/Purge/Photos/Alive.antt =====
-- Photos that still have a file, when photos without files are deleted.
use photoprism.Prelude.{
  ℕ, zero, suc, ◌+◌, ◌≤◌, ◌≡◌, ◌≢◌, refl, sym, ◌∙◌, ◌⊎◌, inl, inr, true, false, not, ◌||◌, List, [],
  ◌∷◌, drop, keep, any, length, All, All-take, In, Text, text_eq, Option, some, arith, Bool-cases,
}
use mathlib.Core.Path.{subst}
use photoprism.Entity.Photo.{Photo}
use photoprism.Library.Index.Records.{File}
use photoprism.Library.Purge.{End, finished, purge_canceled, failed, limit}
use photoprism.Library.Purge.Marks.{length-keep-le, drop_of_length-le}
use photoprism.Library.Purge.Photos.Rows.{
  All-keep, All-drop, SameFlags, Alive, is_missing-others, delete_photo-SameFlags,
  delete_photo-Alive, delete_photo-length,
}
use photoprism.Library.Purge.Photos.{
  PhotoTables, PhotoSetting, is_missing, photos_missing, delete_photo, purge_photo,
  purge_photo_page, purge_photos,
}

List-cases : (l : List Photo) → (l ≡ []) ⊎ ((m : Photo) × (ms : List Photo) × (l ≡ m ∷ ms))
List-cases [] = inl refl
List-cases (m ∷ ms) = inr (m, ms, refl)

-- What a run keeps: the photos with a file that is there, but for those of the condition, and all tables where it is dry.
pub record Spares (w : PhotoSetting) (K : File → Type 0) (s t : PhotoTables) : Type 0 where
  pub flags : SameFlags t.files
  pub alive : (p : Photo) (f : File) → Alive s p f → K f → Alive t p f
  pub size : length t.photos ≤ length s.photos
  pub dry : w.dry ≡ true → t ≡ s

module _ (w : PhotoSetting) where
  Spares-refl : (K : File → Type 0) (s : PhotoTables) → SameFlags s.files → Spares w K s s
  Spares-refl K s flags = record {
    flags = flags;
    alive = λ p f a k. a;
    size = omega arith;
    dry = λ d. refl;
  }

  Spares-trans :
      (K L M : File → Type 0) (s t u : PhotoTables)
      → ((f : File) → M f → K f)
      → ((f : File) → M f → L f)
      → Spares w K s t
      → Spares w L t u
      → Spares w M s u
  Spares-trans K L M s t u k l a b = record {
    flags = b.flags;
    alive = λ p f x m. b.alive p f (a.alive p f x (k f m)) (l f m);
    size = omega (arith, a.size, b.size);
    dry = λ d. b.dry d ∙ a.dry d;
  }

  abbrev NotOf : Photo → File → Type 0
  NotOf q f = f.photo_id ≢ q.id

  abbrev NotOfAll : List Photo → File → Type 0
  NotOfAll qs f = All (λ q. NotOf q f) qs

  purge_photo-Spares :
      (q : Photo) (s : PhotoTables) (purged : List Text)
      → SameFlags s.files
      → Spares w (NotOf q) s (purge_photo w q s purged).0
  unfolding purge_photo
  purge_photo-Spares q s purged flags = elim (Bool-cases (any (text_eq q.photo_uid) purged)) [
    | inl e ↦ rw (purge_photo, e) (Spares-refl (NotOf q) s flags)
    | inr e ↦ elim (Bool-cases w.dry) [
      | inl d ↦
          let out : (purge_photo w q s purged).0 ≡ s = ground (arith, e, d) in
          subst (Spares w (NotOf q) s) (sym out) (Spares-refl (NotOf q) s flags)
      | inr d ↦
          let out : (purge_photo w q s purged).0 ≡ (delete_photo w q s).0 = ground (arith, e, d) in
          subst (Spares w (NotOf q) s) (sym out) (record {
            flags = delete_photo-SameFlags w q s flags;
            alive = λ p f a k. delete_photo-Alive w q s p f a k;
            size = delete_photo-length w q s;
            dry = λ dry. absurd (ground (arith, d, dry));
          })
    ]
  ]

  purge_photo_page-Spares :
      (qs : List Photo) (s : PhotoTables) (purged : List Text)
      → SameFlags s.files
      → Spares w (NotOfAll qs) s (purge_photo_page w qs s purged).0
  unfolding purge_photo_page
  purge_photo_page-Spares [] s purged flags = Spares-refl (NotOfAll []) s flags
  purge_photo_page-Spares (q ∷ qs) s purged flags = elim (Bool-cases (w.canceled q)) [
    | inl c ↦ rw (purge_photo_page, c) (Spares-refl (NotOfAll (q ∷ qs)) s flags)
    | inr c ↦
        let t = (purge_photo w q s purged).0 in
        let one = purge_photo-Spares q s purged flags in
        rw (purge_photo_page, c)
          (Spares-trans (NotOf q) (NotOfAll qs) (NotOfAll (q ∷ qs)) s t _ (λ f k. k.0) (λ f k. k.1)
            one (purge_photo_page-Spares qs t (purge_photo w q s purged).1 one.flags))
  ]

  photos_missing-all :
      (offset : ℕ) (s : PhotoTables)
      → All (λ q. is_missing s.files q ≡ true) (photos_missing offset s)
  unfolding photos_missing
  photos_missing-all offset s =
      All-take (λ q. is_missing s.files q ≡ true) limit
        (drop offset (keep (is_missing s.files) s.photos))
        (All-drop (λ q. is_missing s.files q ≡ true) offset (keep (is_missing s.files) s.photos)
          (All-keep (is_missing s.files) s.photos))

  not_of_all :
      (s : PhotoTables) (f : File) (qs : List Photo)
      → SameFlags s.files
      → In f s.files
      → f.file_missing ≡ false
      → All (λ q. is_missing s.files q ≡ true) qs
      → NotOfAll qs f
  not_of_all s f [] flags i there h = tt
  not_of_all s f (q ∷ qs) flags i there (m, h) =
      (is_missing-others s.files q f flags m i there, not_of_all s f qs flags i there h)

  abbrev Any : File → Type 0
  Any f = Unit

  page-Spares :
      (offset : ℕ) (s : PhotoTables) (purged : List Text)
      → SameFlags s.files
      → Spares w Any s (purge_photo_page w (photos_missing offset s) s purged).0
  page-Spares offset s purged flags =
      let page = purge_photo_page-Spares (photos_missing offset s) s purged flags in
      record {
        flags = page.flags;
        alive = λ p f a k.
            page.alive p f a (
              not_of_all s f (photos_missing offset s) flags a.1 a.3 (photos_missing-all offset s));
        size = page.size;
        dry = page.dry;
      }

  page_empty :
      (offset : ℕ) (s : PhotoTables) → length s.photos ≤ offset → photos_missing offset s ≡ []
  unfolding photos_missing
  page_empty offset s h =
      rw
        (drop_of_length-le offset (keep (is_missing s.files) s.photos)
          (omega (arith, length-keep-le (is_missing s.files) s.photos)))
        refl

  -- A run that ends, and what it keeps.
  pub record EndsSparing (s : PhotoTables) (o : Option (PhotoTables × List Text × End))
      : Type 0 where
    pub tables : PhotoTables
    pub purged : List Text
    pub end : End
    pub ends : o ≡ some (tables, purged, end)
    pub spares : Spares w Any s tables

  ends_with :
      {s : PhotoTables} (t : PhotoTables) (purged : List Text) (end : End)
      → Spares w Any s t
      → EndsSparing s (some (t, purged, end))
  ends_with t purged end spares = record {
    tables = t;
    purged = purged;
    end = end;
    ends = refl;
    spares = spares;
  }

  then-Spares :
      {s t : PhotoTables} {o : Option (PhotoTables × List Text × End)}
      → Spares w Any s t
      → EndsSparing t o
      → EndsSparing s o
  then-Spares {s} {t} first rest = record {
    tables = rest.tables;
    purged = rest.purged;
    end = rest.end;
    ends = rest.ends;
    spares = Spares-trans Any Any Any s t rest.tables (λ f k. k) (λ f k. k) first rest.spares;
  }

  -- The loop over the photos without files ends when it is given fuel for one page more than there
  -- are photos behind the offset. Whatever is canceled or refused, every photo with a file that is
  -- not missing is still in the table as it was, with that file; there are no more photos than
  -- before; and a dry run leaves all tables as they are. This takes rows of files that are missing
  -- together where they have the same id.
  pub purge_photos-EndsSparing :
      (fuel offset : ℕ) (s : PhotoTables) (purged : List Text)
      → length s.photos ≤ offset + fuel
      → SameFlags s.files
      → EndsSparing s (purge_photos (suc fuel) w offset s purged)
  unfolding purge_photos
  purge_photos-EndsSparing zero offset s purged fits flags =
      let none_left = page_empty offset s (omega arith) in
      elim (Bool-cases (w.query_failed offset)) [
        | inl q ↦
            let same : purge_photos 1 w offset s purged ≡ some (s, purged, failed) =
              ground (arith, q) in
            subst (EndsSparing s) (sym same) (ends_with s purged failed (Spares-refl Any s flags))
        | inr q ↦
            let same : purge_photos 1 w offset s purged ≡ some (s, purged, finished) =
              ground (arith, q, none_left) in
            subst (EndsSparing s) (sym same) (ends_with s purged finished (Spares-refl Any s flags))
      ]
  purge_photos-EndsSparing (suc fuel) offset s purged fits flags =
      elim (Bool-cases (w.query_failed offset)) [
        | inl q ↦ rw (purge_photos, q) (ends_with s purged failed (Spares-refl Any s flags))
        | inr q ↦ elim (List-cases (photos_missing offset s)) [
          | inl none_left ↦
              rw (purge_photos, q, none_left)
                (ends_with s purged finished (Spares-refl Any s flags))
          | inr (m, ms, some_left) ↦
              let out = purge_photo_page w (photos_missing offset s) s purged in
              elim (Bool-cases (not out.2 || w.canceled_after offset)) [
                | inl c ↦
                    let same : purge_photos (suc (suc fuel)) w offset s purged
                        ≡ some (out.0, out.1, purge_canceled) =
                      ground (arith, q, some_left, c) in
                    subst (EndsSparing s) (sym same)
                      (ends_with out.0 out.1 purge_canceled (page-Spares offset s purged flags))
                | inr on ↦
                    let same : purge_photos (suc (suc fuel)) w offset s purged
                        ≡ purge_photos (suc fuel) w (offset + limit) out.0 out.1 =
                      ground (arith, q, some_left, on) in
                    subst (EndsSparing s) (sym same) (
                      let page = page-Spares offset s purged flags in
                      then-Spares page (
                        purge_photos-EndsSparing fuel (offset + limit) out.0 out.1
                          (omega (arith, page.size)) page.flags))
              ]
        ]
      ]
