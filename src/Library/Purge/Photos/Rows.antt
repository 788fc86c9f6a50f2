-- ===== src/Library/Purge/Photos/Rows.antt =====
-- internal/entity/photo.go, `Photo.Delete`: what is left in the tables.
use photoprism.Prelude.{
  ℕ, zero, suc, ◌≤◌, ◌≡◌, ◌≢◌, refl, sym, ap, ◌∙◌, inl, inr, Bool, true, false, not, List, [], ◌∷◌,
  map, drop, keep, any, length, All, In, here, later, ◌==◌, arith, Bool-cases,
}
use photoprism.Entity.Photo.{Photo}
use photoprism.Library.Index.Records.{File}
use photoprism.Library.Purge.Marks.{length-keep-le}
use photoprism.Library.Purge.Photos.{
  PhotoTables, PhotoSetting, is_other, is_last, is_missing, soft_delete_file, soft_delete_photo,
  soft_delete, delete_permanently, delete_photo,
}

module _ {A : Type 0} where
  any-In : (p : A → Bool) (l : List A) → any p l ≡ true → (a : A) × In a l × (p a ≡ true)
  any-In p [] h = absurd (ground (arith, h))
  any-In p (x ∷ l) h = elim (Bool-cases (p x)) [
    | inl e ↦ (x, here, e)
    | inr e ↦ let (a, i, k) = any-In p l (ground (arith, h, e)) in (a, later i, k)
  ]

  In-any : (p : A → Bool) (a : A) (l : List A) → In a l → p a ≡ true → any p l ≡ true
  In-any p a _ (here {l}) h = ground (arith, h)
  In-any p a _ (later {b} {l} i) h = ground (arith, In-any p a l i h)

  pub In-keep : (p : A → Bool) (a : A) (l : List A) → In a l → p a ≡ true → In a (keep p l)
  In-keep p a _ (here {l}) h = rw (keep, h) here
  In-keep p a _ (later {b} {l} i) h = elim (Bool-cases (p b)) [
    | inl e ↦ rw (keep, e) (later (In-keep p a l i h))
    | inr e ↦ rw (keep, e) (In-keep p a l i h)
  ]

  of_cons : (b : A) (k l : List A) (a : A) → (In a k → In a l) → In a (b ∷ k) → In a (b ∷ l)
  of_cons b k l _ g here = here
  of_cons b k l a g (later i) = later (g i)

  pub In-of_keep : (p : A → Bool) (l : List A) (a : A) → In a (keep p l) → In a l
  In-of_keep p [] a i = i
  In-of_keep p (b ∷ l) a i = elim (Bool-cases (p b)) [
    | inl e ↦ of_cons b (keep p l) l a (In-of_keep p l a) (rw (keep, e) at i)
    | inr e ↦ later (In-of_keep p l a (rw (keep, e) at i))
  ]

  In-map : (g : A → A) (a : A) (l : List A) → In a l → g a ≡ a → In a (map g l)
  In-map g a _ (here {l}) h = rw h here
  In-map g a _ (later {b} {l} i) h = later (In-map g a l i h)

  In-of_map : (g : A → A) (l : List A) (b : A) → In b (map g l) → (a : A) × In a l × (g a ≡ b)
  In-of_map g [] b i = elim i [ ]
  In-of_map g (a ∷ l) _ here = (a, here, refl)
  In-of_map g (a ∷ l) b (later i) = let (c, j, e) = In-of_map g l b i in (c, later j, e)

  pub length-map : (g : A → A) (l : List A) → length (map g l) ≡ length l
  length-map g [] = refl
  length-map g (a ∷ l) = ap suc (length-map g l)

  pub All-keep : (p : A → Bool) (l : List A) → All (λ a. p a ≡ true) (keep p l)
  All-keep p [] = tt
  All-keep p (a ∷ l) = elim (Bool-cases (p a)) [
    | inl e ↦ rw (keep, e) (e, All-keep p l)
    | inr e ↦ rw (keep, e) (All-keep p l)
  ]

module _ {A : Type 0} (P : A → Type 0) where
  pub All-drop : (n : ℕ) (l : List A) → All P l → All P (drop n l)
  All-drop zero l h = h
  All-drop (suc n) [] h = tt
  All-drop (suc n) (a ∷ l) (p, h) = All-drop n l h

-- Rows with the same id are missing together: ids are a primary key.
abbrev pub SameFlags : List File → Type 0
SameFlags files =
    (f g : File) → In f files → In g files → f.id ≡ g.id → f.file_missing ≡ g.file_missing

-- The photo and one of its files, which is there, are rows of the tables.
abbrev pub Alive : PhotoTables → Photo → File → Type 0
Alive s p f = In p s.photos × In f s.files × (f.photo_id ≡ p.id) × (f.file_missing ≡ false)

pub is_missing-others :
    (files : List File) (q : Photo) (f : File)
    → SameFlags files
    → is_missing files q ≡ true
    → In f files
    → f.file_missing ≡ false
    → f.photo_id ≢ q.id
unfolding is_missing
is_missing-others files q f flags h i there same =
    let (a, j, last) = any-In (is_last files q) files (ground (arith, h)) in
    let gone : a.file_missing ≡ true = ground (arith, last) in
    let alone : any (is_other q a) files ≡ false = ground (arith, last) in
    let differs : f.id ≢ a.id = λ e. ground (arith, flags f a i j e, gone, there) in
    let other : is_other q a f ≡ true = ground (arith, same, differs, there) in
    ground (arith, alone, In-any (is_other q a) f files i other)

module _ (w : PhotoSetting) (q : Photo) (s : PhotoTables) where
  soft_fields :
      (a : File)
      → ((soft_delete_file w.now q.id a).id ≡ a.id)
        × ((soft_delete_file w.now q.id a).file_missing ≡ a.file_missing)
  soft_fields a = ground arith

  soft_delete_file-SameFlags :
      SameFlags s.files → SameFlags (map (soft_delete_file w.now q.id) s.files)
  soft_delete_file-SameFlags flags f g i j e =
      let (a, ia, ea) = In-of_map (soft_delete_file w.now q.id) s.files f i in
      let (b, ib, eb) = In-of_map (soft_delete_file w.now q.id) s.files g j in
      let (ida, ma) = soft_fields a in
      let (idb, mb) = soft_fields b in
      let ids : a.id ≡ b.id =
        sym ida ∙ (ap (λ (k : File). k.id) ea ∙ (e ∙ (sym (ap (λ (k : File). k.id) eb) ∙ idb))) in
      sym (ap (λ (k : File). k.file_missing) ea)
      ∙ (ma ∙ (flags a b ia ib ids ∙ (sym mb ∙ ap (λ (k : File). k.file_missing) eb)))

  kept_flags : SameFlags s.files → SameFlags (keep (λ (k : File). not (k.photo_id == q.id)) s.files)
  kept_flags flags f g i j e =
      flags f g (In-of_keep (λ (k : File). not (k.photo_id == q.id)) s.files f i)
        (In-of_keep (λ (k : File). not (k.photo_id == q.id)) s.files g j) e

  pub delete_photo-SameFlags : SameFlags s.files → SameFlags (delete_photo w q s).0.files
  unfolding delete_photo soft_delete delete_permanently
  delete_photo-SameFlags flags = elim (Bool-cases w.hard) [
    | inl h ↦ elim (Bool-cases (w.refused q)) [
      | inl r ↦ rw (delete_photo, h, delete_permanently, r) (kept_flags flags)
      | inr r ↦ rw (delete_photo, h, delete_permanently, r) (kept_flags flags)
    ]
    | inr h ↦ elim (Bool-cases (w.refused q)) [
      | inl r ↦ rw (delete_photo, h, soft_delete, r) (soft_delete_file-SameFlags flags)
      | inr r ↦ rw (delete_photo, h, soft_delete, r) (soft_delete_file-SameFlags flags)
    ]
  ]

  module _ (p : Photo) (f : File) (alive : Alive s p f) (other : f.photo_id ≢ q.id) where
    file_test : not (f.photo_id == q.id) ≡ true
    file_test = ground (arith, other)

    photo_test : not (p.id == q.id) ≡ true
    photo_test = ground (arith, other, alive.2)

    file_kept : In f (keep (λ (k : File). not (k.photo_id == q.id)) s.files)
    file_kept = In-keep (λ (k : File). not (k.photo_id == q.id)) f s.files alive.1 file_test

    photo_kept : In p (keep (λ (k : Photo). not (k.id == q.id)) s.photos)
    photo_kept = In-keep (λ (k : Photo). not (k.id == q.id)) p s.photos alive.0 photo_test

    file_stays : In f (map (soft_delete_file w.now q.id) s.files)
    file_stays = In-map (soft_delete_file w.now q.id) f s.files alive.1 (ground (arith, other))

    photo_stays : In p (map (soft_delete_photo w.now q.id) s.photos)
    photo_stays =
        In-map (soft_delete_photo w.now q.id) p s.photos alive.0 (ground (arith, photo_test))

    pub delete_photo-Alive : Alive (delete_photo w q s).0 p f
    unfolding delete_photo soft_delete delete_permanently
    delete_photo-Alive = elim (Bool-cases w.hard) [
      | inl h ↦ elim (Bool-cases (w.refused q)) [
        | inl r ↦ rw (delete_photo, h, delete_permanently, r) (alive.0, file_kept, alive.2, alive.3)
        | inr r ↦
            rw (delete_photo, h, delete_permanently, r) (photo_kept, file_kept, alive.2, alive.3)
      ]
      | inr h ↦ elim (Bool-cases (w.refused q)) [
        | inl r ↦ rw (delete_photo, h, soft_delete, r) (alive.0, file_stays, alive.2, alive.3)
        | inr r ↦ rw (delete_photo, h, soft_delete, r) (photo_stays, file_stays, alive.2, alive.3)
      ]
    ]

  pub delete_photo-length : length (delete_photo w q s).0.photos ≤ length s.photos
  unfolding delete_photo soft_delete delete_permanently
  delete_photo-length = elim (Bool-cases w.hard) [
    | inl h ↦ elim (Bool-cases (w.refused q)) [
      | inl r ↦ rw (delete_photo, h, delete_permanently, r) (omega arith)
      | inr r ↦
          rw (delete_photo, h, delete_permanently, r)
            (length-keep-le (λ (k : Photo). not (k.id == q.id)) s.photos)
    ]
    | inr h ↦ elim (Bool-cases (w.refused q)) [
      | inl r ↦ rw (delete_photo, h, soft_delete, r) (omega arith)
      | inr r ↦
          rw (delete_photo, h, soft_delete, r)
            (omega (arith, length-map (soft_delete_photo w.now q.id) s.photos))
    ]
  ]
