-- ===== src/Library/Index/Written.antt =====
-- How the writes of the indexer end.
use photoprism.Prelude.{
  ℕ, first, not, ◌==◌, ◌≡◌, refl, sym, ap, ◌∙◌, ◌⊎◌, inl, inr, Bool, true, false, Text, List,
  Option, none, some, if◌then◌else◌, Option-cases, Bool-cases, ◌&&◌, arith,
}
use photoprism.Clock.{Time}
use photoprism.Entity.Photo.{Photo}
use photoprism.Entity.Photo.Edit.{related_labels}
use photoprism.Entity.Label.{PhotoLabel}
use photoprism.Library.Index.Records.{
  Media, File, file_changed, IndexStore, Setting, IndexStatus, failed, updated, added, IndexResult,
  with_status,
}
use photoprism.Prelude.Int.{negsuc, eqb_ℤ}
use photoprism.Library.Index.Lookup.{
  FoundFile, is_duplicate, found, absent, find_file, find_photo, no_file, Work, Begun, stopped,
  going, begin, enter, start_photo, find_primary, claim_primary,
}
use photoprism.Library.Index.Rows.{write_first, write_file}
use photoprism.Library.Index.{
  Gathered, photo_result, downloaded_name, join_labels, belongs, write_second, after_file,
  finish_file, write_all,
}

pub Begun-cases :
    (b : Begun) → ((status : IndexStatus) × (b ≡ stopped status)) ⊎ ((w : Work) × (b ≡ going w))
Begun-cases (stopped status) = inl (status, refl)
Begun-cases (going w) = inr (w, refl)

-- The tables and the result, by the first write that is refused.
pub data Written (v : Setting) (m : Media) (name : Text) (photo_exists file_exists : Bool)
    (g : Gathered) : IndexStore × IndexResult → Type 0 where
  refused_first :
      write_first v g.store photo_exists g.photo ≡ none
      → Written v m name photo_exists file_exists g (g.store, with_status failed)
  refused_second :
      (s : IndexStore) (p : Photo)
      → write_first v g.store photo_exists g.photo ≡ some (s, p)
      → Written v m name photo_exists file_exists g
          (join_labels v s p g.labels, photo_result failed p)
  refused_file :
      (s r : IndexStore) (p n : Photo) (rows : List PhotoLabel)
      → write_first v g.store photo_exists g.photo ≡ some (s, p)
      → write_second v m (join_labels v s p g.labels) (belongs p g.file) p g.words rows
        ≡ some (r, n)
      → Written v m name photo_exists file_exists g (r, photo_result failed n)
  done :
      (s r t : IndexStore) (p n : Photo) (f : File) (rows : List PhotoLabel)
      → write_first v g.store photo_exists g.photo ≡ some (s, p)
      → write_second v m (join_labels v s p g.labels) (belongs p g.file) p g.words rows
        ≡ some (r, n)
      → write_file v r file_exists (belongs p g.file) ≡ some (t, f)
      → Written v m name photo_exists file_exists g (
        after_file (downloaded_name m name) n f t,
        record (photo_result (if file_exists then updated else added) n) {
          file_id = f.id;
          file_uid = f.file_uid;
        },
      )

module _ (v : Setting) (m : Media) (name : Text) (photo_exists file_exists : Bool)
    (g : Gathered) where
  finish_file-Written :
      (s r : IndexStore) (p n : Photo) (rows : List PhotoLabel)
      → write_first v g.store photo_exists g.photo ≡ some (s, p)
      → write_second v m (join_labels v s p g.labels) (belongs p g.file) p g.words rows
        ≡ some (r, n)
      → Written v m name photo_exists file_exists g
          (finish_file v m name r file_exists (belongs p g.file) n)
  unfolding finish_file
  finish_file-Written s r p n rows a b =
      elim (Option-cases (write_file v r file_exists (belongs p g.file))) [
        | inl e ↦ rw (finish_file, e) (refused_file s r p n rows a b)
        | inr ((t, f), e) ↦ rw (finish_file, e) (done s r t p n f rows a b e)
      ]

  pub write_all-Written :
      Written v m name photo_exists file_exists g (write_all v m name photo_exists file_exists g)
  unfolding write_all
  write_all-Written = elim (Option-cases (write_first v g.store photo_exists g.photo)) [
    | inl e ↦ rw (write_all, e) (refused_first e)
    | inr ((s, p), e) ↦
        let t = join_labels v s p g.labels in
        let rows = related_labels p.id t.label_store t.label_store.photo_labels in
        elim (Option-cases (write_second v m t (belongs p g.file) p g.words rows)) [
          | inl e2 ↦ rw (write_all, e, e2) (refused_second s p e)
          | inr ((r, n), e2) ↦ rw (write_all, e, e2) (finish_file-Written s r p n rows e e2)
        ]
  ]

unfoldable pub is_there : Option Photo → Bool
is_there none = false
is_there (some p) = true

-- What `enter` hands on.
pub record Entered (m : Media) (files : List File) (b : Bool) (f : File) (p : Option Photo)
    (w : Work) : Type 0 where
  pub file : w.file ≡ claim_primary m (find_primary files f p) f
  pub exists : w.file_exists ≡ b
  pub photo : w.photo ≡ record (start_photo m p) { deleted_at = none }
  pub photo_exists : w.photo_exists ≡ is_there p

abbrev work_of : Work → Begun → Work
work_of d (stopped status) = d
work_of d (going w) = w

module _ {m : Media} {files : List File} {b : Bool} {f : File} {p : Option Photo} {w : Work} where
  entered :
      {photo : Photo} {q : File}
      → record {
        file = claim_primary m (find_primary files f p) f;
        primary_file = q;
        file_exists = b;
        photo = photo;
        photo_exists = is_there p;
      }
        ≡ w
      → photo ≡ record (start_photo m p) { deleted_at = none }
      → Entered m files b f p w
  entered same shape = record {
    file = sym (ap (λ (k : Work). k.file) same);
    exists = sym (ap (λ (k : Work). k.file_exists) same);
    photo = sym (ap (λ (k : Work). k.photo) same) ∙ shape;
    photo_exists = sym (ap (λ (k : Work). k.photo_exists) same);
  }

pub enter-going :
    (m : Media) (files : List File) (b : Bool) (f : File) (p : Option Photo) (w : Work)
    → enter m files b f p ≡ going w
    → Entered m files b f p w
unfolding enter is_there
enter-going m files b f p w e =
    let claimed = claim_primary m (find_primary files f p) f in
    let start = start_photo m p in
    elim (Bool-cases (eqb_ℤ start.photo_quality (negsuc 0) && claimed.file_primary)) [
      | inl back ↦ entered (ap (work_of w) (rw (enter, back) at e)) refl
      | inr stays ↦ elim (Option-cases start.deleted_at) [
        | inr (t, gone) ↦ absurd (ground (arith, rw (enter, stays, gone) at e))
        | inl there ↦
            entered (ap (work_of w) (rw (enter, stays, there) at e))
              (ap {A = Option Time} {B = Photo} (λ d. record start { deleted_at = d }) there)
      ]
    ]

pub FoundFile-cases :
    (o : FoundFile) → (o ≡ is_duplicate) ⊎ ((o ≡ absent) ⊎ ((f : File) × (o ≡ found f)))
FoundFile-cases is_duplicate = inl refl
FoundFile-cases absent = inr (inl refl)
FoundFile-cases (found f) = inr (inr (f, refl))

abbrev pub photo_with_id : ℕ → IndexStore → Option Photo
photo_with_id id s = first (λ (p : Photo). p.id == id) s.photo_store.photos

-- The rows that the indexer goes on with.
pub data Start (v : Setting) (m : Media) (s : IndexStore) (w : Work) : Type 0 where
  new_row :
      find_file v m s.files ≡ absent
      → Entered m s.files false no_file (find_photo m s.photo_store.photos) w
      → Start v m s w
  old_row :
      (f : File)
      → find_file v m s.files ≡ found f
      → Entered m s.files true f (photo_with_id f.photo_id s) w
      → Start v m s w

pub begin-Start :
    (v : Setting) (m : Media) (s : IndexStore) (w : Work) → begin v m s ≡ going w → Start v m s w
unfolding begin
begin-Start v m s w e = elim (FoundFile-cases (find_file v m s.files)) [
  | inl d ↦ absurd (ground (arith, e, d))
  | inr (inl a) ↦ new_row a (
      enter-going m s.files false no_file (find_photo m s.photo_store.photos) w
        (rw (begin, a) at e))
  | inr (inr (f, r)) ↦ old_row f r (elim (Option-cases (photo_with_id f.photo_id s)) [
    | inl gone ↦ rw gone (enter-going m s.files true f none w (rw (begin, r, gone) at e))
    | inr (p, there) ↦ elim (Bool-cases (not (file_changed f m.size m.modified) && not v.rescan)) [
      | inl skip ↦ absurd (ground (arith, rw (begin, r, there, skip) at e))
      | inr go ↦ rw there (enter-going m s.files true f (some p) w (rw (begin, r, there, go) at e))
    ]
  ])
]
