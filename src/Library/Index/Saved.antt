-- ===== src/Library/Index/Saved.antt =====
-- The rows of photos that the indexer writes.
use photoprism.Prelude.{
  ℕ, ◌≡◌, refl, ap, ◌∙◌, Bool, true, ◌&&◌, List, [], ◌∷◌, first, not, text_eq, Text, ◌==◌, Option,
  none, some, arith, inl, inr, Bool-cases, Option-cases,
}
use mathlib.Core.Path.{subst}
use photoprism.Prelude.Int.{ℤ, pos, leb_ℤ}
use photoprism.Clock.{Time}
use photoprism.Entity.Source.{src_auto}
use photoprism.Entity.Tables.{Tables}
use photoprism.Entity.Keyword.{index_keywords}
use photoprism.Entity.Label.{PhotoLabel, classify_labels}
use photoprism.Entity.Photo.{Photo, Details, has_title}
use photoprism.Entity.Photo.Title.{update_title}
use photoprism.Entity.Photo.Save.{PhotoStore, before_save, put_photo}
use photoprism.Entity.Photo.Save.Sound.{Retitled, update_title-Retitled}
use photoprism.Library.Index.Records.{Media, File, IndexStore, Setting}
use photoprism.Library.Index.Rows.{linked, save_row}
use photoprism.Library.Index.{finish_photo, write_second, rescored}

abbrev pub same_id : ℕ → Photo → Bool
same_id id p = p.id == id

put_photo-found : (p : Photo) (ps : List Photo) → first (same_id p.id) (put_photo p ps) ≡ some p
unfolding put_photo
put_photo-found p [] = ground arith
put_photo-found p (q ∷ ps) = ground (arith, put_photo-found p ps)

-- What a save does to the tables and to the photo.
pub record Saved (v : Setting) (s : PhotoStore) (p : Photo) (t : PhotoStore) (n : Photo)
    : Type 0 where
  pub row : Photo
  pub details : Details
  pub photo : n ≡ record (before_save v.surroundings.now p) { details = details }
  pub stored : row ≡ record n { details = row.details }
  pub found : first (same_id n.id) t.photos ≡ some row

linked_lem :
    (v : Setting) (ps : List Photo) (p : Photo)
    → ((linked v ps p).0 ≡ record p { details = (linked v ps p).0.details })
      × ((linked v ps p).1 ≡ record (linked v ps p).0 { details = (linked v ps p).1.details })
unfolding linked
linked_lem v ps p = elim (Bool-cases (v.writes_details p)) [
  | inl e ↦ rw (linked, e) (refl, refl)
  | inr e ↦ rw (linked, e) (refl, refl)
]

pair_of : Option (PhotoStore × Photo) → PhotoStore × Photo → PhotoStore × Photo
pair_of none d = d
pair_of (some x) d = x

pub save_row-Saved :
    (v : Setting) (s : PhotoStore) (p : Photo) (t : PhotoStore) (n : Photo)
    → save_row v s p ≡ some (t, n)
    → Saved v s p t n
unfolding save_row pair_of
save_row-Saved v s p t n e =
    let q = before_save v.surroundings.now p in
    let (n', row) = linked v s.photos q in
    let (photo, stored) = linked_lem v s.photos q in
    elim (Bool-cases (v.surroundings.accepts n')) [
      | inr no_row ↦ absurd (ground (arith, rw (save_row, no_row) at e))
      | inl accepted ↦
          let id : row.id ≡ n'.id = ap (λ (k : Photo). k.id) stored in
          subst (λ (x : PhotoStore × Photo). Saved v s p x.0 x.1)
            (ap (λ o. pair_of o (t, n)) (rw (save_row, accepted) at e))
            (record {
              row = row;
              details = n'.details;
              photo = photo;
              stored = stored;
              found =
                  subst (λ i. first (same_id i) (put_photo row s.photos) ≡ some row) id
                    (put_photo-found row s.photos);
            })
    ]

before_save-id : (now : Time) (p : Photo) → (before_save now p).id ≡ p.id
unfolding before_save
before_save-id now p = ground arith

pub Saved-id :
    (v : Setting) (s : PhotoStore) (p : Photo) (t : PhotoStore) (n : Photo)
    → Saved v s p t n
    → n.id ≡ p.id
Saved-id v s p t n h = ap (λ (k : Photo). k.id) h.photo ∙ before_save-id v.surroundings.now p

-- What the second write does to the photo: its title, its keywords and its score may change.
pub record Finished (p q : Photo) : Type 0 where
  pub titled : Photo
  pub details : Details
  pub quality : ℤ
  pub retitled : Retitled p titled
  pub closed : (not (text_eq p.title_src src_auto) && has_title p) ≡ true → titled ≡ p
  pub same : q ≡ record titled { details = details; photo_quality = quality }

finish_photo-Finished :
    (t : Tables) (m : Media) (f : File) (p : Photo) (words : List Text) (rows : List PhotoLabel)
    → Finished p (finish_photo t m f p words rows)
unfolding finish_photo update_title
finish_photo-Finished t m f p words rows = record {
  titled = (update_title t p (classify_labels rows)).0;
  details = (finish_photo t m f p words rows).details;
  quality = (finish_photo t m f p words rows).photo_quality;
  retitled = update_title-Retitled t p (classify_labels rows);
  closed = λ e. rw (update_title, e) refl;
  same = refl;
}

rescored-Finished : (t : Tables) (p : Photo) → Finished p (rescored t p)
rescored-Finished t p = record {
  titled = p;
  details = p.details;
  quality = (rescored t p).photo_quality;
  retitled = record { title = p.photo_title; source = p.title_src; same = refl };
  closed = λ e. refl;
  same = elim (Bool-cases (leb_ℤ (pos 0) p.photo_quality)) [
    | inl e ↦ rw e refl
    | inr e ↦ rw e refl
  ];
}

pub Finished-id : (p q : Photo) → Finished p q → q.id ≡ p.id
Finished-id p q h = ap (λ (k : Photo). k.id) h.same ∙ ap (λ (k : Photo). k.id) h.retitled.same

-- The second write goes through.
pub record SavedAgain (v : Setting) (s : IndexStore) (p : Photo) (r : IndexStore) (n : Photo)
    : Type 0 where
  pub between : Photo
  pub finished : Finished p between
  pub store : PhotoStore
  pub saved : Saved v s.photo_store between store n
  pub photos : r.photo_store.photos ≡ store.photos

store_of : Option (IndexStore × Photo) → IndexStore × Photo → IndexStore × Photo
store_of none d = d
store_of (some x) d = x

with_store :
    (PhotoStore → Photo → IndexStore) → Option (PhotoStore × Photo) → Option (IndexStore × Photo)
with_store g none = none
with_store g (some (t, n)) = some (g t n, n)

module _ (v : Setting) (s : IndexStore) (p : Photo) (q : Photo) (finished : Finished p q) where
  -- a save, and what the code makes of its result
  saved_with :
      (g : PhotoStore → Photo → IndexStore)
      → ((t : PhotoStore) (o : Photo) → (g t o).photo_store.photos ≡ t.photos)
      → (r : IndexStore) (n : Photo) → with_store g (save_row v s.photo_store q) ≡ some (r, n)
      → SavedAgain v s p r n
  unfolding store_of with_store
  saved_with g photos r n e = elim (Option-cases (save_row v s.photo_store q)) [
    | inl no_row ↦ absurd (ground (arith, rw (with_store, no_row) at e))
    | inr ((t, o), found) ↦
        subst (λ (x : IndexStore × Photo). SavedAgain v s p x.0 x.1)
          (ap (λ k. store_of k (r, n)) (rw (with_store, found) at e))
          (record {
            between = q;
            finished = finished;
            store = t;
            saved = save_row-Saved v s.photo_store q t o found;
            photos = photos t o;
          })
  ]

pub write_second-SavedAgain :
    (v : Setting) (m : Media) (s : IndexStore) (f : File) (p : Photo) (words : List Text)
    (rows : List PhotoLabel) (r : IndexStore) (n : Photo)
    → write_second v m s f p words rows ≡ some (r, n)
    → SavedAgain v s p r n
unfolding write_second with_store
write_second-SavedAgain v m s f p words rows r n e =
    let tables = v.surroundings.tables in
    elim (Bool-cases f.file_primary) [
      | inl primary ↦
          saved_with v s p (finish_photo tables m f p words rows)
            (finish_photo-Finished tables m f p words rows)
            (λ (t : PhotoStore) o. record s {
              photo_store = record t {
                index = (index_keywords tables v.surroundings.keyword_database t.index o).0;
              };
            })
            (λ t o. refl) r n (rw (write_second, primary) at e)
      | inr other ↦
          saved_with v s p (rescored tables p) (rescored-Finished tables p)
            (λ t o. record s { photo_store = t }) (λ t o. refl) r n (rw (write_second, other) at e)
    ]
