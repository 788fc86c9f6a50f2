-- ===== src/Entity/Photo/Edit/Edited.antt =====
-- internal/entity/photo.go, `SavePhotoForm`: the row of a photo that was edited.
use photoprism.Prelude.{
  ℕ, suc, ◌≡◌, ◌≢◌, ◌≤◌, refl, sym, ap, ◌∙◌, Bool, ◌||◌, ◌&&◌, List, text_eq, ◌==◌, if◌then◌else◌,
  Option, none, some, arith, inl, inr, Bool-cases, Option-cases,
}
use mathlib.Core.Path.{subst}
use photoprism.Prelude.Int.{pos}
use photoprism.Clock.{to_utc, is_zero}
use photoprism.Entity.Source.{src_manual}
use photoprism.Entity.Label.{PhotoLabel, classify_labels}
use photoprism.Entity.Photo.{Photo, has_id, has_lat_lng}
use photoprism.Entity.Photo.Setters.{update_year_month}
use photoprism.Entity.Photo.Title.{update_title}
use photoprism.Entity.Photo.Quality.{quality_score, quality_bounds}
use photoprism.Entity.Photo.Locate.Located.{update_location-Located}
use photoprism.Entity.Photo.Save.{
  PhotoStore, Surroundings, SaveError, empty_id, not_copied, add_keywords, before_save, write_photo,
}
use photoprism.Entity.Photo.Save.Sound.{find_photo, find_photo-put, update_title-Retitled}
use photoprism.Entity.Photo.Edit.{
  PhotoForm, Copier, Services, EditStore, float_differs, edit_details, relocate, finish_edit,
  save_photo_form,
}

-- A copy leaves the id of a photo alone, as the form has none.
abbrev pub CopiesNoId : Copier → Type 0
CopiesNoId c = (f : PhotoForm) (m n : Photo) → c.copy f m ≡ some n → n.id ≡ m.id

edit_details-id :
    (v : Services) (f : PhotoForm) (m n : Photo) → edit_details v f m ≡ some n → n.id ≡ m.id
unfolding edit_details
edit_details-id v f m n h = ground arith

relocate-kept :
    (v : Services) (s : EditStore) (changed : Bool) (m : Photo) (rows : List PhotoLabel)
    → ((relocate v s changed m rows).1.id ≡ m.id)
      × ((relocate v s changed m rows).0.photo_store ≡ s.photo_store)
unfolding relocate add_keywords
relocate-kept v s changed m rows =
    let located = update_location-Located v.surroundings.tables v.zones v.geo s.place_store m in
    elim (Bool-cases (has_lat_lng m && changed && text_eq m.loc_src src_manual)) [
      | inl e ↦ (ground (arith, e, located.title), ground (arith, e))
      | inr e ↦ (ground (arith, e), ground (arith, e))
    ]

-- The score, the time of the edit and the id of a photo.
pub record Scored (e : Surroundings) (m n : Photo) : Type 0 where
  pub same_row : n.id ≡ m.id
  pub quality : ℕ
  pub scored : n.photo_quality ≡ pos quality
  pub in_bounds : (3 ≤ quality) × (quality ≤ 7)
  pub edited : n.edited_at ≡ some (to_utc e.now)

finish_edit-Scored :
    (e : Surroundings) (s : PhotoStore) (m : Photo) (rows : List PhotoLabel)
    → Scored e m (finish_edit e s m rows).1
      × ((finish_edit e s m rows).0.photos ≡ s.photos)
      × ((finish_edit e s m rows).0.counted ≡ s.counted)
unfolding finish_edit
finish_edit-Scored e s m rows =
    let t = e.tables in
    let titled = (update_title t m (classify_labels rows)).0 in
    let retitled = update_title-Retitled t m (classify_labels rows) in
    let edited = record titled { edited_at = some (to_utc e.now) } in
    let bounds = quality_bounds t.unicode edited in
    (
      record {
        same_row = ap (λ p. p.id) retitled.same;
        quality = quality_score t.unicode edited;
        scored = refl;
        in_bounds = (bounds.2 refl, bounds.0);
        edited = refl;
      },
      refl,
      refl,
    )

before_save-Scored :
    (e : Surroundings) (m n : Photo) → Scored e m n → Scored e m (before_save e.now n)
unfolding before_save
before_save-Scored e m n h = elim (Bool-cases (is_zero n.taken_at || is_zero n.taken_at_local)) [
  | inl z ↦ rw z (record {
    same_row = h.same_row;
    quality = h.quality;
    scored = h.scored;
    in_bounds = h.in_bounds;
    edited = h.edited;
  })
  | inr z ↦ rw z h
]

-- What a write does to the table, with the row that it writes.
write_photo-row :
    (e : Surroundings) (s : PhotoStore) (m : Photo)
    → let (t, n, error) = write_photo e s m in
      (n ≡ before_save e.now m)
      × (error ≡ none
          → (id : ℕ)
          → find_photo id t.photos ≡ (if n.id == id then some n else find_photo id s.photos))
      × (error ≢ none → t.photos ≡ s.photos)
      × (t.counted ≡ s.counted)
unfolding write_photo
write_photo-row e s m = elim (Bool-cases (e.accepts (before_save e.now m))) [
  | inl a ↦ rw a (
    refl,
    (λ h id. find_photo-put id (before_save e.now m) s.photos),
    (λ h. absurd (h refl)),
    refl,
  )
  | inr a ↦ rw a (refl, (λ h id. absurd (ground (arith, h))), (λ h. refl), refl)
]

-- The tables after an edit, without or with an error.
pub record EditOf (e : Surroundings) (m : Photo) (s t : EditStore) (n : Photo)
    (error : Option SaveError) : Type 0 where
  pub written :
      error ≡ none
      → Scored e m n
        × ((id : ℕ)
            → find_photo id t.photo_store.photos
              ≡ (if m.id == id then some n else find_photo id s.photo_store.photos))
        × (t.photo_store.counted ≡ suc s.photo_store.counted)
  pub not_written :
      error ≢ none
      → (t.photo_store.photos ≡ s.photo_store.photos)
        × (t.photo_store.counted ≡ s.photo_store.counted)

some-ne-none : {A : Type 0} {a : A} → some a ≢ none
some-ne-none h = cc

not_written-EditOf :
    (e : Surroundings) (m n : Photo) (s t : EditStore) (x : SaveError)
    → t.photo_store ≡ s.photo_store
    → EditOf e m s t n (some x)
not_written-EditOf e m n s t x same = record {
  written = λ h. absurd (some-ne-none h);
  not_written = λ h. (ap (λ p. p.photos) same, ap (λ p. p.counted) same);
}

update_year_month-id : (m : Photo) → (update_year_month m).id ≡ m.id
unfolding update_year_month
update_year_month-id m = ground arith

-- The last steps, from the photo with its place on.
unfoldable finished :
    Services → EditStore → Photo → List PhotoLabel → EditStore × Photo × Option SaveError
finished v r located labels =
    let (t, edited) = finish_edit v.surroundings r.photo_store located labels in
    let (u, written, error) = write_photo v.surroundings t edited in
    elim error [
      | some x ↦ (record r { photo_store = u }, written, some x)
      | none ↦ (record r { photo_store = record u { counted = suc u.counted } }, written, none)
    ]

finished-EditOf :
    (v : Services) (s r : EditStore) (m located : Photo) (labels : List PhotoLabel)
    → r.photo_store ≡ s.photo_store
    → located.id ≡ m.id
    → let (t, n, error) = finished v r located labels in EditOf v.surroundings m s t n error
unfolding finished
finished-EditOf v s r m located labels same id =
    let e = v.surroundings in
    let (scored, photos, counted) = finish_edit-Scored e r.photo_store located labels in
    let (t, edited) = finish_edit e r.photo_store located labels in
    let (kept, row, no_row, count) = write_photo-row e t edited in
    let (u, written, error) = write_photo e t edited in
    let Good : EditStore × Photo × Option SaveError → Type 0 = λ o. EditOf e m s o.0 o.1 o.2 in
    elim (Option-cases error) [
      | inl h ↦
          let out : finished v r located labels
              ≡ (record r { photo_store = record u { counted = suc u.counted } }, written, none) =
            ground (arith, h) in
          let good : Scored e m written = subst (Scored e m) (sym kept) (
            before_save-Scored e m edited (record {
              same_row = scored.same_row ∙ id;
              quality = scored.quality;
              scored = scored.scored;
              in_bounds = scored.in_bounds;
              edited = scored.edited;
            })) in
          let before : t.photos ≡ s.photo_store.photos = photos ∙ ap (λ p. p.photos) same in
          subst Good (sym out) (record {
            written = λ k. (
              good,
              (λ i. ground (arith, row h i, good.same_row, before)),
              ap suc (count ∙ counted ∙ ap (λ p. p.counted) same),
            );
            not_written = λ k. absurd (k refl);
          })
      | inr (x, h) ↦
          let out : finished v r located labels ≡ (record r { photo_store = u }, written, some x) =
            ground (arith, h) in
          subst Good (sym out) (record {
            written = λ k. absurd (some-ne-none k);
            not_written = λ k. (
              no_row (λ e. some-ne-none (sym h ∙ e)) ∙ photos ∙ ap (λ p. p.photos) same,
              count ∙ counted ∙ ap (λ p. p.counted) same,
            );
          })
    ]

-- An edited photo is written with the time of the edit, under its own id, and with a score between 3 and 7, so
-- that it needs no review; all other photos are as before, and the counts are updated once. With any
-- error, a copy that fails, an empty id or a refused row, no photo is changed. This takes a form that
-- does not change the id of the photo.
pub save_photo_form-EditOf :
    (v : Services) (s : EditStore) (m : Photo) (rows : List PhotoLabel) (f : PhotoForm)
    → CopiesNoId v.copier
    → let (t, n, error) = save_photo_form v s m rows f in EditOf v.surroundings m s t n error
unfolding save_photo_form finished
save_photo_form-EditOf v s m rows f copies =
    let Good : EditStore × Photo × Option SaveError → Type 0 =
      λ o. EditOf v.surroundings m s o.0 o.1 o.2 in
    elim (Option-cases (v.copier.copy f m)) [
      | inl c ↦
          let out : save_photo_form v s m rows f ≡ (s, m, some not_copied) = ground (arith, c) in
          subst Good (sym out) (not_written-EditOf v.surroundings m m s s not_copied refl)
      | inr (n, c) ↦ elim (Bool-cases (has_id n)) [
        | inr no_id ↦
            let out : save_photo_form v s m rows f ≡ (s, n, some empty_id) =
              ground (arith, c, no_id) in
            subst Good (sym out) (not_written-EditOf v.surroundings m n s s empty_id refl)
        | inl there ↦ elim (Option-cases (edit_details v f (update_year_month n))) [
          | inl d ↦
              let out : save_photo_form v s m rows f ≡ (s, n, some not_copied) =
                ground (arith, c, there, d) in
              subst Good (sym out) (not_written-EditOf v.surroundings m n s s not_copied refl)
          | inr (o, d) ↦
              let changed =
                float_differs m.photo_lat f.photo_lat || float_differs m.photo_lng f.photo_lng in
              let (r, located, labels) = relocate v s changed o rows in
              let (id, same) = relocate-kept v s changed o rows in
              let ids =
                id
                ∙ edit_details-id v f (update_year_month n) o d
                ∙ update_year_month-id n
                ∙ copies f m n c in
              let out : save_photo_form v s m rows f ≡ finished v r located labels =
                ground (arith, c, there, d) in
              subst Good (sym out) (finished-EditOf v s r m located labels same ids)
        ]
      ]
    ]
