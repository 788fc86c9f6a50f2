-- ===== src/Entity/Photo/Save/Sound.antt =====
-- internal/entity/photo.go and photo_maintenance.go: what a written photo is like.
use photoprism.Prelude.{
  ℕ, suc, ◌≡◌, ◌≢◌, refl, sym, ap, ◌∙◌, Bool, true, false, not, ◌||◌, ◌&&◌, List, [], ◌∷◌, Text,
  text_eq, ◌==◌, if◌then◌else◌, Option, none, some, arith, inl, inr, Bool-cases, Option-cases,
}
use mathlib.Core.Path.{subst}
use photoprism.Prelude.Int.{ℤ, pos}
use photoprism.Clock.{Time, is_zero}
use photoprism.Txt.Unicode.{Unicode}
use photoprism.Txt.Clip.{clip, clip_default}
use photoprism.Entity.Tables.{Tables}
use photoprism.Classify.{Label, label_keywords}
use photoprism.Entity.Source.{src_auto}
use photoprism.Entity.Photo.{
  Photo, Details, no_location, has_id, has_title, has_lat_lng, details_loaded,
}
use photoprism.Entity.Photo.Setters.{yields, set_title, no_time, update_year_month}
use photoprism.Entity.Photo.Title.{set_choice, place_title, plain_title, finish_title, update_title}
use photoprism.Entity.Photo.Titled.{update_title_lem, place_title_choice}
use photoprism.Entity.Photo.Dates.{IsDated, update_year_month-IsDated}
use photoprism.Entity.Photo.Quality.{quality_score, age_score, blacklisted}
use photoprism.Entity.Label.{PhotoLabel, classify_labels}
use photoprism.Entity.Photo.Save.{
  SaveError, refused, PhotoStore, Surroundings, add_keywords, improve, before_save, put_photo,
  write_photo, save, estimate_position, wants_position, placed, maintain,
}

-- Only the title and its source differ.
pub record Retitled (m n : Photo) : Type 0 where
  pub title : Text
  pub source : Text
  pub same : n ≡ record m { photo_title = title; title_src = source }

set_title-Retitled : (m : Photo) (title source : Text) → Retitled m (set_title m title source)
unfolding set_title
set_title-Retitled m title source =
    let new_title = clip title clip_default in
    elim (Bool-cases (text_eq new_title [] || (not (yields m.title_src source) && has_title m))) [
      | inl e ↦ record { title = m.photo_title; source = m.title_src; same = ground (arith, e) }
      | inr e ↦ record { title = new_title; source = source; same = ground (arith, e) }
    ]

set_choice-Retitled : (m : Photo) (choice : Option Text) → Retitled m (set_choice m choice)
set_choice-Retitled m none = record { title = m.photo_title; source = m.title_src; same = refl }
set_choice-Retitled m (some title) = set_title-Retitled m title src_auto

Retitled-trans : (m n o : Photo) → Retitled m n → Retitled n o → Retitled m o
Retitled-trans m n o a b = record {
  title = b.title;
  source = b.source;
  same =
      b.same
      ∙ ap {A = Photo} {B = Photo} (λ p. record p { photo_title = b.title; title_src = b.source })
          a.same;
}

place_title-Retitled :
    (t : Tables) (m : Photo) (labels : List Label) → Retitled m (place_title t m labels).1
place_title-Retitled t m labels =
    let (choice, e) = place_title_choice t m labels in
    subst (Retitled m) (sym e) (set_choice-Retitled m choice)

finish_title-Retitled :
    (t : Tables) (known : Bool) (m : Photo) (labels : List Label)
    → Retitled m (finish_title t known m labels)
finish_title-Retitled t known m labels = elim (Bool-cases (not known || not (has_title m))) [
  | inl e ↦ rw e (set_title-Retitled m (plain_title t m labels) src_auto)
  | inr e ↦ rw e (record { title = m.photo_title; source = m.title_src; same = refl })
]

pub update_title-Retitled :
    (t : Tables) (m : Photo) (labels : List Label) → Retitled m (update_title t m labels).0
unfolding update_title
update_title-Retitled t m labels =
    elim (Bool-cases (not (text_eq m.title_src src_auto) && has_title m)) [
      | inl e ↦ rw e (record { title = m.photo_title; source = m.title_src; same = refl })
      | inr e ↦ rw e (
          Retitled-trans m _ _ (place_title-Retitled t m labels) (
            finish_title-Retitled t (place_title t m labels).0 (place_title t m labels).1
              (place_title t m labels).2))
    ]

-- A photo that was brought up to date: nothing but the date, the title, the keywords and the score differ; its score
-- is that of the row itself; a title by hand stays; and it is dated.
pub record Improved (e : Surroundings) (m : Photo) (n : Photo) : Type 0 where
  pub rest :
      let d = update_year_month m in
      let details : Details = d.details in
      n ≡ record d {
        photo_title = n.photo_title;
        title_src = n.title_src;
        details = record details { keywords = n.details.keywords };
        photo_quality = n.photo_quality;
      }
  pub scored : n.photo_quality ≡ pos (quality_score e.tables.unicode n)
  pub closed :
      text_eq m.title_src src_auto ≡ false
      → has_title m ≡ true
      → (n.photo_title ≡ m.photo_title) × (n.title_src ≡ m.title_src)
  pub dated : IsDated n

-- Only the keywords differ.
record Reworded (m n : Photo) : Type 0 where
  words : Text
  same :
      let details : Details = m.details in
      n ≡ record m { details = record details { keywords = words } }

worded : Tables → Photo → List Label → Photo
worded t m labels =
    if details_loaded m then add_keywords t m (label_keywords t.unicode t.stopword labels) else m

worded-Reworded : (t : Tables) (m : Photo) (labels : List Label) → Reworded m (worded t m labels)
unfolding worded add_keywords
worded-Reworded t m labels = elim (Bool-cases (details_loaded m)) [
  | inl e ↦ rw e (record {
    words = (add_keywords t m (label_keywords t.unicode t.stopword labels)).details.keywords;
    same = refl;
  })
  | inr e ↦ rw e (record { words = m.details.keywords; same = refl })
]

-- The parts of a photo that was retitled, reworded and scored.
rest_lem :
    (d titled w : Photo) (q : ℤ)
    → Retitled d titled
    → Reworded titled w
    → let details : Details = d.details in
      record w { photo_quality = q } ≡ record d {
        photo_title = w.photo_title;
        title_src = w.title_src;
        details = record details { keywords = w.details.keywords };
        photo_quality = q;
      }
rest_lem d titled w q a b =
    let P = λ (w' : Photo).
      let details : Details = d.details in
      record w' { photo_quality = q } ≡ record d {
        photo_title = w'.photo_title;
        title_src = w'.title_src;
        details = record details { keywords = w'.details.keywords };
        photo_quality = q;
      } in
    subst P (sym b.same) (
      subst
        (λ (t : Photo).
          let details : Details = t.details in
          P (record t { details = record details { keywords = b.words } }))
        (sym a.same) refl)

-- The score does not look at the score.
quality_score-quality :
    (u : Unicode) (m : Photo)
    → pos (quality_score u m)
      ≡ pos (quality_score u (record m { photo_quality = pos (quality_score u m) }))
unfolding quality_score age_score blacklisted has_lat_lng
quality_score-quality u m = refl

IsDated-rest :
    (d : Photo) (title source : Text) (details : Details) (q : ℤ)
    → IsDated d
    → IsDated
        (record d { photo_title = title; title_src = source; details = details; photo_quality = q })
IsDated-rest d title source details q h = record {
  utc = h.utc;
  guessed = h.guessed;
  known = h.known;
  local = h.local;
}

update_year_month-title :
    (m : Photo)
    → ((update_year_month m).photo_title ≡ m.photo_title)
      × ((update_year_month m).title_src ≡ m.title_src)
unfolding update_year_month
update_year_month-title m = ground arith

improve-Improved :
    (e : Surroundings) (s : PhotoStore) (m : Photo) (labels : List Label)
    → no_time m.taken_at ≡ false
    → Improved e m (improve e s m labels).1
unfolding improve worded
improve-Improved e s m labels real =
    let d = update_year_month m in
    let t = e.tables in
    let (titled, sorted, error) = update_title t d labels in
    let retitled = update_title-Retitled t d labels in
    let w = worded t titled sorted in
    let reworded = worded-Reworded t titled sorted in
    record {
      rest = rest_lem d titled w (pos (quality_score t.unicode w)) retitled reworded;
      scored = quality_score-quality t.unicode w;
      closed = λ source there.
          let kept = update_year_month-title m in
          let same : titled ≡ d =
            ap (λ r. r.0)
              ((update_title_lem t d labels).0 (ground (arith, kept, source))
                (ground (arith, kept, there))) in
          (
            ap (λ p. p.photo_title) reworded.same ∙ ap (λ p. p.photo_title) same ∙ kept.0,
            ap (λ p. p.title_src) reworded.same ∙ ap (λ p. p.title_src) same ∙ kept.1,
          );
      dated =
          subst IsDated
            (sym (rest_lem d titled w (pos (quality_score t.unicode w)) retitled reworded))
            (IsDated-rest d _ _ _ _ (update_year_month-IsDated m real));
    }

-- The first row with the id.
unfoldable pub find_photo : ℕ → List Photo → Option Photo
find_photo id [] = none
find_photo id (p ∷ ps) = if p.id == id then some p else find_photo id ps

pub find_photo-put :
    (id : ℕ) (m : Photo) (ps : List Photo)
    → find_photo id (put_photo m ps) ≡ (if m.id == id then some m else find_photo id ps)
unfolding find_photo put_photo
find_photo-put id m [] = refl
find_photo-put id m (p ∷ ps) = ground (arith, find_photo-put id m ps)

-- A photo that was written, or refused: the table has its row exactly where there is no error, and all others are as they were.
pub record Written (s t : PhotoStore) (n : Photo) (error : Option SaveError) : Type 0 where
  pub row :
      error ≡ none
      → (id : ℕ) → find_photo id t.photos ≡ (if n.id == id then some n else find_photo id s.photos)
  pub no_row : error ≢ none → (error ≡ some refused) × (t.photos ≡ s.photos)

write_photo-Written :
    (e : Surroundings) (s : PhotoStore) (m : Photo)
    → is_zero m.taken_at ≡ false
    → is_zero m.taken_at_local ≡ false
    → ((write_photo e s m).1 ≡ m) × Written s (write_photo e s m).0 m (write_photo e s m).2
unfolding write_photo before_save
write_photo-Written e s m utc local =
    let same : before_save e.now m ≡ m = ground arith in
    elim (Bool-cases (e.accepts m)) [
      | inl ok ↦
          let out : write_photo e s m ≡ (record s { photos = put_photo m s.photos }, m, none) =
            ground (arith, same, ok) in
          (
            ap (λ r. r.1) out,
            subst (λ r. Written s r.0 m r.2) (sym out)
                (record {
                  row = λ h id. find_photo-put id m s.photos;
                  no_row = λ h. absurd (h refl);
                }),
          )
      | inr refuses ↦
          let out : write_photo e s m ≡ (s, m, some refused) = ground (arith, same, refuses) in
          (
            ap (λ r. r.1) out,
            subst (λ r. Written s r.0 m r.2) (sym out)
                (record { row = λ h id. absurd (some-ne-none h); no_row = λ h. (refl, refl) }),
          )
    ]
  where
    some-ne-none : {A : Type 0} {a : A} → some a ≢ none
    some-ne-none h = cc

-- The steps that Save and Maintain share.
improve-written :
    (e : Surroundings) (s : PhotoStore) (m : Photo) (labels : List Label)
    → no_time m.taken_at ≡ false
    → let (improved, n) = improve e s m labels in
      let (t, written, error) = write_photo e improved n in
      Improved e m written × Written s t written error
unfolding improve
improve-written e s m labels real =
    let (r, n) = improve e s m labels in
    let improved = improve-Improved e s m labels real in
    let (same, there) =
      write_photo-Written e r n (set_time n.taken_at improved.dated.utc)
        (set_time n.taken_at_local improved.dated.local) in
    (
      subst (Improved e m) (sym same) improved,
      subst (λ p. Written s (write_photo e r n).0 p (write_photo e r n).2) (sym same)
          (record { row = there.row; no_row = there.no_row }),
    )
  where
    set_time : (t : Time) → no_time t ≡ false → is_zero t ≡ false
    set_time t h = ground (arith, h)

-- Saving a photo with an id, whose time is set to the year 1000 or later, brings it up to date: nothing but the
-- local time, the year and the month, the title, the keywords and the score differ from before, the score
-- is that of the row that is written, a title by hand stays, and the photo is dated; and the table has
-- this row, and the others as before, unless the database refuses it, which is the only error.
pub save-Improved :
    (e : Surroundings) (s : PhotoStore) (m : Photo) (rows : List PhotoLabel)
    → has_id m ≡ true
    → no_time m.taken_at ≡ false
    → let (t, n, error) = save e s m rows in Improved e m n × Written s t n error
unfolding save
save-Improved e s m rows id real =
    let (r, n) = improve e s m (classify_labels rows) in
    let (improved, there) = improve-written e s m (classify_labels rows) real in
    let (t, written, error) = write_photo e r n in
    let Good : PhotoStore × Photo × Option SaveError → Type 0 =
      λ o. Improved e m o.1 × Written s o.0 o.1 o.2 in
    elim (Option-cases error) [
      | inl h ↦
          let out : save e s m rows ≡ (record t { counted = suc t.counted }, written, none) =
            ground (arith, id, h) in
          subst Good (sym out)
            (improved, record { row = λ k. there.row h; no_row = λ k. absurd (k refl) })
      | inr (x, h) ↦
          let out : save e s m rows ≡ (t, written, error) = ground (arith, id, h) in
          subst Good (sym out) (improved, there)
    ]

placed-kept :
    (e : Surroundings) (s : PhotoStore) (m : Photo)
    → (wants_position m ≡ false → placed e s m ≡ record m { maintained_at = some e.now })
      × (placed e s m ≡ record m {
        place = (placed e s m).place;
        place_uid = (placed e s m).place_uid;
        photo_country = (placed e s m).photo_country;
        loc_src = (placed e s m).loc_src;
        maintained_at = some e.now;
      })
unfolding placed estimate_position wants_position no_location
placed-kept e s m = (λ h. ground (arith, h), ground arith)

-- Maintenance of a photo with an id, whose time is set to the year 1000 or later, likewise brings it up to date and
-- writes it. A position is estimated only where the photo has none or an estimated one: everywhere
-- else the photo begins as it was; and an estimate touches only the place, the country and their source.
pub maintain-Improved :
    (e : Surroundings) (s : PhotoStore) (m : Photo) (rows : List PhotoLabel)
    → has_id m ≡ true
    → no_time m.taken_at ≡ false
    → let (t, n, error) = maintain e s m rows in
      Improved e (placed e s m) n
      × Written s t n error
      × (wants_position m ≡ false → placed e s m ≡ record m { maintained_at = some e.now })
      × (placed e s m ≡ record m {
        place = (placed e s m).place;
        place_uid = (placed e s m).place_uid;
        photo_country = (placed e s m).photo_country;
        loc_src = (placed e s m).loc_src;
        maintained_at = some e.now;
      })
unfolding maintain
maintain-Improved e s m rows id real =
    let kept = placed-kept e s m in
    let (improved, there) =
      improve-written e s (placed e s m) (classify_labels rows)
        (ap (λ p. no_time p.taken_at) kept.1 ∙ real) in
    (rw id improved, rw id there, kept.0, kept.1)
