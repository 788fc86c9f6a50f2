-- ===== src/Library/Index/Manual.antt =====
-- What users set by hand, when the files of a photo are indexed again.
use photoprism.Prelude.{
  ℕ, ◌≡◌, ◌≢◌, refl, sym, ap, ◌∙◌, inl, inr, Bool, true, false, not, ◌&&◌, ◌||◌, List, [], ◌∷◌,
  is_nil, codes, Text, text_eq, text_eq_iff, ltb, ◌==◌, if◌then◌else◌, arith, Bool-cases,
  Option-cases,
}
use mathlib.Core.Path.{subst}
use photoprism.Prelude.Int.{ℤ}
use photoprism.Clock.{Time, is_zero}
use photoprism.Entity.Source.{
  src_auto, src_manual, src_meta, src_xmp, type_image, type_video, type_live,
}
use photoprism.Entity.Photo.{Photo, has_lat_lng, has_title}
use photoprism.Entity.Photo.Setters.{
  set_title, set_description, no_time, date_fields, update_year_month,
}
use photoprism.Entity.Photo.Priority.{
  Edit, title, description, taken_at, coordinates, KeepsManual, KeepsManual-refl, KeepsManual-trans,
  apply-KeepsManual, manual_kept,
}
use photoprism.Txt.Unicode.{byte_length}
use photoprism.Entity.Place.{Place, Location}
use photoprism.Entity.Geo.{PlaceStore, new_location, find}
use photoprism.Entity.Camera.{CameraDatabase, CameraStore}
use photoprism.Entity.Photo.Locate.{
  Zones, with_location, without_location, fill_country, known_location, update_location,
}
use photoprism.Library.Index.Records.{Media, MetaData, Setting}
use photoprism.Library.Index.Lookup.{Work}
use photoprism.Library.Index.Apply.{
  megapixels, raise_resolution, xmp_details, apply_type, apply_jpeg, apply_xmp, apply_raw,
  apply_video, with_meta, meta_photo, update_camera, fill_time, locate, fill_places,
}
use photoprism.Library.Index.{look_at}
use photoprism.Library.Index.Saved.{Saved, Finished}
use photoprism.Entity.Photo.Save.{PhotoStore, before_save}

-- Everything that a user can set by hand, and its sources.
abbrev pub manual_part :
    Photo → Text × Text × Text × Text × Text × Time × Time × Text × Text × ℕ × ℕ × ℤ
manual_part p = (
  p.title_src, p.photo_title, p.description_src, p.photo_description, p.taken_src, p.taken_at,
  p.taken_at_local, p.time_zone, p.loc_src, p.photo_lat, p.photo_lng, p.photo_altitude,
)

pub same-KeepsManual : (m n : Photo) → manual_part m ≡ manual_part n → KeepsManual m n
same-KeepsManual m n e = record {
  title_kept = λ a b. ground (arith, e, a);
  description_kept = λ a b. ground (arith, e, a);
  taken_kept = λ a. ground (arith, e, a);
  coordinates_kept = λ a. ground (arith, e, a);
}

raise_resolution-part : (n : ℕ) (p : Photo) → manual_part p ≡ manual_part (raise_resolution n p)
raise_resolution-part n p = elim (Bool-cases (ltb p.photo_resolution n)) [
  | inl e ↦ rw e refl
  | inr e ↦ rw e refl
]

module _ (m : Media) where
  apply_xmp-KeepsManual : (p : Photo) → KeepsManual p (apply_xmp m p)
  unfolding apply_xmp
  apply_xmp-KeepsManual p = elim (Option-cases m.xmp) [
    | inl e ↦ rw (apply_xmp, e) (KeepsManual-refl p)
    | inr (d, e) ↦
        let q = set_description (set_title p d.title src_xmp) d.description src_xmp in
        rw (apply_xmp, e)
          (KeepsManual-trans p q (xmp_details d q)
            (manual_kept p (title d.title src_xmp ∷ description d.description src_xmp ∷ [])
              (ground arith))
            (same-KeepsManual q (xmp_details d q) refl))
  ]

  apply_jpeg-part : (w : Work) → manual_part w.photo ≡ manual_part (apply_jpeg m w).photo
  unfolding apply_jpeg
  apply_jpeg-part w = elim (Bool-cases (ltb 0 m.width && ltb 0 m.height)) [
    | inl e ↦ rw (apply_jpeg, e) (raise_resolution-part (megapixels m.width m.height) w.photo)
    | inr e ↦ rw (apply_jpeg, e) refl
  ]

  apply_video-part :
      (v : Setting) (w : Work) → manual_part w.photo ≡ manual_part (apply_video v m w).photo
  unfolding apply_video
  apply_video-part v w =
      raise_resolution-part (megapixels m.meta_data.width m.meta_data.height) (record w.photo {
        photo_type =
            if m.meta_data.duration == 0 || ltb 3_100_000_000 m.meta_data.duration
            then type_video
            else type_live;
      })

  apply_raw-part : (p : Photo) → manual_part p ≡ manual_part (apply_raw p)
  apply_raw-part p = elim (Bool-cases (text_eq p.photo_type type_image)) [
    | inl e ↦ rw e refl
    | inr e ↦ rw e refl
  ]

  pub apply_type-KeepsManual :
      (v : Setting) (w : Work) → KeepsManual w.photo (apply_type v m w).photo
  unfolding apply_type
  apply_type-KeepsManual v w = elim (Bool-cases m.is_jpeg) [
    | inl jpeg ↦
        rw (apply_type, jpeg) (same-KeepsManual w.photo (apply_jpeg m w).photo (apply_jpeg-part w))
    | inr a ↦ elim (Bool-cases m.is_xmp) [
      | inl xmp ↦ rw (apply_type, a, xmp) (apply_xmp-KeepsManual w.photo)
      | inr b ↦ elim (Bool-cases m.is_raw) [
        | inl raw ↦
            rw (apply_type, a, b, raw)
              (same-KeepsManual w.photo (apply_raw w.photo) (apply_raw-part w.photo))
        | inr c ↦ elim (Bool-cases m.is_video) [
          | inl video ↦
              rw (apply_type, a, b, c, video)
                (same-KeepsManual w.photo (apply_video v m w).photo (apply_video-part v w))
          | inr d ↦ rw (apply_type, a, b, c, d) (KeepsManual-refl w.photo)
        ]
      ]
    ]
  ]

  pub look_at-part :
      (v : Setting) (b : Bool) (p : Photo) → manual_part p ≡ manual_part (look_at v m b p).0
  unfolding look_at
  look_at-part v b p = elim (Bool-cases v.disable_tensor_flow) [
    | inl e ↦ rw (look_at, e) refl
    | inr e ↦
        rw (look_at, e)
          (elim (Bool-cases (not b && v.detect_private)) [ inl f ↦ rw f refl | inr f ↦ rw f refl ])
  ]

  pub meta_photo-KeepsManual : (d : MetaData) (p : Photo) → KeepsManual p (meta_photo d p)
  unfolding meta_photo with_meta
  meta_photo-KeepsManual d p = elim (Bool-cases d.failed) [
    | inl e ↦ rw (meta_photo, e) (KeepsManual-refl p)
    | inr e ↦
        let edits : List Edit =
          title d.title src_meta
          ∷ description d.description src_meta
          ∷ taken_at d.taken_at d.taken_at_local d.time_zone src_meta
          ∷ coordinates d.lat d.lng d.altitude src_meta
          ∷ [] in
        rw (meta_photo, e)
          (KeepsManual-trans p (with_meta d p) _ (manual_kept p edits (ground arith))
            (same-KeepsManual (with_meta d p) _ refl))
  ]

  pub update_camera-part :
      (d : CameraDatabase) (s : CameraStore) (p : Photo)
      → manual_part p ≡ manual_part (update_camera d m s p).1
  unfolding update_camera
  update_camera-part d s p = elim (Bool-cases (text_eq p.camera_src src_auto)) [
    | inl e ↦ rw (update_camera, e) refl
    | inr e ↦ rw (update_camera, e) refl
  ]

  pub fill_time-KeepsManual :
      (p : Photo) → m.taken_at.1 ≢ src_manual → KeepsManual p (fill_time m p)
  unfolding fill_time
  fill_time-KeepsManual p other =
      elim (Bool-cases (is_zero p.taken_at || is_zero p.taken_at_local)) [
        | inl e ↦
            rw (fill_time, e)
              (apply-KeepsManual p (taken_at m.taken_at.0 m.taken_at.0 [] m.taken_at.1) other)
        | inr e ↦ rw (fill_time, e) (KeepsManual-refl p)
      ]

  fill_country-part : (p : Photo) → manual_part p ≡ manual_part (fill_country p)
  unfolding fill_country
  fill_country-part p = elim (Option-cases p.place) [
    | inl e ↦ rw (fill_country, e) refl
    | inr (q, e) ↦
        rw (fill_country, e)
          (elim (Bool-cases (is_nil p.photo_country || text_eq p.photo_country (codes "zz"))) [
            | inl f ↦ rw f refl
            | inr f ↦ rw f refl
          ])
  ]

  with_location-KeepsManual :
      (z : Zones) (p : Photo) (l : Location) (q : Place) → KeepsManual p (with_location z p l q)
  unfolding with_location
  with_location-KeepsManual z p l q = elim (Bool-cases (text_eq p.taken_src src_manual)) [
    | inl e ↦ rw (with_location, e) (same-KeepsManual p _ refl)
    | inr e ↦
        rw (with_location, e)
          (record {
            title_kept = λ a b. (a, refl);
            description_kept = λ a b. (a, refl);
            taken_kept = λ a. absurd (ground (arith, e, a, text_eq_iff p.taken_src src_manual));
            coordinates_kept = λ a. (a, refl, refl, refl);
          })
  ]

  pub locate-KeepsManual :
      (v : Setting) (s : PlaceStore) (p : Photo) → KeepsManual p (locate v s p).1
  unfolding locate update_location
  locate-KeepsManual v s p = elim (Bool-cases (has_lat_lng p)) [
    | inr e ↦ rw (locate, e) (same-KeepsManual p (without_location p) refl)
    | inl e ↦
        let (r, l, found) = find v.geo s (new_location v.geo p.photo_lat p.photo_lng) in
        elim (Option-cases (known_location found l)) [
          | inl f ↦
              rw (locate, e, update_location, f)
                (same-KeepsManual p (fill_country (without_location p))
                  (fill_country-part (without_location p)))
          | inr (q, f) ↦
              rw (locate, e, update_location, f)
                (KeepsManual-trans p (with_location v.zones p l q)
                  (fill_country (with_location v.zones p l q))
                  (with_location-KeepsManual v.zones p l q)
                  (same-KeepsManual _ _ (fill_country-part (with_location v.zones p l q))))
        ]
  ]

  pub fill_places-part : (p : Photo) → manual_part p ≡ manual_part (fill_places p)
  unfolding fill_places
  fill_places-part p = elim (Bool-cases (ltb (byte_length p.loc_uid) 2)) [
    | inl e ↦
        rw (fill_places, e)
          (elim (Bool-cases (ltb (byte_length p.place_uid) 2)) [
            | inl f ↦ rw f refl
            | inr f ↦ rw f refl
          ])
    | inr e ↦
        rw (fill_places, e)
          (elim (Bool-cases (ltb (byte_length p.place_uid) 2)) [
            | inl f ↦ rw f refl
            | inr f ↦ rw f refl
          ])
  ]

-- A photo whose time was set by hand has one.
pub record Timed (p : Photo) : Type 0 where
  pub taken : p.taken_src ≡ src_manual → is_zero p.taken_at ≡ false
  pub local : p.taken_src ≡ src_manual → no_time p.taken_at_local ≡ false

date_fields-part : (q : Photo) → manual_part q ≡ manual_part (date_fields q)
date_fields-part q = elim (Bool-cases (text_eq q.taken_src src_auto)) [
  | inl e ↦ rw e refl
  | inr e ↦ rw e refl
]

abbrev with_local : Photo → Photo
with_local q = record q { taken_at_local = q.taken_at }

with_local-KeepsManual :
    (p q : Photo)
    → Timed p
    → KeepsManual p q
    → no_time q.taken_at_local ≡ true
    → KeepsManual p (with_local q)
with_local-KeepsManual p q t h e = record {
  title_kept = h.title_kept;
  description_kept = h.description_kept;
  taken_kept = λ a.
      let (source, taken, local, zone) = h.taken_kept a in
      let set : no_time p.taken_at_local ≡ true = subst (λ x. no_time x ≡ true) local e in
      absurd (ground (arith, set, t.local a));
  coordinates_kept = h.coordinates_kept;
}

pub update_year_month-KeepsManual :
    (p q : Photo) → Timed p → KeepsManual p q → KeepsManual p (update_year_month q)
unfolding update_year_month
update_year_month-KeepsManual p q t h = elim (Bool-cases (no_time q.taken_at)) [
  | inl e ↦ rw (update_year_month, e) h
  | inr e ↦ elim (Bool-cases (no_time q.taken_at_local)) [
    | inl l ↦
        rw (update_year_month, e, l)
          (KeepsManual-trans p (with_local q) _ (with_local-KeepsManual p q t h l)
            (same-KeepsManual _ _ (date_fields-part (with_local q))))
    | inr l ↦
        rw (update_year_month, e, l)
          (KeepsManual-trans p q _ h (same-KeepsManual _ _ (date_fields-part q)))
  ]
]

before_save-KeepsManual :
    (now : Time) (p q : Photo) → Timed p → KeepsManual p q → KeepsManual p (before_save now q)
unfolding before_save
before_save-KeepsManual now p q t h =
    elim (Bool-cases (is_zero q.taken_at || is_zero q.taken_at_local)) [
      | inr e ↦ rw (before_save, e) h
      | inl e ↦
          rw (before_save, e)
            (record {
              title_kept = h.title_kept;
              description_kept = h.description_kept;
              taken_kept = λ a.
                  let (source, taken, local, zone) = h.taken_kept a in
                  let never : (is_zero p.taken_at || is_zero p.taken_at_local) ≡ true =
                    subst (λ x. (is_zero x || is_zero p.taken_at_local) ≡ true) taken
                      (subst (λ x. (is_zero q.taken_at || is_zero x) ≡ true) local e) in
                  absurd (ground (arith, never, t.taken a, t.local a));
              coordinates_kept = h.coordinates_kept;
            })
    ]

module _ (v : Setting) (p : Photo) (timed : Timed p) where
  pub Saved-KeepsManual :
      (s t : PhotoStore) (q n : Photo) → KeepsManual p q → Saved v s q t n → KeepsManual p n
  Saved-KeepsManual s t q n h saved =
      let q' = before_save v.surroundings.now q in
      KeepsManual-trans p q' n (before_save-KeepsManual v.surroundings.now p q timed h) (
        subst (KeepsManual q') (sym saved.photo)
          (same-KeepsManual q' (record q' { details = saved.details }) refl))

  pub stored-KeepsManual :
      (s t : PhotoStore) (q n : Photo)
      → KeepsManual p n
      → (saved : Saved v s q t n) → KeepsManual p saved.row
  stored-KeepsManual s t q n h saved = KeepsManual-trans p n saved.row h (
      subst (KeepsManual n) (sym saved.stored)
        (same-KeepsManual n (record n { details = saved.row.details }) refl))

  title_closed :
      (q : Photo)
      → q.title_src ≡ src_manual
      → has_title q ≡ true
      → (not (text_eq q.title_src src_auto) && has_title q) ≡ true
  title_closed q a b = ground (arith, text_eq_iff q.title_src src_auto, a, b)

  titled-KeepsManual : (q r : Photo) → KeepsManual p q → (f : Finished q r) → KeepsManual p f.titled
  titled-KeepsManual q r h f =
      let same = f.retitled.same in
      record {
        title_kept = λ a b.
            let (source, text) = h.title_kept a b in
            let there : has_title q ≡ true = rw text b in
            let e = f.closed (title_closed q source there) in
            (
              ap (λ (k : Photo). k.title_src) e ∙ source,
              ap (λ (k : Photo). k.photo_title) e ∙ text,
            );
        description_kept = λ a b.
            let (source, text) = h.description_kept a b in
            (
              ap (λ (k : Photo). k.description_src) same ∙ source,
              ap (λ (k : Photo). k.photo_description) same ∙ text,
            );
        taken_kept = λ a.
            let (source, taken, local, zone) = h.taken_kept a in
            (
              ap (λ (k : Photo). k.taken_src) same ∙ source,
              ap (λ (k : Photo). k.taken_at) same ∙ taken,
              ap (λ (k : Photo). k.taken_at_local) same ∙ local,
              ap (λ (k : Photo). k.time_zone) same ∙ zone,
            );
        coordinates_kept = λ a.
            let (source, lat, lng, altitude) = h.coordinates_kept a in
            (
              ap (λ (k : Photo). k.loc_src) same ∙ source,
              ap (λ (k : Photo). k.photo_lat) same ∙ lat,
              ap (λ (k : Photo). k.photo_lng) same ∙ lng,
              ap (λ (k : Photo). k.photo_altitude) same ∙ altitude,
            );
      }

  pub Finished-KeepsManual : (q r : Photo) → KeepsManual p q → Finished q r → KeepsManual p r
  Finished-KeepsManual q r h f = KeepsManual-trans p f.titled r (titled-KeepsManual q r h f) (
      subst (KeepsManual f.titled) (sym f.same) (
        same-KeepsManual f.titled
          (record f.titled { details = f.details; photo_quality = f.quality }) refl))
