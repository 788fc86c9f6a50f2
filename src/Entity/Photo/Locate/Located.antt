-- ===== src/Entity/Photo/Locate/Located.antt =====
-- internal/entity/photo_location.go: the location, the place and the country of a photo agree.
use photoprism.Prelude.{
  ◌≡◌, refl, true, List, [], ◌∷◌, is_nil, Text, text_eq, text_eq_iff, none, some, arith, inl, inr,
  Bool-cases, Option-cases,
}
use mathlib.Core.Path.{subst}
use photoprism.Entity.Source.{src_manual}
use photoprism.Entity.Tables.{Tables}
use photoprism.Entity.Place.{Place, Location, unknown_place, unknown_location}
use photoprism.Entity.Geo.{
  PlaceStore, GeoService, new_location, find_place_by_label, find_location, place_of, find,
}
use photoprism.Entity.Photo.{Photo}
use photoprism.Entity.Photo.Locate.{
  Zones, with_location, without_location, fill_country, known_location, update_location,
}

find_place_by_label-uid :
    (uid : Text) (ps : List Place) (p : Place)
    → find_place_by_label uid [] ps ≡ some p
    → p.place_uid ≡ uid
unfolding find_place_by_label
find_place_by_label-uid uid [] p h = absurd (ground (arith, h))
find_place_by_label-uid uid (q ∷ ps) p h =
    ground (arith, h, text_eq_iff q.place_uid uid, find_place_by_label-uid uid ps p)

-- A location whose place, where it is there, has the id that the location names.
abbrev pub Agrees : Location → Type 0
Agrees l = (p : Place) → l.place ≡ some p → p.place_uid ≡ l.place_uid

find_location-Agrees :
    (uid : Text) (s : PlaceStore) (ls : List Location) (l : Location)
    → find_location uid s ls ≡ some l
    → Agrees l
unfolding find_location
find_location-Agrees uid s [] l h = absurd (ground (arith, h))
find_location-Agrees uid s (k ∷ ls) l h = elim (Bool-cases (text_eq k.loc_uid uid)) [
  | inl c ↦
      let same : record k { place = find_place_by_label k.place_uid [] s.places } ≡ l =
        ground (arith, h, c) in
      subst Agrees same (λ p e. find_place_by_label-uid k.place_uid s.places p e)
  | inr c ↦ find_location-Agrees uid s ls l (ground (arith, h, c))
]

find-Agrees :
    (g : GeoService) (s : PlaceStore) (m : Location) → m.place ≡ none → Agrees (find g s m).1
unfolding find
find-Agrees g s m empty = elim (Option-cases (find_location m.loc_uid s s.locations)) [
  | inr (l, e) ↦
      let out : l ≡ (find g s m).1 = ground (arith, e) in
      subst Agrees out (find_location-Agrees m.loc_uid s s.locations l e)
  | inl e ↦ elim (Option-cases (g.query m.loc_uid)) [
    | inl q ↦ let out : m ≡ (find g s m).1 = ground (arith, e, q) in subst Agrees out bare
    | inr (a, q) ↦
        let (t, p) = place_of g s a in
        let n : Location = record m {
          place = some p;
          place_uid = p.place_uid;
          loc_name = a.name;
          loc_category = a.category;
          loc_source = a.source;
        } in
        let filled : Agrees n = λ o h. ground (arith, h) in
        elim (Bool-cases (g.creates_location t n)) [
          | inl c ↦
              let out : n ≡ (find g s m).1 = ground (arith, e, q, c) in subst Agrees out filled
          | inr c ↦
              let u = g.meanwhile t in
              elim (Option-cases (find_location m.loc_uid u u.locations)) [
                | inr (l, f) ↦
                    let out : l ≡ (find g s m).1 = ground (arith, e, q, c, f) in
                    subst Agrees out (find_location-Agrees m.loc_uid u u.locations l f)
                | inl f ↦
                    let out : n ≡ (find g s m).1 = ground (arith, e, q, c, f) in
                    subst Agrees out filled
              ]
        ]
  ]
]
  where
    bare : Agrees m
    bare p h = absurd (ground (arith, h, empty))

-- What the location, the place and their ids of a photo are after the update.
pub record Located (m n : Photo) : Type 0 where
  pub location : Location
  pub place : Place
  pub at : (n.location ≡ some location) × (n.loc_uid ≡ location.loc_uid)
  pub in_place : (n.place ≡ some place) × (n.place_uid ≡ place.place_uid)
  pub country : is_nil n.photo_country ≡ true → is_nil place.loc_country ≡ true
  pub time : m.taken_src ≡ src_manual → (n.taken_at ≡ m.taken_at) × (n.time_zone ≡ m.time_zone)
  pub title : (n.photo_title ≡ m.photo_title) × (n.id ≡ m.id) × (n.details ≡ m.details)

with_location-Located :
    (z : Zones) (m : Photo) (l : Location) (p : Place)
    → p.place_uid ≡ l.place_uid
    → Located m (fill_country (with_location z m l p))
unfolding with_location fill_country
with_location-Located z m l p agrees = record {
  location = l;
  place = p;
  at = ground arith;
  in_place = ground (arith, agrees);
  country = λ h. ground (arith, h);
  time = λ h. ground (arith, text_eq_iff m.taken_src src_manual);
  title = ground arith;
}

without_location-Located : (m : Photo) → Located m (fill_country (without_location m))
unfolding fill_country text_eq
without_location-Located m = record {
  location = unknown_location;
  place = unknown_place;
  at = ground arith;
  in_place = ground arith;
  country = λ h. ground (arith, h);
  time = λ h. ground arith;
  title = ground arith;
}

-- After the update of its location, a photo has a location and a place, both named by their ids; it has a country
-- where its place has one; a time that was set by hand, with its zone, stays, and so do the title and
-- the details; whatever the database and the geocoding service answer.
pub update_location-Located :
    (t : Tables) (z : Zones) (g : GeoService) (s : PlaceStore) (m : Photo)
    → Located m (update_location t z g s m).1
unfolding update_location
update_location-Located t z g s m =
    let (r, l, found) = find g s (new_location g m.photo_lat m.photo_lng) in
    let agrees = find-Agrees g s (new_location g m.photo_lat m.photo_lng) refl in
    elim (Option-cases (known_location found l)) [
      | inl e ↦
          let out : fill_country (without_location m) ≡ (update_location t z g s m).1 =
            ground (arith, e) in
          subst (Located m) out (without_location-Located m)
      | inr (p, e) ↦
          let there : l.place ≡ some p = ground (arith, e) in
          let out : fill_country (with_location z m l p) ≡ (update_location t z g s m).1 =
            ground (arith, e) in
          subst (Located m) out (with_location-Located z m l p (agrees p there))
    ]
