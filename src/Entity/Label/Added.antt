-- ===== src/Entity/Label/Added.antt =====
-- internal/entity/photo.go, `AddLabels`: what it does to the labels of photos.
use photoprism.Prelude.{
  ℕ, ◌≡◌, refl, sym, ap, ◌∙◌, false, ◌&&◌, List, [], ◌∷◌, ◌++◌, Text, ◌==◌, if◌then◌else◌, some,
  arith, inl, inr, Bool-cases, Option-cases,
}
use mathlib.Core.Path.{subst}
use photoprism.Prelude.Int.{ℤ, pos, negsuc, ltb_ℤ, ◌≤ℤ◌, ◌<ℤ◌}
use photoprism.Txt.Title.{title_case}
use photoprism.Classify.{Label}
use photoprism.Entity.Label.{
  LabelRow, PhotoLabel, LabelStore, LabelDatabase, first_or_create_label, update_classify,
  add_categories, new_photo_label, find_photo_label, first_or_create_photo_label,
  update_photo_label, link_label, add_label, add_labels, label_text, new_label, classified,
  save_label,
}

-- A row of a table becomes this one in the next: the same for another photo and where the uncertainty is 100
-- or more, and otherwise no less certain.
pub record Improves (photo_id : ℕ) (r : PhotoLabel) (r' : PhotoLabel) : Type 0 where
  pub same_key : (r'.photo_id ≡ r.photo_id) × (r'.label_id ≡ r.label_id)
  pub no_worse : r'.uncertainty ≤ℤ r.uncertainty
  pub fixed : pos 100 ≤ℤ r.uncertainty → r' ≡ r
  pub other : (r.photo_id == photo_id) ≡ false → r' ≡ r

-- Every row is still found under its key, at most improved.
abbrev pub AllImprove : ℕ → List PhotoLabel → List PhotoLabel → Type 0
AllImprove photo_id old new =
    (p l : ℕ) (r : PhotoLabel)
    → find_photo_label p l old ≡ some r
    → (r' : PhotoLabel) × (find_photo_label p l new ≡ some r') × Improves photo_id r r'

Improves-refl : (photo_id : ℕ) (r : PhotoLabel) → Improves photo_id r r
Improves-refl photo_id r = record {
  same_key = (refl, refl);
  no_worse = omega arith;
  fixed = λ h. refl;
  other = λ h. refl;
}

AllImprove-refl : (photo_id : ℕ) (t : List PhotoLabel) → AllImprove photo_id t t
AllImprove-refl photo_id t p l r h = (r, h, Improves-refl photo_id r)

Improves-trans :
    (photo_id : ℕ) (r s t : PhotoLabel)
    → Improves photo_id r s
    → Improves photo_id s t
    → Improves photo_id r t
Improves-trans photo_id r s t a b = record {
  same_key = (b.same_key.0 ∙ a.same_key.0, b.same_key.1 ∙ a.same_key.1);
  no_worse = omega (arith, a.no_worse, b.no_worse);
  fixed = λ h. b.fixed (subst (λ x. pos 100 ≤ℤ x.uncertainty) (sym (a.fixed h)) h) ∙ a.fixed h;
  other = λ h. b.other (ap (λ i. i == photo_id) a.same_key.0 ∙ h) ∙ a.other h;
}

AllImprove-trans :
    (photo_id : ℕ) (t u v : List PhotoLabel)
    → AllImprove photo_id t u
    → AllImprove photo_id u v
    → AllImprove photo_id t v
AllImprove-trans photo_id t u v a b p l r h =
    let (s, found, better) = a p l r h in
    let (s', found', better') = b p l s found in
    (s', found', Improves-trans photo_id r s s' better better')

find_photo_label-append :
    (p l : ℕ) (t u : List PhotoLabel) (r : PhotoLabel)
    → find_photo_label p l t ≡ some r
    → find_photo_label p l (t ++ u) ≡ some r
unfolding find_photo_label
find_photo_label-append p l [] u r h = absurd (ground (arith, h))
find_photo_label-append p l (s ∷ t) u r h = ground (arith, h, find_photo_label-append p l t u r)

-- The update of a row, found under its own key or another.
find_photo_label-update :
    (p l p' l' : ℕ) (z : ℤ) (src : Text) (t : List PhotoLabel) (r : PhotoLabel)
    → find_photo_label p l t ≡ some r
    → find_photo_label p l (update_photo_label p' l' z src t)
      ≡ some (
          if r.photo_id == p' && r.label_id == l'
          then record r { uncertainty = z; label_src = src }
          else r)
unfolding find_photo_label update_photo_label
find_photo_label-update p l p' l' z src [] r h = absurd (ground (arith, h))
find_photo_label-update p l p' l' z src (s ∷ t) r h =
    ground (arith, h, find_photo_label-update p l p' l' z src t r)

first_or_create_label-links :
    (d : LabelDatabase) (s : LabelStore) (m : LabelRow)
    → (first_or_create_label d s m).0.photo_labels ≡ s.photo_labels
unfolding first_or_create_label
first_or_create_label-links d s m = ground arith

add_categories-links :
    (d : LabelDatabase) (cs : List Text) (s : LabelStore) (id : ℕ)
    → (add_categories d s id cs).0.photo_labels ≡ s.photo_labels
unfolding add_categories
add_categories-links d [] s id = refl
add_categories-links d (c ∷ cs) s id =
    let m = new_label d (title_case d.unicode c) (negsuc 2) in
    let t = (first_or_create_label d s m).0 in
    let links = first_or_create_label-links d s m in
    elim (Option-cases (first_or_create_label d s m).1) [
      | inl e ↦ ground (arith, e, links, add_categories-links d cs t id)
      | inr (row, e) ↦ ground (
        arith,
        e,
        links,
        add_categories-links d cs (record t { categories = t.categories ++ (id, row.id) ∷ [] }) id,
      )
    ]

update_classify-links :
    (d : LabelDatabase) (s : LabelStore) (m : LabelRow) (label : Label)
    → (update_classify d s m label).0.photo_labels ≡ s.photo_labels
unfolding update_classify
update_classify-links d s m label =
    let (n, save) = classified d m label in
    ground (
      arith,
      add_categories-links d label.categories s n.id,
      add_categories-links d label.categories (record s { labels = save_label n s.labels }) n.id,
    )

find_photo_label-key :
    (p l : ℕ) (t : List PhotoLabel) (r : PhotoLabel)
    → find_photo_label p l t ≡ some r
    → (r.photo_id ≡ p) × (r.label_id ≡ l)
unfolding find_photo_label
find_photo_label-key p l [] r h = absurd (ground (arith, h))
find_photo_label-key p l (s ∷ t) r h = ground (arith, h, find_photo_label-key p l t r)

-- What the last steps for a label make of the table: nothing, a new row at its end, or a lower uncertainty.
data Linked (photo_id label_id : ℕ) (label : Label) (t u : List PhotoLabel) : Type 0 where
  kept : u ≡ t → Linked photo_id label_id label t u
  appended :
      u ≡ t ++ new_photo_label photo_id label_id label.uncertainty label.source ∷ []
      → Linked photo_id label_id label t u
  lowered :
      (r : PhotoLabel)
      → find_photo_label photo_id label_id t ≡ some r
      → label.uncertainty <ℤ r.uncertainty
      → r.uncertainty <ℤ pos 100
      → u ≡ update_photo_label photo_id label_id label.uncertainty label.source t
      → Linked photo_id label_id label t u

link_label-Linked :
    (d : LabelDatabase) (s : LabelStore) (photo_id label_id : ℕ) (label : Label)
    → Linked photo_id label_id label s.photo_labels
        (link_label d s photo_id label_id label).photo_labels
unfolding link_label first_or_create_photo_label
link_label-Linked d s photo_id label_id label =
    elim (Option-cases (find_photo_label photo_id label_id s.photo_labels)) [
      | inl e ↦
          elim (Bool-cases
            (d.creates_link s (new_photo_label photo_id label_id label.uncertainty label.source))) [
              | inl c ↦ appended (ground (arith, e, c))
              | inr c ↦ kept (ground (arith, e, c))
            ]
      | inr (r, e) ↦
          let key = find_photo_label-key photo_id label_id s.photo_labels r e in
          elim (Bool-cases (
            ltb_ℤ label.uncertainty r.uncertainty
            && ltb_ℤ r.uncertainty (pos 100)
            && d.updates_link s r)) [
              | inl c ↦
                  lowered r e (ground (arith, c)) (ground (arith, c)) (ground (arith, e, c, key))
              | inr c ↦ kept (ground (arith, e, c))
            ]
    ]

Linked-AllImprove :
    (photo_id label_id : ℕ) (label : Label) (t u : List PhotoLabel)
    → Linked photo_id label_id label t u
    → AllImprove photo_id t u
Linked-AllImprove photo_id label_id label t u (kept e) =
    subst (AllImprove photo_id t) (sym e) (AllImprove-refl photo_id t)
Linked-AllImprove photo_id label_id label t u (appended e) = λ p l r h. (
  r,
  ap (find_photo_label p l) e
      ∙ find_photo_label-append p l t
          (new_photo_label photo_id label_id label.uncertainty label.source ∷ []) r h,
  Improves-refl photo_id r,
)
Linked-AllImprove photo_id label_id label t u (lowered s found better below e) = λ p l r h.
    let key = find_photo_label-key p l t r h in
    let there =
      ap (find_photo_label p l) e
      ∙ find_photo_label-update p l photo_id label_id label.uncertainty label.source t r h in
    elim (Bool-cases (r.photo_id == photo_id && r.label_id == label_id)) [
      | inl same ↦
          let one : s ≡ r = ground (arith, same, key, found, h) in
          let lower : (label.uncertainty <ℤ r.uncertainty) × (r.uncertainty <ℤ pos 100) =
            subst (λ x. (label.uncertainty <ℤ x.uncertainty) × (x.uncertainty <ℤ pos 100)) one
              (better, below) in
          (
            record r { uncertainty = label.uncertainty; label_src = label.source },
            there ∙ ground (arith, same),
            (record {
              same_key = (refl, refl);
              no_worse = omega (arith, lower.0);
              fixed = λ full. absurd (omega (arith, full, lower.1));
              other = λ o. absurd (ground (arith, o, same));
            }),
          )
      | inr ne ↦ (r, there ∙ ground (arith, ne), Improves-refl photo_id r)
    ]

add_label-AllImprove :
    (d : LabelDatabase) (s : LabelStore) (photo_id : ℕ) (label : Label)
    → AllImprove photo_id s.photo_labels (add_label d s photo_id label).photo_labels
unfolding add_label
add_label-AllImprove d s photo_id label =
    let m = new_label d (label_text d.unicode label) label.priority in
    let t = (first_or_create_label d s m).0 in
    let links = first_or_create_label-links d s m in
    elim (Option-cases (first_or_create_label d s m).1) [
      | inl e ↦
          subst (AllImprove photo_id s.photo_labels) (ground (arith, e, links))
            (AllImprove-refl photo_id s.photo_labels)
      | inr (row, e) ↦
          let c = (update_classify d t row label).0 in
          let same : c.photo_labels ≡ s.photo_labels =
            update_classify-links d t row label ∙ links in
          let better =
            Linked-AllImprove photo_id row.id label _ _
              (link_label-Linked d c photo_id row.id label) in
          let linked : add_label d s photo_id label ≡ link_label d c photo_id row.id label =
            ground (arith, e) in
          subst (λ l. AllImprove photo_id l (add_label d s photo_id label).photo_labels) same
            (subst (λ l. AllImprove photo_id c.photo_labels l.photo_labels) (sym linked) better)
    ]

-- Adding labels to a photo loses no row that joins a photo and a label, makes none less certain, and changes
-- none of another photo and none with an uncertainty of 100 or more, such as a label that was removed;
-- and this whatever the database refuses.
pub add_labels-AllImprove :
    (d : LabelDatabase) (s : LabelStore) (photo_id : ℕ) (ls : List Label)
    → AllImprove photo_id s.photo_labels (add_labels d s photo_id ls).photo_labels
unfolding add_labels
add_labels-AllImprove d s photo_id [] = AllImprove-refl photo_id s.photo_labels
add_labels-AllImprove d s photo_id (label ∷ ls) =
    AllImprove-trans photo_id _ _ _ (add_label-AllImprove d s photo_id label)
      (add_labels-AllImprove d (add_label d s photo_id label) photo_id ls)
