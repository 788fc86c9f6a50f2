-- ===== src/Library/Purge/Complete.antt =====
-- internal/photoprism/purge.go: the files that a dry run sees.
use photoprism.Prelude.{
  ℕ, zero, suc, ◌+◌, ◌≡◌, refl, sym, ap, ◌∙◌, true, List, [], ◌∷◌, ◌++◌, take, drop, any, Text,
  text_eq, text_eq_refl, Option, some, arith, All, All-append, ◌⊎◌, inl, inr, Bool-cases,
}
use mathlib.Core.Path.{subst}
use photoprism.Library.Purge.{
  IndexFile, Setting, existing, existing_files, purge_file, purge_page, purge_files, End, finished,
  purge_canceled, failed, limit,
}
use photoprism.Library.Purge.Marks.{page_cases, done_page}

module _ {A : Type 0} where
  take_nil : (n : ℕ) → ◌≡◌ {A = List A} [] (take n [])
  take_nil zero = refl
  take_nil (suc n) = refl

  take_add : (k m n : ℕ) (l : List A) → k ≡ m + n → take k l ≡ take m l ++ take n (drop m l)
  take_add k zero n l e = ap (λ i. take i l) (omega arith)
  take_add zero (suc m) n l e = absurd (omega arith)
  take_add (suc k) (suc m) n [] e = take_nil n
  take_add (suc k) (suc m) n (x ∷ l) e = ap (◌∷◌ x) (take_add k m n l (omega arith))

  take_all : (m n : ℕ) (l : List A) → take (suc n) (drop m l) ≡ [] → take m l ≡ l
  take_all zero n [] h = refl
  take_all zero n (x ∷ l) h = absurd (ground arith)
  take_all (suc m) n [] h = refl
  take_all (suc m) n (x ∷ l) h = ap (◌∷◌ x) (take_all m n l h)

module _ {t u : List IndexFile} {p q : List Text} where
  end_clash : ¬ (
      ◌≡◌ {A = Option (List IndexFile × List Text × End)}
        (some (t, p, failed))
        (some (u, q, finished)))
  end_clash h = ground arith

  cancel_clash : ¬ (
      ◌≡◌ {A = Option (List IndexFile × List Text × End)}
        (some (t, p, purge_canceled))
        (some (u, q, finished)))
  cancel_clash h = ground arith

  same_end :
      ◌≡◌ {A = Option (List IndexFile × List Text × End)}
        (some (t, p, finished))
        (some (u, q, finished))
      → (u ≡ t) × (q ≡ p)
  same_end h = ground arith

module _ (w : Setting) (dry : w.dry ≡ true) where
  -- The file is on the disk, to be ignored, or among the names.
  abbrev pub Seen : List Text → IndexFile → Type 0
  Seen p f =
      (w.on_disk (w.full_name f.file_name) ≡ true)
      ⊎ (w.ignored (w.full_name f.file_name) ≡ true)
      ⊎ (any (text_eq (w.full_name f.file_name)) p ≡ true)

  -- Every name of the first list is in the second.
  abbrev Within : List Text → List Text → Type 0
  Within p q = (n : Text) → any (text_eq n) p ≡ true → any (text_eq n) q ≡ true

  All-Seen :
      (p q : List Text) (fs : List IndexFile) → Within p q → All (Seen p) fs → All (Seen q) fs
  All-Seen p q [] sub h = tt
  All-Seen p q (f ∷ fs) sub (s, h) =
      (ground (arith, sub (w.full_name f.file_name)), All-Seen p q fs sub h)

  Seen-later : (p q : List Text) (f : IndexFile) → Within p q → Seen p f → Seen q f
  Seen-later p q f sub s = ground (arith, sub (w.full_name f.file_name))

  module _ (f : IndexFile) (u : List IndexFile) (p : List Text) where
    file_dry : (purge_file w f u p).0 ≡ u
    unfolding purge_file
    file_dry = ground arith

    file-Within : Within p (purge_file w f u p).1
    unfolding purge_file
    file-Within n h = ground arith

    file-Seen : Seen (purge_file w f u p).1 f
    unfolding purge_file
    file-Seen = ground (arith, text_eq_refl (w.full_name f.file_name))

  page_dry :
      (fs u : List IndexFile) (p : List Text)
      → (purge_page w fs u p).2 ≡ true
      → ((purge_page w fs u p).0 ≡ u)
        × Within p (purge_page w fs u p).1
        × All (Seen (purge_page w fs u p).1) fs
  unfolding purge_page
  page_dry [] u p h = (refl, (λ n k. k), tt)
  page_dry (f ∷ fs) u p h = elim (Bool-cases (w.canceled f)) [
    | inl e ↦ absurd (ground arith)
    | inr e ↦
        let (u', p') = purge_file w f u p in
        let step : purge_page w (f ∷ fs) u p ≡ purge_page w fs u' p' = rw (e, purge_page) refl in
        let (same, sub, seen) = page_dry fs u' p' (ap (λ r. r.2) (sym step) ∙ h) in
        let last : List Text = (purge_page w fs u' p').1 in
        subst (λ r. (r.0 ≡ u) × Within p r.1 × All (Seen r.1) (f ∷ fs)) (sym step)
          (
            same ∙ file_dry f u p,
            λ n k. sub n (file-Within f u p n k),
            (Seen-later p' last f sub (file-Seen f u p), seen),
          )
  ]

  -- A run that finished was at its last page or goes on behind this one.
  finished_cases :
      (fuel offset : ℕ) (u u' : List IndexFile) (p p' : List Text)
      → purge_files (suc fuel) w offset u p ≡ some (u', p', finished)
      → ((existing_files w offset u ≡ []) × (u' ≡ u) × (p' ≡ p))
        ⊎ ((done_page w offset u p).2 ≡ true)
          × (purge_files fuel w
                (offset + limit)
                (done_page w offset u p).0
                (done_page w offset u p).1
              ≡ some (u', p', finished))
  finished_cases fuel offset u u' p p' h = elim (page_cases w offset u p fuel) [
    | inl e ↦ absurd (end_clash (sym e ∙ h))
    | inr (inl (x, e)) ↦ let (same, names) = same_end (sym e ∙ h) in inl (x, same, names)
    | inr (inr (inl e)) ↦ absurd (cancel_clash (sym e ∙ h))
    | inr (inr (inr (full, on, e))) ↦ inr (on, sym e ∙ h)
  ]

  no_fuel :
      (offset : ℕ) (u u' : List IndexFile) (p p' : List Text)
      → ¬ (purge_files 0 w offset u p ≡ some (u', p', finished))
  unfolding purge_files
  no_fuel offset u u' p p' h = ground arith

  pages-Seen :
      (fuel offset : ℕ) (u u' : List IndexFile) (p p' : List Text)
      → All (Seen p) (take offset (existing w u))
      → purge_files fuel w offset u p ≡ some (u', p', finished)
      → (u' ≡ u) × All (Seen p') (existing w u)
  unfolding existing_files
  pages-Seen zero offset u u' p p' seen h = absurd (no_fuel offset u u' p p' h)
  pages-Seen (suc fuel) offset u u' p p' seen h = elim (finished_cases fuel offset u u' p p' h) [
    | inl (x, e, q) ↦ (
      e,
      subst (λ r. All (Seen r) (existing w u)) (sym q)
          (subst (All (Seen p)) (take_all offset 499 (existing w u) x) seen),
    )
    | inr (on, rest) ↦
        let (t, r, go) = done_page w offset u p in
        let (same, sub, here) = page_dry (existing_files w offset u) u p on in
        let before : All (Seen r) (take offset (existing w u)) = All-Seen p r _ sub seen in
        let both : All (Seen r) (take (offset + limit) (existing w u)) =
          subst (All (Seen r)) (sym (take_add (offset + limit) offset limit (existing w u) refl)) (
            All-append (Seen r) (take offset (existing w u)) (existing_files w offset u) before
              here) in
        pages-Seen fuel (offset + limit) u u' r p' both
          (subst (λ v. purge_files fuel w (offset + limit) v r ≡ some (u', p', finished)) same rest)
  ]

  -- A dry run of the purge that finishes leaves the table as it was, and reports every existing file that
  -- is neither on the disk nor to be ignored, however many pages it took.
  pub purge_files-Seen :
      (fuel : ℕ) (u u' : List IndexFile) (p : List Text)
      → purge_files fuel w 0 u [] ≡ some (u', p, finished)
      → (u' ≡ u) × All (Seen p) (existing w u)
  purge_files-Seen fuel u u' p h = pages-Seen fuel 0 u u' [] p tt h
