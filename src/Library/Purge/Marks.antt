-- ===== src/Library/Purge/Marks.antt =====
-- internal/photoprism/purge.go: the end of the loop, and what a run may change and report.
use photoprism.Prelude.{
  ℕ, zero, suc, ◌+◌, ◌≤◌, ◌≡◌, refl, sym, Bool, true, false, not, ◌&&◌, ◌||◌, List, [], ◌∷◌, length,
  drop, keep, is_nil, Text, Option, none, some, arith, All, ◌⊎◌, inl, inr, Bool-cases,
}
use mathlib.Core.Path.{subst}
use photoprism.Library.Purge.{
  IndexFile, Setting, existing, existing_files, purged_row, purge_row, purge_file, purge_page, End,
  finished, purge_canceled, failed, purge_files, limit,
}

module _ {A : Type 0} where
  pub length-keep-le : (p : A → Bool) (l : List A) → length (keep p l) ≤ length l
  length-keep-le p [] = omega arith
  length-keep-le p (x ∷ l) = ground (arith, length-keep-le p l)

  pub drop_of_length-le : (n : ℕ) (l : List A) → length l ≤ n → drop n l ≡ []
  drop_of_length-le zero [] h = refl
  drop_of_length-le zero (x ∷ l) h = absurd (omega arith)
  drop_of_length-le (suc n) [] h = refl
  drop_of_length-le (suc n) (x ∷ l) h = drop_of_length-le n l (omega arith)

existing_files-nil :
    (w : Setting) (offset : ℕ) (t : List IndexFile)
    → length t ≤ offset
    → existing_files w offset t ≡ []
unfolding existing_files existing
existing_files-nil w offset t h =
    let short = length-keep-le (λ f. not f.missing && not f.deleted && w.in_path f.file_name) t in
    rw
      (drop_of_length-le offset
        (keep (λ f. not f.missing && not f.deleted && w.in_path f.file_name) t) (omega arith))
      refl

not_or : (a b : Bool) → (not a || b) ≡ false → a ≡ true
not_or true b h = refl
not_or false b h = absurd (ground arith)

Page-cases :
    (l : List IndexFile) → (l ≡ []) ⊎ ((f : IndexFile) × (fs : List IndexFile) × (l ≡ f ∷ fs))
Page-cases [] = inl refl
Page-cases (f ∷ fs) = inr (f, fs, refl)

module _ (w : Setting) (offset : ℕ) (u : List IndexFile) (p : List Text) where
  abbrev pub done_page : List IndexFile × List Text × Bool
  done_page = purge_page w (existing_files w offset u) u p

  -- What the loop does at a page.
  pub page_cases :
      (fuel : ℕ)
      → (purge_files (suc fuel) w offset u p ≡ some (u, p, failed))
        ⊎ (existing_files w offset u ≡ [])
          × (purge_files (suc fuel) w offset u p ≡ some (u, p, finished))
        ⊎ (purge_files (suc fuel) w offset u p ≡ some (done_page.0, done_page.1, purge_canceled))
        ⊎ (is_nil (existing_files w offset u) ≡ false)
          × (done_page.2 ≡ true)
          × (purge_files (suc fuel) w offset u p
              ≡ purge_files fuel w (offset + limit) done_page.0 done_page.1)
  unfolding purge_files
  page_cases fuel = elim (Bool-cases (w.query_failed offset)) [
    | inl q ↦ inl (ground (arith, q))
    | inr q ↦ elim (Page-cases (existing_files w offset u)) [
      | inl x ↦ inr (inl (x, ground (arith, q, x)))
      | inr (f, fs, x) ↦ elim (Bool-cases (not done_page.2 || w.canceled_after offset)) [
        | inl c ↦ inr (inr (inl (ground (arith, q, x, c))))
        | inr c ↦ inr (
            inr (
              inr (
                ground (arith, x),
                not_or done_page.2 (w.canceled_after offset) c,
                ground (arith, q, x, c),
              )))
      ]
    ]
  ]

module _ (w : Setting) where
  -- The rows of the second table are those of the first, some of them marked as missing unless dry.
  abbrev pub Marked : List IndexFile → List IndexFile → Type 0
  Marked [] [] = Unit
  Marked [] (g ∷ u) = ⊥
  Marked (f ∷ t) [] = ⊥
  Marked (f ∷ t) (g ∷ u) = ((g ≡ f) ⊎ (w.dry ≡ false) × (g ≡ purged_row f)) × Marked t u

  pub Marked-refl : (t : List IndexFile) → Marked t t
  Marked-refl [] = tt
  Marked-refl (f ∷ t) = (inl refl, Marked-refl t)

  length_of_Marked : (t u : List IndexFile) → Marked t u → length u ≡ length t
  length_of_Marked [] [] m = refl
  length_of_Marked [] (g ∷ u) m = absurd m
  length_of_Marked (f ∷ t) [] m = absurd m
  length_of_Marked (f ∷ t) (g ∷ u) (h, m) = omega (arith, length_of_Marked t u m)

  purge_row-Marked :
      (id : ℕ) (t u : List IndexFile) → w.dry ≡ false → Marked t u → Marked t (purge_row id u)
  unfolding purge_row
  purge_row-Marked id [] [] wet m = tt
  purge_row-Marked id [] (g ∷ u) wet m = absurd m
  purge_row-Marked id (f ∷ t) [] wet m = absurd m
  purge_row-Marked id (f ∷ t) (g ∷ u) wet (h, m) = (ground arith, purge_row-Marked id t u wet m)

  -- A name that was purged: not on the disk and not to be ignored.
  abbrev pub Gone : Text → Type 0
  Gone n = (w.on_disk n ≡ false) × (w.ignored n ≡ false)

  abbrev pub Sound : List IndexFile → List IndexFile → List Text → Type 0
  Sound t u purged = Marked t u × All Gone purged

  file_cases :
      (f : IndexFile) (u : List IndexFile) (p : List Text)
      → let n = w.full_name f.file_name in
        (purge_file w f u p ≡ (u, p))
        ⊎ (w.on_disk n ≡ false)
          × (w.ignored n ≡ false)
          × ((purge_file w f u p ≡ (u, n ∷ p))
              ⊎ (w.dry ≡ false) × (purge_file w f u p ≡ (purge_row f.id u, n ∷ p)))
  unfolding purge_file
  file_cases f u p = ground arith

  purge_file-Sound :
      (f : IndexFile) (t u : List IndexFile) (p : List Text)
      → Sound t u p
      → Sound t (purge_file w f u p).0 (purge_file w f u p).1
  purge_file-Sound f t u p (m, gone) =
      let IsSound : List IndexFile × List Text → Type 0 = λ r. Sound t r.0 r.1 in
      elim (file_cases f u p) [
        | inl e ↦ subst IsSound (sym e) (m, gone)
        | inr (d, i, inl e) ↦ subst IsSound (sym e) (m, ((d, i), gone))
        | inr (d, i, inr (wet, e)) ↦
            subst IsSound (sym e) (purge_row-Marked f.id t u wet m, ((d, i), gone))
      ]

  purge_page-Sound :
      (fs t u : List IndexFile) (p : List Text)
      → Sound t u p
      → Sound t (purge_page w fs u p).0 (purge_page w fs u p).1
  unfolding purge_page
  purge_page-Sound [] t u p s = s
  purge_page-Sound (f ∷ fs) t u p s =
      let (u', p') = purge_file w f u p in
      let rest : Sound t (purge_page w fs u' p').0 (purge_page w fs u' p').1 =
        purge_page-Sound fs t u' p' (purge_file-Sound f t u p s) in
      elim (Bool-cases (w.canceled f)) [
        | inl e ↦ rw (e, purge_page) s
        | inr e ↦ rw (e, purge_page) rest
      ]

  -- What a run returns: it ends, and all it did is sound.
  abbrev pub EndsSound : List IndexFile → Option (List IndexFile × List Text × End) → Type 0
  EndsSound t none = ⊥
  EndsSound t (some r) = Sound t r.0 r.1

  page-length :
      (offset : ℕ) (t u : List IndexFile) (p : List Text)
      → Sound t u p
      → length (done_page w offset u p).0 ≡ length u
  page-length offset t u p s =
      let here = purge_page-Sound (existing_files w offset u) t u p s in
      omega (arith, length_of_Marked t u s.0, length_of_Marked t (done_page w offset u p).0 here.0)

  -- A run with fuel for one page more than the table has rows behind the offset ends, and all it did is
  -- sound: the files it reports are neither on the disk nor to be ignored, and the table has changed
  -- at most by marks as missing, and not at all in a dry run.
  pub purge_files-EndsSound :
      (fuel offset : ℕ) (t u : List IndexFile) (p : List Text)
      → length u ≤ offset + fuel
      → Sound t u p
      → EndsSound t (purge_files (suc fuel) w offset u p)
  purge_files-EndsSound zero offset t u p enough s =
      let here = purge_page-Sound (existing_files w offset u) t u p s in
      elim (page_cases w offset u p 0) [
        | inl e ↦ subst (EndsSound t) (sym e) s
        | inr (inl (last, e)) ↦ subst (EndsSound t) (sym e) s
        | inr (inr (inl e)) ↦ subst (EndsSound t) (sym e) here
        | inr (inr (inr (full, on, e))) ↦
            absurd (ground (arith, existing_files-nil w offset u (omega arith)))
      ]
  purge_files-EndsSound (suc n) offset t u p enough s =
      let here = purge_page-Sound (existing_files w offset u) t u p s in
      let (u', p', ended) = done_page w offset u p in
      elim (page_cases w offset u p (suc n)) [
        | inl e ↦ subst (EndsSound t) (sym e) s
        | inr (inl (last, e)) ↦ subst (EndsSound t) (sym e) s
        | inr (inr (inl e)) ↦ subst (EndsSound t) (sym e) here
        | inr (inr (inr (full, on, e))) ↦ subst (EndsSound t) (sym e) (
            purge_files-EndsSound n (offset + limit) t u' p'
              (omega (arith, page-length offset t u p s)) here)
      ]
