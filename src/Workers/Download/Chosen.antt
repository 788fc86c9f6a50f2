-- ===== src/Workers/Download/Chosen.antt =====
-- internal/workers/sync_download.go: choices of files and their groups that are not empty.
use photoprism.Prelude.{
  ℕ, ◌<◌, zero, suc, ◌≡◌, refl, Bool, false, List, [], ◌∷◌, take, keep, is_nil, Text, ◌⊎◌, arith,
  All, Bool-cases, inl, inr,
}
use photoprism.Sorting.Insertion.{insert, insertion_sort}
use photoprism.Workers.SyncTable.{FileSync}
use photoprism.Workers.Download.{Group, add_to_group, group_all}

module _ {A : Type 0} (P : A → Type 0) where
  pub All-keep : (p : A → Bool) (l : List A) → All P l → All P (keep p l)
  All-keep p [] h = tt
  All-keep p (x ∷ l) (px, h) = elim (Bool-cases (p x)) [
    | inl e ↦ rw (e, All) (px, All-keep p l h)
    | inr e ↦ rw (e, All) (All-keep p l h)
  ]

  module _ (less : A → A → Bool) where
    All-insert : (x : A) (l : List A) → P x → All P l → All P (insert less x l)
    unfolding insert
    All-insert x [] p h = (p, tt)
    All-insert x (y ∷ l) p (py, h) = elim (Bool-cases (less y x)) [
      | inl e ↦ rw (e, insert) (py, All-insert x l p h)
      | inr e ↦ rw (e, insert) (p, (py, h))
    ]

    pub All-insertion_sort : (l : List A) → All P l → All P (insertion_sort less l)
    unfolding insertion_sort
    All-insertion_sort [] h = tt
    All-insertion_sort (x ∷ l) (p, h) =
        All-insert x (insertion_sort less l) p (All-insertion_sort l h)

module _ {A : Type 0} where
  is_nil-insert : (less : A → A → Bool) (x : A) (l : List A) → is_nil (insert less x l) ≡ false
  unfolding insert
  is_nil-insert less x [] = refl
  is_nil-insert less x (y ∷ m) = ground arith

  pub is_nil-insertion_sort :
      (less : A → A → Bool) (l : List A) → is_nil (insertion_sort less l) ≡ is_nil l
  unfolding insertion_sort
  is_nil-insertion_sort less [] = refl
  is_nil-insertion_sort less (x ∷ l) = is_nil-insert less x (insertion_sort less l)

pub is_nil-take :
    {A : Type 0} (n : ℕ) (l : List A) → 0 < n → is_nil l ≡ false → is_nil (take n l) ≡ false
is_nil-take n [] p h = absurd (ground arith)
is_nil-take zero (x ∷ l) p h = absurd (omega arith)
is_nil-take (suc n) (x ∷ l) p h = refl

pub Group-cases : (gs : List Group) → (gs ≡ []) ⊎ ((g : Group) × (hs : List Group) × (gs ≡ g ∷ hs))
Group-cases [] = inl refl
Group-cases (g ∷ gs) = inr (g, gs, refl)

is_nil-group_all :
    (base : Text → Text) (fs : List FileSync) (gs : List Group)
    → is_nil gs ≡ false
    → is_nil (group_all base fs gs) ≡ false
unfolding group_all add_to_group
is_nil-group_all base [] gs h = h
is_nil-group_all base (f ∷ fs) [] h = absurd (ground arith)
is_nil-group_all base (f ∷ fs) ((k, hs) ∷ gs) h = is_nil-group_all base fs _ (ground arith)

pub is_nil-group_nil :
    (base : Text → Text) (fs : List FileSync)
    → is_nil fs ≡ false
    → is_nil (group_all base fs []) ≡ false
unfolding group_all add_to_group
is_nil-group_nil base [] h = absurd (ground arith)
is_nil-group_nil base (f ∷ fs) h = is_nil-group_all base fs ((base f.remote_name, f ∷ []) ∷ []) refl
