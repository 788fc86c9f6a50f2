-- ===== src/Sorting/Insertion.antt =====
-- Insertion sort meets the contract: the parameter can be instantiated, and tests can run.
use photoprism.Prelude.{◌≡◌, Bool, true, false, List, [], ◌∷◌, inl, inr, Bool-cases}
use mathlib.Core.List.{Perm}
use mathlib.Core.List.Perm
use photoprism.Sorting.Defs.{IsStrictWeak, Ordered, Sorter}

module _ {A : Type 0} (less : A → A → Bool) where
  unfoldable pub insert : A → List A → List A
  insert x [] = x ∷ []
  insert x (y ∷ l) = elim (less y x) [ true ↦ y ∷ insert x l | false ↦ x ∷ y ∷ l ]

  unfoldable pub insertion_sort : List A → List A
  insertion_sort [] = []
  insertion_sort (x ∷ l) = insert x (insertion_sort l)

  insert-perm : (x : A) (l : List A) → Perm (insert x l) (x ∷ l)
  unfolding insert
  insert-perm x [] = Perm.refl (x ∷ [])
  insert-perm x (y ∷ l) = elim (Bool-cases (less y x)) [
    | inl h ↦ rw (h, insert) (Perm.trans (Perm.cons y (insert-perm x l)) (Perm.swap x y l))
    | inr h ↦ rw (h, insert) (Perm.refl _)
  ]

  pub insertion_sort-perm : (l : List A) → Perm (insertion_sort l) l
  unfolding insertion_sort
  insertion_sort-perm [] = Perm.refl []
  insertion_sort-perm (x ∷ l) =
      Perm.trans (insert-perm x (insertion_sort l)) (Perm.cons x (insertion_sort-perm l))

  module _ (weak : IsStrictWeak less) where
    -- Inserted behind an element that may stay in front of it.
    insert_behind :
        (y x : A) (l : List A)
        → less x y ≡ false
        → Ordered less (y ∷ l)
        → Ordered less (y ∷ insert x l)
    unfolding insert
    insert_behind y x [] p h = (p, tt)
    insert_behind y x (z ∷ l) p (yz, h) = elim (Bool-cases (less z x)) [
      | inl q ↦ rw (q, insert) (yz, insert_behind z x l (weak.asym z x q) h)
      | inr q ↦ rw (q, insert) (p, (q, h))
    ]

    insert-Ordered : (x : A) (l : List A) → Ordered less l → Ordered less (insert x l)
    unfolding insert
    insert-Ordered x [] h = tt
    insert-Ordered x (y ∷ l) h = elim (Bool-cases (less y x)) [
      | inl p ↦ rw (p, insert) (insert_behind y x l (weak.asym y x p) h)
      | inr p ↦ rw (p, insert) (p, h)
    ]

    pub insertion_sort-Ordered : (l : List A) → Ordered less (insertion_sort l)
    unfolding insertion_sort
    insertion_sort-Ordered [] = tt
    insertion_sort-Ordered (x ∷ l) = insert-Ordered x (insertion_sort l) (insertion_sort-Ordered l)

abbrev pub insertion : {A : Type 0} → Sorter A
insertion = record {
  sort = insertion_sort;
  sort-perm = insertion_sort-perm;
  sort-Ordered = λ less l weak. insertion_sort-Ordered less weak l;
}
