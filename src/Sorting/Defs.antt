-- ===== src/Sorting/Defs.antt =====
-- The contract of `sort.Sort` and `sort.Slice`.
use photoprism.Prelude.{◌≡◌, Bool, true, false, List, [], ◌∷◌}
use mathlib.Core.List.{Perm}

module _ {A : Type 0} where
  -- What `Less` has to be: it is asymmetric, and "not after" is transitive.
  pub record IsStrictWeak (less : A → A → Bool) : Type 0 where
    pub asym : (x y : A) → less x y ≡ true → less y x ≡ false
    pub trans_not : (x y z : A) → less y x ≡ false → less z y ≡ false → less z x ≡ false

  -- Nothing stands directly behind an element that it should precede.
  abbrev pub Ordered : (A → A → Bool) → List A → Type 0
  Ordered less [] = Unit
  Ordered less (x ∷ []) = Unit
  Ordered less (x ∷ y ∷ l) = (less y x ≡ false) × Ordered less (y ∷ l)

pub record Sorter (A : Type 0) : Type 0 where
  pub sort : (A → A → Bool) → List A → List A
  pub sort-perm : (less : A → A → Bool) (l : List A) → Perm (sort less l) l
  pub sort-Ordered :
      (less : A → A → Bool) (l : List A) → IsStrictWeak less → Ordered less (sort less l)
