-- ===== src/Classify/Title.antt =====
-- internal/classify/labels.go: which titles labels suggest.
use photoprism.Prelude.{◌≡◌, refl, sym, ◌≢◌, false, arith, List, [], ◌∷◌, ◌⊎◌, inl, inr, Text}
use photoprism.Prelude.Int.{pos, negsuc, ◌≤ℤ◌}
use mathlib.Core.List.{Mem, Perm, mem-cons, not-mem-nil, mem-cons_self, mem-cons_of_mem}
use mathlib.Core.List.Perm
use mathlib.Core.Logic.Or
use mathlib.Core.Path.{subst}
use photoprism.Sorting.{Sorter, Ordered}
use photoprism.Classify.{Label, less, pick, valid_fallback, title_of, titled, title}
use photoprism.Classify.Order.{less-IsStrictWeak}
open less-IsStrictWeak use {asym, trans_not}

not_less_prop : (x c : Label) → IsProp (less x c ≡ false)
not_less_prop x c = hlevel

less_irrefl : (x : Label) → less x x ≡ false
unfolding less
less_irrefl x = ground arith

-- In a sorted list nothing that comes later precedes the head.
not_less_of_later :
    (x y : Label) (l : List Label) → Ordered less (x ∷ l) → Mem y l → less y x ≡ false
not_less_of_later x y [] h m = absurd (not-mem-nil m)
not_less_of_later x y (z ∷ l) (zx, h) m =
    Or.elim (not_less_prop y x) (mem-cons.0 m) (λ e. rw e zx)
      (λ later. trans_not x z y zx (not_less_of_later z y l h later))

not_less_of_mem :
    (x y : Label) (l : List Label) → Ordered less (x ∷ l) → Mem y (x ∷ l) → less y x ≡ false
not_less_of_mem x y l h m =
    Or.elim (not_less_prop y x) (mem-cons.0 m) (λ e. rw e (less_irrefl x))
      (not_less_of_later x y l h)

abbrev IsSure : Label → Type 0
IsSure l = l.uncertainty ≤ℤ pos 60

pick_cases :
    (x y : Label) (l : List Label) → (pick x (y ∷ l) ≡ x) ⊎ ((pick x (y ∷ l) ≡ y) × (¬ IsSure x))
pick_cases x y l = ground arith

pick-mem : (x : Label) (l : List Label) → Mem (pick x l) (x ∷ l)
pick-mem x [] = mem-cons_self
pick-mem x (y ∷ l) = elim (pick_cases x y l) [
  | inl e ↦ subst (λ c. Mem c (x ∷ y ∷ l)) (sym e) mem-cons_self
  | inr (e, _) ↦ subst (λ c. Mem c (x ∷ y ∷ l)) (sym e) (mem-cons_of_mem x mem-cons_self)
]

not_less-pick :
    (x y : Label) (l : List Label)
    → Ordered less (x ∷ l)
    → Mem y (x ∷ l)
    → IsSure y
    → less y (pick x l) ≡ false
not_less-pick x y [] h m t = not_less_of_mem x y [] h m
not_less-pick x y (z ∷ l) h m t = elim (pick_cases x z l) [
  | inl e ↦ subst (λ c. less y c ≡ false) (sym e) (not_less_of_mem x y (z ∷ l) h m)
  | inr (e, unsure) ↦
      subst (λ c. less y c ≡ false) (sym e)
        (Or.elim (not_less_prop y z) (mem-cons.0 m) (λ q. absurd (unsure (rw q at t)))
          (not_less_of_mem z y l h.1))
]

-- Among the labels that are sure enough for a title, `best` is one that no other precedes.
pub record IsBest (best : Label) (l : List Label) : Type 0 where
  pub listed : Mem best l
  pub sure : best.uncertainty ≤ℤ pos 60
  pub prior : negsuc 0 ≤ℤ best.priority
  pub foremost : (y : Label) → Mem y l → y.uncertainty ≤ℤ pos 60 → less y best ≡ false

title_of_cases :
    (c : Label) (fallback : Text)
    → (title_of c fallback ≡ fallback)
      ⊎ ((title_of c fallback ≡ c.name) × IsSure c × (negsuc 0 ≤ℤ c.priority))
unfolding title_of
title_of_cases c fallback = ground arith

title_of_negative :
    (c : Label) (fallback : Text)
    → c.priority ≤ℤ negsuc 0
    → fallback ≢ []
    → title_of c fallback ≡ fallback
unfolding title_of
title_of_negative c [] h ne = absurd (ne refl)
title_of_negative c (a ∷ s) h ne = ground arith

titled_negative :
    (sorted : List Label) (fallback : Text)
    → fallback ≢ []
    → ((y : Label) → Mem y sorted → y.priority ≤ℤ negsuc 0)
    → titled fallback sorted ≡ fallback
titled_negative [] fallback ne h = refl
titled_negative (x ∷ l) fallback ne h =
    title_of_negative (pick x l) fallback (h (pick x l) (pick-mem x l)) ne

module _ (sorter : Sorter Label) where
  titled_cases :
      (x : Label) (l sorted : List Label) (fallback : Text)
      → Perm sorted (x ∷ l)
      → Ordered less sorted
      → (titled fallback sorted ≡ fallback)
        ⊎ ((c : Label) × (titled fallback sorted ≡ c.name) × IsBest c (x ∷ l))
  titled_cases x l [] fallback same h = inl refl
  titled_cases x l (y ∷ ys) fallback same h = elim (title_of_cases (pick y ys) fallback) [
    | inl e ↦ inl e
    | inr (e, sure, prior) ↦ inr (
      pick y ys,
      e,
      record {
        listed = (Perm.mem_iff same).0 (pick-mem y ys);
        sure = sure;
        prior = prior;
        foremost = λ z m t. not_less-pick y z ys h ((Perm.mem_iff same).1 m) t;
      },
    )
  ]

  -- `Title` returns the fallback, emptied unless it has 2 to 25 runes and no digit, or else the name of
  -- a label of the list with an uncertainty of at most 60 and a priority of at least -1, such that
  -- `Less` puts no other label with an uncertainty of at most 60 before it.
  pub title_lem :
      (l : List Label) (fallback : Text)
      → ((title sorter l fallback).0 ≡ valid_fallback fallback)
        ⊎ ((c : Label) × ((title sorter l fallback).0 ≡ c.name) × IsBest c l)
  unfolding title
  title_lem [] fallback = inl refl
  title_lem (x ∷ l) fallback =
      titled_cases x l (sorter.sort less (x ∷ l)) (valid_fallback fallback)
        (sorter.sort-perm less (x ∷ l)) (sorter.sort-Ordered less (x ∷ l) less-IsStrictWeak)

  -- `Title` prefers a valid fallback to labels of negative priority: when every label has one, a valid
  -- fallback is the title.
  pub title_negative :
      (l : List Label) (fallback : Text)
      → ((y : Label) → Mem y l → y.priority ≤ℤ negsuc 0)
      → valid_fallback fallback ≢ []
      → (title sorter l fallback).0 ≡ valid_fallback fallback
  unfolding title
  title_negative [] fallback h ne = refl
  title_negative (x ∷ l) fallback h ne =
      titled_negative (sorter.sort less (x ∷ l)) (valid_fallback fallback) ne
        (λ y m. h y ((Perm.mem_iff (sorter.sort-perm less (x ∷ l))).0 m))
