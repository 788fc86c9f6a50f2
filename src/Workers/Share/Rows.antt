-- ===== src/Workers/Share/Rows.antt =====
-- internal/entity/file_share.go: rows under their keys, and loops that save some of them.
use photoprism.Prelude.{
  ◌≡◌, refl, sym, ◌∙◌, Bool, true, false, List, [], ◌∷◌, keep, text_eq_iff, if◌then◌else◌, Option,
  none, some, arith, ◌⊎◌, ◌↔◌, All, inl, inr, Bool-cases,
}
use mathlib.Core.List.{Mem, Mem-prop, mem-cons, not-mem-nil, mem-cons_self, mem-cons_of_mem}
use mathlib.Core.Logic.Or
use mathlib.Core.Path.{subst}
use photoprism.Workers.Share.{FileShare, same_share, save_share, each_file}

-- The row with the key of another one.
unfoldable pub find_share : FileShare → List FileShare → Option FileShare
find_share k [] = none
find_share k (f ∷ fs) = if same_share f k then some f else find_share k fs

pub same_share_iff :
    (f g : FileShare)
    → (same_share f g ≡ true)
      ↔ ((f.file_id ≡ g.file_id) × (f.account_id ≡ g.account_id) × (f.remote_name ≡ g.remote_name))
same_share_iff f g = ground (arith, text_eq_iff f.remote_name g.remote_name)

find_share-same :
    (k f : FileShare) (t : List FileShare) → same_share f k ≡ true → find_share k t ≡ find_share f t
unfolding find_share
find_share-same k f [] s = refl
find_share-same k f (e ∷ t) s =
    ground
      (arith, find_share-same k f t s, same_share_iff f k, same_share_iff e k, same_share_iff e f)

-- A saved row is found under its key where there was one, and every other key finds what it found.
find_share-save_self :
    (k f g : FileShare) (t : List FileShare)
    → same_share g k ≡ true
    → find_share k t ≡ some f
    → find_share k (save_share g t) ≡ some g
unfolding find_share save_share
find_share-save_self k f g [] s h = absurd (ground arith)
find_share-save_self k f g (e ∷ t) s h = ground (
  arith,
  find_share-save_self k f g t s,
  same_share_iff g k,
  same_share_iff e k,
  same_share_iff e g,
)

find_share-save_ne :
    (k g : FileShare) (t : List FileShare)
    → same_share g k ≡ false
    → find_share k (save_share g t) ≡ find_share k t
unfolding find_share save_share
find_share-save_ne k g [] s = refl
find_share-save_ne k g (e ∷ t) s =
    ground (
      arith,
      find_share-save_ne k g t s,
      same_share_iff g k,
      same_share_iff e k,
      same_share_iff e g,
    )

test_prop : {A : Type 0} (p : A → Bool) (f : A) → IsProp (p f ≡ true)
test_prop p f = hlevel

module _ {A : Type 0} where
  pub All-of_mem : (P : A → Type 0) (l : List A) → ((f : A) → Mem f l → P f) → All P l
  All-of_mem P [] h = tt
  All-of_mem P (f ∷ l) h = (h f mem-cons_self, All-of_mem P l (λ g m. h g (mem-cons_of_mem f m)))

  pub mem_of_mem-keep : (p : A → Bool) (l : List A) (f : A) → Mem f (keep p l) → Mem f l
  mem_of_mem-keep p [] f m = m
  mem_of_mem-keep p (g ∷ l) f m = elim (Bool-cases (p g)) [
    | inl e ↦
        Or.elim Mem-prop (mem-cons.0 (rw (e, keep) at m)) (λ same. rw same mem-cons_self)
          (λ rest. mem-cons_of_mem g (mem_of_mem-keep p l f rest))
    | inr e ↦ mem-cons_of_mem g (mem_of_mem-keep p l f (rw (e, keep) at m))
  ]

  pub test_of_mem-keep : (p : A → Bool) (l : List A) (f : A) → Mem f (keep p l) → p f ≡ true
  test_of_mem-keep p [] f m = absurd (not-mem-nil m)
  test_of_mem-keep p (g ∷ l) f m = elim (Bool-cases (p g)) [
    | inl e ↦
        Or.elim (test_prop p f) (mem-cons.0 (rw (e, keep) at m)) (λ same. rw same e)
          (λ rest. test_of_mem-keep p l f rest)
    | inr e ↦ test_of_mem-keep p l f (rw (e, keep) at m)
  ]

-- In the table before, every row is the one that its key finds.
abbrev pub Keyed : List FileShare → Type 0
Keyed t = (f : FileShare) → Mem f t → find_share f t ≡ some f

-- Every row of `t` is in `t'`, as it was, or changed as `R` says where `p` holds of it.
abbrev pub MovesBy :
    (FileShare → Bool) → (FileShare → FileShare → Type 0) → List FileShare → List FileShare → Type 0
MovesBy p R t t' =
    (k f : FileShare)
    → find_share k t ≡ some f
    → (g : FileShare) × (find_share k t' ≡ some g) × ((g ≡ f) ⊎ (p f ≡ true) × R f g)

pub MovesBy-refl :
    (p : FileShare → Bool) (R : FileShare → FileShare → Type 0) (t : List FileShare)
    → MovesBy p R t t
MovesBy-refl p R t k f h = (f, h, inl refl)

module _ (p : FileShare → Bool) (R : FileShare → FileShare → Type 0) (t : List FileShare)
    (keeps_key : (f g : FileShare) → R f g → same_share f g ≡ true) where
  save_share-MovesBy :
      (f g : FileShare) (u : List FileShare)
      → find_share f t ≡ some f
      → p f ≡ true
      → R f g
      → MovesBy p R t u
      → MovesBy p R t (save_share g u)
  save_share-MovesBy f g u here pf r moves k e h =
      let (e', at_e, moved) = moves k e h in
      elim (Bool-cases (same_share g k)) [
        | inl s ↦
            let at_k : find_share k t ≡ find_share f t = find_share-same k f t (
              ground (
                arith,
                same_share_iff g k,
                same_share_iff f g,
                same_share_iff f k,
                keeps_key f g r,
              )) in
            let same : e ≡ f = ground (arith, at_k, here, h) in
            (g, find_share-save_self k e' g u s at_e, inr (rw same pf, rw same r))
        | inr s ↦ (e', find_share-save_ne k g u s ∙ at_e, moved)
      ]

  pub each_file-MovesBy :
      (step : FileShare → List FileShare → List FileShare × Bool) (fs u : List FileShare)
      → ((f : FileShare) (v : List FileShare)
          → ((step f v).0 ≡ v) ⊎ ((g : FileShare) × R f g × ((step f v).0 ≡ save_share g v)))
      → All (λ f. (find_share f t ≡ some f) × (p f ≡ true)) fs
      → MovesBy p R t u
      → MovesBy p R t (each_file step fs u).0
  unfolding each_file
  each_file-MovesBy step [] u law h moves = moves
  each_file-MovesBy step (f ∷ fs) u law ((here, pf), h) moves =
      let one : MovesBy p R t (step f u).0 = elim (law f u) [
        | inl e ↦ subst (MovesBy p R t) (sym e) moves
        | inr (g, r, e) ↦ subst (MovesBy p R t) (sym e) (save_share-MovesBy f g u here pf r moves)
      ] in
      elim (Bool-cases (step f u).1) [
        | inl on ↦ simp (on, each_file) (each_file-MovesBy step fs (step f u).0 law h one)
        | inr off ↦ simp (off, each_file) one
      ]
