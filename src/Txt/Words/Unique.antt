-- ===== src/Txt/Words/Unique.antt =====
-- pkg/txt/words.go: what `UniqueWords` returns.
use photoprism.Prelude.{
  ◌≤◌, ◌≡◌, ◌≢◌, ◌↔◌, true, false, ◌||◌, List, [], ◌∷◌, map, Text, text_eq, text_eq_iff, ltb, arith,
  All, inl, inr, Bool-cases,
}
use mathlib.Core.List.{Mem, Mem-prop, Perm, mem-cons, not-mem-nil, mem-cons_self, mem-cons_of_mem}
use mathlib.Core.List.Perm
use mathlib.Core.Logic.Or
use native.Mathlib.Bridge.{le_prop}
use photoprism.Sorting.{Sorter, Ordered}
use photoprism.Txt.Unicode.{Unicode, byte_length, lower}
use photoprism.Txt.Order.{
  text_lt, text_le_trans, not-text_lt-nil, text_lt_of_le_of_ne, less_lower, less_lower-IsStrictWeak,
}
use photoprism.Txt.Words.{skip_repeated, sort_case_insensitive, unique_words}

-- Each element is greater than the one before it, the first than `last`.
abbrev pub Increasing : Text → List Text → Type 0
Increasing last [] = Unit
Increasing last (w ∷ ws) = (text_lt last w ≡ true) × Increasing w ws

module _ (u : Unicode) where
  -- The words in lower case do not fall, from `last` on.
  abbrev Ascends : Text → List Text → Type 0
  Ascends last [] = Unit
  Ascends last (w ∷ ws) = (text_lt (lower u w) last ≡ false) × Ascends (lower u w) ws

  Ascends-weaken : (a b : Text) (ws : List Text) → text_lt b a ≡ false → Ascends b ws → Ascends a ws
  Ascends-weaken a b [] h k = tt
  Ascends-weaken a b (w ∷ ws) h (k, ks) = (text_le_trans a b (lower u w) h k, ks)

  Ascends-of_Ordered :
      (w : Text) (ws : List Text) → Ordered (less_lower u) (w ∷ ws) → Ascends (lower u w) ws
  Ascends-of_Ordered w [] h = tt
  Ascends-of_Ordered w (v ∷ ws) (h, hs) = (h, Ascends-of_Ordered v ws hs)

  Ascends-nil : (ws : List Text) → Ordered (less_lower u) ws → Ascends [] ws
  Ascends-nil [] h = tt
  Ascends-nil (w ∷ ws) h = (not-text_lt-nil (lower u w), Ascends-of_Ordered w ws h)

  skip_repeated-Increasing :
      (last : Text) (ws : List Text) → Ascends last ws → Increasing last (skip_repeated u last ws)
  unfolding skip_repeated
  skip_repeated-Increasing last [] h = tt
  skip_repeated-Increasing last (w ∷ ws) (h, hs) = ground (
    arith,
    text_eq_iff (lower u w) last,
    text_lt_of_le_of_ne last (lower u w) h,
    skip_repeated-Increasing (lower u w) ws hs,
    skip_repeated-Increasing last ws (Ascends-weaken last (lower u w) ws h hs),
  )

  skip_repeated-long :
      (last : Text) (ws : List Text) → All (λ w. 3 ≤ byte_length w) (skip_repeated u last ws)
  unfolding skip_repeated
  skip_repeated-long last [] = tt
  skip_repeated-long last (w ∷ ws) =
      ground (arith, skip_repeated-long last ws, skip_repeated-long (lower u w) ws)

  mem_of_mem-skip_repeated :
      (last v : Text) (ws : List Text) → Mem v (skip_repeated u last ws) → Mem v (map (lower u) ws)
  unfolding skip_repeated
  mem_of_mem-skip_repeated last v [] m = m
  mem_of_mem-skip_repeated last v (w ∷ ws) m =
      elim (Bool-cases (ltb (byte_length (lower u w)) 3 || text_eq (lower u w) last)) [
        | inl skip ↦
            mem-cons_of_mem (lower u w)
              (mem_of_mem-skip_repeated last v ws (rw (skip, skip_repeated) at m))
        | inr fresh ↦
            Or.elim Mem-prop (mem-cons.0 (rw (fresh, skip_repeated) at m)) (λ e. rw e mem-cons_self)
              (λ rest. mem-cons_of_mem (lower u w) (mem_of_mem-skip_repeated (lower u w) v ws rest))
      ]

  -- A long word other than `last` is kept: where it comes first, or where a word before it is equal.
  mem-skip_repeated :
      (last v : Text) (ws : List Text)
      → 3 ≤ byte_length v
      → v ≢ last
      → Mem v (map (lower u) ws)
      → Mem v (skip_repeated u last ws)
  unfolding skip_repeated
  mem-skip_repeated last v [] long ne m = m
  mem-skip_repeated last v (w ∷ ws) long ne m =
      elim (Bool-cases (ltb (byte_length (lower u w)) 3 || text_eq (lower u w) last)) [
        | inl skip ↦
            rw (skip, skip_repeated)
              (Or.elim Mem-prop (mem-cons.0 m)
                (λ e. absurd (ground (arith, text_eq_iff (lower u w) last)))
                (mem-skip_repeated last v ws long ne))
        | inr fresh ↦
            rw (fresh, skip_repeated)
              (elim (Bool-cases (text_eq v (lower u w))) [
                | inl same ↦ rw ((text_eq_iff v (lower u w)).0 same) mem-cons_self
                | inr other ↦
                    Or.elim Mem-prop (mem-cons.0 m) (λ e. rw e mem-cons_self)
                      (λ rest. mem-cons_of_mem (lower u w) (
                        mem-skip_repeated (lower u w) v ws long
                          (λ (e : v ≡ lower u w). ground (arith, text_eq_iff v (lower u w))) rest))
              ])
      ]

long_of_mem :
    (v : Text) (ws : List Text) → All (λ w. 3 ≤ byte_length w) ws → Mem v ws → 3 ≤ byte_length v
long_of_mem v [] h m = absurd (not-mem-nil m)
long_of_mem v (w ∷ ws) (h, hs) m =
    Or.elim le_prop (mem-cons.0 m) (λ e. rw e h) (long_of_mem v ws hs)

not_nil : (v : Text) → 3 ≤ byte_length v → v ≢ []
unfolding byte_length
not_nil [] h e = absurd (omega arith)
not_nil (c ∷ v) h e = cc

module _ (u : Unicode) (sorter : Sorter Text) (ws : List Text) where
  -- `UniqueWords` returns its words in strictly increasing order, so none twice, each of three bytes
  -- or more; and it returns exactly the words of the input in lower case that are that long.
  pub unique_words_lem :
      Increasing [] (unique_words u sorter ws)
      × All (λ w. 3 ≤ byte_length w) (unique_words u sorter ws)
      × ((v : Text)
          → Mem v (unique_words u sorter ws) ↔ (Mem v (map (lower u) ws) × (3 ≤ byte_length v)))
  unfolding unique_words sort_case_insensitive
  unique_words_lem = (
    skip_repeated-Increasing u [] sorted
        (Ascends-nil u sorted (sorter.sort-Ordered (less_lower u) ws (less_lower-IsStrictWeak u))),
    skip_repeated-long u [] sorted,
    λ v. (
      λ m. (
        (Perm.mem_iff same).0 (mem_of_mem-skip_repeated u [] v sorted m),
        long_of_mem v (skip_repeated u [] sorted) (skip_repeated-long u [] sorted) m,
      ),
      λ h. mem-skip_repeated u [] v sorted h.1 (not_nil v h.1) ((Perm.mem_iff same).1 h.0),
    ),
  )
    where
      sorted : List Text
      sorted = sorter.sort (less_lower u) ws

      same : Perm (map (lower u) sorted) (map (lower u) ws)
      same = Perm.map (lower u) (sorter.sort-perm (less_lower u) ws)
