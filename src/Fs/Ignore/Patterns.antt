-- ===== src/Fs/Ignore/Patterns.antt =====
-- pkg/fs/ignore.go: which names a pattern stands for.
use photoprism.Prelude.{
  ℕ, ◌-◌, ◌≡◌, refl, ap, ◌∙◌, true, false, [], ◌∷◌, ◌++◌, length, take, drop, Text, codes, text_eq,
  text_eq_refl, arith, length-append,
}
use photoprism.Fs.Ignore.{IgnoreItem, has_prefix, has_suffix, item_ignore}

take-append : (s t : Text) → take (length s) (s ++ t) ≡ s
take-append [] t = refl
take-append (c ∷ s) t = ground (arith, take-append s t)

drop-append : (s t : Text) → drop (length s) (s ++ t) ≡ t
drop-append [] t = refl
drop-append (c ∷ s) t = drop-append s t

append_cons : (s : Text) (c : ℕ) (t : Text) → s ++ c ∷ t ≡ (s ++ c ∷ []) ++ t
append_cons [] c t = refl
append_cons (b ∷ s) c t = ap (◌∷◌ b) (append_cons s c t)

shorter : (p : Text) (c : ℕ) → length (p ++ c ∷ codes "*") - 2 ≡ length p
shorter p c = omega (arith, length-append p (c ∷ codes "*"))

-- A suffix is what stands behind some text, a prefix what stands before one.
has_suffix_append : (s t : Text) → has_suffix (s ++ t) t ≡ true
unfolding has_suffix
has_suffix_append s t =
    let n : length (s ++ t) - length t ≡ length s = omega (arith, length-append s t) in
    ground (arith, n, drop-append s t, text_eq_refl t, length-append s t)

has_prefix_append : (s t : Text) → has_prefix (s ++ t) s ≡ true
unfolding has_prefix
has_prefix_append [] t = refl
has_prefix_append (c ∷ s) t = ground (arith, has_prefix_append s t)

module _ (dir base : Text) (i : IgnoreItem)
    (below : has_prefix (dir ++ codes "/") i.dir ≡ true) where
  end_star :
      (p : Text) (c : ℕ)
      → i.pattern ≡ p ++ c ∷ codes "*"
      → has_prefix i.pattern (codes "*") ≡ false
      → item_ignore i dir base ≡ has_prefix base p
  unfolding item_ignore
  end_star p c e h =
      let split : i.pattern ≡ (p ++ c ∷ []) ++ codes "*" = e ∙ append_cons p c (codes "*") in
      let star : has_suffix i.pattern (codes "*") ≡ true =
        ap (λ t. has_suffix t (codes "*")) split ∙ has_suffix_append (p ++ c ∷ []) (codes "*") in
      let n : length i.pattern - 2 ≡ length p = ap (λ t. length t - 2) e ∙ shorter p c in
      let cut : take (length i.pattern - 2) i.pattern ≡ p =
        ap (λ k. take k i.pattern) n ∙ (ap (take (length p)) e ∙ take-append p (c ∷ codes "*")) in
      ground (arith, star, cut)

  -- In the directory of an item or below it, a pattern with a star at the front stands for the names that
  -- end with the rest of it; one with a star at the end alone stands for the names that begin with the
  -- pattern less its last two bytes, so the byte before the star does not count; and one with no star
  -- at either end stands for the name itself.
  pub item_ignore_lem :
      ((p : Text) → i.pattern ≡ codes "*" ++ p → item_ignore i dir base ≡ has_suffix base p)
      × ((p : Text) (c : ℕ)
          → i.pattern ≡ p ++ c ∷ codes "*"
          → has_prefix i.pattern (codes "*") ≡ false
          → item_ignore i dir base ≡ has_prefix base p)
      × (has_prefix i.pattern (codes "*") ≡ false
          → has_suffix i.pattern (codes "*") ≡ false
          → item_ignore i dir base ≡ text_eq i.pattern base)
  unfolding item_ignore has_prefix
  item_ignore_lem = ((λ p e. ground arith), end_star, (λ h k. ground arith))
