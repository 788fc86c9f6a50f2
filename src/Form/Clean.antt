-- ===== src/Form/Clean.antt =====
-- internal/form: texts that the trimming of queries leaves as they are, and lists of query elements.
use photoprism.Prelude.{
  ℕ, ◌≡◌, refl, ap, ◌∙◌, Bool, true, false, not, List, [], ◌∷◌, ◌++◌, is_nil, Text, ◌==◌, arith,
  All, any,
}
use photoprism.Txt.Unicode.{is_space}
use photoprism.Txt.Clip.{trim_left, trim_right, trim_space}
use photoprism.Form.Serialize.{join_words, without_quotes}
use photoprism.Form.Parse.Scan.{Plain, Quotable}

pub append_assoc : {A : Type 0} (s t u : List A) → (s ++ t) ++ u ≡ s ++ (t ++ u)
append_assoc [] t u = refl
append_assoc (c ∷ s) t u = ap (◌∷◌ c) (append_assoc s t u)

-- A text that is not empty and has no white space at its end.
pub record IsEnded (t : Text) : Type 0 where
  pub there : is_nil t ≡ false
  pub ended : trim_right t ≡ t

pub IsEnded-append : (s t : Text) → IsEnded t → IsEnded (s ++ t)
unfolding trim_right
IsEnded-append [] t h = h
IsEnded-append (c ∷ s) t h =
    let rest = IsEnded-append s t h in
    record { there = refl; ended = cons_ended (s ++ t) rest.there rest.ended }
  where
    cons_ended : (u : Text) → is_nil u ≡ false → trim_right u ≡ u → trim_right (c ∷ u) ≡ c ∷ u
    cons_ended u n e = ground (arith, n, e)

pub IsEnded-one : (c : ℕ) → is_space c ≡ false → IsEnded (c ∷ [])
unfolding trim_right
IsEnded-one c h = record { there = refl; ended = ground arith }

pub IsEnded-Plain : (t : Text) → is_nil t ≡ false → All Plain t → IsEnded t
IsEnded-Plain [] n p = absurd (ground arith)
IsEnded-Plain (c ∷ []) n ((w, q), p) = IsEnded-one c w
IsEnded-Plain (c ∷ d ∷ t) n (q, p) = IsEnded-append (c ∷ []) (d ∷ t) (IsEnded-Plain (d ∷ t) refl p)

-- The text begins with something that is no white space.
abbrev pub starts_bare : Text → Bool
starts_bare [] = false
starts_bare (c ∷ t) = not (is_space c)

pub starts_bare-append : (s t : Text) → starts_bare s ≡ true → starts_bare (s ++ t) ≡ true
starts_bare-append [] t h = absurd (ground (arith, h))
starts_bare-append (c ∷ s) t h = h

pub trim_space_tight : (t : Text) → starts_bare t ≡ true → IsEnded t → trim_space t ≡ t
unfolding trim_space trim_left
trim_space_tight [] h e = refl
trim_space_tight (c ∷ t) h e = ground (arith, e.ended, h)

pub IsEnded-join :
    (t : Text) (ts : List Text) → All IsEnded (t ∷ ts) → IsEnded (join_words (t ∷ ts))
unfolding join_words
IsEnded-join t [] (h, hs) = h
IsEnded-join t (u ∷ ts) (h, hs) =
    IsEnded-append t (b' ' ∷ join_words (u ∷ ts))
      (IsEnded-append (b' ' ∷ []) _ (IsEnded-join u ts hs))

-- The elements, each with the white space behind it: the last one has the line end.
unfoldable pub ended : List Text → Text
ended [] = []
ended (t ∷ []) = t ++ 10 ∷ []
ended (t ∷ u ∷ ts) = t ++ b' ' ∷ ended (u ∷ ts)

pub ended-join : (t : Text) (ts : List Text) → join_words (t ∷ ts) ++ 10 ∷ [] ≡ ended (t ∷ ts)
unfolding join_words ended
ended-join t [] = refl
ended-join t (u ∷ ts) =
    append_assoc t (b' ' ∷ join_words (u ∷ ts)) (10 ∷ [])
    ∙ ap (λ r. t ++ b' ' ∷ r) (ended-join u ts)

-- Either way an element is followed by white space.
pub ended_cons :
    (t : Text) (ts : List Text)
    → (w : ℕ) × (is_space w ≡ true) × (ended (t ∷ ts) ≡ t ++ w ∷ ended ts)
unfolding ended is_space
ended_cons t [] = (10, refl, refl)
ended_cons t (u ∷ ts) = (b' ', refl, refl)

-- A text that a quoted value can carry: trimmed, with no syntax, and blanks as its only white space.
pub record IsClean (s : Text) : Type 0 where
  pub trimmed : trim_space s ≡ s
  pub quotable : All Quotable s
  pub blanks : All (λ c. is_space c ≡ true → (c == b' ') ≡ true) s

pub without_quotes_clean : (s : Text) → All Quotable s → without_quotes s ≡ s
without_quotes_clean [] q = refl
without_quotes_clean (c ∷ s) ((a, b), q) = ground (arith, b, without_quotes_clean s q)

pub All-Plain :
    (s : Text)
    → All Quotable s
    → All (λ c. is_space c ≡ true → (c == b' ') ≡ true) s
    → any (λ c. c == b' ') s ≡ false
    → All Plain s
All-Plain [] q b h = tt
All-Plain (c ∷ s) (qc, q) (bc, b) h = ((not_space, qc), All-Plain s q b (ground (arith, h)))
  where
    not_space : is_space c ≡ false
    not_space = ground (arith, bc, h)
