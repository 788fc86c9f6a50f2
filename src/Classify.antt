-- ===== src/Classify.antt =====
-- internal/classify: labels of a picture, their order, and the title that they suggest. The
-- classification of images itself (TensorFlow) is not modelled.
pub mod Order
pub mod Title
mod Tests
use photoprism.Prelude.{
  ℕ, ◌-◌, ◌≡◌, Bool, true, false, not, ◌||◌, ◌&&◌, List, [], ◌∷◌, ◌++◌, Text, codes, length, any,
  text_eq, leb, ltb, ◌==◌, if◌then◌else◌, is_nil,
}
use photoprism.Prelude.Int.{ℤ, pos, negsuc, ltb_ℤ, leb_ℤ, eqb_ℤ}
use photoprism.Sorting.{Sorter}
use photoprism.Txt.Unicode.{Unicode}
use photoprism.Txt.Words.{keywords}

pub record Label : Type 0 where
  pub name : Text
  pub source : Text
  pub uncertainty : ℤ
  pub priority : ℤ
  pub categories : List Text

-- `Labels.Less`.
unfoldable pub less : Label → Label → Bool
less a b =
    if leb_ℤ (pos 100) a.uncertainty
    then false
    else if leb_ℤ (pos 100) b.uncertainty
    then true
    else if eqb_ℤ a.priority b.priority
    then ltb_ℤ a.uncertainty b.uncertainty
    else ltb_ℤ b.priority a.priority

unfoldable pub append_label : List Label → Label → List Label
append_label l label = if text_eq label.name [] then l else l ++ label ∷ []

category_keywords : Unicode → (Text → Bool) → List Text → List Text
category_keywords u stopword [] = []
category_keywords u stopword (c ∷ cs) = keywords u stopword c ++ category_keywords u stopword cs

-- `Labels.Keywords`.
unfoldable pub label_keywords : Unicode → (Text → Bool) → List Label → List Text
unfolding category_keywords
label_keywords u stopword [] = []
label_keywords u stopword (label ∷ l) = elim (leb_ℤ (pos 100) label.uncertainty) [
  | true ↦ label_keywords u stopword l
  | false ↦
      keywords u stopword label.name
      ++ (category_keywords u stopword label.categories ++ label_keywords u stopword l)
]

-- `\d+` matches: some ASCII digit.
abbrev pub contains_number : Text → Bool
contains_number s = any (λ c. leb b'0' c && leb c b'9') s

-- The fallback that `Title` accepts: 2 to 25 runes and no digit.
unfoldable pub valid_fallback : Text → Text
valid_fallback fallback =
    if ltb (length fallback) 2 || ltb 25 (length fallback) || contains_number fallback
    then []
    else fallback

-- The best label of a sorted list, or the second best where the first is uncertain.
abbrev pub pick : Label → List Label → Label
pick first [] = first
pick first (second ∷ l) =
    if ltb_ℤ (pos 60) first.uncertainty && leb_ℤ second.uncertainty (pos 60) then second else first

-- The end of `Title`, with the label picked and the fallback checked.
unfoldable pub title_of : Label → Text → Text
title_of label fallback =
    if not (is_nil fallback) && ltb_ℤ label.priority (pos 0)
    then fallback
    else if not (is_nil fallback)
        && eqb_ℤ label.priority (pos 0)
        && ltb_ℤ (pos 50) label.uncertainty
    then fallback
    else if leb_ℤ (negsuc 0) label.priority && leb_ℤ label.uncertainty (pos 60)
    then label.name
    else fallback

abbrev pub titled : Text → List Label → Text
titled fallback [] = fallback
titled fallback (first ∷ l) = title_of (pick first l) fallback

-- `Labels.Title` sorts its receiver in place: the list that the caller is left with comes second.
unfoldable pub title : Sorter Label → List Label → Text → Text × List Label
unfolding valid_fallback title_of less
title sorter [] fallback = (valid_fallback fallback, [])
title sorter (label ∷ l) fallback =
    let sorted = sorter.sort less (label ∷ l) in (titled (valid_fallback fallback) sorted, sorted)
