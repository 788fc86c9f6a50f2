-- ===== src/Form/FreeText.antt =====
-- internal/form/search.go: queries that are plain words.
use photoprism.Prelude.{
  ℕ, ◌≡◌, refl, ap, ◌∙◌, true, false, List, [], ◌∷◌, ◌++◌, is_nil, Text, none, arith, All,
  All-append, inl, inr, Bool-cases, if◌then◌else◌, ◌⊎◌,
}
use photoprism.Txt.Unicode.{is_space}
use photoprism.Txt.Clip.{trim_left, trim_right, trim_space}
use photoprism.Form.Value.{Value, Form, Library, assign_text}
use photoprism.Form.Serialize.{join_words}
use photoprism.Form.Parse.{
  set_query, get_query, Scanner, start_scan, end_token, scan_char, scan, parse_query_string,
}
use photoprism.Form.Parse.Scan.{Quotable, append_nil}

-- A text without white space.
abbrev IsWord : Text → Type 0
IsWord = All (λ c. is_space c ≡ false)

-- A word that has come to its end.
abbrev finished : Text → List Text
finished word = if is_nil word then [] else word ∷ []

-- The words of a text in lower case, where a word has begun already.
unfoldable pub words_of : Library → Text → Text → List Text
words_of g word [] = finished word
words_of g word (c ∷ t) =
    let next = words_of g [] t in
    let longer = words_of g (word ++ g.unicode.to_lower c ∷ []) t in
    if is_space c then finished word ++ next else longer

trim_right-IsWord : (t : Text) → IsWord t → trim_right t ≡ t
unfolding trim_right
trim_right-IsWord [] w = refl
trim_right-IsWord (c ∷ []) (h, w) = ground (arith, h)
trim_right-IsWord (c ∷ d ∷ t) (h, w) =
    let rest = trim_right-IsWord (d ∷ t) w in rw (trim_right, rest) refl

trim_space-IsWord : (t : Text) → IsWord t → trim_space t ≡ t
unfolding trim_space trim_left
trim_space-IsWord [] w = refl
trim_space-IsWord (c ∷ t) (h, w) =
    let left : trim_left (c ∷ t) ≡ c ∷ t = ground (arith, h) in
    ap trim_right left ∙ trim_right-IsWord (c ∷ t) (h, w)

append_assoc : {A : Type 0} (a b c : List A) → (a ++ b) ++ c ≡ a ++ (b ++ c)
append_assoc [] b c = refl
append_assoc (x ∷ a) b c = ap (◌∷◌ x) (append_assoc a b c)

-- Between two tokens, or in a word that is no key yet.
record InWord (s : Scanner) : Type 0 where
  no_value : s.value ≡ []
  unescaped : s.escaped ≡ false
  no_key : s.is_key_value ≡ false
  word : IsWord s.key

abbrev ended_word : Scanner → Scanner
ended_word s = record s { key = []; words = s.words ++ finished s.key }

module _ (g : Library)
    (lower_ink : (c : ℕ) → is_space c ≡ false → is_space (g.unicode.to_lower c) ≡ false) where
  space-InWord :
      (s : Scanner) (c : ℕ) → InWord s → is_space c ≡ true → scan_char g s c ≡ ended_word s
  unfolding scan_char end_token
  space-InWord s c w e = elim (Bool-cases (is_nil s.key)) [
    | inl h ↦ ground (
      arith,
      w.no_value,
      w.unescaped,
      w.no_key,
      trim_space-IsWord s.key w.word,
      append_nil s.words,
    )
    | inr h ↦ ground (arith, w.no_value, w.unescaped, w.no_key, trim_space-IsWord s.key w.word)
  ]

  letter-InWord :
      (s : Scanner) (c : ℕ)
      → InWord s
      → is_space c ≡ false
      → Quotable c
      → scan_char g s c ≡ record s { key = s.key ++ g.unicode.to_lower c ∷ [] }
  unfolding scan_char
  letter-InWord s c w e (a, b) = ground (arith, e, a, b, w.no_key)

  scan-words :
      (t : Text) (s : Scanner)
      → InWord s
      → All Quotable t
      → scan g s (t ++ 10 ∷ []) ≡ record s { key = []; words = s.words ++ words_of g s.key t }
  unfolding scan words_of is_space
  scan-words [] s w q = space-InWord s 10 w refl
  scan-words (c ∷ t) s w ((a, b), q) = elim (Bool-cases (is_space c)) [
    | inl e ↦
        let next : InWord (ended_word s) = record {
          no_value = w.no_value;
          unescaped = w.unescaped;
          no_key = w.no_key;
          word = tt;
        } in
        rw e (
          ap (λ r. scan g r (t ++ 10 ∷ [])) (space-InWord s c w e)
          ∙ scan-words t (ended_word s) next q
          ∙ ap (λ l. record s { key = []; words = l })
              (append_assoc s.words (finished s.key) (words_of g [] t)))
    | inr e ↦
        let longer = record s { key = s.key ++ g.unicode.to_lower c ∷ [] } in
        let one : scan_char g s c ≡ longer = letter-InWord s c w e (a, b) in
        let next : InWord longer = record {
          no_value = w.no_value;
          unescaped = w.unescaped;
          no_key = w.no_key;
          word = All-append (λ d. is_space d ≡ false) s.key _ w.word (lower_ink c e, tt);
        } in
        rw e (ap (λ r. scan g r (t ++ 10 ∷ [])) one ∙ scan-words t longer next q)
  ]

assign_text-again : (t u : Text) (v : Value) → assign_text t (assign_text u v) ≡ assign_text t v
assign_text-again t u v = ground arith

set_query-again : (t u : Text) (f : Form) → set_query t (set_query u f) ≡ set_query t f
unfolding set_query
set_query-again t u [] = refl
set_query-again t u (f ∷ fs) = ground (arith, assign_text-again t u f.value, set_query-again t u fs)

List-cases : {A : Type 0} (l : List A) → (l ≡ []) ⊎ (is_nil l ≡ false)
List-cases [] = inl refl
List-cases (x ∷ l) = inr refl

-- A query without a colon or a quote, its blank ends left aside, sets no filter: parsing it gives no error and
-- leaves the form as it is, except that its query becomes the words of the query in lower case, in their order and with one
-- blank between them. This takes a Unicode package where no character becomes white space in lower case.
pub parse_query_string-words :
    (g : Library) (f : Form)
    → ((c : ℕ) → is_space c ≡ false → is_space (g.unicode.to_lower c) ≡ false)
    → All Quotable (trim_space (get_query f))
    → parse_query_string g f
      ≡ (set_query (join_words (words_of g [] (trim_space (get_query f)))) f, none)
unfolding parse_query_string join_words
parse_query_string-words g f ink q =
    let t = trim_space (get_query f) in
    let s = start_scan (set_query [] f) in
    let begun : InWord s = record { no_value = refl; unescaped = refl; no_key = refl; word = tt } in
    let scanned = scan-words g ink t s begun q in
    elim (List-cases (words_of g [] t)) [
      | inl e ↦ ground (arith, scanned, e)
      | inr e ↦ ground (arith, scanned, e, set_query-again (join_words (words_of g [] t)) [] f)
    ]
