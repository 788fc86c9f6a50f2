-- ===== src/Form/Errors.antt =====
-- internal/form/search.go: the errors of filters that cannot be set.
use photoprism.Prelude.{
  ℕ, ◌≡◌, refl, sym, ap, ◌∙◌, Bool, true, false, not, ◌&&◌, [], ◌∷◌, ◌++◌, Text, Option, none, some,
  arith, All, inl, inr, Bool-cases,
}
use mathlib.Core.Path.{subst}
use photoprism.Txt.Unicode.{is_space}
use photoprism.Txt.Clip.{trim_space}
use photoprism.Form.Value.{Form, Library}
use photoprism.Form.Parse.{
  ParseError, Scanner, start_scan, end_token, scan_char, scan, set_field, get_query, set_query,
  parse_query_string,
}
use photoprism.Form.Parse.Scan.{Plain, scan-append, scan-key, scan-value}

abbrev pub is_error : Option ParseError → Bool
is_error none = false
is_error (some e) = true

end_token-error :
    (g : Library) (s : Scanner) → is_error s.error ≡ true → is_error (end_token g s).error ≡ true
unfolding end_token
end_token-error g s h = ground arith

scan_char-error :
    (g : Library) (s : Scanner) (c : ℕ)
    → is_error s.error ≡ true
    → is_error (scan_char g s c).error ≡ true
unfolding scan_char
scan_char-error g s c h = elim (Bool-cases (is_space c && not s.escaped)) [
  | inl e ↦ rw e (end_token-error g s h)
  | inr e ↦ rw e (ground arith)
]

scan-error :
    (g : Library) (t : Text) (s : Scanner)
    → is_error s.error ≡ true
    → is_error (scan g s t).error ≡ true
unfolding scan
scan-error g [] s h = h
scan-error g (c ∷ t) s h = scan-error g t (scan_char g s c) (scan_char-error g s c h)

-- Between two tokens.
pub record IsRested (s : Scanner) : Type 0 where
  pub key : s.key ≡ []
  pub value : s.value ≡ []
  pub escaped : s.escaped ≡ false
  pub is_key_value : s.is_key_value ≡ false

module _ (g : Library) (s : Scanner) (rested : IsRested s) (key value : Text) (w : ℕ)
    (lower : All (λ c. Plain c × (g.unicode.to_lower c ≡ c)) key) (plain : All Plain value)
    (space : is_space w ≡ true)
    (fails : is_error (set_field g (g.title key) value s.form).1 ≡ true) where
  abbrev filter : Scanner
  filter = record s { key = key; is_key_value = true; value = value }

  keyed : scan g s key ≡ record s { key = key }
  keyed =
      scan-key g s key rested.is_key_value lower ∙ ap (λ k. record s { key = k ++ key }) rested.key

  valued : scan g (record s { key = key; is_key_value = true }) value ≡ filter
  valued =
      scan-value g (record s { key = key; is_key_value = true }) value refl plain
      ∙ ap (λ v. record s { key = key; is_key_value = true; value = v ++ value }) rested.value

  scan-filter :
      (rest : Text)
      → scan g s (key ++ b':' ∷ (value ++ w ∷ rest)) ≡ scan g (scan_char g filter w) rest
  unfolding scan scan_char is_space
  scan-filter rest =
      let tail = value ++ w ∷ rest in
      scan-append g s key (b':' ∷ tail)
      ∙ ap (λ r. scan g r (b':' ∷ tail)) keyed
      ∙ scan-append g (record s { key = key; is_key_value = true }) value (w ∷ rest)
      ∙ ap (λ r. scan g r (w ∷ rest)) valued

  filter-fails : is_error (scan_char g filter w).error ≡ true
  unfolding scan_char end_token
  filter-fails = ground (arith, space, fails, rested.escaped)

-- A filter that cannot be set is reported: wherever in the trimmed query a key in lower case, a colon, a value
-- without syntax and white space stand between two tokens, and the field that the key names does not
-- exist or does not take the value, parsing ends with an error, whatever follows.
pub parse_query_string-fails :
    (g : Library) (f : Form) (front key value rest : Text) (w : ℕ)
    → trim_space (get_query f) ++ 10 ∷ [] ≡ front ++ (key ++ b':' ∷ (value ++ w ∷ rest))
    → is_space w ≡ true
    → All (λ c. Plain c × (g.unicode.to_lower c ≡ c)) key
    → All Plain value
    → IsRested (scan g (start_scan (set_query [] f)) front)
    → is_error (set_field g (g.title key) value (scan g (start_scan (set_query [] f)) front).form).1
      ≡ true
    → is_error (parse_query_string g f).1 ≡ true
unfolding parse_query_string
parse_query_string-fails g f front key value rest w query space lower plain rested fails =
    let s = scan g (start_scan (set_query [] f)) front in
    let found : scan g (start_scan (set_query [] f)) (trim_space (get_query f) ++ 10 ∷ [])
        ≡ scan g (scan_char g (filter g s rested key value w lower plain space fails) w) rest =
      ap (scan g (start_scan (set_query [] f))) query
      ∙ scan-append g (start_scan (set_query [] f)) front (key ++ b':' ∷ (value ++ w ∷ rest))
      ∙ scan-filter g s rested key value w lower plain space fails rest in
    subst (λ r. is_error r.error ≡ true) (sym found)
      (scan-error g rest _ (filter-fails g s rested key value w lower plain space fails))
