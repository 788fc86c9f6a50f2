-- ===== src/Form/Parse/Scan.antt =====
-- internal/form/search.go: what the loop makes of the pieces of a query.
use photoprism.Prelude.{
  ℕ, ◌≡◌, refl, sym, ap, ◌∙◌, true, false, List, [], ◌∷◌, ◌++◌, Text, ◌==◌, none, arith, All,
}
use photoprism.Txt.Unicode.{is_space}
use photoprism.Form.Value.{Form, Library}
use photoprism.Form.Parse.{Scanner, start_scan, end_token, scan_char, scan, set_field}

-- A character that is no syntax of a query, and one that also ends no token.
abbrev pub Quotable : ℕ → Type 0
Quotable c = ((c == b':') ≡ false) × ((c == b'"') ≡ false)

abbrev pub Plain : ℕ → Type 0
Plain c = (is_space c ≡ false) × Quotable c

pub append_nil : {A : Type 0} (s : List A) → s ++ [] ≡ s
append_nil [] = refl
append_nil (c ∷ s) = ap (◌∷◌ c) (append_nil s)

append_snoc : {A : Type 0} (s t : List A) (c : A) → (s ++ c ∷ []) ++ t ≡ s ++ c ∷ t
append_snoc [] t c = refl
append_snoc (b ∷ s) t c = ap (◌∷◌ b) (append_snoc s t c)

module _ (g : Library) where
  pub scan-append : (s : Scanner) (t u : Text) → scan g s (t ++ u) ≡ scan g (scan g s t) u
  unfolding scan
  scan-append s [] u = refl
  scan-append s (c ∷ t) u = scan-append (scan_char g s c) t u

  abbrev pub with_value : Scanner → Text → Scanner
  with_value s t = record s { value = s.value ++ t }

  with_value-nil : (s : Scanner) → with_value s [] ≡ s
  with_value-nil s = ap (λ v. record s { value = v }) (append_nil s.value)

  -- In quotes, every character but those of the syntax is part of the value.
  scan-quoted :
      (s : Scanner) (t : Text)
      → s.is_key_value ≡ true
      → s.escaped ≡ true
      → All Quotable t
      → scan g s t ≡ with_value s t
  unfolding scan scan_char
  scan-quoted s [] kv esc q = sym (with_value-nil s)
  scan-quoted s (c ∷ t) kv esc ((a, b), q) =
      let one : scan_char g s c ≡ with_value s (c ∷ []) = ground arith in
      ap (λ r. scan g r t) one
      ∙ scan-quoted (with_value s (c ∷ [])) t kv esc q
      ∙ ap (λ v. record s { value = v }) (append_snoc s.value t c)

  pub scan-value :
      (s : Scanner) (t : Text) → s.is_key_value ≡ true → All Plain t → scan g s t ≡ with_value s t
  unfolding scan scan_char
  scan-value s [] kv q = sym (with_value-nil s)
  scan-value s (c ∷ t) kv ((w, (a, b)), q) =
      let one : scan_char g s c ≡ with_value s (c ∷ []) = ground arith in
      ap (λ r. scan g r t) one
      ∙ scan-value (with_value s (c ∷ [])) t kv q
      ∙ ap (λ v. record s { value = v }) (append_snoc s.value t c)

  pub scan-key :
      (s : Scanner) (t : Text)
      → s.is_key_value ≡ false
      → All (λ c. Plain c × (g.unicode.to_lower c ≡ c)) t
      → scan g s t ≡ record s { key = s.key ++ t }
  unfolding scan scan_char
  scan-key s [] kv q = sym (ap (λ v. record s { key = v }) (append_nil s.key))
  scan-key s (c ∷ t) kv (((w, (a, b)), l), q) =
      let one : scan_char g s c ≡ record s { key = s.key ++ c ∷ [] } = ground (arith, l) in
      ap (λ r. scan g r t) one
      ∙ scan-key (record s { key = s.key ++ c ∷ [] }) t kv q
      ∙ ap (λ v. record s { key = v }) (append_snoc s.key t c)

  -- A key in lower case, a colon and a value, bare or in quotes, before white space: the value is set in
  -- the field that the key names, and the scanner starts again.
  module _ (f h : Form) (tag v : Text) (w : ℕ) (space : is_space w ≡ true)
      (lower : All (λ c. Plain c × (g.unicode.to_lower c ≡ c)) tag)
      (sets : set_field g (g.title tag) v f ≡ (h, none)) where
    abbrev behind_colon : Scanner
    behind_colon = record (start_scan f) { key = tag; is_key_value = true }

    scan-colon : (t : Text) → scan g (start_scan f) (tag ++ b':' ∷ t) ≡ scan g behind_colon t
    unfolding scan scan_char is_space
    scan-colon t =
        scan-append (start_scan f) tag (b':' ∷ t)
        ∙ ap (λ s. scan g s (b':' ∷ t)) (scan-key (start_scan f) tag refl lower)

    end-sets : (scan_char g (record behind_colon { value = v }) w) ≡ start_scan h
    unfolding scan_char end_token
    end-sets = ground (arith, sets, space)

    pub scan-bare :
        (rest : Text)
        → All Plain v
        → scan g (start_scan f) (tag ++ b':' ∷ (v ++ w ∷ rest)) ≡ scan g (start_scan h) rest
    unfolding scan
    scan-bare rest plain =
        scan-colon (v ++ w ∷ rest)
        ∙ scan-append behind_colon v (w ∷ rest)
        ∙ ap (λ s. scan g s (w ∷ rest)) (scan-value behind_colon v refl plain)
        ∙ ap (λ s. scan g s rest) end-sets

    pub scan-in_quotes :
        (rest : Text)
        → All Quotable v
        → scan g (start_scan f) (tag ++ b':' ∷ (b'"' ∷ (v ++ b'"' ∷ w ∷ rest)))
          ≡ scan g (start_scan h) rest
    unfolding scan scan_char is_space
    scan-in_quotes rest plain =
        let open_quote : Scanner = record behind_colon { escaped = true } in
        scan-colon (b'"' ∷ (v ++ b'"' ∷ w ∷ rest))
        ∙ scan-append open_quote v (b'"' ∷ w ∷ rest)
        ∙ ap (λ s. scan g s (b'"' ∷ w ∷ rest)) (scan-quoted open_quote v refl refl plain)
        ∙ ap (λ s. scan g s rest) end-sets
