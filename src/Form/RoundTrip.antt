-- ===== src/Form/RoundTrip.antt =====
-- internal/form: a form that is serialized and parsed again.
mod Tests
use photoprism.Prelude.{
  ℕ, ◌+◌, ◌*◌, ◌^◌, ◌%◌, ◌<◌, ◌≡◌, refl, sym, ap, ◌∙◌, Bool, true, false, not, ◌&&◌, ◌||◌, List, [],
  ◌∷◌, ◌++◌, map, is_nil, Text, codes, text_eq, text_eq_refl, text_eq_iff, text_eq-nil, ◌==◌,
  if◌then◌else◌, Option, none, some, arith, All, All-append, any, ◌⊎◌, inl, inr, Bool-cases,
}
use mathlib.Core.Path.{subst}
use native.Mathlib.Nat.{mod-eq_of_lt}
use photoprism.Prelude.Int.{ℤ, pos, negsuc, eqb_ℤ}
use photoprism.Clock.{Time, zero_time}
use photoprism.Txt.Unicode.{is_space}
use photoprism.Txt.Clip.{trim_space, trim_left, trim_right}
use photoprism.Form.Value.{
  Value, time_value, float_value, int_value, uint_value, string_value, bool_value, other_value,
  Field, Form, Library, zero_of, to_uint,
}
use photoprism.Form.Serialize.{
  serialize_value, quoted, is_serialized, serialize_fields, join_words, serialize, without_quotes,
}
use photoprism.Form.Parse.{
  ParseError, convert, bool_of, set_field, Scanner, start_scan, end_token, scan_char, scan,
  get_query, set_query, parse_query_string,
}
use photoprism.Form.Value.{cleared}
use photoprism.Form.Parse.Scan.{Plain, Quotable, scan-bare, scan-in_quotes}
use photoprism.Form.Clean.{
  append_assoc, IsEnded, IsEnded-append, IsEnded-one, IsEnded-Plain, starts_bare,
  starts_bare-append, trim_space_tight, IsEnded-join, ended, ended-join, ended_cons, IsClean,
  without_quotes_clean, All-Plain,
}

-- The integers that `strconv.Atoi` reads.
abbrev pub InRange : ℤ → Type 0
InRange (pos n) = n < 2 ^ 63
InRange (negsuc n) = n < 2 ^ 63

-- `strconv.Atoi` reads what `fmt` prints for an integer: a sign and digits.
pub record PrintsIntegers (g : Library) : Type 0 where
  pub atoi-itoa : (z : ℤ) → InRange z → g.atoi (g.itoa z) ≡ some z
  pub itoa-Plain : (z : ℤ) → All Plain (g.itoa z)
  pub itoa-there : (z : ℤ) → is_nil (g.itoa z) ≡ false

-- The values that a query carries: no time and no float but the empty ones, integers in range and clean texts.
abbrev pub Survives : Value → Type 0
Survives (time_value t) = t ≡ zero_time
Survives (float_value b) = b ≡ 0
Survives (int_value z) = InRange z
Survives (uint_value w n) = (n < 2 ^ w) × (n < 2 ^ 63)
Survives (string_value s) = IsClean s
Survives (bool_value b) = Unit
Survives other_value = Unit

-- How a value is written: not at all, bare, or in quotes.
data Shown (g : Library) (v : Value) : Type 0 where
  left_out : serialize_value g v ≡ none → zero_of v ≡ v → Shown g v
  bare :
      (t : Text)
      → serialize_value g v ≡ some t
      → convert g (zero_of v) t ≡ (v, none)
      → All Plain t
      → is_nil t ≡ false
      → Shown g v
  in_quotes :
      (t : Text)
      → serialize_value g v ≡ some (quoted t)
      → convert g (zero_of v) t ≡ (v, none)
      → All Quotable t
      → Shown g v

true-Plain : All Plain (codes "true")
unfolding is_space
true-Plain = (
  (refl, (refl, refl)),
  ((refl, (refl, refl)), ((refl, (refl, refl)), ((refl, (refl, refl)), tt))),
)

module _ (g : Library) (prints : PrintsIntegers g) where
  Shown-int : (z : ℤ) → InRange z → Shown g (int_value z)
  unfolding serialize_value convert
  Shown-int z r = elim (Bool-cases (eqb_ℤ z (pos 0))) [
    | inl e ↦ left_out (ground (arith, e)) (zero_int z e)
    | inr e ↦
        bare (g.itoa z) (ground (arith, e)) (ground (arith, prints.atoi-itoa z r))
          (prints.itoa-Plain z) (prints.itoa-there z)
  ]
    where
      zero_int : (z : ℤ) → eqb_ℤ z (pos 0) ≡ true → int_value (pos 0) ≡ int_value z
      zero_int (pos n) e = ap (λ k. int_value (pos k)) (ground (arith, e))
      zero_int (negsuc n) e = absurd (ground (arith, e))

  Shown-uint : (w n : ℕ) → n < 2 ^ w → n < 2 ^ 63 → Shown g (uint_value w n)
  unfolding serialize_value convert
  Shown-uint w n fits r = elim (Bool-cases (n == 0)) [
    | inl e ↦ left_out (ground (arith, e)) (ap (uint_value w) (ground (arith, e)))
    | inr e ↦
        let back : n % 2 ^ w ≡ n = mod-eq_of_lt fits in
        bare (g.itoa (pos n)) (ground (arith, e)) (ground (arith, prints.atoi-itoa (pos n) r, back))
          (prints.itoa-Plain (pos n)) (prints.itoa-there (pos n))
  ]

  Shown-string : (s : Text) → IsClean s → Shown g (string_value s)
  unfolding serialize_value convert
  Shown-string s c =
      let val : trim_space (without_quotes s) ≡ s =
        ap trim_space (without_quotes_clean s c.quotable) ∙ c.trimmed in
      elim (Bool-cases (is_nil s)) [
        | inl e ↦ left_out (ground (arith, val, e)) (ap string_value (nil_eq s e))
        | inr e ↦ elim (Bool-cases (any (λ c. c == b' ') s)) [
          | inl b ↦ in_quotes s (rw val (ground (arith, e, b))) refl c.quotable
          | inr b ↦
              bare s (rw val (ground (arith, e, b))) refl (All-Plain s c.quotable c.blanks b) e
        ]
      ]
    where
      nil_eq : (s : Text) → is_nil s ≡ true → [] ≡ s
      nil_eq [] e = refl
      nil_eq (c ∷ s) e = absurd (ground (arith, e))

  Shown-value : (v : Value) → Survives v → Shown g v
  unfolding serialize_value convert bool_of trim_space trim_left trim_right is_space text_eq
  Shown-value (time_value t) h = left_out (ground (arith, h)) (ap time_value (sym h))
  Shown-value (float_value b) h = left_out (ground (arith, h)) (ap float_value (sym h))
  Shown-value (int_value z) h = Shown-int z h
  Shown-value (uint_value w n) (fits, r) = Shown-uint w n fits r
  Shown-value (string_value s) h = Shown-string s h
  Shown-value (bool_value true) h = bare (codes "true") refl refl true-Plain refl
  Shown-value (bool_value false) h = left_out refl refl
  Shown-value other_value h = left_out refl refl

-- A field that a query can name: its tag is in lower case, without syntax, and `strings.Title` makes its name
-- of it; and its value survives.
pub record IsFindable (g : Library) (f : Field) : Type 0 where
  pub named : g.title f.tag ≡ f.name
  pub tagged : is_nil f.tag ≡ false
  pub tag-lower : All (λ c. Plain c × (g.unicode.to_lower c ≡ c)) f.tag
  pub survives : Survives f.value

-- No field has the name of this one.
abbrev pub Apart : Field → List Field → Type 0
Apart f = All (λ e. text_eq e.name f.name ≡ false)

abbrev pub AllApart : List Field → Type 0
AllApart [] = Unit
AllApart (f ∷ fs) = All (λ e. text_eq f.name e.name ≡ false) fs × AllApart fs

set_field-behind :
    (g : Library) (f : Field) (t : Text) (done rest : List Field)
    → Apart f done
    → convert g (zero_of f.value) t ≡ (f.value, none)
    → set_field g f.name t (done ++ cleared f ∷ rest) ≡ (done ++ f ∷ rest, none)
unfolding set_field
set_field-behind g f t [] rest a c = ground (arith, text_eq_refl f.name, c)
set_field-behind g f t (d ∷ done) rest (h, a) c =
    ground (arith, h, set_field-behind g f t done rest a c)

Apart-snoc :
    (done : List Field) (f : Field) (fs : List Field)
    → All (λ e. text_eq f.name e.name ≡ false) fs
    → All (λ e. Apart e done) fs
    → All (λ e. Apart e (done ++ f ∷ [])) fs
Apart-snoc done f [] h b = tt
Apart-snoc done f (e ∷ fs) (h, hs) (b, bs) = (
  All-append (λ d. text_eq d.name e.name ≡ false) done (f ∷ []) b (h, tt),
  Apart-snoc done f fs hs bs,
)

starts_bare-tag :
    (P : ℕ → Type 0) (t : Text)
    → is_nil t ≡ false
    → All (λ c. Plain c × P c) t
    → starts_bare t ≡ true
starts_bare-tag P [] n h = absurd (ground (arith, n))
starts_bare-tag P (c ∷ t) n (((w, q), p), h) = ground (arith, w)

starts_bare-join :
    (t : Text) (ts : List Text) → starts_bare t ≡ true → starts_bare (join_words (t ∷ ts)) ≡ true
unfolding join_words
starts_bare-join t [] h = h
starts_bare-join t (u ∷ ts) h = starts_bare-append t (b' ' ∷ join_words (u ∷ ts)) h

All-second : (P Q : Text → Type 0) (ts : List Text) → All (λ t. P t × Q t) ts → All Q ts
All-second P Q [] h = tt
All-second P Q (t ∷ ts) ((p, q), h) = (q, All-second P Q ts h)

Apart-query :
    (f : Field) (fs : List Field)
    → All (λ e. text_eq f.name e.name ≡ false) fs
    → All (λ e. Apart e (f ∷ [])) fs
Apart-query f [] h = tt
Apart-query f (e ∷ fs) (h, hs) = ((h, tt), Apart-query f fs hs)

module _ (g : Library) (prints : PrintsIntegers g) where
  tagged-IsEnded : (f : Field) (t : Text) → IsEnded t → IsEnded (f.tag ++ b':' ∷ t)
  tagged-IsEnded f t h = IsEnded-append f.tag (b':' ∷ t) (IsEnded-append (b':' ∷ []) t h)

  quoted-IsEnded : (t : Text) → IsEnded (quoted t)
  unfolding is_space
  quoted-IsEnded t = IsEnded-append (b'"' ∷ t) (b'"' ∷ []) (IsEnded-one b'"' refl)

  fields_none :
      (f : Field) (fs : List Field)
      → is_nil f.tag ≡ false
      → serialize_value g f.value ≡ none
      → serialize_fields g true (f ∷ fs) ≡ serialize_fields g true fs
  unfolding serialize_fields
  fields_none f fs n e = ground (arith, n, e)

  fields_some :
      (f : Field) (fs : List Field) (t : Text)
      → is_nil f.tag ≡ false
      → serialize_value g f.value ≡ some t
      → serialize_fields g true (f ∷ fs) ≡ (f.tag ++ b':' ∷ t) ∷ serialize_fields g true fs
  unfolding serialize_fields
  fields_some f fs t n e = ground (arith, n, e)

  -- What is scanned: the cleared fields take their values again, one after the other.
  scan-fields :
      (done fs : List Field)
      → All (IsFindable g) fs
      → AllApart fs
      → All (λ f. Apart f done) fs
      → scan g (start_scan (done ++ map cleared fs)) (ended (serialize_fields g true fs))
        ≡ start_scan (done ++ fs)
  unfolding scan ended serialize_fields
  scan-fields done [] ok apart before = refl
  scan-fields done (f ∷ fs) (h, ok) (here, apart) (b, before) =
      let rest = ended (serialize_fields g true fs) in
      let later : scan g (start_scan ((done ++ f ∷ []) ++ map cleared fs)) rest
          ≡ start_scan ((done ++ f ∷ []) ++ fs) =
        scan-fields (done ++ f ∷ []) fs ok apart (Apart-snoc done f fs here before) in
      let again : scan g (start_scan (done ++ f ∷ map cleared fs)) rest
          ≡ start_scan (done ++ f ∷ fs) =
        ap (λ l. scan g (start_scan l) rest) (sym (append_assoc done (f ∷ []) (map cleared fs)))
        ∙ later
        ∙ ap start_scan (append_assoc done (f ∷ []) fs) in
      let before_f = start_scan (done ++ cleared f ∷ map cleared fs) in
      let sets = λ (t : Text) (back : convert g (zero_of f.value) t ≡ (f.value, none)).
        ap (λ n. set_field g n t (done ++ cleared f ∷ map cleared fs)) h.named
        ∙ set_field-behind g f t done (map cleared fs) b back in
      elim (Shown-value g prints f.value h.survives) [
        | left_out none_there same ↦
            ap (λ l. scan g before_f (ended l)) (fields_none f fs h.tagged none_there)
            ∙ ap (λ v. scan g (start_scan (done ++ record f { value = v } ∷ map cleared fs)) rest)
                same
            ∙ again
        | bare t there back plain full ↦
            let (w, space, e) = ended_cons (f.tag ++ b':' ∷ t) (serialize_fields g true fs) in
            ap (λ l. scan g before_f (ended l)) (fields_some f fs t h.tagged there)
            ∙ ap (scan g before_f) e
            ∙ ap (scan g before_f) (append_assoc f.tag (b':' ∷ t) (w ∷ rest))
            ∙ scan-bare g _ _ f.tag t w space h.tag-lower (sets t back) rest plain
            ∙ again
        | in_quotes t there back plain ↦
            let (w, space, e) =
              ended_cons (f.tag ++ b':' ∷ quoted t) (serialize_fields g true fs) in
            ap (λ l. scan g before_f (ended l)) (fields_some f fs (quoted t) h.tagged there)
            ∙ ap (scan g before_f) e
            ∙ ap (scan g before_f) (append_assoc f.tag (b':' ∷ quoted t) (w ∷ rest))
            ∙ ap (λ r. scan g before_f (f.tag ++ b':' ∷ (b'"' ∷ r)))
                (append_assoc t (b'"' ∷ []) (w ∷ rest))
            ∙ scan-in_quotes g _ _ f.tag t w space h.tag-lower (sets t back) rest plain
            ∙ again
      ]

  -- An element of a query is trimmed as it is.
  abbrev IsElement : Text → Type 0
  IsElement t = (starts_bare t ≡ true) × IsEnded t

  tagged-IsElement :
      (f : Field) (t : Text) → IsFindable g f → IsEnded t → IsElement (f.tag ++ b':' ∷ t)
  tagged-IsElement f t h e = (
    starts_bare-append f.tag (b':' ∷ t) (starts_bare-tag _ f.tag h.tagged h.tag-lower),
    tagged-IsEnded f t e,
  )

  serialize_fields-IsElement :
      (fs : List Field) → All (IsFindable g) fs → All IsElement (serialize_fields g true fs)
  unfolding serialize_fields
  serialize_fields-IsElement [] ok = tt
  serialize_fields-IsElement (f ∷ fs) (h, ok) =
      let rest = serialize_fields-IsElement fs ok in
      elim (Shown-value g prints f.value h.survives) [
        | left_out none_there same ↦
            subst (All IsElement) (sym (fields_none f fs h.tagged none_there)) rest
        | bare t there back plain full ↦
            subst (All IsElement) (sym (fields_some f fs t h.tagged there))
              (tagged-IsElement f t h (IsEnded-Plain t full plain), rest)
        | in_quotes t there back plain ↦
            subst (All IsElement) (sym (fields_some f fs (quoted t) h.tagged there))
              (tagged-IsElement f (quoted t) h (quoted-IsEnded t), rest)
      ]

  -- The loop over the trimmed query and the line end behind it.
  scan-query :
      (s : Scanner) (l : List Text)
      → s.is_key_value ≡ false
      → s.key ≡ []
      → s.escaped ≡ false
      → s.value ≡ []
      → All IsElement l
      → scan g s (trim_space (join_words l) ++ 10 ∷ []) ≡ scan g s (ended l)
  unfolding join_words ended trim_space trim_left trim_right scan scan_char end_token is_space
  scan-query s [] kv key esc value all = ground (arith, kv, key, esc, value)
  scan-query s (t ∷ ts) kv key esc value ((start, end), all) =
      let whole = IsEnded-join t ts (end, All-second _ _ ts all) in
      ap (λ q. scan g s (q ++ 10 ∷ []))
        (trim_space_tight (join_words (t ∷ ts)) (starts_bare-join t ts start) whole)
      ∙ ap (scan g s) (ended-join t ts)

abbrev pub query_field : Text → Field
query_field q = record { name = codes "Query"; tag = codes "q"; info = []; value = string_value q }

serialize-empty_query :
    (g : Library) (fs : Form)
    → serialize g true (query_field [] ∷ fs) ≡ join_words (serialize_fields g true fs)
unfolding serialize serialize_fields serialize_value trim_space trim_left trim_right text_eq
serialize-empty_query g fs = refl

-- A search form with an empty query is serialized with all its fields; when the result is parsed as the query of
-- a form with no other values, the first form comes back, and there is no error. This takes fields with
-- different names that their tags lead to, and values that a query carries: integers in the range of
-- `int`, truth values, and trimmed texts with no colon, no quote and no white space but blanks.
pub parse_query_string-serialize :
    (g : Library) (fs : List Field)
    → PrintsIntegers g
    → All (IsFindable g) fs
    → AllApart (query_field [] ∷ fs)
    → parse_query_string g (query_field (serialize g true (query_field [] ∷ fs)) ∷ map cleared fs)
      ≡ (query_field [] ∷ fs, none)
unfolding parse_query_string get_query set_query text_eq
parse_query_string-serialize g fs prints ok (apart, rest) =
    let l = serialize_fields g true fs in
    let start = start_scan (query_field [] ∷ map cleared fs) in
    let scanned : scan g start (trim_space (join_words l) ++ 10 ∷ [])
        ≡ start_scan (query_field [] ∷ fs) =
      scan-query g prints start l refl refl refl refl (serialize_fields-IsElement g prints fs ok)
      ∙ scan-fields g prints (query_field [] ∷ []) fs ok rest
          (Apart-query (query_field []) fs apart) in
    ap (λ q. parse_query_string g (query_field q ∷ map cleared fs)) (serialize-empty_query g fs)
    ∙ ap (λ s. (if is_nil s.words then s.form else set_query (join_words s.words) s.form, s.error))
        scanned
