-- ===== src/Form/RoundTrip/Tests.antt =====
-- A search form with a title, a year, a distance and a flag, and the theorems at it.
use photoprism.Prelude.{
  ℕ, zero, suc, ◌==◌, if◌then◌else◌, ◌≡◌, refl, ap, Bool, true, false, not, ◌&&◌, ◌||◌, List, [],
  ◌∷◌, map, is_nil, Text, codes, text_eq, Option, none, some, All, arith,
}
use photoprism.Prelude.Int.{ℤ, pos, negsuc}
use photoprism.Txt.Unicode.{ascii, is_space}
use photoprism.Txt.Clip.{trim_space, trim_left, trim_right}
use photoprism.Form.Value.{int_value, uint_value, string_value, bool_value, Field, Form, Library}
use photoprism.Form.Serialize.{serialize_value, serialize, serialize_fields, join_words}
use photoprism.Form.Parse.{
  start_scan, unknown_filter, parse_query_string, convert, set_field, end_token, scan_char, scan,
  get_query, set_query,
}
use photoprism.Form.Value.{cleared}
use photoprism.Form.Parse.Scan.{Plain, Quotable}
use photoprism.Form.Errors.{is_error, IsRested, parse_query_string-fails}
use photoprism.Form.FreeText.{words_of, parse_query_string-words}
use photoprism.Form.Clean.{IsClean}
use photoprism.Form.RoundTrip.{
  PrintsIntegers, InRange, IsFindable, AllApart, query_field, parse_query_string-serialize,
}

-- Integers in unary: a sign, and as many digits.
ones : ℕ → Text
ones zero = []
ones (suc n) = b'1' ∷ ones n

abbrev itoa : ℤ → Text
itoa (pos n) = b'p' ∷ ones n
itoa (negsuc n) = b'm' ∷ ones n

count : Text → ℕ
count [] = 0
count (c ∷ t) = suc (count t)

abbrev atoi : Text → Option ℤ
atoi [] = none
atoi (c ∷ t) =
    if c == b'p' then some (pos (count t)) else if c == b'm' then some (negsuc (count t)) else none

abbrev capital : Text → Text
capital [] = []
capital (c ∷ t) = ascii.to_upper c ∷ t

abbrev library : Library
library = record {
  unicode = ascii;
  title = capital;
  atoi = atoi;
  itoa = itoa;
  parse_float = λ t. none;
  format_float = λ b. [];
  parse_any = λ t. none;
  format_date = λ t. [];
  format_time = λ t. [];
}

count-ones : (n : ℕ) → count (ones n) ≡ n
unfolding count ones
count-ones zero = refl
count-ones (suc n) = ap suc (count-ones n)

ones-Plain : (n : ℕ) → All Plain (ones n)
unfolding ones is_space
ones-Plain zero = tt
ones-Plain (suc n) = ((refl, (refl, refl)), ones-Plain n)

prints : PrintsIntegers library
unfolding is_space
prints = record { atoi-itoa = back; itoa-Plain = plain; itoa-there = there }
  where
    back : (z : ℤ) → InRange z → atoi (itoa z) ≡ some z
    back (pos n) r = ap (λ k. some (pos k)) (count-ones n)
    back (negsuc n) r = ap (λ k. some (negsuc k)) (count-ones n)

    plain : (z : ℤ) → All Plain (itoa z)
    plain (pos n) = ((refl, (refl, refl)), ones-Plain n)
    plain (negsuc n) = ((refl, (refl, refl)), ones-Plain n)

    there : (z : ℤ) → is_nil (itoa z) ≡ false
    there (pos n) = refl
    there (negsuc n) = refl

abbrev title_field : Field
title_field = record {
  name = codes "Title";
  tag = codes "title";
  info = [];
  value = string_value (codes "sea view");
}

abbrev month_field : Field
month_field = record {
  name = codes "Month";
  tag = codes "month";
  info = [];
  value = int_value (pos 7);
}

abbrev dist_field : Field
dist_field = record { name = codes "Dist"; tag = codes "dist"; info = []; value = uint_value 64 3 }

abbrev favorite_field : Field
favorite_field = record {
  name = codes "Favorite";
  tag = codes "favorite";
  info = [];
  value = bool_value true;
}

abbrev fields : List Field
fields = title_field ∷ month_field ∷ dist_field ∷ favorite_field ∷ []

serialize_test :
    serialize library true fields
    ≡ codes "title:\"sea view\" month:p1111111 dist:p111 favorite:true"
unfolding serialize serialize_fields serialize_value join_words ones trim_space trim_left trim_right
    is_space text_eq
serialize_test = refl

abbrev is_quotable : ℕ → Bool
is_quotable c = not (c == b':') && not (c == b'"')

-- Texts whose properties are computed.
are_lower : Text → Bool
are_lower [] = true
are_lower (c ∷ t) = not (is_space c) && is_quotable c && (ascii.to_lower c == c) && are_lower t

are_clean : Text → Bool
are_clean [] = true
are_clean (c ∷ t) = is_quotable c && (not (is_space c) || c == b' ') && are_clean t

are_lower_lem : (t : Text) → are_lower t ≡ true → All (λ c. Plain c × (ascii.to_lower c ≡ c)) t
unfolding are_lower
are_lower_lem [] h = tt
are_lower_lem (c ∷ t) h = (
  ((ground (arith, h), (ground (arith, h), ground (arith, h))), ground (arith, h)),
  are_lower_lem t (ground (arith, h)),
)

are_clean_lem : (t : Text) → are_clean t ≡ true → trim_space t ≡ t → IsClean t
unfolding are_clean
are_clean_lem t h e = record { trimmed = e; quotable = quotable t h; blanks = blanks t h }
  where
    quotable : (t : Text) → are_clean t ≡ true → All Quotable t
    quotable [] h = tt
    quotable (c ∷ t) h = ((ground (arith, h), ground (arith, h)), quotable t (ground (arith, h)))

    blanks : (t : Text) → are_clean t ≡ true → All (λ c. is_space c ≡ true → (c == b' ') ≡ true) t
    blanks [] h = tt
    blanks (c ∷ t) h = ((λ e. ground (arith, h, e)), blanks t (ground (arith, h)))

fields-IsFindable : All (IsFindable library) fields
unfolding are_lower are_clean is_space trim_space trim_left trim_right
fields-IsFindable = (
  record {
    named = refl;
    tagged = refl;
    tag-lower = are_lower_lem title_field.tag refl;
    survives = are_clean_lem (codes "sea view") refl refl;
  },
  (
    record {
      named = refl;
      tagged = refl;
      tag-lower = are_lower_lem month_field.tag refl;
      survives = omega arith;
    },
    (
      record {
        named = refl;
        tagged = refl;
        tag-lower = are_lower_lem dist_field.tag refl;
        survives = (omega arith, omega arith);
      },
      (
        record {
          named = refl;
          tagged = refl;
          tag-lower = are_lower_lem favorite_field.tag refl;
          survives = tt;
        },
        tt,
      ),
    ),
  ),
)

fields-AllApart : AllApart (query_field [] ∷ fields)
unfolding text_eq
fields-AllApart = (
  (refl, (refl, (refl, (refl, tt)))),
  ((refl, (refl, (refl, tt))), ((refl, (refl, tt)), ((refl, tt), (tt, tt)))),
)

parse_query_string-serialize_example :
    parse_query_string library
      (query_field (serialize library true (query_field [] ∷ fields)) ∷ map cleared fields)
    ≡ (query_field [] ∷ fields, none)
parse_query_string-serialize_example =
    parse_query_string-serialize library fields prints fields-IsFindable fields-AllApart

-- In lower case no ASCII character becomes white space.
ascii-Ink : (c : ℕ) → is_space c ≡ false → is_space (ascii.to_lower c) ≡ false
unfolding is_space
ascii-Ink c h = ground (arith, h)

abbrev words_search : Form
words_search = query_field (codes " Sea  View ") ∷ fields

words_test : (parse_query_string library words_search).0 ≡ query_field (codes "sea view") ∷ fields
unfolding parse_query_string scan scan_char end_token get_query set_query join_words trim_space
    trim_left trim_right is_space text_eq
words_test = refl

parse_query_string-words_example : parse_query_string library words_search ≡ (
  set_query (join_words (words_of library [] (trim_space (get_query words_search)))) words_search,
  none,
)
unfolding get_query trim_space trim_left trim_right is_space text_eq
parse_query_string-words_example = parse_query_string-words library words_search ascii-Ink (
  (refl, refl),
  (
    (refl, refl),
    (
      (refl, refl),
      (
        (refl, refl),
        ((refl, refl), ((refl, refl), ((refl, refl), ((refl, refl), ((refl, refl), tt))))),
      ),
    ),
  ),
)

-- The Go name "ID" is not what `strings.Title` makes of its tag.
abbrev id_search : Form
id_search =
    query_field (codes "id:p123") ∷ record title_field { name = codes "ID"; tag = codes "id" } ∷ []

bundle : Unit {0}
unfolding parse_query_string get_query set_query scan scan_char end_token set_field convert text_eq
    trim_space trim_left trim_right is_space join_words
bundle = tt

id_test : (parse_query_string library id_search).1 ≡ some (unknown_filter (codes "Id"))
unfolding bundle
id_test = refl

id-IsRested : IsRested (scan library (start_scan (set_query [] id_search)) [])
unfolding scan
id-IsRested = record { key = refl; value = refl; escaped = refl; is_key_value = refl }

parse_query_string-fails_example : is_error (parse_query_string library id_search).1 ≡ true
unfolding bundle are_lower
parse_query_string-fails_example =
    parse_query_string-fails library id_search [] (codes "id") (codes "p123") [] 10 refl refl
      (are_lower_lem (codes "id") refl)
      (
        (refl, (refl, refl)),
        ((refl, (refl, refl)), ((refl, (refl, refl)), ((refl, (refl, refl)), tt))),
      )
      id-IsRested refl
