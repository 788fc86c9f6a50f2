-- ===== src/Entity/Keyword/Indexed.antt =====
-- internal/entity/photo.go, `IndexKeywords`: the rows that join a photo and its words.
use photoprism.Prelude.{
  ℕ, ◌≡◌, refl, ◌∙◌, Bool, true, false, not, ◌||◌, ◌&&◌, List, [], ◌∷◌, ◌++◌, any, keep, is_nil,
  Text, text_eq_refl, ◌==◌, if◌then◌else◌, none, some, arith, ◌⊎◌, inl, inr, Bool-cases,
  Option-cases,
}
use mathlib.Core.Path.{subst}
use photoprism.Txt.Unicode.{Unicode}
use photoprism.Entity.Tables.{Tables}
use photoprism.Entity.Photo.{Photo, details_loaded}
use photoprism.Entity.Keyword.{
  Keyword, KeywordIndex, KeywordDatabase, new_keyword, find_keyword, first_or_create_keyword,
  is_joined, first_or_create_photo_keyword, index_word, index_words, photo_words, is_left,
  index_keywords,
}

-- A database that refuses nothing, and inserts a keyword as it is.
pub record IsReliable (d : KeywordDatabase) : Type 0 where
  pub create :
      (rows : List Keyword) (w : Text)
      → (k : Keyword) × (d.create rows w ≡ some k) × (k.keyword ≡ w)
  pub joins : (s : KeywordIndex) (p k : ℕ) → d.joins s p k ≡ true
  pub deletes : (s : KeywordIndex) → d.deletes s ≡ true

-- The keyword of the word is in the table, is not to be skipped, and has the id.
abbrev pub stands_for : Unicode → List Keyword → ℕ → Text → Bool
stands_for u rows id w = elim (find_keyword (new_keyword u w) rows) [
  | none ↦ false
  | some k ↦ not k.skip && k.id == id
]

any-append :
    {A : Type 0} (p : A → Bool) (xs ys : List A) → any p (xs ++ ys) ≡ (any p xs || any p ys)
any-append p [] ys = refl
any-append p (x ∷ xs) ys = ground (arith, any-append p xs ys)

find_keyword-append :
    (w : Text) (rows more : List Keyword) (k : Keyword)
    → find_keyword w rows ≡ some k
    → find_keyword w (rows ++ more) ≡ some k
unfolding find_keyword
find_keyword-append w [] more k h = absurd (ground (arith, h))
find_keyword-append w (r ∷ rows) more k h = ground (arith, h, find_keyword-append w rows more k)

find_keyword-new :
    (w : Text) (rows : List Keyword) (k : Keyword)
    → find_keyword w rows ≡ none
    → k.keyword ≡ w
    → find_keyword w (rows ++ k ∷ []) ≡ some k
unfolding find_keyword
find_keyword-new w [] k h e = ground (arith, text_eq_refl w, e)
find_keyword-new w (r ∷ rows) k h e = ground (arith, h, find_keyword-new w rows k, e)

is_joined-keep :
    (f : ℕ × ℕ → Bool) (q k : ℕ) (rows : List (ℕ × ℕ))
    → is_joined q k (keep f rows) ≡ (is_joined q k rows && f (q, k))
is_joined-keep f q k [] = refl
is_joined-keep f q k ((a, b) ∷ rows) = elim (Bool-cases (a == q && b == k)) [
  | inl e ↦
      let left : a ≡ q = ground (arith, e) in
      let right : b ≡ k = ground (arith, e) in
      let same : f (a, b) ≡ f (q, k) = rw left (rw right refl) in
      ground (arith, e, same, is_joined-keep f q k rows)
  | inr e ↦ ground (arith, e, is_joined-keep f q k rows)
]

module _ (d : KeywordDatabase) (reliable : IsReliable d) where
  -- The row of the keyword, and the table with it.
  record Found (w : Text) (rows : List Keyword) : Type 0 where
    row : Keyword
    result : (first_or_create_keyword d rows w).1 ≡ some row
    there : find_keyword w (first_or_create_keyword d rows w).0 ≡ some row
    longer :
        (v : Text) (k : Keyword)
        → find_keyword v rows ≡ some k
        → find_keyword v (first_or_create_keyword d rows w).0 ≡ some k

  first_or_create_keyword-Found : (w : Text) (rows : List Keyword) → Found w rows
  unfolding first_or_create_keyword
  first_or_create_keyword-Found w rows = elim (Option-cases (find_keyword w rows)) [
    | inl e ↦
        let (k, made, same) = reliable.create rows w in
        record {
          row = k;
          result = ground (arith, e, made);
          there = ground (arith, e, made, find_keyword-new w rows k e same);
          longer = λ v l h. ground (arith, e, made, find_keyword-append v rows (k ∷ []) l h);
        }
    | inr (k, e) ↦ record {
      row = k;
      result = ground (arith, e);
      there = ground (arith, e);
      longer = λ v l h. ground (arith, e, h);
    }
  ]

  first_or_create_photo_keyword-joined :
      (s : KeywordIndex) (p id q k : ℕ)
      → is_joined q k (first_or_create_photo_keyword d s p id).photo_keywords
        ≡ (is_joined q k s.photo_keywords || (q == p && id == k))
  unfolding first_or_create_photo_keyword
  first_or_create_photo_keyword-joined s p id q k =
      elim (Bool-cases (is_joined p id s.photo_keywords)) [
        | inl e ↦ elim (Bool-cases (q == p && id == k)) [
          | inl b ↦
              let person : q ≡ p = ground (arith, b) in
              let same : id ≡ k = ground (arith, b) in
              let here : is_joined q k s.photo_keywords ≡ true =
                rw person (subst (λ i. is_joined p i s.photo_keywords ≡ true) same e) in
              ground (arith, e, b, here)
          | inr b ↦ ground (arith, e, b)
        ]
        | inr e ↦ ground (
          arith,
          e,
          reliable.joins s p id,
          any-append (λ r. r.0 == q && r.1 == k) s.photo_keywords ((p, id) ∷ []),
        )
      ]

  first_or_create_photo_keyword-rows :
      (s : KeywordIndex) (p id : ℕ)
      → (first_or_create_photo_keyword d s p id).keyword_rows ≡ s.keyword_rows
  unfolding first_or_create_photo_keyword
  first_or_create_photo_keyword-rows s p id = ground arith

  module _ (u : Unicode) (p : ℕ) where
    record Step (s : KeywordIndex) (w : Text) (t : KeywordIndex) (ids : List ℕ) : Type 0 where
      row : Keyword
      there : find_keyword (new_keyword u w) t.keyword_rows ≡ some row
      longer :
          (v : Text) (k : Keyword)
          → find_keyword v s.keyword_rows ≡ some k
          → find_keyword v t.keyword_rows ≡ some k
      collected : (k : ℕ) → any (λ i. i == k) ids ≡ (not row.skip && row.id == k)
      joined :
          (q k : ℕ)
          → is_joined q k t.photo_keywords
            ≡ (is_joined q k s.photo_keywords || (q == p && not row.skip && row.id == k))

    index_word-Step :
        (s : KeywordIndex) (w : Text) → Step s w (index_word u d s p w).0 (index_word u d s p w).1
    unfolding index_word
    index_word-Step s w =
        let found = first_or_create_keyword-Found (new_keyword u w) s.keyword_rows in
        let t : KeywordIndex = record s {
          keyword_rows = (first_or_create_keyword d s.keyword_rows (new_keyword u w)).0;
        } in
        let rows = first_or_create_photo_keyword-rows t p found.row.id in
        elim (Bool-cases found.row.skip) [
          | inl e ↦ record {
            row = found.row;
            there = ground (arith, e, found.result, found.there);
            longer = λ v k h. ground (arith, e, found.result, found.longer v k h);
            collected = λ k. ground (arith, e, found.result);
            joined = λ q k. ground (arith, e, found.result);
          }
          | inr e ↦ record {
            row = found.row;
            there = ground (arith, e, found.result, found.there, rows);
            longer = λ v k h. ground (arith, e, found.result, found.longer v k h, rows);
            collected = λ k. ground (arith, e, found.result);
            joined = λ q k.
                ground (
                  arith,
                  e,
                  found.result,
                  first_or_create_photo_keyword-joined t p found.row.id q k,
                );
          }
        ]

    -- All words, in the table at the end.
    index_words-longer :
        (ws : List Text) (s : KeywordIndex) (v : Text) (k : Keyword)
        → find_keyword v s.keyword_rows ≡ some k
        → find_keyword v (index_words u d s p ws).0.keyword_rows ≡ some k
    unfolding index_words
    index_words-longer [] s v k h = h
    index_words-longer (w ∷ ws) s v k h =
        index_words-longer ws (index_word u d s p w).0 v k ((index_word-Step s w).longer v k h)

    index_words-collected :
        (ws : List Text) (s : KeywordIndex) (k : ℕ)
        → any (λ i. i == k) (index_words u d s p ws).1
          ≡ any (stands_for u (index_words u d s p ws).0.keyword_rows k) ws
    unfolding index_words
    index_words-collected [] s k = refl
    index_words-collected (w ∷ ws) s k =
        let (t, ids) = index_word u d s p w in
        let (r, more) = index_words u d t p ws in
        let step = index_word-Step s w in
        let found = index_words-longer ws t (new_keyword u w) step.row step.there in
        any-append (λ i. i == k) ids more
        ∙ ground (arith, step.collected k, index_words-collected ws t k, found)

    index_words-joined :
        (ws : List Text) (s : KeywordIndex) (q k : ℕ)
        → is_joined q k (index_words u d s p ws).0.photo_keywords ≡ (
            is_joined q k s.photo_keywords
            || (q == p && any (λ i. i == k) (index_words u d s p ws).1))
    unfolding index_words
    index_words-joined [] s q k = ground arith
    index_words-joined (w ∷ ws) s q k =
        let (t, ids) = index_word u d s p w in
        let (r, more) = index_words u d t p ws in
        let step = index_word-Step s w in
        ground (
          arith,
          any-append (λ i. i == k) ids more,
          step.collected k,
          step.joined q k,
          index_words-joined ws t q k,
        )

-- With a database that refuses nothing, a photo whose details are loaded is joined afterwards with exactly the
-- keywords of its words that are not to be skipped, and the keywords of other photos are as before.
-- Where the photo has no such word, this takes a database for which a value is not in an empty list.
pub index_keywords_lem :
    (t : Tables) (d : KeywordDatabase) (s : KeywordIndex) (m : Photo)
    → IsReliable d
    → details_loaded m ≡ true
    → (is_nil (index_words t.unicode d s m.id (photo_words t m)).1 ≡ false) ⊎ (d.not_in_none ≡ true)
    → (q k : ℕ)
    → ((index_keywords t d s m).1 ≡ true)
      × (is_joined q k (index_keywords t d s m).0.photo_keywords ≡ (
          if q == m.id
          then any
              (stands_for t.unicode (index_keywords t d s m).0.keyword_rows k)
              (photo_words t m)
          else is_joined q k s.photo_keywords))
unfolding index_keywords
index_keywords_lem t d s m reliable loaded some_word q k =
    let ws = photo_words t m in
    let (r, ids) = index_words t.unicode d s m.id ws in
    let accepted = reliable.deletes r in
    let collected = index_words-collected d reliable t.unicode m.id ws s k in
    let joined = index_words-joined d reliable t.unicode m.id ws s q k in
    let left = is_joined-keep (is_left d m.id ids) q k r.photo_keywords in
    let whole : (index_keywords t d s m).0
        ≡ record r { photo_keywords = keep (is_left d m.id ids) r.photo_keywords } =
      ground (arith, loaded, accepted) in
    let deleted : is_left d m.id ids (q, k) ≡ (not (q == m.id) || any (λ i. i == k) ids) =
      left_cases ids some_word in
    (ground (arith, loaded, accepted), rw whole (ground (arith, left, deleted, joined, collected)))
  where
    left_cases :
        (ids : List ℕ)
        → (is_nil ids ≡ false) ⊎ (d.not_in_none ≡ true)
        → is_left d m.id ids (q, k) ≡ (not (q == m.id) || any (λ i. i == k) ids)
    left_cases [] (inl h) = absurd (ground (arith, h))
    left_cases [] (inr h) = ground (arith, h)
    left_cases (i ∷ ids) h = ground arith
