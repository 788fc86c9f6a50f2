-- ===== src/Session.antt =====
-- internal/session: the store of sessions over the package go-cache, and its file in JSON.
pub mod Refined
mod Tests
use mathlib.Core.Option.{map}
use photoprism.Prelude.{
  ℕ, ◌+◌, ◌≤◌, ◌≡◌, Bool, true, false, List, [], ◌∷◌, Text, text_eq, leb, if◌then◌else◌, Option,
  none, some,
}

-- What the store takes of go-cache, with the default expiration in each: `Set` and `Get` at a time, `Delete`, `Items`,
-- `New` and `NewFrom`.
pub record Cache (S V I : Type 0) : Type 0 where
  pub empty : S
  pub from_items : I → S
  pub set : ℕ → Text → V → S → S
  pub delete : Text → S → S
  pub get : ℕ → Text → S → Option V
  pub items : ℕ → S → I

-- What its documentation promises: an item is found until it expires or is deleted, and the items at a time are all
-- that is found later.
pub record CacheLaws {S V I : Type 0} (c : Cache S V I) (expiration : ℕ) : Type 0 where
  pub get-empty : (t : ℕ) (k : Text) → c.get t k c.empty ≡ none
  pub get-set :
      (now t : ℕ) (k n : Text) (v : V) (s : S)
      → c.get t k (c.set now n v s)
        ≡ (if text_eq n k then (if leb t (now + expiration) then some v else none) else c.get t k s)
  pub get-delete :
      (t : ℕ) (k n : Text) (s : S)
      → c.get t k (c.delete n s) ≡ (if text_eq n k then none else c.get t k s)
  pub get-from_items :
      (now t : ℕ) (k : Text) (s : S)
      → now ≤ t
      → c.get t k (c.from_items (c.items now s)) ≡ c.get t k s

-- What it takes of encoding/json for the items: `MarshalIndent`, which can refuse them, and `Unmarshal`.
pub record Json (I B : Type 0) : Type 0 where
  pub encode : I → Option B
  pub decode : B → Option I

-- What its documentation promises: items are encoded when their data can be, which `marshals` says, and what is
-- encoded is decoded to items with the same ends, but with the data in the types that decoding chooses,
-- float64 for any number and a map for a struct, which is `through`; what was decoded does not
-- change again.
pub record JsonLaws {S V I B : Type 0} (c : Cache S V I) (j : Json I B) (marshals : V → Bool)
    (through : V → V) : Type 0 where
  pub encodes :
      (now : ℕ) (s : S)
      → ((k : Text) (v : V) → c.get now k s ≡ some v → marshals v ≡ true)
      → (b : B) × (j.encode (c.items now s) ≡ some b)
  pub decodes :
      (now : ℕ) (s : S) (b : B)
      → j.encode (c.items now s) ≡ some b
      → (i : I) × (j.decode b ≡ some i)
        × ((t : ℕ) (k : Text)
            → now ≤ t
            → c.get t k (c.from_items i) ≡ map through (c.get t k (c.from_items (c.items now s))))
  pub marshals-through : (v : V) → marshals v ≡ true → marshals (through v) ≡ true
  pub through-through : (v : V) → through (through v) ≡ through v

-- The store, with the content of its file; `has_file` says whether there is a path for it.
pub record Session (S B : Type 0) : Type 0 where
  pub has_file : Bool
  pub cache : S
  pub file : Option B

-- What `WriteFile` comes to: the file is not opened, some other content is left in it, or all is written.
pub data WriteOutcome (B : Type 0) : Type 0 where
  not_opened : WriteOutcome B
  broken : B → WriteOutcome B
  written : WriteOutcome B

module _ {S V I B : Type 0} (c : Cache S V I) (j : Json I B) where
  -- `New`, with what can be read from the file.
  unfoldable pub new_session : Bool → Option B → Session S B
  new_session has_file file = record {
    has_file = has_file;
    cache =
        if has_file
        then (elim file [
          | none ↦ c.empty
          | some content ↦ elim (j.decode content) [
            | none ↦ c.empty
            | some items ↦ c.from_items items
          ]
        ])
        else c.empty;
    file = file;
  }

  -- `Save`, with how the file is written: the store, and whether there is no error.
  unfoldable pub save_sessions : ℕ → WriteOutcome B → Session S B → Session S B × Bool
  save_sessions now outcome s =
      if s.has_file
      then (elim (j.encode (c.items now s.cache)) [
        | none ↦ (s, false)
        | some content ↦ elim outcome [
          | not_opened ↦ (s, false)
          | broken rest ↦ (record s { file = some rest }, false)
          | written ↦ (record s { file = some content }, true)
        ]
      ])
      else (s, true)

  -- `Create`, with the token that is drawn; an error of `Save` is logged only.
  unfoldable pub create_session : ℕ → WriteOutcome B → Text → V → Session S B → Session S B
  unfolding save_sessions
  create_session now outcome token content s =
      (save_sessions now outcome (record s { cache = c.set now token content s.cache })).0

  -- `Delete`, likewise.
  unfoldable pub delete_session : ℕ → WriteOutcome B → Text → Session S B → Session S B
  unfolding save_sessions
  delete_session now outcome token s =
      (save_sessions now outcome (record s { cache = c.delete token s.cache })).0

  abbrev pub get_session : ℕ → Text → Session S B → Option V
  get_session now token s = c.get now token s.cache

  -- `Exists`.
  abbrev pub session_exists : ℕ → Text → Session S B → Bool
  session_exists now token s = elim (get_session now token s) [ none ↦ false | some v ↦ true ]
