-- ===== src/Session/Tests.antt =====
-- A cache as a list whose file forgets the types of numbers, and a store over it with two logins, a
-- restart and a logout.
use mathlib.Core.Option.{map}
use photoprism.Prelude.{
  ℕ, ◌+◌, ◌≡◌, refl, Bool, true, List, [], ◌∷◌, Text, codes, text_eq, text_eq_iff, leb,
  if◌then◌else◌, Option, none, some, arith,
}
use mathlib.Core.Path.{subst}
use photoprism.Session.{
  Cache, CacheLaws, Json, JsonLaws, Session, written, new_session, save_sessions, create_session,
  delete_session, get_session,
}
use photoprism.Session.Refined.{
  Event, login, logout, restart, valid, table, table_step, session_step, sessions, sessions-refine,
}

-- The numbers that are stored, as the program writes them and as they are decoded.
data Number : Type 0 where
  int : ℕ → Number
  float64 : ℕ → Number

abbrev as_float : Number → Number
as_float (int n) = float64 n
as_float (float64 n) = float64 n

abbrev digits : Number → ℕ
digits (int n) = n
digits (float64 n) = n

abbrev Rows : Type 0
Rows = List (Text × Number × ℕ)

abbrev Content : Type 0
Content = List (Text × ℕ × ℕ)

look : ℕ → Text → Rows → Option Number
look t k [] = none
look t k ((n, v, end) ∷ rows) =
    if text_eq n k then (if leb t end then some v else none) else look t k rows

drop_key : Text → Rows → Rows
drop_key k [] = []
drop_key k ((n, v, end) ∷ rows) =
    let rest = drop_key k rows in if text_eq n k then rest else (n, v, end) ∷ rest

encode_rows : Rows → Content
encode_rows [] = []
encode_rows ((n, v, end) ∷ rows) = (n, digits v, end) ∷ encode_rows rows

decode_rows : Content → Rows
decode_rows [] = []
decode_rows ((n, d, end) ∷ rows) = (n, float64 d, end) ∷ decode_rows rows

abbrev cache : Cache Rows Number Rows
cache = record {
  empty = [];
  from_items = λ i. i;
  set = λ now k v s. (k, v, now + 10) ∷ s;
  delete = drop_key;
  get = look;
  items = λ t s. s;
}

abbrev json : Json Rows Content
json = record { encode = λ i. some (encode_rows i); decode = λ b. some (decode_rows b) }

look-drop_key :
    (t : ℕ) (k n : Text) (s : Rows)
    → look t k (drop_key n s) ≡ (if text_eq n k then none else look t k s)
unfolding look drop_key
look-drop_key t k n [] = ground arith
look-drop_key t k n ((m, v, end) ∷ s) =
    ground (arith, look-drop_key t k n s, text_eq_iff m n, text_eq_iff m k, text_eq_iff n k)

digits_float : (v : Number) → float64 (digits v) ≡ as_float v
digits_float (int n) = refl
digits_float (float64 n) = refl

look-decode :
    (t : ℕ) (k : Text) (s : Rows)
    → look t k (decode_rows (encode_rows s)) ≡ map as_float (look t k s)
unfolding look encode_rows decode_rows
look-decode t k [] = refl
look-decode t k ((n, v, end) ∷ s) = ground (arith, look-decode t k s, digits_float v)

laws : CacheLaws cache 10
unfolding look
laws = record {
  get-empty = λ t k. refl;
  get-set = λ now t k n v s. refl;
  get-delete = look-drop_key;
  get-from_items = λ now t k s later. refl;
}

as_float-as_float : (v : Number) → as_float (as_float v) ≡ as_float v
as_float-as_float (int n) = refl
as_float-as_float (float64 n) = refl

abbrev any_number : Number → Bool
any_number v = true

json_laws : JsonLaws cache json any_number as_float
json_laws = record {
  encodes = λ now s all. (encode_rows s, refl);
  decodes = λ now s b e. (
    decode_rows b,
    refl,
    λ t k later.
        let same : encode_rows s ≡ b = ground (arith, e) in
        subst (λ x. look t k (decode_rows x) ≡ map as_float (look t k s)) same (look-decode t k s),
  );
  marshals-through = λ v p. refl;
  through-through = as_float-as_float;
}

abbrev events : List (ℕ × Event Number)
events = (3, login (codes "b") (int 8)) ∷ (4, restart) ∷ (5, logout (codes "b")) ∷ (6, restart) ∷ []

bundle : Unit {0}
unfolding look drop_key encode_rows decode_rows new_session save_sessions create_session
    delete_session session_step sessions table table_step text_eq
bundle = tt

abbrev begun : Session Rows Content
begun = create_session cache json 2 written (codes "a") (int 7) (new_session cache json true none)

logged_out_test : get_session cache json 7 (codes "b") (sessions cache json events begun) ≡ none
unfolding bundle
logged_out_test = refl

-- The number of the login is a float64 after a restart.
reloaded_test :
    get_session cache json 7 (codes "a") (sessions cache json events begun) ≡ some (float64 7)
unfolding bundle
reloaded_test = refl

sessions-refine_example :
    get_session cache json 7 (codes "a") (sessions cache json events begun)
    ≡ valid 7 (table as_float 10 ((2, login (codes "a") (int 7)) ∷ events) (λ k. none) (codes "a"))
sessions-refine_example =
    sessions-refine cache json 10 any_number as_float laws json_laws 2 (codes "a") (int 7) events 7
      refl (refl, (tt, (tt, (tt, tt))))
      (omega arith, (omega arith, (omega arith, (omega arith, omega arith)))) (codes "a")
