-- ===== src/Session/Refined.antt =====
-- internal/session: the store is a table of tokens with their data and their ends, also over restarts.
use photoprism.Prelude.{
  ℕ, ◌+◌, ◌≤◌, ◌≡◌, refl, sym, ap, ◌∙◌, Bool, true, List, [], ◌∷◌, All, Text, text_eq, leb,
  if◌then◌else◌, Option, none, some, Option-cases, Bool-cases, inl, inr, arith,
}
use mathlib.Core.Option.{map}
use mathlib.Core.Path.{subst}
use photoprism.Session.{
  Cache, CacheLaws, Json, JsonLaws, Session, written, new_session, save_sessions, create_session,
  delete_session, get_session,
}

-- What happens to a store: a login, a logout, or a restart of the program.
pub data Event (V : Type 0) : Type 0 where
  login : Text → V → Event V
  logout : Text → Event V
  restart : Event V

-- The table: what a token stands for, and until when.
abbrev pub Table : Type 0 → Type 0
Table V = Text → Option (V × ℕ)

-- An entry whose data went through the file.
abbrev pub reloaded : {V : Type 0} → (V → V) → Option (V × ℕ) → Option (V × ℕ)
reloaded through none = none
reloaded through (some (v, end)) = some (through v, end)

unfoldable pub table_step : {V : Type 0} → (V → V) → ℕ → ℕ → Event V → Table V → Table V
table_step through expiration now (login n v) m =
    λ k. if text_eq n k then some (v, now + expiration) else m k
table_step through expiration now (logout n) m = λ k. if text_eq n k then none else m k
table_step through expiration now restart m = λ k. reloaded through (m k)

-- What the table says at a time.
abbrev pub valid : {V : Type 0} → ℕ → Option (V × ℕ) → Option V
valid t none = none
valid t (some (v, end)) = if leb t end then some v else none

module _ {S V I B : Type 0} (c : Cache S V I) (j : Json I B) where
  -- With a file that can be written.
  unfoldable pub session_step : ℕ → Event V → Session S B → Session S B
  unfolding create_session delete_session new_session
  session_step now (login n v) s = create_session c j now written n v s
  session_step now (logout n) s = delete_session c j now written n s
  session_step now restart s = new_session c j s.has_file s.file

  -- Events at times that do not fall, from the earliest on.
  unfoldable pub sessions : List (ℕ × Event V) → Session S B → Session S B
  unfolding session_step
  sessions [] s = s
  sessions ((now, e) ∷ es) s = sessions es (session_step now e s)

unfoldable pub table : {V : Type 0} → (V → V) → ℕ → List (ℕ × Event V) → Table V → Table V
unfolding table_step
table through expiration [] m = m
table through expiration ((now, e) ∷ es) m =
    table through expiration es (table_step through expiration now e m)

-- No event is before the time or before an earlier one, and the last one is no later than the end.
abbrev pub InOrder : {V : Type 0} → ℕ → List (ℕ × Event V) → ℕ → Type 0
InOrder now [] end = now ≤ end
InOrder now ((t, e) ∷ es) end = (now ≤ t) × InOrder t es end

-- The data of a login can be encoded.
abbrev pub Marshals : {V : Type 0} → (V → Bool) → Event V → Type 0
Marshals marshals (login n v) = marshals v ≡ true
Marshals marshals (logout n) = Unit
Marshals marshals restart = Unit

valid-reloaded :
    {V : Type 0} (through : V → V) (t : ℕ) (o : Option (V × ℕ))
    → valid t (reloaded through o) ≡ map through (valid t o)
valid-reloaded through t none = refl
valid-reloaded through t (some (v, end)) = ground arith

map-reloaded :
    {V : Type 0} (through : V → V) (t : ℕ) (o : Option (V × ℕ))
    → ((v : V) → through (through v) ≡ through v)
    → map through (valid t (reloaded through o)) ≡ map through (valid t o)
map-reloaded through t none again = refl
map-reloaded through t (some (v, end)) again = ground (arith, again v)

module _ {S V I B : Type 0} (c : Cache S V I) (j : Json I B) (expiration : ℕ) (marshals : V → Bool)
    (through : V → V) (laws : CacheLaws c expiration) (json : JsonLaws c j marshals through) where
  -- Every entry of the table can be encoded.
  abbrev Encodable : Table V → Type 0
  Encodable m = (k : Text) (v : V) (end : ℕ) → m k ≡ some (v, end) → marshals v ≡ true

  -- The cache says from a time on what the table says, and so does the file, but for the data.
  record Refines (now : ℕ) (s : Session S B) (m : Table V) : Type 0 where
    has_file : s.has_file ≡ true
    encodable : Encodable m
    cached : (t : ℕ) (k : Text) → now ≤ t → c.get t k s.cache ≡ valid t (m k)
    filed :
        (b : B) × (i : I) × (s.file ≡ some b)
        × (j.decode b ≡ some i)
        × ((t : ℕ) (k : Text) → now ≤ t → c.get t k (c.from_items i) ≡ map through (valid t (m k)))

  valid-Encodable :
      (m : Table V) (t : ℕ) (k : Text) (v : V)
      → Encodable m
      → valid t (m k) ≡ some v
      → marshals v ≡ true
  valid-Encodable m t k v good e = elim (Option-cases (m k)) [
    | inl h ↦ absurd (ground (arith, rw h at e))
    | inr ((w, end), h) ↦
        let same : w ≡ v = ground (arith, rw h at e) in
        subst (λ x. marshals x ≡ true) same (good k w end h)
  ]

  saved :
      (now : ℕ) (s : Session S B) (m : Table V)
      → s.has_file ≡ true
      → Encodable m
      → ((t : ℕ) (k : Text) → now ≤ t → c.get t k s.cache ≡ valid t (m k))
      → Refines now (save_sessions c j now written s).0 m
  unfolding save_sessions
  saved now s m has_file good cached =
      let (b, e) =
        json.encodes now s.cache
          (λ k v h. valid-Encodable m now k v good (sym (cached now k (omega arith)) ∙ h)) in
      let (i, d, same) = json.decodes now s.cache b e in
      let out : (save_sessions c j now written s).0
          ≡ record { has_file = true; cache = s.cache; file = some b } =
        ground (arith, has_file, e) in
      subst (λ x. Refines now x m) (sym out)
        (record {
          has_file = refl;
          encodable = good;
          cached = cached;
          filed = (
            b,
            i,
            refl,
            d,
            λ t k later.
                same t k later
                ∙ ap (map through) (laws.get-from_items now t k s.cache later ∙ cached t k later),
          );
        })

  reloaded-Encodable : (m : Table V) → Encodable m → Encodable (λ k. reloaded through (m k))
  reloaded-Encodable m good k v end h = elim (Option-cases (m k)) [
    | inl e ↦ absurd (ground (arith, rw e at h))
    | inr ((w, last), e) ↦
        let same : through w ≡ v = ground (arith, rw e at h) in
        subst (λ x. marshals x ≡ true) same (json.marshals-through w (good k w last e))
  ]

  restarted :
      (before now : ℕ) (s : Session S B) (m : Table V)
      → Refines before s m
      → before ≤ now
      → Refines now (new_session c j s.has_file s.file) (λ k. reloaded through (m k))
  unfolding new_session
  restarted before now s m r up =
      let (b, i, e, d, says) = r.filed in
      let out : new_session c j s.has_file s.file
          ≡ record { has_file = true; cache = c.from_items i; file = some b } =
        ground (arith, r.has_file, e, d) in
      subst (λ x. Refines now x (λ k. reloaded through (m k))) (sym out)
        (record {
          has_file = refl;
          encodable = reloaded-Encodable m r.encodable;
          cached = λ t k later.
              says t k (omega (arith, up, later)) ∙ sym (valid-reloaded through t (m k));
          filed = (
            b,
            i,
            refl,
            d,
            λ t k later.
                says t k (omega (arith, up, later))
                ∙ sym (map-reloaded through t (m k) json.through-through),
          );
        })

  login-Encodable :
      (now : ℕ) (n : Text) (v : V) (m : Table V)
      → marshals v ≡ true
      → Encodable m
      → Encodable (table_step through expiration now (login n v) m)
  unfolding table_step
  login-Encodable now n v m p good k w end h = elim (Bool-cases (text_eq n k)) [
    | inl same ↦
        let data_same : v ≡ w = ground (arith, same, h) in
        subst (λ x. marshals x ≡ true) data_same p
    | inr other ↦ good k w end (ground (arith, other, h))
  ]

  logout-Encodable :
      (now : ℕ) (n : Text) (m : Table V)
      → Encodable m
      → Encodable (table_step through expiration now (logout n) m)
  unfolding table_step
  logout-Encodable now n m good k w end h = good k w end (ground (arith, h))

  step-Refines :
      (before now : ℕ) (e : Event V) (s : Session S B) (m : Table V)
      → before ≤ now
      → Marshals marshals e
      → Refines before s m
      → Refines now (session_step c j now e s) (table_step through expiration now e m)
  unfolding session_step create_session delete_session table_step
  step-Refines before now (login n v) s m up p r =
      saved now (record s { cache = c.set now n v s.cache }) _ r.has_file
        (login-Encodable now n v m p r.encodable)
        (λ t k later.
          ground (arith, laws.get-set now t k n v s.cache, r.cached t k (omega (arith, up, later))))
  step-Refines before now (logout n) s m up p r =
      saved now (record s { cache = c.delete n s.cache }) _ r.has_file
        (logout-Encodable now n m r.encodable)
        (λ t k later.
          ground (arith, laws.get-delete t k n s.cache, r.cached t k (omega (arith, up, later))))
  step-Refines before now restart s m up p r = restarted before now s m r up

  sessions-Refines :
      (es : List (ℕ × Event V)) (before end : ℕ) (s : Session S B) (m : Table V)
      → InOrder before es end
      → All (λ e. Marshals marshals e.1) es
      → Refines before s m
      → (k : Text)
      → c.get end k (sessions c j es s).cache ≡ valid end (table through expiration es m k)
  unfolding sessions table
  sessions-Refines [] before end s m up p r k = r.cached end k up
  sessions-Refines ((now, e) ∷ es) before end s m (up, order) (p, ps) r k =
      sessions-Refines es now end (session_step c j now e s) (table_step through expiration now e m)
        order ps (step-Refines before now e s m up p r) k

  -- In a new store with a file, where every write succeeds, and after a first login any logins, logouts and restarts
  -- at times that do not fall, where the data of every login can be encoded in JSON: a token is found
  -- exactly while the table has it, from its last login until that expires or it is logged out, and
  -- with the data of that login, in the types of JSON if there was a restart since. This takes a
  -- cache and a JSON package that keep their promises.
  pub sessions-refine :
      (now : ℕ) (n : Text) (v : V) (es : List (ℕ × Event V)) (end : ℕ)
      → marshals v ≡ true
      → All (λ e. Marshals marshals e.1) es
      → InOrder now es end
      → (k : Text)
      → let begun = create_session c j now written n v (new_session c j true none) in
        get_session c j end k (sessions c j es begun)
        ≡ valid end (table through expiration ((now, login n v) ∷ es) (λ k. none) k)
  unfolding create_session new_session table table_step
  sessions-refine now n v es end p ps order k =
      sessions-Refines es now end (create_session c j now written n v (new_session c j true none))
        (table_step through expiration now (login n v) (λ k. none)) order ps
        (saved now (record { has_file = true; cache = c.set now n v c.empty; file = none })
          (table_step through expiration now (login n v) (λ k. none)) refl
          (login-Encodable now n v (λ k. none) p (λ k w e h. absurd (ground (arith, h))))
          (λ t k later. ground (arith, laws.get-set now t k n v c.empty, laws.get-empty t k)))
        k
