-- ===== src/Library/Import/Fresh.antt =====
-- internal/photoprism/import.go: the destination of a file is free, or it is the same file.
use photoprism.Prelude.{
  ℕ, zero, suc, ◌+◌, ◌≡◌, ◌≢◌, ◌≤◌, ◌<◌, refl, sym, ap, true, false, [], ◌∷◌, ◌++◌, Text, text_eq,
  text_eq_iff, ◌==◌, if◌then◌else◌, Option, none, some, arith, ◌⊎◌, inl, inr, Bool-cases,
  Option-cases, length, length-append,
}
use mathlib.Core.Path.{subst}
use photoprism.Library.Import.{
  Disk, read, file_exists, delete, System, hash_of, ImportError, identical, already_exists, Target,
  join_path, candidate, free_name, file_extension, is_sidecar, indexed_name, destination_filename,
}

append_cancel_left : (s : Text) {t u : Text} → s ++ t ≡ s ++ u → t ≡ u
append_cancel_left [] h = h
append_cancel_left (c ∷ s) h = append_cancel_left s (ground (arith, h))

append_cancel_right : (s t u : Text) → s ++ u ≡ t ++ u → s ≡ t
append_cancel_right [] [] u h = refl
append_cancel_right [] (c ∷ t) u h = absurd (omega (arith, ap length h, length-append (c ∷ t) u))
append_cancel_right (c ∷ s) [] u h = absurd (omega (arith, ap length h, length-append (c ∷ s) u))
append_cancel_right (c ∷ s) (b ∷ t) u h =
    let rest : s ≡ t = append_cancel_right s t u (ground (arith, h)) in ground (arith, h, rest)

pub read-delete :
    (n m : Text) (d : Disk) → read m (delete n d) ≡ (if text_eq n m then none else read m d)
unfolding read delete
read-delete n m [] = ground arith
read-delete n m ((k, c) ∷ d) =
    ground (arith, read-delete n m d, text_eq_iff k n, text_eq_iff k m, text_eq_iff n m)

length-delete-le : (n : Text) (d : Disk) → length (delete n d) ≤ length d
unfolding delete
length-delete-le n [] = omega arith
length-delete-le n ((k, c) ∷ d) = ground (arith, length-delete-le n d)

length-delete-lt : (n : Text) (d : Disk) → file_exists n d ≡ true → length (delete n d) < length d
unfolding read delete
length-delete-lt n [] h = absurd (ground (arith, h))
length-delete-lt n ((k, c) ∷ d) h = ground (arith, h, length-delete-le n d, length-delete-lt n d)

-- What a destination is: free, or the file itself.
pub record Destination (y : System) (d : Disk) (hash : Text) (r : Text × Option ImportError)
    : Type 0 where
  pub free : r.1 ≡ none → file_exists r.0 d ≡ false
  pub taken : r.1 ≢ none → (file_exists r.0 d ≡ true) × (hash ≡ hash_of y d r.0)

-- `%05d` prints different numbers differently.
abbrev pub PadsApart : System → Type 0
PadsApart y = (i j : ℕ) → y.pad i ≡ y.pad j → i ≡ j

module _ (y : System) (g : Target) (ext : Text) (pads : PadsApart y) where
  behind :
      {s t : Text}
      → join_path g.folder (g.canonical ++ s) ≡ join_path g.folder (g.canonical ++ t)
      → s ≡ t
  behind e =
      append_cancel_left g.canonical
        (append_cancel_left (b'/' ∷ []) (append_cancel_left g.folder e))

  numbered : (p : Text) → ext ≢ b'.' ∷ (p ++ ext)
  numbered p e = omega (arith, ap length e, length-append p ext)

  candidate_injective : (i j : ℕ) → candidate y g ext i ≡ candidate y g ext j → i ≡ j
  unfolding candidate
  candidate_injective zero zero h = refl
  candidate_injective zero (suc j) h = absurd (numbered (y.pad (suc j)) (behind h))
  candidate_injective (suc i) zero h = absurd (numbered (y.pad (suc i)) (behind (sym h)))
  candidate_injective (suc i) (suc j) h = pads (suc i) (suc j) (
      append_cancel_right (y.pad (suc i)) (y.pad (suc j)) ext
        (append_cancel_left (b'.' ∷ []) (behind h)))

  -- Of more candidates than there are files, one is free.
  some_free :
      (fuel i : ℕ) (d : Disk)
      → length d < fuel
      → (j : ℕ) × (i ≤ j) × (j < i + fuel) × (file_exists (candidate y g ext j) d ≡ false)
  some_free zero i d h = absurd (omega (arith, h))
  some_free (suc fuel) i d h = elim (Bool-cases (file_exists (candidate y g ext i) d)) [
    | inr free ↦ (i, omega arith, omega arith, free)
    | inl taken ↦
        let n = candidate y g ext i in
        let (j, above, below, free) =
          some_free fuel (suc i) (delete n d) (omega (arith, h, length-delete-lt n d taken)) in
        let apart : text_eq n (candidate y g ext j) ≡ false = apart_at i j (omega (arith, above)) in
        (
          j,
          omega (arith, above),
          omega (arith, below),
          ground (arith, free, apart, read-delete n (candidate y g ext j) d),
        )
  ]
    where
      apart_at : (i j : ℕ) → i < j → text_eq (candidate y g ext i) (candidate y g ext j) ≡ false
      apart_at i j h = elim (Bool-cases (text_eq (candidate y g ext i) (candidate y g ext j))) [
        | inr e ↦ e
        | inl e ↦ absurd (
            omega (
              arith,
              h,
              candidate_injective i j
                  ((text_eq_iff (candidate y g ext i) (candidate y g ext j)).0 e),
            ))
      ]

  free_name-Destination :
      (fuel i j : ℕ) (d : Disk) (hash : Text)
      → i ≤ j
      → j < i + fuel
      → file_exists (candidate y g ext j) d ≡ false
      → (r : Text × Option ImportError) × (free_name y g d ext hash i fuel ≡ some r)
        × Destination y d hash r
  unfolding free_name
  free_name-Destination zero i j d hash above below free = absurd (omega (arith, above, below))
  free_name-Destination (suc fuel) i j d hash above below free =
      let n = candidate y g ext i in
      elim (Bool-cases (file_exists n d)) [
        | inr gone ↦ (
          (n, none),
          ground (arith, gone),
          record { free = λ e. gone; taken = λ e. absurd (e refl) },
        )
        | inl there ↦ elim (Bool-cases (text_eq hash (hash_of y d n))) [
          | inl same ↦ (
            (n, some already_exists),
            ground (arith, there, same),
            record {
              free = λ e. absurd (ground (arith, e));
              taken = λ e. (there, (text_eq_iff hash (hash_of y d n)).0 same);
            },
          )
          | inr other ↦
              let later : i < j = before i j above there free in
              let (r, e, is_r) =
                free_name-Destination fuel (suc i) j d hash (omega (arith, later))
                  (omega (arith, below)) free in
              (r, ground (arith, there, other, e), is_r)
        ]
      ]
    where
      before :
          (i j : ℕ)
          → i ≤ j
          → file_exists (candidate y g ext i) d ≡ true
          → file_exists (candidate y g ext j) d ≡ false
          → i < j
      before i j above there free = elim (Bool-cases (i == j)) [
        | inl e ↦
            let same : i ≡ j = ground (arith, e) in
            absurd (
              ground (
                arith,
                there,
                subst (λ k. file_exists (candidate y g ext k) d ≡ false) (sym same) free,
              ))
        | inr e ↦ ground (arith, e, above)
      ]

-- The index is right about the files on the disk: what it finds by a hash has that hash.
abbrev pub IsTrue : System → Target → Disk → Type 0
IsTrue y g d =
    (h n : Text)
    → y.first_file_by_hash h ≡ some n
    → file_exists (join_path g.originals n) d ≡ true
    → h ≡ hash_of y d (join_path g.originals n)

indexed_name-cases :
    (y : System) (g : Target) (d : Disk) (f : Text)
    → (indexed_name y g d f ≡ none)
      ⊎ ((n : Text) × (y.first_file_by_hash (hash_of y d f) ≡ some n)
          × (indexed_name y g d f ≡ some (join_path g.originals n)))
unfolding indexed_name
indexed_name-cases y g d f = elim (Bool-cases (is_sidecar y f)) [
  | inl s ↦ inl (ground (arith, s))
  | inr s ↦ elim (Option-cases (y.first_file_by_hash (hash_of y d f))) [
    | inl e ↦ inl (ground (arith, s, e))
    | inr (n, e) ↦ inr (n, e, ground (arith, s, e))
  ]
]

-- With fuel for one name more than there are files on the disk, the destination of a file is found. Where there is no
-- error, no file has its name, so that an import never overwrites one; where there is an error, a file
-- of this name is on the disk and has the hash of the file to import. This takes that different
-- numbers are printed differently, and that the index is right about the hashes of files on the disk.
pub destination_filename-Destination :
    (y : System) (g : Target) (d : Disk) (f : Text)
    → PadsApart y
    → IsTrue y g d
    → (r : Text × Option ImportError) × (destination_filename y g d f (suc (length d)) ≡ some r)
      × Destination y d (hash_of y d f) r
unfolding destination_filename
destination_filename-Destination y g d f pads right = elim (indexed_name-cases y g d f) [
  | inl e ↦
      let ext = file_extension y f in
      let (j, above, below, free) = some_free y g ext pads (suc (length d)) 0 d (omega arith) in
      let (r, out, is_r) =
        free_name-Destination y g ext pads (suc (length d)) 0 j d (hash_of y d f) above below
          free in
      (r, ground (arith, e, out), is_r)
  | inr (n, row, e) ↦
      let existing = join_path g.originals n in
      elim (Bool-cases (file_exists existing d)) [
        | inl there ↦ (
          (existing, some identical),
          ground (arith, e, there),
          record {
            free = λ k. absurd (ground (arith, k));
            taken = λ k. (there, right (hash_of y d f) n row there);
          },
        )
        | inr gone ↦ (
          (existing, none),
          ground (arith, e, gone),
          record { free = λ k. gone; taken = λ k. absurd (k refl) },
        )
      ]
]
