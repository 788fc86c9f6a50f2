-- ===== src/Library/Import/Safe.antt =====
-- internal/photoprism/import.go and import_worker.go: what an import leaves alone.
use photoprism.Prelude.{
  All, true, ℕ, zero, suc, ◌≡◌, refl, Bool, false, ◌||◌, ◌&&◌, List, [], ◌∷◌, any, Text, text_eq,
  text_eq_iff, none, some, arith, ◌⊎◌, inl, inr, Bool-cases, Option-cases, length,
}
use mathlib.Core.Path.{subst}
use photoprism.Library.Import.{
  Disk, read, file_exists, delete, write, CopyOutcome, not_opened, broken, copied, System, hash_of,
  Target, candidate, free_name, file_extension, indexed_name, destination_filename, copy_file,
  remove_file, move_file, ImportOptions, import_file, import_files, remove_hidden, start_import,
}
use photoprism.Library.Walk.{WalkState, ImportJob, is_done}
use photoprism.Library.Import.Fresh.{read-delete}

-- A file keeps its content.
abbrev Keeps : Text → Disk → Disk → Type 0
Keeps p d e = (c : ℕ) → read p d ≡ some c → read p e ≡ some c

delete-Keeps : (f p : Text) (d : Disk) → text_eq f p ≡ false → Keeps p d (delete f d)
delete-Keeps f p d h c e = ground (arith, h, e, read-delete f p d)

-- A file is written under a name that was free.
write-Keeps : (n p : Text) (b : ℕ) (d : Disk) → file_exists n d ≡ false → Keeps p d (write n b d)
unfolding read
write-Keeps n p b d h c e = elim (Bool-cases (text_eq n p)) [
  | inl same ↦
      let n_is_p : n ≡ p = (text_eq_iff n p).0 same in
      absurd (ground (arith, subst (λ m. file_exists m d ≡ false) n_is_p h, e))
  | inr other ↦ ground (arith, other, e, read-delete n p d)
]

-- The options let the import remove the files that it is given.
abbrev pub removes_files : ImportOptions → Bool
removes_files o = o.move || o.remove_existing_files

copy_cases : (o : CopyOutcome) → (o ≡ not_opened) ⊎ ((b : ℕ) × (o ≡ broken b)) ⊎ (o ≡ copied)
copy_cases not_opened = inl refl
copy_cases (broken b) = inr (inl (b, refl))
copy_cases copied = inr (inr refl)

module _ (y : System) where
  copy_file-Keeps :
      (d : Disk) (f dest p : Text) → file_exists dest d ≡ false → Keeps p d (copy_file y d f dest).0
  unfolding copy_file
  copy_file-Keeps d f dest p h = elim (Option-cases (read f d)) [
    | inl e ↦ λ c k. ground (arith, e, k)
    | inr (b, e) ↦ elim (copy_cases (y.copies d f dest)) [
      | inl o ↦ λ c k. ground (arith, e, o, k)
      | inr (inl (part, o)) ↦ λ c k. ground (arith, e, o, write-Keeps dest p part d h c k)
      | inr (inr o) ↦ λ c k. ground (arith, e, o, write-Keeps dest p b d h c k)
    ]
  ]

  remove_file-Keeps :
      (d : Disk) (f p : Text) → text_eq f p ≡ false → Keeps p d (remove_file y d f).0
  unfolding remove_file
  remove_file-Keeps d f p h c k = ground (arith, delete-Keeps f p d h c k, k)

  move_file-Keeps :
      (d : Disk) (f dest p : Text)
      → file_exists dest d ≡ false
      → text_eq f p ≡ false
      → Keeps p d (move_file y d f dest).0
  unfolding move_file
  move_file-Keeps d f dest p h ne = elim (Option-cases (read f d)) [
    | inl e ↦ λ c k. ground (arith, e, k)
    | inr (b, e) ↦ λ c k.
        let still : file_exists dest (delete f d) ≡ false =
          ground (arith, h, read-delete f dest d) in
        let renamed = write-Keeps dest p b (delete f d) still c (delete-Keeps f p d ne c k) in
        let copied_there = copy_file-Keeps d f dest p h c k in
        ground (
          arith,
          e,
          renamed,
          copied_there,
          remove_file-Keeps (copy_file y d f dest).0 f p ne c copied_there,
        )
  ]

  free_name-free :
      (g : Target) (d : Disk) (ext hash : Text) (fuel i : ℕ) (dest : Text)
      → free_name y g d ext hash i fuel ≡ some (dest, none)
      → file_exists dest d ≡ false
  unfolding free_name
  free_name-free g d ext hash zero i dest h = absurd (ground (arith, h))
  free_name-free g d ext hash (suc fuel) i dest h =
      let n = candidate y g ext i in
      elim (Bool-cases (file_exists n d)) [
        | inr gone ↦
            let same : n ≡ dest = ground (arith, gone, h) in
            subst (λ m. file_exists m d ≡ false) same gone
        | inl there ↦ elim (Bool-cases (text_eq hash (hash_of y d n))) [
          | inl s ↦ absurd (ground (arith, there, s, h))
          | inr s ↦ free_name-free g d ext hash fuel (suc i) dest (ground (arith, there, s, h))
        ]
      ]

  destination_filename-free :
      (g : Target) (d : Disk) (f : Text) (fuel : ℕ) (dest : Text)
      → destination_filename y g d f fuel ≡ some (dest, none)
      → file_exists dest d ≡ false
  unfolding destination_filename
  destination_filename-free g d f fuel dest h = elim (Option-cases (indexed_name y g d f)) [
    | inl e ↦
        free_name-free g d (file_extension y f) (hash_of y d f) fuel 0 dest (ground (arith, e, h))
    | inr (n, e) ↦ elim (Bool-cases (file_exists n d)) [
      | inl there ↦ absurd (ground (arith, e, there, h))
      | inr gone ↦
          let same : n ≡ dest = ground (arith, e, gone, h) in
          subst (λ m. file_exists m d ≡ false) same gone
    ]
  ]

  import_file-Keeps :
      (o : ImportOptions) (g : Target) (d : Disk) (f p : Text)
      → (removes_files o && text_eq f p) ≡ false
      → Keeps p d (import_file y o g d f)
  unfolding import_file
  import_file-Keeps o g d f p h =
      elim (Option-cases (destination_filename y g d f (suc (length d)))) [
        | inl e ↦ λ c k. ground (arith, e, k)
        | inr ((dest, error), e) ↦ elim (Option-cases error) [
          | inl n ↦
              let found : destination_filename y g d f (suc (length d)) ≡ some (dest, none) =
                ground (arith, e, n) in
              let free = destination_filename-free g d f (suc (length d)) dest found in
              elim (Bool-cases o.move) [
                | inl m ↦ λ c k.
                    ground
                      (arith, found, m, move_file-Keeps d f dest p free (ground (arith, h, m)) c k)
                | inr m ↦ λ c k. ground (arith, found, m, copy_file-Keeps d f dest p free c k)
              ]
          | inr (x, n) ↦
              let found : destination_filename y g d f (suc (length d)) ≡ some (dest, some x) =
                ground (arith, e, n) in
              elim (Bool-cases o.remove_existing_files) [
                | inl m ↦ λ c k.
                    ground (arith, found, m, remove_file-Keeps d f p (ground (arith, h, m)) c k)
                | inr m ↦ λ c k. ground (arith, found, m, k)
              ]
        ]
      ]

-- The file is handed to a worker.
abbrev pub is_handed : Text → List ImportJob → Bool
is_handed p jobs = any (λ (j : ImportJob). is_done p j.related) jobs

-- The steps of the workers are over files of the jobs.
abbrev pub FromJobs : List ImportJob → List (Target × Text) → Type 0
FromJobs jobs = All (λ step. is_handed step.1 jobs ≡ true)

module _ (y : System) (o : ImportOptions) where
  import_files-Keeps :
      (jobs : List ImportJob) (d : Disk) (steps : List (Target × Text)) (p : Text) (c : ℕ)
      → FromJobs jobs steps
      → (removes_files o && is_handed p jobs) ≡ false
      → read p d ≡ some c
      → read p (import_files y o d steps) ≡ some c
  unfolding import_files
  import_files-Keeps jobs d [] p c from h k = k
  import_files-Keeps jobs d ((g, f) ∷ steps) p c (from, rest) h k =
      import_files-Keeps jobs (import_file y o g d f) steps p c rest h
        (import_file-Keeps y o g d f p (spared from h) c k)
    where
      spared :
          is_handed f jobs ≡ true
          → (removes_files o && is_handed p jobs) ≡ false
          → (removes_files o && text_eq f p) ≡ false
      spared a b = elim (Bool-cases (text_eq f p)) [
        | inl same ↦
            let handed : is_handed p jobs ≡ true =
              subst (λ q. is_handed q jobs ≡ true) ((text_eq_iff f p).0 same) a in
            ground (arith, b, handed)
        | inr other ↦ ground (arith, other)
      ]

module _ (y : System) where
  remove_hidden-Keeps :
      (fs : List Text) (d : Disk) (p : Text) (c : ℕ)
      → is_done p fs ≡ false
      → read p d ≡ some c
      → read p (remove_hidden y d fs) ≡ some c
  unfolding remove_hidden
  remove_hidden-Keeps [] d p c h k = k
  remove_hidden-Keeps (f ∷ fs) d p c h k = ground (
    arith,
    h,
    remove_hidden-Keeps fs d p c (ground (arith, h)) k,
    remove_hidden-Keeps fs (remove_file y d f).0 p c (ground (arith, h))
        (remove_file-Keeps y d f p (ground (arith, h)) c k),
  )

-- What an import moves, copies and removes leaves every other file on the disk, in the originals and elsewhere, with its
-- content: a file has it afterwards unless it is handed to a worker in a job of the walk and
-- the options move or remove such files, or it is one of the hidden files that the walk met and the options
-- remove those. So it is whatever the operating system and the index answer, and in whatever order
-- the workers come to the files of the jobs. What is written when the destinations are
-- converted and indexed is not part of this.
pub start_import-Keeps :
    (y : System) (o : ImportOptions) (w : WalkState) (steps : List (Target × Text)) (d : Disk)
    (p : Text) (c : ℕ)
    → FromJobs w.jobs steps
    → (removes_files o && is_handed p w.jobs) ≡ false
    → (o.remove_dot_files && is_done p w.seen.ignore_list.hidden_files) ≡ false
    → read p d ≡ some c
    → read p (start_import y o w steps d) ≡ some c
unfolding start_import
start_import-Keeps y o w steps d p c from handed hidden k =
    let imported = import_files-Keeps y o w.jobs d steps p c from handed k in
    elim (Bool-cases o.remove_dot_files) [
      | inl e ↦
          simp (e, start_import)
            (remove_hidden-Keeps y w.seen.ignore_list.hidden_files (import_files y o d steps) p c
              (ground (arith, hidden, e)) imported)
      | inr e ↦ simp (e, start_import) imported
    ]
