-- ===== src/Library/Walk/Once.antt =====
-- internal/photoprism/import.go: how often a file comes up in the jobs of a walk.
use photoprism.Prelude.{
  ℕ, ◌+◌, ◌≤◌, ◌≡◌, refl, ap, Bool, true, false, not, ◌||◌, ◌&&◌, List, [], ◌∷◌, ◌++◌, Text,
  text_eq, text_eq_iff, if◌then◌else◌, arith, inl, inr, Bool-cases, Option-cases,
}
use photoprism.Fs.Ignore
use photoprism.Fs.Ignore.{ignore}
use photoprism.Library.Walk.{
  is_done, Links, Entry, Seen, follow, skip_walk, ImportJob, new_files, WalkState, Visit,
  visit_entry, walk,
}

-- How often a file is in a list, and in the jobs.
unfoldable pub times : Text → List Text → ℕ
times n [] = 0
times n (f ∷ fs) = (if text_eq f n then 1 else 0) + times n fs

unfoldable pub job_times : Text → List ImportJob → ℕ
unfolding times
job_times n [] = 0
job_times n (j ∷ js) = times n j.related + job_times n js

job_times-append :
    (n : Text) (js ks : List ImportJob) → job_times n (js ++ ks) ≡ job_times n js + job_times n ks
unfolding job_times
job_times-append n [] ks = omega arith
job_times-append n (j ∷ js) ks = omega (arith, job_times-append n js ks)

is_done-same :
    (f n : Text) (done : List Text) → text_eq f n ≡ true → is_done f done ≡ is_done n done
is_done-same f n done e = ap (λ m. is_done m done) ((text_eq_iff f n).0 e)

-- The new files are those of the list that were not done, each once, and all of the list are done then.
new_files-times :
    (n : Text) (fs done : List Text)
    → times n (new_files fs done).0 ≡ (if is_done n fs && not (is_done n done) then 1 else 0)
unfolding new_files times
new_files-times n [] done = refl
new_files-times n (f ∷ fs) done = elim (Bool-cases (text_eq f n)) [
  | inl e ↦ ground (
    arith,
    e,
    is_done-same f n done e,
    new_files-times n fs done,
    new_files-times n fs (f ∷ done),
  )
  | inr e ↦ ground (arith, e, new_files-times n fs done, new_files-times n fs (f ∷ done))
]

new_files-done :
    (n : Text) (fs done : List Text)
    → is_done n (new_files fs done).1 ≡ (is_done n fs || is_done n done)
unfolding new_files
new_files-done n [] done = refl
new_files-done n (f ∷ fs) done = elim (Bool-cases (text_eq f n)) [
  | inl e ↦
      ground (
        arith,
        e,
        is_done-same f n done e,
        new_files-done n fs done,
        new_files-done n fs (f ∷ done),
      )
  | inr e ↦ ground (arith, e, new_files-done n fs done, new_files-done n fs (f ∷ done))
]

-- What is done stays done.
follow-done :
    (k : Links) (done : List Text) (name : Text) (ignored was_done : Bool) (n : Text)
    → is_done n done ≡ true
    → is_done n (follow k done name ignored was_done).0 ≡ true
unfolding follow
follow-done k done name ignored was_done n h = ground arith

skip_walk-done :
    (disk : Ignore.Disk) (k : Links) (s : Seen) (e : Entry) (n : Text)
    → is_done n s.done ≡ true
    → is_done n (skip_walk disk k s e).0.done ≡ true
unfolding skip_walk
skip_walk-done disk k s e n h =
    let was_done = is_done e.name s.done in
    let ignored = (ignore disk s.ignore_list e.name).1 in
    ground (arith, follow-done k s.done e.name ignored was_done n h)

-- Every file of a job is done, and is in the jobs once.
abbrev pub Once : WalkState → Type 0
Once s = (n : Text) → job_times n s.jobs ≤ (if is_done n s.seen.done then 1 else 0)

visit_entry-Once :
    (disk : Ignore.Disk) (k : Links) (import_path : Text) (s : WalkState) (v : Visit)
    → Once s
    → Once (visit_entry disk k import_path s v).0
unfolding visit_entry job_times
visit_entry-Once disk k import_path s v h n = elim (Bool-cases v.canceled) [
  | inl c ↦ ground (arith, c, h n)
  | inr c ↦
      let (seen, skip, dir) = skip_walk disk k s.seen v.entry in
      let grows : is_done n s.seen.done ≡ true → is_done n seen.done ≡ true =
        skip_walk-done disk k s.seen v.entry n in
      elim (Bool-cases skip) [
        | inl e ↦ ground (arith, c, e, h n, grows)
        | inr e ↦ elim (Option-cases v.media) [
          | inl m ↦ ground (arith, c, e, m, h n, grows)
          | inr (related, m) ↦
              let (files, done) = new_files related seen.done in
              ground (
                arith,
                c,
                e,
                m,
                h n,
                grows,
                new_files-times n related seen.done,
                new_files-done n related seen.done,
                job_times-append n s.jobs
                    (record { file_name = v.entry.name; related = files } ∷ []),
              )
        ]
      ]
]

walk_invariant :
    (disk : Ignore.Disk) (k : Links) (import_path : Text) (s : WalkState) (vs : List Visit)
    → Once s
    → Once (walk disk k import_path s vs)
unfolding walk
walk_invariant disk k import_path s [] h = h
walk_invariant disk k import_path s (v ∷ vs) h =
    let (t, goes_on) = visit_entry disk k import_path s v in
    let next = visit_entry-Once disk k import_path s v h in
    elim (Bool-cases goes_on) [
      | inl e ↦ rw e (walk_invariant disk k import_path t vs next)
      | inr e ↦ rw e next
    ]

-- The start of a walk, with what may be done already.
abbrev pub at_start : Seen → WalkState
at_start seen = record { seen = seen; directories = []; jobs = [] }

-- An import hands no file to a worker twice: whatever a walk meets, in whatever order,
-- with links, cancellations and ignored files, every file is at most once in the related files of its
-- jobs, and then it is done at the end.
pub walk-Once :
    (disk : Ignore.Disk) (k : Links) (import_path : Text) (seen : Seen) (vs : List Visit) (n : Text)
    → let s = walk disk k import_path (at_start seen) vs in
      (job_times n s.jobs ≤ 1) × (is_done n s.seen.done ≡ false → job_times n s.jobs ≡ 0)
unfolding job_times
walk-Once disk k import_path seen vs n =
    let bound = walk_invariant disk k import_path (at_start seen) vs start n in
    (ground (arith, bound), λ e. ground (arith, bound, e))
  where
    start : Once (at_start seen)
    start m = omega arith
