-- ===== src/Fs/Ignore/Stays.antt =====
-- pkg/fs/ignore.go: calls that follow one another on the same list.
use photoprism.Prelude.{
  ◌≡◌, refl, Bool, true, List, [], ◌∷◌, ◌++◌, any, Text, text_eq, if◌then◌else◌, arith, Bool-cases,
  Option-cases, inl, inr, ◌⊎◌, ap, ◌∙◌, sym,
}
use mathlib.Core.Path.{subst}
use photoprism.Fs.Ignore.{
  Disk, IgnoreItem, IgnoreList, item_ignore, append_items, items_of, load_config, load_dir, ignore,
}

-- A call of a method.
pub data Call : Type 0 where
  appending : Text → List Text → Call
  loading : Text → Call
  entering : Text → Call
  asking : Text → Call

abbrev pub call : Disk → IgnoreList → Call → IgnoreList
call d l (appending dir patterns) = (append_items d l dir patterns).0
call d l (loading file_name) = (load_config d l file_name).0
call d l (entering dir) = (load_dir d l dir).0
call d l (asking file_name) = (ignore d l file_name).0

abbrev pub call_all : Disk → IgnoreList → List Call → IgnoreList
call_all d l [] = l
call_all d l (c ∷ cs) = call_all d (call d l c) cs

-- The settings stay and items are only added.
record Grows (l k : IgnoreList) : Type 0 where
  added : (more : List IgnoreItem) × (k.items ≡ l.items ++ more)
  same_file : k.config_file ≡ l.config_file
  same_hidden : k.ignore_hidden ≡ l.ignore_hidden
  same_case : k.case_sensitive ≡ l.case_sensitive

append_nil : {A : Type 0} (l : List A) → l ≡ l ++ []
append_nil [] = refl
append_nil (x ∷ l) = ap (◌∷◌ x) (append_nil l)

append_assoc : {A : Type 0} (k l m : List A) → (k ++ l) ++ m ≡ k ++ (l ++ m)
append_assoc [] l m = refl
append_assoc (x ∷ k) l m = ap (◌∷◌ x) (append_assoc k l m)

Grows-same :
    (l k : IgnoreList)
    → k.items ≡ l.items
    → k.config_file ≡ l.config_file
    → k.ignore_hidden ≡ l.ignore_hidden
    → k.case_sensitive ≡ l.case_sensitive
    → Grows l k
Grows-same l k e f h c = record {
  added = ([], e ∙ append_nil l.items);
  same_file = f;
  same_hidden = h;
  same_case = c;
}

Grows-refl : (l : IgnoreList) → Grows l l
Grows-refl l = Grows-same l l refl refl refl refl

Grows-trans : (l k j : IgnoreList) → Grows l k → Grows k j → Grows l j
Grows-trans l k j g h =
    let (more, e) = g.added in
    let (most, f) = h.added in
    record {
      added = (more ++ most, f ∙ (ap (λ i. i ++ most) e ∙ append_assoc l.items more most));
      same_file = h.same_file ∙ g.same_file;
      same_hidden = h.same_hidden ∙ g.same_hidden;
      same_case = h.same_case ∙ g.same_case;
    }

append_items-Grows :
    (d : Disk) (l : IgnoreList) (dir : Text) (ps : List Text) → Grows l (append_items d l dir ps).0
unfolding append_items
append_items-Grows d l dir ps = elim (Bool-cases (text_eq dir [])) [
  | inl e ↦ rw (e, append_items) (Grows-refl l)
  | inr e ↦
      rw (e, append_items)
        (record {
          added = (items_of d l.case_sensitive dir ps, refl);
          same_file = refl;
          same_hidden = refl;
          same_case = refl;
        })
]

load_config-Grows : (d : Disk) (l : IgnoreList) (n : Text) → Grows l (load_config d l n).0
unfolding load_config
load_config-Grows d l n = elim (Option-cases (d.read_lines n)) [
  | inl e ↦ rw (e, load_config) (Grows-refl l)
  | inr (lines, e) ↦
      let k : IgnoreList = record l { config_files = l.config_files ++ (n, lines) ∷ [] } in
      rw (e, load_config)
        (Grows-trans l k _ (Grows-same l k refl refl refl refl)
          (append_items-Grows d k (d.dir n) lines))
]

load_dir_cases :
    (d : Disk) (l : IgnoreList) (dir : Text)
    → ((load_dir d l dir).0 ≡ l)
      ⊎ ((load_dir d l dir).0 ≡ (load_config d l (d.join dir l.config_file)).0)
unfolding load_dir
load_dir_cases d l dir = ground arith

ignore_cases :
    (d : Disk) (l : IgnoreList) (n : Text)
    → ((ignore d l n).0 ≡ (load_config d l n).0)
      ⊎ (((ignore d l n).0.items ≡ l.items)
          × ((ignore d l n).0.config_file ≡ l.config_file)
          × ((ignore d l n).0.ignore_hidden ≡ l.ignore_hidden)
          × ((ignore d l n).0.case_sensitive ≡ l.case_sensitive))
unfolding ignore
ignore_cases d l n = ground arith

call-Grows : (d : Disk) (l : IgnoreList) (c : Call) → Grows l (call d l c)
call-Grows d l (appending dir ps) = append_items-Grows d l dir ps
call-Grows d l (loading n) = load_config-Grows d l n
call-Grows d l (entering dir) = elim (load_dir_cases d l dir) [
  | inl e ↦ subst (Grows l) (sym e) (Grows-refl l)
  | inr e ↦ subst (Grows l) (sym e) (load_config-Grows d l (d.join dir l.config_file))
]
call-Grows d l (asking n) = elim (ignore_cases d l n) [
  | inl e ↦ subst (Grows l) (sym e) (load_config-Grows d l n)
  | inr (i, f, h, c) ↦ Grows-same l (ignore d l n).0 i f h c
]

call_all-Grows : (d : Disk) (l : IgnoreList) (cs : List Call) → Grows l (call_all d l cs)
call_all-Grows d l [] = Grows-refl l
call_all-Grows d l (c ∷ cs) =
    Grows-trans l (call d l c) _ (call-Grows d l c) (call_all-Grows d (call d l c) cs)

any_append : {A : Type 0} (p : A → Bool) (k l : List A) → any p k ≡ true → any p (k ++ l) ≡ true
any_append p [] l h = absurd (ground arith)
any_append p (x ∷ k) l h = ground (arith, any_append p k l)

ignore-Grows :
    (d : Disk) (l k : IgnoreList) (n : Text)
    → Grows l k
    → (ignore d l n).1 ≡ true
    → (ignore d k n).1 ≡ true
unfolding ignore
ignore-Grows d l k n g h =
    let (more, e) = g.added in
    ground (
      arith,
      e,
      g.same_file,
      g.same_hidden,
      g.same_case,
      any_append
          (λ i.
            item_ignore i (if l.case_sensitive then d.dir n else d.to_lower (d.dir n))
              (if l.case_sensitive then d.base n else d.to_lower (d.base n)))
          l.items more,
    )

-- A file that the list ignores is ignored after any further calls too, whatever patterns and ignore files
-- they add, on the same disk.
pub ignore-call_all :
    (d : Disk) (l : IgnoreList) (n : Text) (cs : List Call)
    → (ignore d l n).1 ≡ true
    → (ignore d (call_all d l cs) n).1 ≡ true
ignore-call_all d l n cs h = ignore-Grows d l (call_all d l cs) n (call_all-Grows d l cs) h
