-- ===== src/Workers/SyncTable.antt =====
-- internal/entity/file_sync.go: the table `files_sync`, one row for each account and remote name.
use photoprism.Prelude.{
  ℕ, ◌≡◌, refl, Bool, true, ◌&&◌, List, [], ◌∷◌, ◌++◌, Text, text_eq, text_eq_iff, ◌==◌,
  if◌then◌else◌, Option, none, some, arith, ◌↔◌,
}
use photoprism.Clock.{Time}

pub data FileStatus : Type 0 where
  new ignored exists downloaded uploaded : FileStatus

pub record FileSync : Type 0 where
  pub remote_name : Text
  pub account_id : ℕ
  pub file_id : ℕ
  pub remote_date : Time
  pub remote_size : ℕ
  pub status : FileStatus
  pub error : Text
  pub errors : ℕ

abbrev pub new_file_sync : ℕ → Text → Time → ℕ → FileStatus → FileSync
new_file_sync account_id remote_name date size status = record {
  remote_name = remote_name;
  account_id = account_id;
  file_id = 0;
  remote_date = date;
  remote_size = size;
  status = status;
  error = [];
  errors = 0;
}

-- The primary key.
unfoldable pub has_key : ℕ → Text → FileSync → Bool
has_key id name f = f.account_id == id && text_eq f.remote_name name

-- `First` with the key.
unfoldable pub find_row : ℕ → Text → List FileSync → Option FileSync
unfolding has_key
find_row id name [] = none
find_row id name (f ∷ fs) = if has_key id name f then some f else find_row id name fs

-- `Updates` of the row with the key.
unfoldable pub update_row : ℕ → Text → (FileSync → FileSync) → List FileSync → List FileSync
unfolding has_key
update_row id name g [] = []
update_row id name g (f ∷ fs) = (if has_key id name f then g f else f) ∷ update_row id name g fs

-- `FirstOrCreateFileSync`: the existing row, or the new one, or none where the database refuses it.
unfoldable pub first_or_create : Bool → FileSync → List FileSync → List FileSync × Option FileSync
first_or_create accepted m table = elim (find_row m.account_id m.remote_name table) [
  | some f ↦ (table, some f)
  | none ↦ if accepted then (table ++ m ∷ [], some m) else (table, none)
]

pub has_key_iff :
    (id : ℕ) (name : Text) (f : FileSync)
    → (has_key id name f ≡ true) ↔ ((f.account_id ≡ id) × (f.remote_name ≡ name))
unfolding has_key
has_key_iff id name f = ground (arith, text_eq_iff f.remote_name name)

-- What a key finds in a longer table.
pub find_row-append :
    (id : ℕ) (name : Text) (fs gs : List FileSync)
    → find_row id name (fs ++ gs)
      ≡ (elim (find_row id name fs) [ none ↦ find_row id name gs | some f ↦ some f ])
unfolding find_row
find_row-append id name [] gs = refl
find_row-append id name (f ∷ fs) gs = ground (arith, find_row-append id name fs gs)

-- A change that keeps the key is found under its own key, and under no other.
pub find_row-update_row_self :
    (id : ℕ) (name : Text) (g : FileSync → FileSync) (fs : List FileSync)
    → ((f : FileSync) → has_key id name (g f) ≡ has_key id name f)
    → find_row id name (update_row id name g fs)
      ≡ (elim (find_row id name fs) [ none ↦ none | some f ↦ some (g f) ])
unfolding find_row update_row
find_row-update_row_self id name g [] k = refl
find_row-update_row_self id name g (f ∷ fs) k =
    ground (arith, k f, find_row-update_row_self id name g fs k)

pub find_row-update_row_ne :
    (id id' : ℕ) (name name' : Text) (g : FileSync → FileSync) (fs : List FileSync)
    → ((f : FileSync) → has_key id' name' (g f) ≡ has_key id' name' f)
    → ¬ ((id ≡ id') × (name ≡ name'))
    → find_row id' name' (update_row id name g fs) ≡ find_row id' name' fs
unfolding find_row update_row
find_row-update_row_ne id id' name name' g [] k ne = refl
find_row-update_row_ne id id' name name' g (f ∷ fs) k ne = ground (
  arith,
  k f,
  has_key_iff id name f,
  has_key_iff id' name' f,
  find_row-update_row_ne id id' name name' g fs k ne,
)
