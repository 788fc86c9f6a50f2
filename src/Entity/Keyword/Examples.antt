-- ===== src/Entity/Keyword/Examples.antt =====
-- A database of keywords that numbers its rows and refuses nothing, for tests.
use photoprism.Prelude.{◌+◌, refl, true, false, length, some}
use photoprism.Entity.Keyword.{KeywordDatabase}
use photoprism.Entity.Keyword.Indexed.{IsReliable}

abbrev pub database : KeywordDatabase
database = record {
  create = λ rows w. some (record { id = length rows + 1; keyword = w; skip = false });
  joins = λ s p k. true;
  deletes = λ s. true;
  not_in_none = false;
}

pub database-IsReliable : IsReliable database
database-IsReliable = record {
  create = λ rows w. (record { id = length rows + 1; keyword = w; skip = false }, refl, refl);
  joins = λ s p k. refl;
  deletes = λ s. refl;
}
