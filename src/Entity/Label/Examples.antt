-- ===== src/Entity/Label/Examples.antt =====
-- A database of labels that numbers its rows and refuses nothing, for tests.
use photoprism.Prelude.{◌+◌, true, length, some}
use photoprism.Txt.Unicode.{ascii, lower}
use photoprism.Entity.Label.{LabelDatabase}

abbrev pub database : LabelDatabase
database = record {
  unicode = ascii;
  slug = lower ascii;
  create = λ s m. some (record m { id = length s.labels + 1 });
  saves = λ s m. true;
  joins = λ s a b. true;
  creates_link = λ s m. true;
  updates_link = λ s m. true;
}
