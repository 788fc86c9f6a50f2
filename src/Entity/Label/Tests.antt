-- ===== src/Entity/Label/Tests.antt =====
-- A photo with two labels, one of them removed, and the theorem at it.
use photoprism.Prelude.{◌≡◌, refl, [], ◌∷◌, codes}
use photoprism.Prelude.Int.{pos}
use photoprism.Txt.Unicode.{is_space}
use photoprism.Txt.Title.{title_case, is_separator}
use photoprism.Txt.Clip.{clip, trim_space, trim_left, trim_right}
use photoprism.Prelude.{text_eq}
use photoprism.Classify.{Label}
use photoprism.Entity.Label.{
  LabelStore, new_photo_label, add_labels, add_label, first_or_create_label, find_label, new_label,
  update_classify, classified, set_name, save_label, add_categories, link_label,
  first_or_create_photo_label, find_photo_label, update_photo_label,
}
use photoprism.Entity.Label.Examples.{database}
use photoprism.Entity.Label.Added.{AllImprove, add_labels-AllImprove}

abbrev cat : Label
cat = record {
  name = codes "cat";
  source = codes "image";
  uncertainty = pos 20;
  priority = pos 5;
  categories = codes "pet" ∷ [];
}

abbrev dog : Label
dog = record cat { name = codes "dog"; categories = [] }

abbrev at_start : LabelStore
at_start = record {
  labels =
      record (new_label database (codes "Cat") (pos 0)) { id = 1 }
      ∷ record (new_label database (codes "Dog") (pos 0)) { id = 2 }
      ∷ [];
  photo_labels =
      new_photo_label 9 1 (pos 50) (codes "image")
      ∷ new_photo_label 9 2 (pos 100) (codes "manual")
      ∷ [];
  categories = [];
  published = [];
}

bundle : Unit {0}
unfolding add_labels add_label first_or_create_label find_label new_label update_classify classified
    set_name save_label add_categories link_label first_or_create_photo_label find_photo_label
    update_photo_label title_case is_separator clip trim_space trim_left trim_right is_space text_eq
bundle = tt

add_labels_test :
    (add_labels database at_start 9 (cat ∷ dog ∷ [])).photo_labels
    ≡ new_photo_label 9 1 (pos 20) (codes "image")
      ∷ new_photo_label 9 2 (pos 100) (codes "manual")
      ∷ []
unfolding bundle
add_labels_test = refl

categories_test : (add_labels database at_start 9 (cat ∷ [])).categories ≡ (1, 3) ∷ []
unfolding bundle
categories_test = refl

add_labels-AllImprove_example :
    AllImprove 9 at_start.photo_labels
      (add_labels database at_start 9 (cat ∷ dog ∷ [])).photo_labels
add_labels-AllImprove_example = add_labels-AllImprove database at_start 9 (cat ∷ dog ∷ [])
