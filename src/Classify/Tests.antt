-- ===== src/Classify/Tests.antt =====
-- Titles of small lists of labels, and the theorems at them.
use photoprism.Prelude.{◌≡◌, refl, [], ◌∷◌, ◌⊎◌, codes}
use photoprism.Prelude.Int.{pos, negsuc}
use photoprism.Sorting.Insertion.{insert, insertion_sort, insertion}
use photoprism.Classify.{Label, valid_fallback, title}
use photoprism.Classify.Title.{IsBest, title_lem}

abbrev cat : Label
cat = record {
  name = codes "cat";
  source = codes "image";
  uncertainty = pos 70;
  priority = pos 5;
  categories = [];
}

abbrev beach : Label
beach = record cat { name = codes "beach"; uncertainty = pos 20; priority = pos 1 }

abbrev shop : Label
shop = record cat { name = codes "shop"; uncertainty = pos 0; priority = negsuc 0 }

-- The cat comes first and is uncertain, so the beach gives the title.
title_test : (title insertion (beach ∷ shop ∷ cat ∷ []) []).0 ≡ codes "beach"
unfolding title insertion_sort insert
title_test = refl

fallback_test : (title insertion (shop ∷ []) (codes "Berlin 2020")).0 ≡ codes "shop"
unfolding title insertion_sort insert
fallback_test = refl

title_lem_example :
    ((title insertion (beach ∷ cat ∷ []) (codes "Berlin")).0 ≡ valid_fallback (codes "Berlin"))
    ⊎ ((c : Label) × ((title insertion (beach ∷ cat ∷ []) (codes "Berlin")).0 ≡ c.name)
        × IsBest c (beach ∷ cat ∷ []))
title_lem_example = title_lem insertion (beach ∷ cat ∷ []) (codes "Berlin")
