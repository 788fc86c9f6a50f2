-- ===== src/Classify/Order.antt =====
-- `Less` orders labels: certain ones before those of uncertainty 100, then by falling priority, then
-- by rising uncertainty.
use photoprism.Prelude.{◌≡◌, true, false, arith}
use photoprism.Sorting.{IsStrictWeak}
use photoprism.Classify.{Label, less}

less-asym : (x y : Label) → less x y ≡ true → less y x ≡ false
unfolding less
less-asym x y h = ground arith

less-trans_not : (x y z : Label) → less y x ≡ false → less z y ≡ false → less z x ≡ false
unfolding less
less-trans_not x y z h k = ground arith

-- `Less` is a strict weak order, which is what `sort.Sort` asks for.
pub less-IsStrictWeak : IsStrictWeak less
less-IsStrictWeak = record { asym = less-asym; trans_not = less-trans_not }
