-- ===== src/Rnd/Digits.antt =====
-- pkg/rnd: how many digits a number has, and what they say.
use photoprism.Prelude.{ℕ, zero, suc, ◌+◌, ◌*◌, ◌/◌, ◌%◌, ◌≤◌, ◌<◌, ◌≡◌, ◌∷◌, Text, arith, length}
use photoprism.Rnd.{digit, digits}

pub length-digits-le : (fuel n : ℕ) (acc : Text) → length (digits fuel n acc) ≤ fuel + length acc
unfolding digits
length-digits-le zero n acc = omega arith
length-digits-le (suc fuel) n acc =
    ground (arith, length-digits-le fuel (n / 36) (digit (n % 36) ∷ acc))

length_acc-digits-le : (fuel n : ℕ) (acc : Text) → length acc ≤ length (digits fuel n acc)
unfolding digits
length_acc-digits-le zero n acc = omega arith
length_acc-digits-le (suc fuel) n acc =
    ground (arith, length_acc-digits-le fuel (n / 36) (digit (n % 36) ∷ acc))

abbrev pub power : ℕ → ℕ
power zero = 1
power (suc k) = 36 * power k

-- A number that is not below 36 to the power of `k` has more than `k` digits.
pub length-digits-gt :
    (k fuel n : ℕ) (acc : Text)
    → k < fuel
    → power k ≤ n
    → k + 1 + length acc ≤ length (digits fuel n acc)
unfolding digits
length-digits-gt k zero n acc h p = absurd (omega (arith, h))
length-digits-gt zero (suc fuel) n acc h p =
    ground (arith, length_acc-digits-le fuel (n / 36) (digit (n % 36) ∷ acc))
length-digits-gt (suc k) (suc fuel) n acc h p =
    let quotient : power k ≤ n / 36 = omega (arith, p) in
    let large : 36 ≤ n = omega (arith, p, positive k) in
    ground (
      arith,
      large,
      length-digits-gt k fuel (n / 36) (digit (n % 36) ∷ acc) (omega (arith, h)) quotient,
    )
  where
    positive : (k : ℕ) → 1 ≤ power k
    positive zero = omega arith
    positive (suc k) = omega (arith, positive k)

-- More fuel makes no difference where there is enough.
pub digits-enough :
    (a b n : ℕ) (acc : Text)
    → n < power (suc a)
    → a ≤ b
    → digits (suc a) n acc ≡ digits (suc b) n acc
unfolding digits
digits-enough zero b n acc h le = ground (arith, h)
digits-enough (suc a) zero n acc h le = absurd (omega (arith, le))
digits-enough (suc a) (suc b) n acc h le =
    let below : n / 36 < power (suc a) = omega (arith, h) in
    ground (arith, digits-enough a b (n / 36) (digit (n % 36) ∷ acc) below (omega (arith, le)))
