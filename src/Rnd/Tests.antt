-- ===== src/Rnd/Tests.antt =====
-- An identifier, and the theorem at it.
use photoprism.Prelude.{ℕ, ◌≡◌, refl, ◌==◌, [], ◌∷◌, Text, codes, some, length, arith}
use photoprism.Rnd.{digits, format_uint, pad_from, token, ppid, is_uid}
use photoprism.Rnd.Shape.{Base36, ppid-is_uid, format_uint-enough}

ppid_test : ppid 1_590_000_000 5 b'p' ≡ some (codes "pqan7uo5nopqrstu")
unfolding ppid token format_uint digits pad_from
ppid_test = refl

clock_test : format_uint 1_590_000_000 ≡ digits 20 1_590_000_000 []
clock_test = format_uint-enough 1_590_000_000 19 (omega arith) (omega arith)

ppid-is_uid_example :
    (s : Text) × (ppid 1_590_000_000 5 b'p' ≡ some (b'p' ∷ s))
    × (length s ≡ 15)
    × Base36 s
    × ((p : ℕ) → is_uid (b'p' ∷ s) p ≡ (b'p' == p))
ppid-is_uid_example = ppid-is_uid 1_590_000_000 5 b'p' (omega arith)
