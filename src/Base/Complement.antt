-- ===== src/Base/Complement.antt =====
-- Complements to a power of two, cut to fewer bits.
use native.Mathlib.Nat.{mod-eq_of_lt, div-add-mod', mul-add-mod_self_right, mod-lt}
use mathlib.Core.Path.{◌≡◌, ap, ◌∙◌}
use Prim.Native.Nat.{ℕ, ◌+◌, ◌-◌, ◌*◌, ◌/◌, ◌%◌, ◌^◌, ◌<◌, ◌≤◌}
use native.Mathlib.Omega.{arith}
use native.Mathlib.Nat.{lt_of_mul-lt-mul_right}
use wembed.Base.Powers.{two_pow_split, two_pow_pos}

pub quotient_lt : (n q m : ℕ) → n < q * m → n / m < q
quotient_lt n q m h = lt_of_mul-lt-mul_right m (omega (arith, div-add-mod' n m))

pub complement-mod : (n q m : ℕ) → 0 < m → n < q * m → (q * m - 1 - n) % m ≡ m - 1 - n % m
complement-mod n q m p h = split ∙ mod-eq_of_lt (omega (arith, p))
  where
    quotients : (q - 1 - n / m) + n / m + 1 ≡ q
    quotients = omega (arith, quotient_lt n q m h)

    whole : (q - 1 - n / m) * m + n / m * m + m ≡ q * m
    whole = omega (arith, ap (λ (t : ℕ). t * m) quotients)

    parts : q * m - 1 - n ≡ (q - 1 - n / m) * m + (m - 1 - n % m)
    parts = omega (arith, whole, div-add-mod' n m, mod-lt n p)

    split : (q * m - 1 - n) % m ≡ (m - 1 - n % m) % m
    split = rw parts (mul-add-mod_self_right (q - 1 - n / m) m (m - 1 - n % m))

-- The complement to `2 ^ s` cut to `w` bits is the complement to `2 ^ w`.
pub two_pow_complement-mod :
    (n s w : ℕ) → w ≤ s → n < 2 ^ s → (2 ^ s - 1 - n) % 2 ^ w ≡ 2 ^ w - 1 - n % 2 ^ w
two_pow_complement-mod n s w h l =
    rw (two_pow_split w s h) (
      complement-mod n (2 ^ (s - w)) (2 ^ w) (two_pow_pos w)
        (omega (arith, two_pow_split w s h, l)))
