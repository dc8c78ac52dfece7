-- ===== src/Base/Powers.antt =====
-- Powers of two: sums of exponents, and what a cut to `w` bits leaves of a shifted number.
use Prim.Native.Nat.{ℕ, zero, suc, ◌+◌, ◌-◌, ◌*◌, ◌/◌, ◌%◌, ◌^◌, ◌≤◌, ◌<◌}
use mathlib.Core.Path.{◌≡◌, ap, ◌∙◌}
use native.Mathlib.Nat.{
  pow-suc, one-le-pow, add-zero, add-suc, div-add-mod', mod-eq_of_lt, mul-add-mod_self_right,
  pow-le-pow_right, mod-lt, mul-le-mul_right,
}
use native.Mathlib.Omega.{arith}

pub two_pow_pos : (k : ℕ) → 0 < 2 ^ k
two_pow_pos k = one-le-pow k 2 (omega arith)

pub two_pow_add : (s d : ℕ) → 2 ^ (s + d) ≡ 2 ^ s * 2 ^ d
two_pow_add s zero = rw add-zero (omega arith)
two_pow_add s (suc d) =
    rw add-suc
      (omega (arith, pow-suc 2 (s + d), two_pow_add s d, ap (λ (t : ℕ). 2 ^ s * t) (pow-suc 2 d)))

pub two_pow_split : (s w : ℕ) → s ≤ w → 2 ^ w ≡ 2 ^ (w - s) * 2 ^ s
two_pow_split s w h =
    ap (λ (t : ℕ). 2 ^ t) (let e : w ≡ (w - s) + s = omega arith in e) ∙ two_pow_add (w - s) s

pub two_pow_le : (a b : ℕ) → a ≤ b → 2 ^ a ≤ 2 ^ b
two_pow_le a b h = pow-le-pow_right (omega arith) h

pub shifted_lt : (x a m : ℕ) → x < m → 0 < a → x * a < m * a
shifted_lt x a m h p = grind arith

-- `(x << s) & (2^w - 1)` keeps the lowest `w - s` bits of `x`.
pub shift-mod : (x s d w : ℕ) → w ≡ d + s → x * 2 ^ s % 2 ^ w ≡ x % 2 ^ d * 2 ^ s
shift-mod x s d w e = rw (e, two_pow_add d s) (split ∙ small)
  where
    parts : x * 2 ^ s ≡ x / 2 ^ d * (2 ^ d * 2 ^ s) + x % 2 ^ d * 2 ^ s
    parts = omega (arith, ap (λ (t : ℕ). t * 2 ^ s) (div-add-mod' x (2 ^ d)))

    split : x * 2 ^ s % (2 ^ d * 2 ^ s) ≡ x % 2 ^ d * 2 ^ s % (2 ^ d * 2 ^ s)
    split = rw parts (mul-add-mod_self_right (x / 2 ^ d) (2 ^ d * 2 ^ s) (x % 2 ^ d * 2 ^ s))

    small : x % 2 ^ d * 2 ^ s % (2 ^ d * 2 ^ s) ≡ x % 2 ^ d * 2 ^ s
    small =
        mod-eq_of_lt
          (shifted_lt (x % 2 ^ d) (2 ^ s) (2 ^ d) (mod-lt x (two_pow_pos d)) (two_pow_pos s))

-- Bits put above `acc`, and cut to `w` bits, are bits of the sum.
pub sum_shift-mod :
    (acc x s d w : ℕ)
    → w ≡ d + s
    → acc < 2 ^ s
    → (acc + x * 2 ^ s) % 2 ^ w ≡ acc + x % 2 ^ d * 2 ^ s
sum_shift-mod acc x s d w e h = rw (e, two_pow_add d s) (split ∙ mod-eq_of_lt fits)
  where
    parts : acc + x * 2 ^ s ≡ x / 2 ^ d * (2 ^ d * 2 ^ s) + (acc + x % 2 ^ d * 2 ^ s)
    parts = omega (arith, ap (λ (t : ℕ). t * 2 ^ s) (div-add-mod' x (2 ^ d)))

    split : (acc + x * 2 ^ s) % (2 ^ d * 2 ^ s) ≡ (acc + x % 2 ^ d * 2 ^ s) % (2 ^ d * 2 ^ s)
    split = rw parts (mul-add-mod_self_right (x / 2 ^ d) (2 ^ d * 2 ^ s) (acc + x % 2 ^ d * 2 ^ s))

    step : suc (x % 2 ^ d) * 2 ^ s ≤ 2 ^ d * 2 ^ s
    step = mul-le-mul_right (2 ^ s) (mod-lt x (two_pow_pos d))

    fits : acc + x % 2 ^ d * 2 ^ s < 2 ^ d * 2 ^ s
    fits = omega (arith, step, h)
