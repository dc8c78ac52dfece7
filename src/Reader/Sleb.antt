-- ===== src/Reader/Sleb.antt =====
-- `parse_sleb128` on the encodings of signed numbers.
use native.Mathlib.Nat.{mod-eq_of_lt}
use mathlib.Core.Logic.{◌⊎◌}
use native.Mathlib.Decide.{dec_lt}
use wembed.Base.{
  ℕ, zero, suc, ◌+◌, ◌-◌, ◌*◌, ◌/◌, ◌%◌, ◌^◌, ◌<◌, ◌≤◌, ◌≡◌, ap, inl, inr, arith, bit_and, bit_or,
  List, ◌++◌, ok, ◌>>=◌, throw, bad_shift, drop,
}
use wembed.Base.Bits.{bit_and_bit, bit_or_low}
use wembed.Base.Powers.{two_pow_add, two_pow_le, two_pow_split, two_pow_pos}
use wembed.Base.Complement.{two_pow_complement-mod}
use wembed.Reader.{Reader, leb128_bytes, extend_sign, parse_sleb128}
use wembed.Reader.Leb.{leb128_encoding, top_group, leb128_bytes-encoding}
use wembed.Reader.Signed.{ℤ, pos, negsuc, wrap, Within}

bit_and_sign : (b : ℕ) → bit_and b 0x40 ≡ b / 64 % 2 * 64
bit_and_sign b = bit_and_bit 6 b

top_group_low : (k v : ℕ) → v < 64 * 128 ^ k → top_group k v < 64
top_group_low zero v h = omega arith
top_group_low (suc k) v h = top_group_low k (v / 128) (omega arith)

top_group_high :
    (k v : ℕ) → 64 * 128 ^ k ≤ v → v < 128 ^ suc k → (64 ≤ top_group k v) × (top_group k v < 128)
top_group_high zero v h l = omega arith
top_group_high (suc k) v h l = top_group_high k (v / 128) (omega arith) (omega arith)

pub seven_bits : (k : ℕ) → 2 ^ (7 * (k + 1)) ≡ 128 ^ suc k
seven_bits zero = omega arith
seven_bits (suc k) =
    let e : 7 * (suc k + 1) ≡ 7 * (k + 1) + 7 = omega arith in
    rw (e, two_pow_add (7 * (k + 1)) 7, seven_bits k) (omega arith)

-- The signed number in `k + 1` groups of seven bits.
abbrev pub sleb128_encoding : ℕ → ℤ → List ℕ
sleb128_encoding k z = leb128_encoding k (wrap (7 * (k + 1)) z)

-- Ones above a pattern of `s` bits fill it up to `w` bits.
ones_above : (p s w : ℕ) → s < w → p < 2 ^ s → bit_or p (2 ^ w - 2 ^ s) ≡ p + (2 ^ w - 2 ^ s)
ones_above p s w h l = rw parts (bit_or_low s p (2 ^ (w - s) - 1) l)
  where
    parts : 2 ^ w - 2 ^ s ≡ (2 ^ (w - s) - 1) * 2 ^ s
    parts = omega (
      arith,
      two_pow_split s w (omega arith),
      ap (λ (t : ℕ). t * 2 ^ s)
          (let e : 2 ^ (w - s) ≡ (2 ^ (w - s) - 1) + 1 = omega (arith, two_pow_pos (w - s)) in e),
    )

-- What `extend_sign` does to a number of `s` bits below the sign bit, and above it.
extend_sign_low :
    (w s b c p : ℕ) (r : Reader)
    → b < 64
    → extend_sign w (record { value = p; shift = s; byte = b; current = c }) r ≡ ok (p, r)
unfolding extend_sign
extend_sign_low w s b c p r h = ground (arith, bit_and_sign b)

extend_sign_high :
    (w s b c p : ℕ) (r : Reader)
    → 64 ≤ b
    → b < 128
    → s < w
    → s < 32
    → p < 2 ^ s
    → extend_sign w (record { value = p; shift = s; byte = b; current = c }) r
      ≡ ok (p + (2 ^ w - 2 ^ s), r)
unfolding extend_sign
extend_sign_high w s b c p r lo hi hs hw hp = ground (arith, bit_and_sign b, ones_above p s w hs hp)

extend_sign_full :
    (w s b c p : ℕ) (r : Reader)
    → w ≤ s
    → extend_sign w (record { value = p; shift = s; byte = b; current = c }) r ≡ ok (p, r)
unfolding extend_sign
extend_sign_full w s b c p r h = ground arith

extend_sign_undefined :
    (w s b c p : ℕ) (r : Reader)
    → 64 ≤ b
    → b < 128
    → s < w
    → 32 ≤ s
    → extend_sign w (record { value = p; shift = s; byte = b; current = c }) r ≡ throw bad_shift
unfolding extend_sign
extend_sign_undefined w s b c p r lo hi hs hw = ground (arith, bit_and_sign b)

module _ (r : Reader) (k w : ℕ) (rest : List ℕ) where
  abbrev after : Reader
  after = record r { current = r.current + (k + 1) }

  sleb_nonnegative :
      (n : ℕ)
      → drop r.current r.input ≡ sleb128_encoding k (pos n) ++ rest
      → n < 64 * 128 ^ k
      → 7 * k < w
      → parse_sleb128 w r ≡ ok (n % 2 ^ w, after)
  unfolding parse_sleb128 ◌>>=◌
  sleb_nonnegative n here h hw =
      let same : n % 2 ^ (7 * (k + 1)) ≡ n = mod-eq_of_lt (omega (arith, seven_bits k)) in
      ground (
        arith,
        leb128_bytes-encoding r k n w rest (rw same at here) (omega arith) hw,
        top_group_low k n h,
        extend_sign_low w (7 * (k + 1)) (top_group k n) (r.current + (k + 1)) (n % 2 ^ w) after,
      )

  -- The bits of `- (n + 1)`, where the sign bit is set.
  module _ (n : ℕ) (here : drop r.current r.input ≡ sleb128_encoding k (negsuc n) ++ rest)
      (h : n < 64 * 128 ^ k) (hw : 7 * k < w) where
    abbrev bits : ℕ
    bits = 2 ^ (7 * (k + 1)) - 1 - n

    same : 2 ^ (7 * (k + 1)) - 1 - n % 2 ^ (7 * (k + 1)) ≡ bits
    same = let e : n % 2 ^ (7 * (k + 1)) ≡ n = mod-eq_of_lt (omega (arith, seven_bits k)) in rw e

    sign : (64 ≤ top_group k bits) × (top_group k bits < 128)
    sign = top_group_high k bits (omega (arith, seven_bits k)) (omega (arith, seven_bits k))

    bytes_negative :
        leb128_bytes w r
        ≡ ok (
          record {
            value = bits % 2 ^ w;
            shift = 7 * (k + 1);
            byte = top_group k bits;
            current = r.current + (k + 1);
          },
          after,
        )
    bytes_negative =
        leb128_bytes-encoding r k bits w rest (rw same at here) (omega (arith, seven_bits k)) hw

    sleb_narrow :
        7 * (k + 1) < w → 7 * (k + 1) < 32 → parse_sleb128 w r ≡ ok (wrap w (negsuc n), after)
    unfolding parse_sleb128 ◌>>=◌
    sleb_narrow hs hi =
        let le : 2 ^ (7 * (k + 1)) ≤ 2 ^ w = two_pow_le (7 * (k + 1)) w (omega arith) in
        let fits : n < 2 ^ (7 * (k + 1)) = omega (arith, seven_bits k) in
        let cut : bits % 2 ^ w ≡ bits = mod-eq_of_lt (omega (arith, le, fits)) in
        let small : n % 2 ^ w ≡ n = mod-eq_of_lt (omega (arith, le, fits)) in
        ground (
          arith,
          bytes_negative,
          sign,
          cut,
          small,
          le,
          fits,
          extend_sign_high w (7 * (k + 1)) (top_group k bits) (r.current + (k + 1)) bits after
              sign.0 sign.1 hs hi (omega (arith, fits)),
        )

    sleb_full : w ≤ 7 * (k + 1) → parse_sleb128 w r ≡ ok (wrap w (negsuc n), after)
    unfolding parse_sleb128 ◌>>=◌
    sleb_full hs = ground (
      arith,
      bytes_negative,
      two_pow_complement-mod n (7 * (k + 1)) w hs (omega (arith, seven_bits k)),
      extend_sign_full w (7 * (k + 1)) (top_group k bits) (r.current + (k + 1)) (bits % 2 ^ w) after
          hs,
    )

    sleb_undefined : 7 * (k + 1) < w → 32 ≤ 7 * (k + 1) → parse_sleb128 w r ≡ throw bad_shift
    unfolding parse_sleb128 ◌>>=◌
    sleb_undefined hs hi = ground (
      arith,
      bytes_negative,
      extend_sign_undefined w (7 * (k + 1)) (top_group k bits) (r.current + (k + 1)) (bits % 2 ^ w)
          after sign.0 sign.1 hs hi,
    )

-- `parse_sleb128` reads back every encoding of a signed number in `k + 1` bytes that starts inside
-- the width, as its two's complement in the width of `T`, unless the number is negative and its
-- encoding ends between bit 32 and the width.
pub parse_sleb128-encoding :
    (r : Reader) (k w : ℕ) (z : ℤ) (rest : List ℕ)
    → drop r.current r.input ≡ sleb128_encoding k z ++ rest
    → Within (64 * 128 ^ k) z
    → 7 * k < w
    → (7 * (k + 1) < 32) ⊎ (w ≤ 7 * (k + 1))
    → parse_sleb128 w r ≡ ok (wrap w z, record r { current = r.current + (k + 1) })
parse_sleb128-encoding r k w (pos n) rest here h hw fits = sleb_nonnegative r k w rest n here h hw
parse_sleb128-encoding r k w (negsuc n) rest here h hw (inr full) =
    sleb_full r k w rest n here h hw full
parse_sleb128-encoding r k w (negsuc n) rest here h hw (inl low) = elim (dec_lt (7 * (k + 1)) w) [
  | yes narrow ↦ sleb_narrow r k w rest n here h hw narrow low
  | no wide ↦ sleb_full r k w rest n here h hw (omega arith)
]

-- A negative number whose encoding ends between bit 32 and the width makes `parse_sleb128` shift the
-- `int` 1 by 32 or more, which C++ leaves undefined: so it is for an `int64_t` in 5 to 9 bytes.
pub parse_sleb128-bad_shift :
    (r : Reader) (k w n : ℕ) (rest : List ℕ)
    → drop r.current r.input ≡ sleb128_encoding k (negsuc n) ++ rest
    → n < 64 * 128 ^ k
    → 32 ≤ 7 * (k + 1)
    → 7 * (k + 1) < w
    → parse_sleb128 w r ≡ throw bad_shift
parse_sleb128-bad_shift r k w n rest here h hi hs =
    sleb_undefined r k w rest n here h (omega arith) hs hi
