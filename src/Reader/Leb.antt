-- ===== src/Reader/Leb.antt =====
-- What the LEB128 loop of `parse_uleb128` and `parse_sleb128` reads, on encodings of every length.
use native.Mathlib.Nat.{mod-eq_of_lt}
use wembed.Base.{
  ℕ, zero, suc, ◌+◌, ◌-◌, ◌*◌, ◌/◌, ◌%◌, ◌^◌, ◌<◌, ◌≤◌, ◌≡◌, ap, ◌∙◌, arith, bit_and, bit_or, List,
  [], ◌∷◌, ◌++◌, ok, ◌>>=◌, drop,
}
use wembed.Base.Bits.{bit_or_low, bit_and_ones, bit_and_bit}
use wembed.Base.Powers.{shift-mod, sum_shift-mod, two_pow_add, two_pow_le}
use wembed.Reader.{Reader, leb128_loop, leb128_bytes, parse_uleb128}

-- A number in `k + 1` groups of seven bits, lowest first, the top bit set on every byte but the last.
-- Leading zero groups are allowed, so this is every encoding of the number, not the shortest alone.
abbrev pub leb128_encoding : ℕ → ℕ → List ℕ
leb128_encoding zero v = v ∷ []
leb128_encoding (suc k) v = (v % 128 + 128) ∷ leb128_encoding k (v / 128)

-- The last of those groups.
abbrev pub top_group : ℕ → ℕ → ℕ
top_group zero v = v
top_group (suc k) v = top_group k (v / 128)

bit_and_seven_ones : (b : ℕ) → bit_and b 0x7f ≡ b % 128
bit_and_seven_ones b = bit_and_ones 7 b

bit_and_top : (b : ℕ) → bit_and b 0x80 ≡ b / 128 % 2 * 128
bit_and_top b = bit_and_bit 7 b

or_group :
    (acc x s d w : ℕ)
    → w ≡ d + s
    → acc < 2 ^ s
    → bit_or acc (x * 2 ^ s % 2 ^ w) ≡ (acc + x * 2 ^ s) % 2 ^ w
or_group acc x s d w e h =
    rw (shift-mod x s d w e, sum_shift-mod acc x s d w e h) (bit_or_low s acc (x % 2 ^ d) h)

last_byte :
    (v acc s w cur : ℕ) (rest : List ℕ)
    → v < 128
    → acc < 2 ^ s
    → s < w
    → leb128_loop w (v ∷ rest) s acc cur
      ≡ ok
          (record { value = (acc + v * 2 ^ s) % 2 ^ w; shift = s + 7; byte = v; current = cur + 1 })
unfolding leb128_loop
last_byte v acc s w cur rest hv ha hs =
    ground (arith, bit_and_seven_ones v, bit_and_top v, or_group acc v s (w - s) w (omega arith) ha)

shift_seven : (s : ℕ) → 2 ^ (s + 7) ≡ 128 * 2 ^ s
shift_seven s = omega (arith, two_pow_add s 7)

scaled_le : (g m a : ℕ) → g < m → g * a + a ≤ m * a
scaled_le g m a h = grind arith

-- Where the group fits whole, the bits so far grow by it.
group_fits :
    (acc g s w : ℕ)
    → g < 128
    → acc < 2 ^ s
    → s + 7 ≤ w
    → (bit_or acc (g * 2 ^ s % 2 ^ w) ≡ acc + g * 2 ^ s) × (acc + g * 2 ^ s < 2 ^ (s + 7))
group_fits acc g s w hg ha hs =
    let low : acc + g * 2 ^ s < 2 ^ (s + 7) =
      omega (arith, shift_seven s, scaled_le g 128 (2 ^ s) hg, ha) in
    let cut : (acc + g * 2 ^ s) % 2 ^ w ≡ acc + g * 2 ^ s =
      mod-eq_of_lt (omega (arith, two_pow_le (s + 7) w hs, low)) in
    (or_group acc g s (w - s) w (omega arith) ha ∙ cut, low)

inner_byte :
    (g acc s w cur : ℕ) (rest : List ℕ)
    → g < 128
    → acc < 2 ^ s
    → s + 7 ≤ w
    → leb128_loop w ((g + 128) ∷ rest) s acc cur
      ≡ leb128_loop w rest (s + 7) (acc + g * 2 ^ s) (cur + 1)
unfolding leb128_loop
inner_byte g acc s w cur rest hg ha hs =
    ground (
      arith,
      bit_and_seven_ones (g + 128),
      bit_and_top (g + 128),
      (group_fits acc g s w hg ha hs).0,
    )

split_group : (v s : ℕ) → v * 2 ^ s ≡ v % 128 * 2 ^ s + v / 128 * 2 ^ (s + 7)
split_group v s = omega (
  arith,
  ap (λ (t : ℕ). t * 2 ^ s) (let e : v ≡ v % 128 + v / 128 * 128 = omega arith in e),
  ap (λ (t : ℕ). v / 128 * t) (shift_seven s),
)

-- The loop adds the number to the bits so far, cut to `w` bits.
pub leb128_loop-encoding :
    (k v acc s w cur : ℕ) (rest : List ℕ)
    → v < 128 ^ suc k
    → acc < 2 ^ s
    → s + 7 * k < w
    → leb128_loop w (leb128_encoding k v ++ rest) s acc cur
      ≡ ok (record {
        value = (acc + v * 2 ^ s) % 2 ^ w;
        shift = s + 7 * (k + 1);
        byte = top_group k v;
        current = cur + (k + 1);
      })
leb128_loop-encoding zero v acc s w cur rest hv ha hs =
    last_byte v acc s w cur rest (omega arith) ha (omega arith)
leb128_loop-encoding (suc k) v acc s w cur rest hv ha hs =
    let fits = group_fits acc (v % 128) s w (omega arith) ha (omega arith) in
    ground (
      arith,
      inner_byte (v % 128) acc s w cur (leb128_encoding k (v / 128) ++ rest) (omega arith) ha
          (omega arith),
      leb128_loop-encoding k (v / 128) (acc + v % 128 * 2 ^ s) (s + 7) w (cur + 1) rest
          (omega arith) fits.1 (omega arith),
      split_group v s,
    )

pub leb128_bytes-encoding :
    (r : Reader) (k v w : ℕ) (rest : List ℕ)
    → drop r.current r.input ≡ leb128_encoding k v ++ rest
    → v < 128 ^ suc k
    → 7 * k < w
    → leb128_bytes w r
      ≡ ok (
        record {
          value = v % 2 ^ w;
          shift = 7 * (k + 1);
          byte = top_group k v;
          current = r.current + (k + 1);
        },
        record r { current = r.current + (k + 1) },
      )
unfolding leb128_bytes
leb128_bytes-encoding r k v w rest here hv hs =
    ground
      (arith, here, leb128_loop-encoding k v 0 0 w r.current rest hv (omega arith) (omega arith))

-- `parse_uleb128` reads back every encoding of a number in `k + 1` bytes that starts inside the
-- width, cut to the width of `T`, and stops right behind it.
pub parse_uleb128-encoding :
    (r : Reader) (k v w : ℕ) (rest : List ℕ)
    → drop r.current r.input ≡ leb128_encoding k v ++ rest
    → v < 128 ^ suc k
    → 7 * k < w
    → parse_uleb128 w r ≡ ok (v % 2 ^ w, record r { current = r.current + (k + 1) })
unfolding parse_uleb128 ◌>>=◌
parse_uleb128-encoding r k v w rest here hv hs =
    ground (arith, leb128_bytes-encoding r k v w rest here hv hs)
