-- ===== src/Reader.antt =====
-- The byte reader of inc/wembed/module.hpp (`parse`, `parse_uleb128`, `parse_sleb128`) and
-- `module::parse_str` of src/module.cpp. `current` is `mCurrent - pInput`, and `mEnd - pInput` is the
-- length of `input`. The source never compares `mCurrent` with `mEnd` before it reads, so a read at
-- or behind `mEnd` is the exception `overrun` here.
pub mod Leb
pub mod Sleb
pub mod Signed
pub mod Forward
pub mod Landing
use wembed.Base.{
  ℕ, zero, suc, ◌+◌, ◌-◌, ◌*◌, ◌%◌, ◌^◌, bit_and, bit_or, max, Bool, true, false, not, List, [],
  ◌∷◌, Option, none, some, ◌&&◌, ltb, leb, ◌==◌, if◌then◌else◌, length, get_elem?, take, drop,
  Result, ok, throw, overrun, bad_shift, Stateful, ◌>>=◌, ◌>>◌, return,
}

pub record Reader : Type 0 where
  pub input : List ℕ
  pub current : ℕ

abbrev pub Parser : Type 0 → Type 0
Parser A = Stateful Reader A

abbrev pub byte_at : Option ℕ → Reader → Result (ℕ × Reader)
byte_at none r = throw overrun
byte_at (some b) r = ok (b, record r { current = r.current + 1 })

-- `*mCurrent++`
unfoldable pub next_byte : Parser ℕ
next_byte r = byte_at (get_elem? r.input r.current) r

-- `parse<T>()` for a `T` of that many bytes, least significant first.
unfoldable pub parse : ℕ → Parser ℕ
parse zero = return 0
parse (suc size) = do low ← next_byte; high ← parse size; return (low + 256 * high)

-- Where a loop over the bytes of a number ends: `lResult`, `lShift`, `lByte` and `mCurrent`.
pub record Leb128 : Type 0 where
  pub value : ℕ
  pub shift : ℕ
  pub byte : ℕ
  pub current : ℕ

-- `T(lByte & 0x7f) << lShift` is computed in a type of at least 32 bits, and cut to those of `T`. For
-- a signed `T` C++17 leaves it undefined where bits are shifted out; they are cut off here, as GCC and
-- Clang do it, and C++20 says.
abbrev pub group : ℕ → ℕ → ℕ → ℕ
group width byte shift = bit_and byte 0x7f * 2 ^ shift % 2 ^ width

-- The `do … while (lByte & 0x80)` that both readers share, for a `T` of `width` bits. The list is
-- what stands at `mCurrent`.
unfoldable pub leb128_loop : ℕ → List ℕ → ℕ → ℕ → ℕ → Result Leb128
leb128_loop width [] shift value current = throw overrun
leb128_loop width (byte ∷ bytes) shift value current =
    let value' = bit_or value (group width byte shift) in
    let more = leb128_loop width bytes (shift + 7) value' (current + 1) in
    if leb (max width 32) shift
    then throw bad_shift
    else if bit_and byte 0x80 == 0
    then ok (record { value = value'; shift = shift + 7; byte = byte; current = current + 1 })
    else more

unfoldable pub leb128_bytes : ℕ → Parser Leb128
leb128_bytes width r = elim (leb128_loop width (drop r.current r.input) 0 0 r.current) [
  | ok l ↦ ok (l, record r { current = l.current })
  | throw e ↦ throw e
]

-- `parse_uleb128<T>()`, the bits of the result.
unfoldable pub parse_uleb128 : ℕ → Parser ℕ
parse_uleb128 width = do l ← leb128_bytes width; return l.value

-- `lResult |= - (1 << lShift)`: the literal is an `int` of 32 bits.
unfoldable pub extend_sign : ℕ → Leb128 → Parser ℕ
extend_sign width l r =
    if ltb l.shift width && not (bit_and l.byte 0x40 == 0)
    then if leb 32 l.shift
      then throw bad_shift
      else ok (bit_or l.value (2 ^ width - 2 ^ l.shift), r)
    else ok (l.value, r)

-- `parse_sleb128<T>()`, the bits of the result in two's complement.
unfoldable pub parse_sleb128 : ℕ → Parser ℕ
parse_sleb128 width = do l ← leb128_bytes width; extend_sign width l

abbrev sized : ℕ → List ℕ → Reader → Result (List ℕ × Reader)
sized size s r =
    if leb size (length (drop r.current r.input))
    then ok (s, record r { current = r.current + size })
    else throw overrun

-- The view runs over the buffer's end where the size says so, and its first use would read there.
unfoldable pub parse_str : ℕ → Parser (List ℕ)
parse_str size r = sized size (take size (drop r.current r.input)) r
