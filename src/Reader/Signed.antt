-- ===== src/Reader/Signed.antt =====
-- Integers over the native numbers, and their two's complement.
use wembed.Base.{ℕ, ◌-◌, ◌%◌, ◌^◌, ◌<◌}

-- `negsuc n` is -(n + 1).
pub data ℤ : Type 0 where
  pos : ℕ → ℤ
  negsuc : ℕ → ℤ

-- The integer modulo `2 ^ w`, as the pattern of `w` bits that C++ holds.
abbrev pub wrap : ℕ → ℤ → ℕ
wrap w (pos n) = n % 2 ^ w
wrap w (negsuc n) = 2 ^ w - 1 - n % 2 ^ w

-- The integers of that many bits above the sign: -b ≤ z < b.
abbrev pub Within : ℕ → ℤ → Type 0
Within b (pos n) = n < b
Within b (negsuc n) = n < b
