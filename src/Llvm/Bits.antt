-- ===== src/Llvm/Bits.antt =====
-- What LLVM's integer instructions compute, as the LLVM language reference states it: `bits v` is the
-- pattern that the value `v` has when the code runs. A shift by the width or more is poison there, so
-- the laws of shifts ask for a smaller amount.
use wembed.Base.{
  ℕ, ◌+◌, ◌-◌, ◌*◌, ◌/◌, ◌%◌, ◌^◌, ◌<◌, ◌≤◌, ◌≡◌, refl, bit_and, bit_or, if◌then◌else◌, ◌==◌, Bool,
  true, false, not, Result, ok, throw,
}
use wembed.Lang.Types.{Ty}
use wembed.Llvm.{Llvm}
use wembed.Llvm.Instructions.{
  and, or, sub, shl, lshr, binary, cast, zext, bit_cast, icmp, int_eq, int_ne, select,
}

-- The number of bits of the types that carry some.
abbrev pub width : Ty → ℕ
width Ty.i1 = 1
width Ty.i8 = 8
width Ty.i16 = 16
width Ty.i32 = 32
width Ty.i64 = 64
width Ty.float = 32
width Ty.double = 64
width t = 0

-- An `i1`.
abbrev pub flag : Bool → ℕ
flag true = 1
flag false = 0

module _ (L : Llvm) (bits : L.Value → ℕ) where
  pub record BitLaws : Type 0 where
    pub bits-lt : (v : L.Value) → bits v < 2 ^ width (L.type_of v)
    pub bits-const_int : (t : Ty) (n : ℕ) → bits (L.const_int t n) ≡ n % 2 ^ width t
    pub bits-zext :
        (v : L.Value) (t : Ty) (b : L.Builder)
        → width (L.type_of v) ≤ width t
        → bits (L.build (cast zext v t) b).0 ≡ bits v
    pub bits-bit_cast :
        (v : L.Value) (t : Ty) (b : L.Builder)
        → width (L.type_of v) ≡ width t
        → bits (L.build (cast bit_cast v t) b).0 ≡ bits v
    pub bits-and :
        (x y : L.Value) (b : L.Builder)
        → bits (L.build (binary and x y) b).0 ≡ bit_and (bits x) (bits y)
    pub bits-or :
        (x y : L.Value) (b : L.Builder)
        → L.type_of x ≡ L.type_of y
        → bits (L.build (binary or x y) b).0 ≡ bit_or (bits x) (bits y)
    pub bits-sub :
        (x y : L.Value) (b : L.Builder)
        → bits (L.build (binary sub x y) b).0
          ≡ (bits x + 2 ^ width (L.type_of x) - bits y) % 2 ^ width (L.type_of x)
    pub bits-shl :
        (x y : L.Value) (b : L.Builder)
        → bits y < width (L.type_of x)
        → bits (L.build (binary shl x y) b).0 ≡ bits x * 2 ^ bits y % 2 ^ width (L.type_of x)
    pub bits-lshr :
        (x y : L.Value) (b : L.Builder)
        → bits y < width (L.type_of x)
        → bits (L.build (binary lshr x y) b).0 ≡ bits x / 2 ^ bits y
    pub bits-icmp_eq :
        (x y : L.Value) (b : L.Builder)
        → bits (L.build (icmp int_eq x y) b).0 ≡ flag (bits x == bits y)
    pub bits-icmp_ne :
        (x y : L.Value) (b : L.Builder)
        → bits (L.build (icmp int_ne x y) b).0 ≡ flag (not (bits x == bits y))
    pub bits-select :
        (c x y : L.Value) (b : L.Builder)
        → L.type_of x ≡ L.type_of y
        → bits (L.build (select c x y) b).0 ≡ (if bits c == 0 then bits y else bits x)

-- What holds of the result of code that must not throw.
abbrev pub Returns : {S A : Type 0} → (A → Type 0) → Result (A × S) → Type 0
Returns P (ok (a, s)) = P a
Returns P (throw e) = ⊥

-- The result of `c` meets `P` from every state, and `c` does not throw.
pub record Yields {S A : Type 0} (P : A → Type 0) (c : S → Result (A × S)) : Type 0 where
  pub at : (s : S) → Returns P (c s)

returned :
    {S A G : Type 0} (P : A → Type 0) (r : Result (A × S))
    → Returns P r
    → ((a : A) (t : S) → r ≡ ok (a, t) → P a → G)
    → G
returned P (ok (a, t)) h k = k a t refl h
returned P (throw e) h k = absurd h

-- To go on with the result of such a call: its value, the state behind it, and the equation of the
-- call.
pub running :
    {S A G : Type 0} {P : A → Type 0} {c : S → Result (A × S)}
    → Yields P c
    → (s : S) → ((a : A) (t : S) → c s ≡ ok (a, t) → P a → G)
    → G
running {P = P} {c = c} h s k = returned P (c s) (h.at s) k
