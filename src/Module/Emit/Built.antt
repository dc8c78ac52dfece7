-- ===== src/Module/Emit/Built.antt =====
-- `build` of an integer instruction, by the bits and the type of its result.
use native.Mathlib.Nat.{mod-eq_of_lt}
use wembed.Base.{
  ℕ, ◌+◌, ◌-◌, ◌*◌, ◌/◌, ◌%◌, ◌^◌, ◌<◌, ◌≤◌, ◌≡◌, ◌∙◌, bit_and, bit_or, if◌then◌else◌, ◌==◌, not,
}
use wembed.Lang.Types.{Ty, i1, i32}
use wembed.Llvm.{Llvm, TypeLaws}
use wembed.Llvm.Bits.{BitLaws, Yields, flag, width}
use wembed.Llvm.Instructions.{
  and, or, sub, shl, lshr, binary, cast, zext, bit_cast, icmp, int_eq, int_ne, select,
}
use wembed.Module.{build}
use wembed.Module.Emit.{const_i32}

-- A value of that type with those bits.
abbrev pub Is : ⦃L : Llvm⦄ → (L.Value → ℕ) → Ty → ℕ → L.Value → Type 0
Is ⦃L⦄ bits t n v = (L.type_of v ≡ t) × (bits v ≡ n)

module _ ⦃L : Llvm⦄ (T : TypeLaws L) (bits : L.Value → ℕ) (B : BitLaws L bits) where
  pub built_const :
      (n : ℕ) (t : Ty)
      → n < 2 ^ 32
      → 32 ≤ width t
      → Yields (Is bits t n) (build (cast zext (const_i32 n) t))
  unfolding build
  built_const n t h wide = record {
    at = λ m. (
      T.type_of-build _ m.builder,
      B.bits-zext _ t m.builder (rw (T.type_of-const_int i32 n) wide)
          ∙ B.bits-const_int i32 n
          ∙ mod-eq_of_lt h,
    );
  }

  pub built_and :
      (x y : L.Value)
      → Yields (Is bits (L.type_of x) (bit_and (bits x) (bits y))) (build (binary and x y))
  unfolding build
  built_and x y = record { at = λ m. (T.type_of-build _ m.builder, B.bits-and x y m.builder) }

  pub built_or :
      (x y : L.Value)
      → L.type_of x ≡ L.type_of y
      → Yields (Is bits (L.type_of x) (bit_or (bits x) (bits y))) (build (binary or x y))
  unfolding build
  built_or x y h = record { at = λ m. (T.type_of-build _ m.builder, B.bits-or x y m.builder h) }

  pub built_sub :
      (x y : L.Value)
      → Yields
          (Is bits
            (L.type_of x)
            ((bits x + 2 ^ width (L.type_of x) - bits y) % 2 ^ width (L.type_of x)))
          (build (binary sub x y))
  unfolding build
  built_sub x y = record { at = λ m. (T.type_of-build _ m.builder, B.bits-sub x y m.builder) }

  pub built_shl :
      (x y : L.Value)
      → bits y < width (L.type_of x)
      → Yields
          (Is bits (L.type_of x) (bits x * 2 ^ bits y % 2 ^ width (L.type_of x)))
          (build (binary shl x y))
  unfolding build
  built_shl x y h = record { at = λ m. (T.type_of-build _ m.builder, B.bits-shl x y m.builder h) }

  pub built_lshr :
      (x y : L.Value)
      → bits y < width (L.type_of x)
      → Yields (Is bits (L.type_of x) (bits x / 2 ^ bits y)) (build (binary lshr x y))
  unfolding build
  built_lshr x y h = record { at = λ m. (T.type_of-build _ m.builder, B.bits-lshr x y m.builder h) }

  pub built_eq :
      (x y : L.Value) → Yields (Is bits i1 (flag (bits x == bits y))) (build (icmp int_eq x y))
  unfolding build
  built_eq x y = record { at = λ m. (T.type_of-build _ m.builder, B.bits-icmp_eq x y m.builder) }

  pub built_ne :
      (x y : L.Value)
      → Yields (Is bits i1 (flag (not (bits x == bits y)))) (build (icmp int_ne x y))
  unfolding build
  built_ne x y = record { at = λ m. (T.type_of-build _ m.builder, B.bits-icmp_ne x y m.builder) }

  pub built_select :
      (c x y : L.Value)
      → L.type_of x ≡ L.type_of y
      → Yields
          (Is bits (L.type_of x) (if bits c == 0 then bits y else bits x))
          (build (select c x y))
  unfolding build
  built_select c x y h = record {
    at = λ m. (T.type_of-build _ m.builder, B.bits-select c x y m.builder h);
  }

  pub built_bit_cast :
      (x : L.Value) (t : Ty)
      → width (L.type_of x) ≡ width t
      → Yields (Is bits t (bits x)) (build (cast bit_cast x t))
  unfolding build
  built_bit_cast x t h = record {
    at = λ m. (T.type_of-build _ m.builder, B.bits-bit_cast x t m.builder h);
  }
