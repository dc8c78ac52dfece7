-- ===== src/Utils.antt =====
-- The hashes of types in src/utils.cpp and inc/wembed/utils.hpp, and the masks of `fp_bits`. A
-- program that embeds wembed hashes the C++ types of its functions (`hash_fn_ctype`), the compiler
-- the LLVM types of a module (`hash_fn_type`), and linking compares the two.
pub mod Hash
use wembed.Base.{ℕ, ◌-◌, ◌*◌, ◌^◌, Bool, true, false, List, [], ◌∷◌}
use wembed.Lang.Types.{Ty, FnType}
use wembed.Llvm.{Llvm}

-- `WEMBED_HASH_TABLE` and `WEMBED_HASH_MEMORY`.
abbrev pub hash_table : ℕ
hash_table = 0x10

abbrev pub hash_memory : ℕ
hash_memory = 0x11

-- `fp_bits<T>` for a `T` of `significand_bits` and `exponent_bits`.
pub record FpBits : Type 0 where
  pub significand_bits : ℕ
  pub exponent_bits : ℕ

abbrev pub fp_float : FpBits
fp_float = record { significand_bits = 23; exponent_bits = 8 }

abbrev pub fp_double : FpBits
fp_double = record { significand_bits = 52; exponent_bits = 11 }

abbrev pub quiet_nan : FpBits → ℕ
quiet_nan f = 1 * 2 ^ (f.significand_bits - 1)

abbrev pub exponent_mask : FpBits → ℕ
exponent_mask f = (2 ^ f.exponent_bits - 1) * 2 ^ f.significand_bits

abbrev pub mantissa_mask : FpBits → ℕ
mantissa_mask f = 2 ^ f.significand_bits - 1

abbrev number : Bool → ℕ
number true = 1
number false = 0

module _ ⦃L : Llvm⦄ where
  unfoldable pub hash_type : Ty → Bool → ℕ
  hash_type type is_const =
      L.hash_combine (L.hash_combine 0 (L.type_address type)) (number is_const)

  unfoldable pub hash_args : ℕ → List Ty → ℕ
  hash_args seed [] = seed
  hash_args seed (t ∷ ts) = hash_args (L.hash_combine seed (hash_type t false)) ts

  unfoldable pub hash_fn_type : FnType → ℕ
  hash_fn_type type = hash_args (L.hash_combine 1 (hash_type type.ret false)) type.params

  -- `typehash_combine<TFirst, TSecond, TRest...>(seed)` of one type or more. No type is no template.
  unfoldable pub typehash_combine : ℕ → Ty → List Ty → ℕ
  typehash_combine seed last [] = L.hash_combine seed (hash_type last false)
  typehash_combine seed first (second ∷ rest) =
      typehash_combine (L.hash_combine seed (hash_type first false)) second rest

  -- `hash_fn_ctype<TReturn (TParams...)>()`
  unfoldable pub hash_fn_ctype : Ty → List Ty → ℕ
  hash_fn_ctype ret params = typehash_combine 1 ret params
