-- ===== src/Module/Float.antt =====
-- The helpers of src/module.cpp on floating point values: `emit_quiet_nan`,
-- `emit_quiet_nan_or_intrinsic`, `emit_min`, `emit_max` and `clear_nan`. A constant of a floating
-- point type is given by its bits.
pub mod Nan
use wembed.Base.{
  ℕ, ◌+◌, ◌-◌, ◌*◌, ◌^◌, ◌≡◌, Bool, true, false, List, [], ◌∷◌, if◌then◌else◌, ◌&&◌, Result, ok,
  throw, runtime, Stateful, ◌>>=◌, ◌>>◌, return, fail, assert, ◌||◌,
}
use wembed.Lang.Types.{Ty, i32, i64, float, double, same_type}
use wembed.Llvm.{Llvm}
use wembed.Llvm.Instructions.{
  and, or, binary, cast, bit_cast, icmp, int_eq, int_ne, int_ugt, int_ult, IntPredicate, fcmp,
  RealPredicate, real_ogt, real_olt, real_ord, real_uno, select, call_intrinsic, Intrinsic,
}
use wembed.Module.{M, build}
use wembed.Module.Emit.{get_zero}
use wembed.Utils.{FpBits, fp_float, fp_double, quiet_nan, mantissa_mask}

module _ ⦃L : Llvm⦄ where
  -- `(bits & ~mantissa) | quiet`, for one of the two floating point types.
  abbrev pub quiet_nan_as : Ty → Ty → FpBits → ℕ → L.Value → M L.Value
  quiet_nan_as type int_type fp all_ones input = do
    bitcast ← build (cast bit_cast input int_type)
    masked ← build (binary and bitcast (L.const_int int_type (all_ones - mantissa_mask fp)))
    corrected ← build (binary or masked (L.const_int int_type (quiet_nan fp)))
    build (cast bit_cast corrected type)

  unfoldable pub emit_quiet_nan : L.Value → M L.Value
  emit_quiet_nan input =
      if same_type (L.type_of input) float
      then quiet_nan_as float i32 fp_float (2 ^ 32 - 1) input
      else if same_type (L.type_of input) double
      then quiet_nan_as double i64 fp_double (2 ^ 64 - 1) input
      else fail (runtime "unexpcted type passed to emit_quiet_nan")

  unfoldable pub emit_quiet_nan_or_intrinsic : L.Value → Intrinsic → Intrinsic → M L.Value
  unfolding emit_quiet_nan
  emit_quiet_nan_or_intrinsic input f32_intr f64_intr = do
    not_nan ← build (fcmp real_ord input input)
    assert (same_type (L.type_of input) float || same_type (L.type_of input) double)
    result ← build (
        call_intrinsic (if same_type (L.type_of input) float then f32_intr else f64_intr)
          (input ∷ []))
    quiet ← emit_quiet_nan input
    build (select not_nan result quiet)

  -- `lBitcastType`
  abbrev pub bitcast_type : Ty → Ty → wembed.Base.Exception → M Ty
  bitcast_type float float e = return i32
  bitcast_type double double e = return i64
  bitcast_type _ _ e = fail e

  -- The code that `emit_min` and `emit_max` share, with the comparisons that tell them apart.
  abbrev pub emit_extremum :
      wembed.Base.Exception
      → IntPredicate
      → RealPredicate
      → RealPredicate
      → L.Value
      → L.Value
      → M L.Value
  emit_extremum e bits_first right_first left_first lhs rhs = do
    type ← bitcast_type (L.type_of lhs) (L.type_of rhs) e
    bitcast_lhs ← build (cast bit_cast lhs type)
    bitcast_rhs ← build (cast bit_cast rhs type)
    bitcast_cmp ← build (icmp bits_first bitcast_lhs bitcast_rhs)
    r_cmp ← build (fcmp right_first lhs rhs)
    l_cmp ← build (fcmp left_first lhs rhs)
    l_nan ← build (fcmp real_uno lhs lhs)
    r_nan ← build (fcmp real_uno rhs rhs)
    quiet_rhs ← emit_quiet_nan rhs
    quiet_lhs ← emit_quiet_nan lhs
    step_bitcast ← build (select bitcast_cmp lhs rhs)
    step_r_cmp ← build (select r_cmp rhs step_bitcast)
    step_l_cmp ← build (select l_cmp lhs step_r_cmp)
    clean_lhs ← build (select l_nan quiet_lhs step_l_cmp)
    build (select r_nan quiet_rhs clean_lhs)

  unfoldable pub emit_min : L.Value → L.Value → M L.Value
  unfolding emit_quiet_nan
  emit_min = emit_extremum (runtime "unexpected types for emit_min") int_ugt real_ogt real_olt

  unfoldable pub emit_max : L.Value → L.Value → M L.Value
  unfolding emit_quiet_nan
  emit_max = emit_extremum (runtime "unexpected types for emit_max") int_ult real_olt real_ogt

  unfoldable pub clear_nan_internal : Ty → Ty → L.Value → L.Value → L.Value → L.Value → M L.Value
  clear_nan_internal input_type int_type input mask_significand mask_exponent nan_bit = do
    raw ← build (cast bit_cast input int_type)
    significand ← build (binary and raw mask_significand)
    zero ← get_zero int_type
    not_inf ← build (icmp int_ne significand zero)
    exponent ← build (binary and raw mask_exponent)
    max_exp ← build (icmp int_eq exponent mask_exponent)
    is_nan ← build (binary and not_inf max_exp)
    cleaned_nan ← build (binary or raw nan_bit)
    raw_result ← build (select is_nan cleaned_nan raw)
    build (cast bit_cast raw_result input_type)

  unfoldable pub clear_nan : L.Value → M L.Value
  unfolding clear_nan_internal
  clear_nan input =
      if same_type (L.type_of input) float
      then clear_nan_internal float i32 input (L.const_int i32 8388607) (L.const_int i32 2139095040)
          (L.const_int i32 4194304)
      else if same_type (L.type_of input) double
      then clear_nan_internal double i64 input (L.const_int i64 4503599627370495)
          (L.const_int i64 9218868437227405312) (L.const_int i64 2251799813685248)
      else fail (runtime "wrong type while clearing nan")
