-- ===== src/Module/Numeric.antt =====
-- The numeric instructions in `module::parse_section_code` of src/module.cpp, one operation for
-- each of its macros.
use wembed.Base.{ℕ, false, [], ◌∷◌, ◌>>=◌, ◌>>◌}
use wembed.Lang.Types.{Ty}
use wembed.Llvm.{Llvm}
use wembed.Llvm.Instructions.{
  BinaryOp, and, or, binary, CastOp, cast, bit_cast, trunc, sext, IntPredicate, icmp, int_eq,
  int_ne, RealPredicate, fcmp, real_ole, real_oge, select, fneg, Intrinsic, call_intrinsic,
  throw_vm_exception,
}
use wembed.Module.{M, build}
use wembed.Module.Stack.{push, pop, pop_typed}
use wembed.Module.Emit.{
  const_bool, bool_to_i32, get_zero, get_string, trap_if, emit_shift_mask, emit_rotl, emit_rotr,
  emit_udiv, emit_sdiv, emit_urem, emit_srem,
}
use wembed.Module.Float.{clear_nan, emit_min, emit_max, emit_quiet_nan_or_intrinsic}
use wembed.Module.Control.{Frame}
use wembed.Utils.{FpBits, exponent_mask, mantissa_mask}

-- The arguments of `WEMBED_TRUNC` and `WEMBED_SAT_TRUNC`. `min` and `max` are the bits of `OMIN` and
-- `OMAX`; `least` and `greatest` those of the limits of the integer type.
pub record Truncation : Type 0 where
  pub conversion : CastOp
  pub in_type : Ty
  pub out_type : Ty
  pub fp : FpBits
  pub bits_type : Ty
  pub min : ℕ
  pub max : ℕ
  pub least : ℕ
  pub greatest : ℕ

-- The argument `INSTR` of `WEMBED_BINARY`, by the helper that it calls.
pub data Arithmetic : Type 0 where
  plain : BinaryOp → Arithmetic
  cleared : BinaryOp → Arithmetic
  udiv_of sdiv_of urem_of srem_of rotl_of rotr_of : Ty → Arithmetic
  shift_of : BinaryOp → Ty → Arithmetic
  copysign_of : Intrinsic → Arithmetic

module _ ⦃L : Llvm⦄ where
  unfoldable pub trunc_op : Frame L → Truncation → M (Unit {0})
  trunc_op f t = do
    value ← pop_typed t.in_type
    bitcast ← build (cast bit_cast value t.bits_type)
    exponent ← build (binary and bitcast (L.const_int t.bits_type (exponent_mask t.fp)))
    exponent_test ← build (icmp int_eq exponent (L.const_int t.bits_type (exponent_mask t.fp)))
    min_bounds_test ← build (fcmp real_ole value (L.const_real t.in_type t.min))
    max_bounds_test ← build (fcmp real_oge value (L.const_real t.in_type t.max))
    bounds_test ← build (binary or min_bounds_test max_bounds_test)
    is_invalid ← build (binary or bounds_test exponent_test)
    message ← get_string "invalid truncate"
    trap_if f.func is_invalid throw_vm_exception (message ∷ [])
    result ← build (cast t.conversion value t.out_type)
    push result

  unfoldable pub sat_trunc_op : Truncation → M (Unit {0})
  sat_trunc_op t = do
    value ← pop_typed t.in_type
    bitcast ← build (cast bit_cast value t.bits_type)
    exponent ← build (binary and bitcast (L.const_int t.bits_type (exponent_mask t.fp)))
    exponent_test ← build (icmp int_eq exponent (L.const_int t.bits_type (exponent_mask t.fp)))
    mantissa ← build (binary and bitcast (L.const_int t.bits_type (mantissa_mask t.fp)))
    zero_bits ← get_zero t.bits_type
    mantissa_test ← build (icmp int_ne mantissa zero_bits)
    is_nan ← build (binary and exponent_test mantissa_test)
    min_bounds_test ← build (fcmp real_ole value (L.const_real t.in_type t.min))
    max_bounds_test ← build (fcmp real_oge value (L.const_real t.in_type t.max))
    converted ← build (cast t.conversion value t.out_type)
    value_or_min ← build (select min_bounds_test (L.const_int t.out_type t.least) converted)
    value_or_max ← build (select max_bounds_test (L.const_int t.out_type t.greatest) value_or_min)
    zero ← get_zero t.out_type
    value_or_zero ← build (select is_nan zero value_or_max)
    push value_or_zero

  unfoldable pub eqz_op : Ty → M (Unit {0})
  eqz_op type = do
    value ← pop_typed type
    condition ← build (icmp int_eq value (L.const_int type 0))
    result ← bool_to_i32 condition
    push result

  unfoldable pub icmp_op : IntPredicate → M (Unit {0})
  icmp_op predicate = do
    rhs ← pop
    lhs ← pop_typed (L.type_of rhs)
    condition ← build (icmp predicate lhs rhs)
    result ← bool_to_i32 condition
    push result

  unfoldable pub fcmp_op : RealPredicate → M (Unit {0})
  fcmp_op predicate = do
    rhs ← pop
    lhs ← pop_typed (L.type_of rhs)
    condition ← build (fcmp predicate lhs rhs)
    result ← bool_to_i32 condition
    push result

  unfoldable pub compute : Frame L → Arithmetic → L.Value → L.Value → M L.Value
  compute f (plain op) lhs rhs = build (binary op lhs rhs)
  compute f (cleared op) lhs rhs = do result ← build (binary op lhs rhs); clear_nan result
  compute f (udiv_of t) lhs rhs = emit_udiv t f.func lhs rhs
  compute f (sdiv_of t) lhs rhs = emit_sdiv t f.func lhs rhs
  compute f (urem_of t) lhs rhs = emit_urem t f.func lhs rhs
  compute f (srem_of t) lhs rhs = emit_srem t f.func lhs rhs
  compute f (rotl_of t) lhs rhs = emit_rotl t lhs rhs
  compute f (rotr_of t) lhs rhs = emit_rotr t lhs rhs
  compute f (shift_of op t) lhs rhs = do count ← emit_shift_mask t rhs; build (binary op lhs count)
  compute f (copysign_of intrinsic) lhs rhs = build (call_intrinsic intrinsic (lhs ∷ rhs ∷ []))

  unfoldable pub binary_op : Frame L → Arithmetic → M (Unit {0})
  binary_op f arithmetic = do
    rhs ← pop
    lhs ← pop_typed (L.type_of rhs)
    result ← compute f arithmetic lhs rhs
    push result

  -- `ctz` and `clz` pass a second argument, which says that 0 has a result.
  unfoldable pub count_zeros_op : Intrinsic → Ty → M (Unit {0})
  count_zeros_op intrinsic type = do
    value ← pop_typed type
    result ← build (call_intrinsic intrinsic (value ∷ const_bool false ∷ []))
    push result

  unfoldable pub intrinsic_op : Intrinsic → Ty → M (Unit {0})
  intrinsic_op intrinsic type = do
    value ← pop_typed type
    result ← build (call_intrinsic intrinsic (value ∷ []))
    push result

  unfoldable pub round_op : Intrinsic → Intrinsic → Ty → M (Unit {0})
  round_op f32_intr f64_intr type = do
    value ← pop_typed type
    result ← emit_quiet_nan_or_intrinsic value f32_intr f64_intr
    push result

  unfoldable pub min_op : Ty → M (Unit {0})
  min_op type = do
    rhs ← pop_typed type
    lhs ← pop_typed type
    result ← emit_min lhs rhs
    push result

  unfoldable pub max_op : Ty → M (Unit {0})
  max_op type = do
    rhs ← pop_typed type
    lhs ← pop_typed type
    result ← emit_max lhs rhs
    push result

  unfoldable pub neg_op : Ty → M (Unit {0})
  neg_op type = do value ← pop_typed type; result ← build (fneg value); push result

  unfoldable pub cast_op : CastOp → Ty → Ty → M (Unit {0})
  cast_op op in_type out_type = do
    value ← pop_typed in_type
    result ← build (cast op value out_type)
    push result

  -- The operand's type is not checked.
  unfoldable pub sign_ext_op : Ty → Ty → M (Unit {0})
  sign_ext_op in_type out_type = do
    value ← pop
    narrow ← build (cast trunc value in_type)
    result ← build (cast sext narrow out_type)
    push result

  -- `f32.demote_f64` and `f64.promote_f32`
  unfoldable pub resize_float_op : CastOp → Ty → Ty → M (Unit {0})
  resize_float_op op in_type out_type = do
    value ← pop_typed in_type
    resized ← build (cast op value out_type)
    result ← clear_nan resized
    push result
