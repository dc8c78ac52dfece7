-- ===== src/Module/Operators.antt =====
-- The labels of the switch in `module::parse_section_code` of src/module.cpp: the operators.
use wembed.Base.{ℕ, List, [], ◌∷◌}
use wembed.Lang.Opcodes.{
  o_eq_i32, o_eq_i64, o_ne_i32, o_ne_i64, o_lt_si32, o_lt_si64, o_lt_ui32, o_lt_ui64, o_le_si32,
  o_le_si64, o_le_ui32, o_le_ui64, o_gt_si32, o_gt_si64, o_gt_ui32, o_gt_ui64, o_ge_si32, o_ge_si64,
  o_ge_ui32, o_ge_ui64, o_eq_f32, o_eq_f64, o_ne_f32, o_ne_f64, o_lt_f32, o_lt_f64, o_le_f32,
  o_le_f64, o_gt_f32, o_gt_f64, o_ge_f32, o_ge_f64, o_add_i32, o_add_i64, o_sub_i32, o_sub_i64,
  o_mul_i32, o_mul_i64, o_div_si32, o_div_si64, o_div_ui32, o_div_ui64, o_rem_si32, o_rem_si64,
  o_rem_ui32, o_rem_ui64, o_add_f32, o_add_f64, o_sub_f32, o_sub_f64, o_mul_f32, o_mul_f64,
  o_div_f32, o_div_f64, o_and_i32, o_and_i64, o_or_i32, o_or_i64, o_xor_i32, o_xor_i64, o_shl_i32,
  o_shl_i64, o_shr_si32, o_shr_si64, o_shr_ui32, o_shr_ui64, o_rotl_i32, o_rotl_i64, o_rotr_i32,
  o_rotr_i64, o_clz_i32, o_clz_i64, o_ctz_i32, o_ctz_i64, o_popcnt_i32, o_popcnt_i64, o_sqrt_f32,
  o_sqrt_f64, o_ceil_f32, o_ceil_f64, o_floor_f32, o_floor_f64, o_trunc_f32, o_trunc_f64,
  o_nearest_f32, o_nearest_f64, o_abs_f32, o_abs_f64, o_neg_f32, o_neg_f64, o_min_f32, o_min_f64,
  o_max_f32, o_max_f64, o_copysign_f32, o_copysign_f64, o_wrap_i64, o_extend_si32, o_extend_ui32,
  o_demote_f64, o_promote_f32, o_convert_f32_si32, o_convert_f32_si64, o_convert_f64_si32,
  o_convert_f64_si64, o_convert_f32_ui32, o_convert_f32_ui64, o_convert_f64_ui32,
  o_convert_f64_ui64, o_reinterpret_i32_f32, o_reinterpret_i64_f64, o_reinterpret_f32_i32,
  o_reinterpret_f64_i64, o_extend_i32_s8, o_extend_i32_s16, o_extend_i64_s8, o_extend_i64_s16,
  o_extend_i64_s32, o_prefix_numeric,
}
use wembed.Lang.Types.{i8, i16, i32, i64, float, double}
use wembed.Llvm.Instructions.{
  BinaryOp, CastOp, abs_f32, abs_f64, bit_cast, ceil_f32, ceil_f64, copysign_f32, copysign_f64,
  ctlz_i32, ctlz_i64, ctpop_i32, ctpop_i64, cttz_i32, cttz_i64, floor_f32, floor_f64, fp_ext,
  fp_trunc, int_eq, int_ne, int_sge, int_sgt, int_sle, int_slt, int_uge, int_ugt, int_ule, int_ult,
  nearest_f32, nearest_f64, real_oeq, real_oge, real_ogt, real_ole, real_olt, real_une, sext,
  si_to_fp, sqrt_f32, sqrt_f64, trunc_f32, trunc_f64, ui_to_fp, zext,
}
use wembed.Module.Numeric.{
  plain, cleared, udiv_of, sdiv_of, urem_of, srem_of, rotl_of, rotr_of, shift_of, copysign_of,
}
use wembed.Module.Action.{
  Action, numeric_prefix, negate, minimum, maximum, compare_int, compare_real, arithmetic,
  count_bits, apply, round_to, convert_to, resize_float, extend_from,
}

-- `WEMBED_ICMP` and `WEMBED_FCMP`
unfoldable pub comparisons : List (ℕ × Action)
comparisons =
    (o_eq_i32, compare_int int_eq)
    ∷ (o_eq_i64, compare_int int_eq)
    ∷ (o_ne_i32, compare_int int_ne)
    ∷ (o_ne_i64, compare_int int_ne)
    ∷ (o_lt_si32, compare_int int_slt)
    ∷ (o_lt_si64, compare_int int_slt)
    ∷ (o_lt_ui32, compare_int int_ult)
    ∷ (o_lt_ui64, compare_int int_ult)
    ∷ (o_le_si32, compare_int int_sle)
    ∷ (o_le_si64, compare_int int_sle)
    ∷ (o_le_ui32, compare_int int_ule)
    ∷ (o_le_ui64, compare_int int_ule)
    ∷ (o_gt_si32, compare_int int_sgt)
    ∷ (o_gt_si64, compare_int int_sgt)
    ∷ (o_gt_ui32, compare_int int_ugt)
    ∷ (o_gt_ui64, compare_int int_ugt)
    ∷ (o_ge_si32, compare_int int_sge)
    ∷ (o_ge_si64, compare_int int_sge)
    ∷ (o_ge_ui32, compare_int int_uge)
    ∷ (o_ge_ui64, compare_int int_uge)
    ∷ (o_eq_f32, compare_real real_oeq)
    ∷ (o_eq_f64, compare_real real_oeq)
    ∷ (o_ne_f32, compare_real real_une)
    ∷ (o_ne_f64, compare_real real_une)
    ∷ (o_lt_f32, compare_real real_olt)
    ∷ (o_lt_f64, compare_real real_olt)
    ∷ (o_le_f32, compare_real real_ole)
    ∷ (o_le_f64, compare_real real_ole)
    ∷ (o_gt_f32, compare_real real_ogt)
    ∷ (o_gt_f64, compare_real real_ogt)
    ∷ (o_ge_f32, compare_real real_oge)
    ∷ (o_ge_f64, compare_real real_oge)
    ∷ []

-- `WEMBED_BINARY`, `WEMBED_BINARY_MULTI`, `WEMBED_BINARY_LLVM` and `WEMBED_INTRINSIC_BINARY_MULTI`
unfoldable pub arithmetics : List (ℕ × Action)
arithmetics =
    (o_add_i32, arithmetic (plain BinaryOp.add))
    ∷ (o_add_i64, arithmetic (plain BinaryOp.add))
    ∷ (o_sub_i32, arithmetic (plain BinaryOp.sub))
    ∷ (o_sub_i64, arithmetic (plain BinaryOp.sub))
    ∷ (o_mul_i32, arithmetic (plain BinaryOp.mul))
    ∷ (o_mul_i64, arithmetic (plain BinaryOp.mul))
    ∷ (o_div_ui32, arithmetic (udiv_of i32))
    ∷ (o_div_ui64, arithmetic (udiv_of i64))
    ∷ (o_div_si32, arithmetic (sdiv_of i32))
    ∷ (o_div_si64, arithmetic (sdiv_of i64))
    ∷ (o_rem_ui32, arithmetic (urem_of i32))
    ∷ (o_rem_ui64, arithmetic (urem_of i64))
    ∷ (o_rem_si32, arithmetic (srem_of i32))
    ∷ (o_rem_si64, arithmetic (srem_of i64))
    ∷ (o_add_f32, arithmetic (cleared BinaryOp.fadd))
    ∷ (o_add_f64, arithmetic (cleared BinaryOp.fadd))
    ∷ (o_sub_f32, arithmetic (cleared BinaryOp.fsub))
    ∷ (o_sub_f64, arithmetic (cleared BinaryOp.fsub))
    ∷ (o_mul_f32, arithmetic (cleared BinaryOp.fmul))
    ∷ (o_mul_f64, arithmetic (cleared BinaryOp.fmul))
    ∷ (o_div_f32, arithmetic (cleared BinaryOp.fdiv))
    ∷ (o_div_f64, arithmetic (cleared BinaryOp.fdiv))
    ∷ (o_and_i32, arithmetic (plain BinaryOp.and))
    ∷ (o_and_i64, arithmetic (plain BinaryOp.and))
    ∷ (o_or_i32, arithmetic (plain BinaryOp.or))
    ∷ (o_or_i64, arithmetic (plain BinaryOp.or))
    ∷ (o_xor_i32, arithmetic (plain BinaryOp.xor))
    ∷ (o_xor_i64, arithmetic (plain BinaryOp.xor))
    ∷ (o_rotl_i32, arithmetic (rotl_of i32))
    ∷ (o_rotl_i64, arithmetic (rotl_of i64))
    ∷ (o_rotr_i32, arithmetic (rotr_of i32))
    ∷ (o_rotr_i64, arithmetic (rotr_of i64))
    ∷ (o_shl_i32, arithmetic (shift_of BinaryOp.shl i32))
    ∷ (o_shl_i64, arithmetic (shift_of BinaryOp.shl i64))
    ∷ (o_shr_si32, arithmetic (shift_of BinaryOp.ashr i32))
    ∷ (o_shr_si64, arithmetic (shift_of BinaryOp.ashr i64))
    ∷ (o_shr_ui32, arithmetic (shift_of BinaryOp.lshr i32))
    ∷ (o_shr_ui64, arithmetic (shift_of BinaryOp.lshr i64))
    ∷ (o_copysign_f32, arithmetic (copysign_of copysign_f32))
    ∷ (o_copysign_f64, arithmetic (copysign_of copysign_f64))
    ∷ []

-- `WEMBED_INTRINSIC`, and the labels that round, take an extremum or negate.
unfoldable pub unaries : List (ℕ × Action)
unaries =
    (o_ctz_i32, count_bits cttz_i32 i32)
    ∷ (o_ctz_i64, count_bits cttz_i64 i64)
    ∷ (o_clz_i32, count_bits ctlz_i32 i32)
    ∷ (o_clz_i64, count_bits ctlz_i64 i64)
    ∷ (o_popcnt_i32, apply ctpop_i32 i32)
    ∷ (o_popcnt_i64, apply ctpop_i64 i64)
    ∷ (o_sqrt_f32, apply sqrt_f32 float)
    ∷ (o_sqrt_f64, apply sqrt_f64 double)
    ∷ (o_abs_f32, apply abs_f32 float)
    ∷ (o_abs_f64, apply abs_f64 double)
    ∷ (o_ceil_f32, round_to ceil_f32 ceil_f64 float)
    ∷ (o_ceil_f64, round_to ceil_f32 ceil_f64 double)
    ∷ (o_floor_f32, round_to floor_f32 floor_f64 float)
    ∷ (o_floor_f64, round_to floor_f32 floor_f64 double)
    ∷ (o_trunc_f32, round_to trunc_f32 trunc_f64 float)
    ∷ (o_trunc_f64, round_to trunc_f32 trunc_f64 double)
    ∷ (o_nearest_f32, round_to nearest_f32 nearest_f64 float)
    ∷ (o_nearest_f64, round_to nearest_f32 nearest_f64 double)
    ∷ (o_min_f32, minimum float)
    ∷ (o_min_f64, minimum double)
    ∷ (o_max_f32, maximum float)
    ∷ (o_max_f64, maximum double)
    ∷ (o_neg_f32, negate float)
    ∷ (o_neg_f64, negate double)
    ∷ []

-- `WEMBED_CAST`, `WEMBED_SIGN_EXT`, the two that change the width of a number, and the prefix.
unfoldable pub conversions : List (ℕ × Action)
conversions =
    (o_wrap_i64, convert_to CastOp.trunc i64 i32)
    ∷ (o_extend_si32, convert_to sext i32 i64)
    ∷ (o_extend_ui32, convert_to zext i32 i64)
    ∷ (o_convert_f32_si32, convert_to si_to_fp i32 float)
    ∷ (o_convert_f32_si64, convert_to si_to_fp i64 float)
    ∷ (o_convert_f64_si32, convert_to si_to_fp i32 double)
    ∷ (o_convert_f64_si64, convert_to si_to_fp i64 double)
    ∷ (o_convert_f32_ui32, convert_to ui_to_fp i32 float)
    ∷ (o_convert_f32_ui64, convert_to ui_to_fp i64 float)
    ∷ (o_convert_f64_ui32, convert_to ui_to_fp i32 double)
    ∷ (o_convert_f64_ui64, convert_to ui_to_fp i64 double)
    ∷ (o_reinterpret_i32_f32, convert_to bit_cast float i32)
    ∷ (o_reinterpret_i64_f64, convert_to bit_cast double i64)
    ∷ (o_reinterpret_f32_i32, convert_to bit_cast i32 float)
    ∷ (o_reinterpret_f64_i64, convert_to bit_cast i64 double)
    ∷ (o_extend_i32_s8, extend_from i8 i32)
    ∷ (o_extend_i32_s16, extend_from i16 i32)
    ∷ (o_extend_i64_s8, extend_from i8 i64)
    ∷ (o_extend_i64_s16, extend_from i16 i64)
    ∷ (o_extend_i64_s32, extend_from i32 i64)
    ∷ (o_demote_f64, resize_float fp_trunc double float)
    ∷ (o_promote_f32, resize_float fp_ext float double)
    ∷ (o_prefix_numeric, numeric_prefix)
    ∷ []
