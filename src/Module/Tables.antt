-- ===== src/Module/Tables.antt =====
-- The labels of the switch in `module::parse_section_code` of src/module.cpp: control, variables,
-- constants and memory.
pub mod Truncations
use wembed.Base.{ℕ, ◌-◌, ◌^◌, List, [], ◌∷◌}
use wembed.Lang.Opcodes.{
  o_unreachable, o_nop, o_block, o_loop, o_if, o_else, o_end, o_br, o_br_if, o_br_table, o_return,
  o_call, o_call_indirect, o_drop, o_select, o_get_local, o_set_local, o_tee_local, o_get_global,
  o_set_global, o_load_i32, o_load_i64, o_load_f32, o_load_f64, o_store_i32, o_store_i64,
  o_store_f32, o_store_f64, o_const_i32, o_const_i64, o_const_f32, o_const_f64, o_load8_si32,
  o_load16_si32, o_load8_si64, o_load16_si64, o_load32_si64, o_load8_ui32, o_load16_ui32,
  o_load8_ui64, o_load16_ui64, o_load32_ui64, o_store8_i32, o_store16_i32, o_store8_i64,
  o_store16_i64, o_store32_i64, o_eqz_i32, o_eqz_i64, o_trunc_f32_si32, o_trunc_f64_si32,
  o_trunc_f32_si64, o_trunc_f64_si64, o_trunc_f32_ui32, o_trunc_f64_ui32, o_trunc_f32_ui64,
  o_trunc_f64_ui64, o_memory_grow, o_memory_size, o_trunc_sat_f32_si32, o_trunc_sat_f32_ui32,
  o_trunc_sat_f64_si32, o_trunc_sat_f64_ui32, o_trunc_sat_f32_si64, o_trunc_sat_f32_ui64,
  o_trunc_sat_f64_si64, o_trunc_sat_f64_ui64,
}
use wembed.Lang.Types.{i8, i16, i32, i64, float, double}
use wembed.Llvm.Instructions.{fp_to_si, fp_to_ui}
use wembed.Module.Access.{as_is, sign_extended, zero_extended, truncated}
use wembed.Utils.{fp_float, fp_double}
use wembed.Module.Action.{
  Action, nop, drop_value, block, loop, when, otherwise, finish, trap, branch, branch_if,
  branch_table, leave_function, call_function, call_through_table, choose, get_local, set_local,
  tee_local, get_global, set_global, grow_memory, size_of_memory, const_i32, const_i64, const_f32,
  const_f64, test_zero, truncate, truncate_sat, load_from, store_to,
}

-- The labels that are written out.
unfoldable pub control : List (ℕ × Action)
control =
    (o_nop, nop)
    ∷ (o_drop, drop_value)
    ∷ (o_block, block)
    ∷ (o_loop, loop)
    ∷ (o_if, when)
    ∷ (o_else, otherwise)
    ∷ (o_end, finish)
    ∷ (o_unreachable, trap)
    ∷ (o_br, branch)
    ∷ (o_br_if, branch_if)
    ∷ (o_br_table, branch_table)
    ∷ (o_return, leave_function)
    ∷ (o_call, call_function)
    ∷ (o_call_indirect, call_through_table)
    ∷ (o_select, choose)
    ∷ (o_eqz_i32, test_zero i32)
    ∷ (o_eqz_i64, test_zero i64)
    ∷ (o_get_local, get_local)
    ∷ (o_set_local, set_local)
    ∷ (o_tee_local, tee_local)
    ∷ (o_get_global, get_global)
    ∷ (o_set_global, set_global)
    ∷ (o_memory_grow, grow_memory)
    ∷ (o_memory_size, size_of_memory)
    ∷ (o_const_i32, const_i32)
    ∷ (o_const_i64, const_i64)
    ∷ (o_const_f32, const_f32)
    ∷ (o_const_f64, const_f64)
    ∷ []

-- `WEMBED_LOAD`
unfoldable pub loads : List (ℕ × Action)
loads =
    (o_load_i32, load_from i32 4 as_is)
    ∷ (o_load_i64, load_from i64 8 as_is)
    ∷ (o_load_f32, load_from float 4 as_is)
    ∷ (o_load_f64, load_from double 8 as_is)
    ∷ (o_load8_si32, load_from i8 1 (sign_extended i32))
    ∷ (o_load16_si32, load_from i16 2 (sign_extended i32))
    ∷ (o_load8_si64, load_from i8 1 (sign_extended i64))
    ∷ (o_load16_si64, load_from i16 2 (sign_extended i64))
    ∷ (o_load32_si64, load_from i32 4 (sign_extended i64))
    ∷ (o_load8_ui32, load_from i8 1 (zero_extended i32))
    ∷ (o_load16_ui32, load_from i16 2 (zero_extended i32))
    ∷ (o_load8_ui64, load_from i8 1 (zero_extended i64))
    ∷ (o_load16_ui64, load_from i16 2 (zero_extended i64))
    ∷ (o_load32_ui64, load_from i32 4 (zero_extended i64))
    ∷ []

-- `WEMBED_STORE`
unfoldable pub stores : List (ℕ × Action)
stores =
    (o_store_i32, store_to i32 4 i32 as_is)
    ∷ (o_store_i64, store_to i64 8 i64 as_is)
    ∷ (o_store_f32, store_to float 4 float as_is)
    ∷ (o_store_f64, store_to double 8 double as_is)
    ∷ (o_store8_i32, store_to i32 1 i8 (truncated i8))
    ∷ (o_store16_i32, store_to i32 2 i16 (truncated i16))
    ∷ (o_store8_i64, store_to i64 1 i8 (truncated i8))
    ∷ (o_store16_i64, store_to i64 2 i16 (truncated i16))
    ∷ (o_store32_i64, store_to i64 4 i32 (truncated i32))
    ∷ []
