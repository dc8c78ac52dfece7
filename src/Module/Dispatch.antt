-- ===== src/Module/Dispatch.antt =====
-- The switch over the opcode in `module::parse_section_code` of src/module.cpp.
use wembed.Base.{
  ℕ, List, [], ◌∷◌, ◌++◌, Option, none, some, ◌==◌, if◌then◌else◌, malformed, ◌>>=◌, ◌>>◌, return,
  fail, String,
}
use wembed.Reader.{next_byte}
use wembed.Llvm.{Llvm}
use wembed.Module.{M, reading}
use wembed.Module.Stack.{pop}
use wembed.Module.Control.{Frame, block_op, loop_op, if_op, else_op, end_op}
use wembed.Module.Branches.{unreachable_op, br_op, br_if_op, br_table_op, return_op}
use wembed.Module.Calls.{
  call_op, call_indirect_op, select_op, get_local_op, set_local_op, tee_local_op, get_global_op,
  set_global_op,
}
use wembed.Module.Access.{
  load_op, store_op, memory_grow_op, memory_size_op, const_i32_op, const_i64_op, const_f32_op,
  const_f64_op,
}
use wembed.Module.Numeric.{
  trunc_op, sat_trunc_op, eqz_op, icmp_op, fcmp_op, binary_op, count_zeros_op, intrinsic_op,
  round_op, min_op, max_op, neg_op, cast_op, sign_ext_op, resize_float_op,
}
use wembed.Module.Action.{
  Action, nop, drop_value, block, loop, when, otherwise, finish, trap, branch, branch_if,
  branch_table, leave_function, call_function, call_through_table, choose, get_local, set_local,
  tee_local, get_global, set_global, grow_memory, size_of_memory, const_i32, const_i64, const_f32,
  const_f64, numeric_prefix, test_zero, negate, minimum, maximum, truncate, truncate_sat, load_from,
  store_to, compare_int, compare_real, arithmetic, count_bits, apply, round_to, convert_to,
  resize_float, extend_from,
}
use wembed.Module.Tables.{control, loads, stores}
use wembed.Module.Tables.Truncations.{truncations, saturating}
use wembed.Module.Operators.{comparisons, arithmetics, unaries, conversions}

unfoldable pub find : ℕ → List (ℕ × Action) → Option Action
find op [] = none
find op ((o, a) ∷ rest) = if o == op then some a else find op rest

-- The label that a byte selects, `none` for the default.
unfoldable pub action : ℕ → Option Action
unfolding find control loads stores truncations comparisons arithmetics unaries conversions
action op = find op (
    control
    ++ (loads
        ++ (stores ++ (truncations ++ (comparisons ++ (arithmetics ++ (unaries ++ conversions)))))))

unfoldable pub numeric_action : ℕ → Option Action
unfolding find saturating
numeric_action op = find op saturating

module _ ⦃L : Llvm⦄ where
  abbrev pub ignore : {A : Type 0} → M A → M (Unit {0})
  ignore c = do c; return tt

  -- Everything but the prefix, whose own switch selects another action.
  unfoldable pub run_action : Frame L → Action → M (Unit {0})
  run_action f nop = return tt
  run_action f drop_value = ignore pop
  run_action f block = block_op f
  run_action f loop = loop_op f
  run_action f when = if_op f
  run_action f otherwise = else_op
  run_action f finish = end_op
  run_action f trap = unreachable_op f
  run_action f branch = br_op
  run_action f branch_if = br_if_op f
  run_action f branch_table = br_table_op
  run_action f leave_function = return_op f
  run_action f call_function = call_op
  run_action f call_through_table = call_indirect_op f
  run_action f choose = select_op
  run_action f get_local = get_local_op f
  run_action f set_local = set_local_op f
  run_action f tee_local = tee_local_op f
  run_action f get_global = get_global_op
  run_action f set_global = set_global_op
  run_action f grow_memory = memory_grow_op
  run_action f size_of_memory = memory_size_op
  run_action f const_i32 = const_i32_op
  run_action f const_i64 = const_i64_op
  run_action f const_f32 = const_f32_op
  run_action f const_f64 = const_f64_op
  run_action f numeric_prefix = fail (malformed "unknown numeric instruction")
  run_action f (test_zero t) = eqz_op t
  run_action f (negate t) = neg_op t
  run_action f (minimum t) = min_op t
  run_action f (maximum t) = max_op t
  run_action f (truncate t) = trunc_op f t
  run_action f (truncate_sat t) = sat_trunc_op t
  run_action f (load_from t n c) = load_op f t n c
  run_action f (store_to t n o c) = store_op f t n o c
  run_action f (compare_int p) = icmp_op p
  run_action f (compare_real p) = fcmp_op p
  run_action f (arithmetic a) = binary_op f a
  run_action f (count_bits i t) = count_zeros_op i t
  run_action f (apply i t) = intrinsic_op i t
  run_action f (round_to i j t) = round_op i j t
  run_action f (convert_to op t o) = cast_op op t o
  run_action f (resize_float op t o) = resize_float_op op t o
  run_action f (extend_from t o) = sign_ext_op t o

  abbrev pub run_or : Frame L → String → Option Action → M (Unit {0})
  run_or f message none = fail (malformed message)
  run_or f message (some a) = run_action f a

  -- `case o_prefix_numeric` reads one more byte and switches over it.
  unfoldable pub run_numeric : Frame L → M (Unit {0})
  run_numeric f = do
    op ← reading next_byte
    run_or f "unknown numeric instruction" (numeric_action op)

  abbrev pub run_selected : Frame L → Option Action → M (Unit {0})
  run_selected f (some numeric_prefix) = run_numeric f
  run_selected f a = run_or f "unknown instruction" a

  unfoldable pub run_instruction : Frame L → ℕ → M (Unit {0})
  run_instruction f op = run_selected f (action op)
