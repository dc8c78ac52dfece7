-- ===== src/Module/Action.antt =====
-- What the switch over the opcode in `module::parse_section_code` of src/module.cpp does for each of
-- its labels: the operation, with the arguments of the macro that the label stands for.
use wembed.Base.{ℕ}
use wembed.Lang.Types.{Ty}
use wembed.Llvm.Instructions.{CastOp, IntPredicate, RealPredicate, Intrinsic}
use wembed.Module.Access.{Conversion}
use wembed.Module.Numeric.{Truncation, Arithmetic}

pub data Action : Type 0 where
  nop drop_value block loop when otherwise finish trap : Action
  branch branch_if branch_table leave_function call_function call_through_table choose : Action
  get_local set_local tee_local get_global set_global grow_memory size_of_memory : Action
  const_i32 const_i64 const_f32 const_f64 numeric_prefix : Action
  test_zero negate minimum maximum : Ty → Action
  truncate truncate_sat : Truncation → Action
  load_from : Ty → ℕ → Conversion → Action
  store_to : Ty → ℕ → Ty → Conversion → Action
  compare_int : IntPredicate → Action
  compare_real : RealPredicate → Action
  arithmetic : Arithmetic → Action
  count_bits apply : Intrinsic → Ty → Action
  round_to : Intrinsic → Intrinsic → Ty → Action
  convert_to resize_float : CastOp → Ty → Ty → Action
  extend_from : Ty → Ty → Action
