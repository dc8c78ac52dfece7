-- ===== src/Llvm/Instructions.antt =====
-- The instructions that the compiler asks LLVM to build, with their operands, and the type that the
-- LLVM language reference gives to the result of each.
use wembed.Base.{ℕ, List, [], ◌∷◌, Bool}
use wembed.Lang.Types.{Ty, FnType, void, i1, i8, i32, i64, float, double, pointer, with_overflow}

pub data BinaryOp : Type 0 where
  add sub mul udiv sdiv urem srem and or xor shl lshr ashr : BinaryOp
  fadd fsub fmul fdiv : BinaryOp

pub data CastOp : Type 0 where
  trunc zext sext fp_trunc fp_ext si_to_fp ui_to_fp fp_to_si fp_to_ui : CastOp
  bit_cast int_to_ptr pointer_cast : CastOp

-- `LLVMIntPredicate` and `LLVMRealPredicate`.
pub data IntPredicate : Type 0 where
  int_eq int_ne int_ugt int_uge int_ult int_ule int_sgt int_sge int_slt int_sle : IntPredicate

pub data RealPredicate : Type 0 where
  real_oeq real_une real_ogt real_oge real_olt real_ole real_ord real_uno : RealPredicate

-- The functions that `init_intrinsics` declares, by the names of the fields that hold them.
pub data Intrinsic : Type 0 where
  mem_cpy ctlz_i32 ctlz_i64 cttz_i32 cttz_i64 ctpop_i32 ctpop_i64 sqrt_f32 sqrt_f64 : Intrinsic
  ceil_f32 ceil_f64 floor_f32 floor_f64 trunc_f32 trunc_f64 nearest_f32 nearest_f64 : Intrinsic
  abs_f32 abs_f64 min_f32 min_f64 max_f32 max_f64 copysign_f32 copysign_f64 : Intrinsic
  memory_grow memory_size table_size uadd_with_overflow_i32 uadd_with_overflow_i64 : Intrinsic
  throw_unlinkable throw_vm_exception : Intrinsic

abbrev unary : Ty → FnType
unary t = record { ret = t; params = t ∷ [] }

abbrev binary_on : Ty → FnType
binary_on t = record { ret = t; params = t ∷ t ∷ [] }

abbrev count_zeros : Ty → FnType
count_zeros t = record { ret = t; params = t ∷ i1 ∷ [] }

abbrev overflowing : Ty → FnType
overflowing t = record { ret = with_overflow t; params = t ∷ t ∷ [] }

abbrev thrower : FnType
thrower = record { ret = void; params = pointer i8 ∷ [] }

-- The type that `init_intrinsics` declares each with.
unfoldable pub intrinsic_type : Intrinsic → FnType
intrinsic_type mem_cpy = record { ret = void; params = pointer i8 ∷ pointer i8 ∷ i32 ∷ i1 ∷ [] }
intrinsic_type ctlz_i32 = count_zeros i32
intrinsic_type ctlz_i64 = count_zeros i64
intrinsic_type cttz_i32 = count_zeros i32
intrinsic_type cttz_i64 = count_zeros i64
intrinsic_type ctpop_i32 = unary i32
intrinsic_type ctpop_i64 = unary i64
intrinsic_type sqrt_f32 = unary float
intrinsic_type sqrt_f64 = unary double
intrinsic_type ceil_f32 = unary float
intrinsic_type ceil_f64 = unary double
intrinsic_type floor_f32 = unary float
intrinsic_type floor_f64 = unary double
intrinsic_type trunc_f32 = unary float
intrinsic_type trunc_f64 = unary double
intrinsic_type nearest_f32 = unary float
intrinsic_type nearest_f64 = unary double
intrinsic_type abs_f32 = unary float
intrinsic_type abs_f64 = unary double
intrinsic_type min_f32 = binary_on float
intrinsic_type min_f64 = binary_on double
intrinsic_type max_f32 = binary_on float
intrinsic_type max_f64 = binary_on double
intrinsic_type copysign_f32 = binary_on float
intrinsic_type copysign_f64 = binary_on double
intrinsic_type memory_grow = record { ret = i32; params = pointer i8 ∷ i32 ∷ [] }
intrinsic_type memory_size = record { ret = i32; params = pointer i8 ∷ [] }
intrinsic_type table_size = record { ret = i32; params = pointer i8 ∷ [] }
intrinsic_type uadd_with_overflow_i32 = overflowing i32
intrinsic_type uadd_with_overflow_i64 = overflowing i64
intrinsic_type throw_unlinkable = thrower
intrinsic_type throw_vm_exception = thrower

-- An instruction that has a result. `call_pointer` is a call through a pointer of a given type.
pub data Instr (V B : Type 0) : Type 0 where
  binary : BinaryOp → V → V → Instr V B
  cast : CastOp → V → Ty → Instr V B
  icmp : IntPredicate → V → V → Instr V B
  fcmp : RealPredicate → V → V → Instr V B
  select : V → V → V → Instr V B
  fneg : V → Instr V B
  call : V → List V → Instr V B
  call_pointer : FnType → V → List V → Instr V B
  call_intrinsic : Intrinsic → List V → Instr V B
  extract_overflow : V → Instr V B
  extract_value : Ty → V → Instr V B
  load : V → Instr V B
  load_as : Ty → V → Instr V B
  phi : Ty → Instr V B
  alloca : Ty → Instr V B
  in_bounds_gep : V → V → Instr V B
  switch : V → B → ℕ → Instr V B
  store : V → V → Instr V B

-- An instruction without a result, or a call that moves the builder or changes what it has built.
pub data Effect (V B : Type 0) : Type 0 where
  br : B → Effect V B
  cond_br : V → B → B → Effect V B
  ret : V → Effect V B
  ret_void : Effect V B
  unreachable : Effect V B
  add_incoming : V → V → B → Effect V B
  add_case : V → V → B → Effect V B
  position_at_end : B → Effect V B
  move_block_after : B → B → Effect V B
  erase_from_parent : V → Effect V B
  set_alignment : V → ℕ → Effect V B
  set_volatile : V → Effect V B
  set_initializer : V → V → Effect V B
  set_global_constant : V → Bool → Effect V B
  set_external_linkage : V → Effect V B
  set_value_name : V → List ℕ → Effect V B

module _ {V B : Type 0} (type_of : V → Ty) (function_type : V → FnType)
    (element_type : V → Ty) where
  abbrev pub result_type : Instr V B → Ty
  result_type (binary op a b) = type_of a
  result_type (cast op a t) = t
  result_type (icmp p a b) = i1
  result_type (fcmp p a b) = i1
  result_type (select c a b) = type_of a
  result_type (fneg a) = type_of a
  result_type (call f args) = (function_type f).ret
  result_type (call_pointer t f args) = t.ret
  result_type (call_intrinsic f args) = (intrinsic_type f).ret
  result_type (extract_overflow v) = i1
  result_type (extract_value t v) = t
  result_type (load v) = element_type v
  result_type (load_as t v) = t
  result_type (phi t) = t
  result_type (alloca t) = pointer t
  result_type (in_bounds_gep v i) = type_of v
  result_type (switch v b n) = void
  result_type (store v a) = void
