-- ===== src/Module/Emit.antt =====
-- The helpers of src/module.cpp that emit LLVM code: traps, shifts, rotations, divisions and
-- remainders. Where C++ leaves the order of nested calls open, they are made from left to right.
pub mod Built
pub mod Rotate
pub mod Flow
pub mod Trap
pub mod Divide
use wembed.Base.{
  ℕ, String, ◌+◌, ◌-◌, ◌*◌, ◌^◌, ◌≡◌, Bool, true, false, not, List, [], ◌∷◌, Option, none, some,
  if◌then◌else◌, Result, ok, throw, malformed, runtime, Stateful, ◌>>=◌, ◌>>◌, return, fail,
}
use wembed.Lang.Types.{Ty, i1, i8, i32, i64, float, double, void, pointer, same_type}
use wembed.Llvm.{Llvm}
use wembed.Llvm.Instructions.{
  Instr, BinaryOp, binary, cast, icmp, select, phi, call_intrinsic, Intrinsic, throw_unlinkable,
  throw_vm_exception, memory_size, table_size, zext, int_to_ptr, int_eq, int_ne, int_slt, int_ugt,
  int_uge, br, cond_br, unreachable, add_incoming, position_at_end, move_block_after,
}
use wembed.Module.{Module, M, build, emit, append_block, insert_block}

-- `-1` and `numeric_limits<…>::min()` as bit patterns.
abbrev pub int32_min : ℕ
int32_min = 2 ^ 31

abbrev pub int64_min : ℕ
int64_min = 2 ^ 63

module _ ⦃L : Llvm⦄ where
  -- `get_const` for `int32_t`, `int64_t` and `bool`.
  abbrev pub const_i32 : ℕ → L.Value
  const_i32 n = L.const_int i32 n

  abbrev pub const_i64 : ℕ → L.Value
  const_i64 n = L.const_int i64 n

  abbrev pub const_bool : Bool → L.Value
  const_bool true = L.const_int i1 1
  const_bool false = L.const_int i1 0

  unfoldable pub bit_count : Ty → M ℕ
  bit_count i32 = return 32
  bit_count i64 = return 64
  bit_count float = return 32
  bit_count double = return 64
  bit_count _ = fail (malformed "unexpected value type")

  unfoldable pub get_zero : Ty → M L.Value
  get_zero i32 = return (L.const_int i32 0)
  get_zero i64 = return (L.const_int i64 0)
  get_zero float = return (L.const_real float 0)
  get_zero double = return (L.const_real double 0)
  get_zero _ = fail (runtime "unexpected value type")

  unfoldable pub get_string : String → M L.Value
  get_string s = build (cast int_to_ptr (const_i64 (L.string_address s)) (pointer i8))

  unfoldable pub i32_to_bool : L.Value → M L.Value
  i32_to_bool v = build (icmp int_ne v (const_i32 0))

  unfoldable pub bool_to_i32 : L.Value → M L.Value
  bool_to_i32 b = build (cast zext b i32)

  abbrev phi_at : Ty → L.Block → M (Option L.Value)
  phi_at type block = do
    before ← insert_block
    emit (position_at_end block)
    instr ← build (phi type)
    emit (position_at_end before)
    return (some instr)

  -- The phi of a block that gives a value; a null pointer for one that gives none.
  unfoldable pub create_phi : Ty → L.Block → M (Option L.Value)
  create_phi type block = if same_type type void then return none else phi_at type block

  -- Calls `intrinsic` where `condition` holds, and goes on in the block `trapSkip`.
  unfoldable pub trap_if : L.Value → L.Value → Intrinsic → List L.Value → M L.Block
  trap_if func condition intrinsic args = do
    trap_then ← append_block func
    trap_skip ← append_block func
    emit (cond_br condition trap_then trap_skip)
    prev_block ← insert_block
    emit (move_block_after trap_skip prev_block)
    emit (move_block_after trap_then prev_block)
    emit (position_at_end trap_then)
    build (call_intrinsic intrinsic args)
    emit unreachable
    emit (position_at_end trap_skip)
    return trap_skip

  unfoldable pub trap_data_copy : L.Value → L.Value → ℕ → M L.Block
  trap_data_copy func offset size = do
    context_ref ← λ m. ok (m.context_ref, m)
    memory_size_page ← build (call_intrinsic memory_size (context_ref ∷ []))
    memory_size_bytes ← build (binary BinaryOp.mul memory_size_page (const_i32 (64 * 1024)))
    zero ← get_zero (L.type_of offset)
    underflow ← build (icmp int_slt offset zero)
    total_offset ← build (binary BinaryOp.add offset (const_i32 size))
    overflow ← build (icmp int_ugt total_offset memory_size_bytes)
    bounds_error ← build (binary BinaryOp.or underflow overflow)
    message ← get_string "data segment does not fit"
    trap_if func bounds_error throw_unlinkable (message ∷ [])

  unfoldable pub trap_elem_copy : L.Value → L.Value → M L.Block
  trap_elem_copy func offset = do
    context_ref ← λ m. ok (m.context_ref, m)
    tab_size ← build (call_intrinsic table_size (context_ref ∷ []))
    overflow ← build (icmp int_uge offset tab_size)
    message ← get_string "elements segment does not fit trap_elem_copy"
    trap_if func overflow throw_unlinkable (message ∷ [])

  unfoldable pub trap_zero_div : L.Value → L.Value → L.Value → M L.Block
  trap_zero_div func lhs rhs = do
    zero ← get_zero (L.type_of rhs)
    div_zero ← build (icmp int_eq rhs zero)
    message ← get_string "int div by zero"
    trap_if func div_zero throw_vm_exception (message ∷ [])

  -- `lMin` and `lMinus1` for the type of the dividend.
  unfoldable pub signed_bounds : Ty → M (L.Value × L.Value)
  signed_bounds i32 = return (const_i32 int32_min, const_i32 (2 ^ 32 - 1))
  signed_bounds i64 = return (const_i64 int64_min, const_i64 (2 ^ 64 - 1))
  signed_bounds _ = fail (runtime "unexpected type in trap_szero_div")

  unfoldable pub trap_szero_div : L.Value → L.Value → L.Value → M L.Block
  trap_szero_div func lhs rhs = do
    (min, minus1) ← signed_bounds (L.type_of lhs)
    lhs_is_min ← build (icmp int_eq lhs min)
    rhs_is_minus1 ← build (icmp int_eq rhs minus1)
    overflow ← build (binary BinaryOp.and lhs_is_min rhs_is_minus1)
    zero ← get_zero (L.type_of rhs)
    div_zero ← build (icmp int_eq rhs zero)
    szero_div ← build (binary BinaryOp.or div_zero overflow)
    message ← get_string "int div by zero or overflow"
    trap_if func szero_div throw_vm_exception (message ∷ [])

  unfoldable pub emit_shift_mask : Ty → L.Value → M L.Value
  emit_shift_mask type count = do
    n ← bit_count type
    width ← build (cast zext (const_i32 (n - 1)) type)
    build (binary BinaryOp.and count width)

  unfoldable pub emit_rotl : Ty → L.Value → L.Value → M L.Value
  emit_rotl type lhs rhs = do
    n ← bit_count type
    width ← build (cast zext (const_i32 n) type)
    bit_width_minus_right ← build (binary BinaryOp.sub width rhs)
    left ← emit_shift_mask type rhs
    high ← build (binary BinaryOp.shl lhs left)
    right ← emit_shift_mask type bit_width_minus_right
    low ← build (binary BinaryOp.lshr lhs right)
    build (binary BinaryOp.or high low)

  unfoldable pub emit_rotr : Ty → L.Value → L.Value → M L.Value
  emit_rotr type lhs rhs = do
    n ← bit_count type
    width ← build (cast zext (const_i32 n) type)
    bit_width_minus_right ← build (binary BinaryOp.sub width rhs)
    left ← emit_shift_mask type bit_width_minus_right
    high ← build (binary BinaryOp.shl lhs left)
    right ← emit_shift_mask type rhs
    low ← build (binary BinaryOp.lshr lhs right)
    build (binary BinaryOp.or high low)

  unfoldable pub emit_udiv : Ty → L.Value → L.Value → L.Value → M L.Value
  emit_udiv type func lhs rhs = do trap_zero_div func lhs rhs; build (binary BinaryOp.udiv lhs rhs)

  unfoldable pub emit_sdiv : Ty → L.Value → L.Value → L.Value → M L.Value
  emit_sdiv type func lhs rhs = do trap_szero_div func lhs rhs; build (binary BinaryOp.sdiv lhs rhs)

  unfoldable pub emit_urem : Ty → L.Value → L.Value → L.Value → M L.Value
  emit_urem type func lhs rhs = do trap_zero_div func lhs rhs; build (binary BinaryOp.urem lhs rhs)

  -- `pType == LLVMInt32Type() ? … : …`
  abbrev by_width : Ty → ℕ → ℕ → L.Value
  by_width type narrow wide = if same_type type i32 then const_i32 narrow else const_i64 wide

  unfoldable pub emit_srem : Ty → L.Value → L.Value → L.Value → M L.Value
  emit_srem type func lhs rhs = do
    trap_zero_div func lhs rhs
    pre_test ← insert_block
    srem_then ← append_block func
    srem_end ← append_block func
    left_test ← build (icmp int_ne lhs (by_width type int32_min int64_min))
    right_test ← build (icmp int_ne rhs (by_width type (2 ^ 32 - 1) (2 ^ 64 - 1)))
    no_overflow ← build (binary BinaryOp.or left_test right_test)
    emit (cond_br no_overflow srem_then srem_end)
    emit (position_at_end srem_then)
    srem ← build (binary BinaryOp.srem lhs rhs)
    emit (br srem_end)
    emit (position_at_end srem_end)
    result ← build (phi type)
    zero ← get_zero type
    emit (add_incoming result srem srem_then)
    emit (add_incoming result zero pre_test)
    return result
