-- ===== src/Module/Access.antt =====
-- `WEMBED_LOAD`, `WEMBED_STORE`, `memory.grow`, `memory.size` and the constants in
-- `module::parse_section_code` of src/module.cpp.
use wembed.Base.{
  ℕ, ◌^◌, Bool, true, false, List, [], ◌∷◌, leb, ltb, if◌then◌else◌, ok, throw, invalid, bad_shift,
  String, ◌>>=◌, ◌>>◌, return, throw_if,
}
use wembed.Reader.{parse, parse_uleb128, parse_sleb128}
use wembed.Lang.{MemoryType}
use wembed.Lang.Types.{Ty, i32, i64, float, double, pointer}
use wembed.Llvm.{Llvm}
use wembed.Llvm.Instructions.{
  cast, sext, zext, trunc, pointer_cast, extract_value, extract_overflow, call_intrinsic,
  uadd_with_overflow_i32, memory_grow, memory_size, in_bounds_gep, load_as, store, set_alignment,
  set_volatile, throw_vm_exception,
}
use wembed.Module.{M, reading, build, emit}
use wembed.Module.Stack.{push, pop_typed, pop_int}
use wembed.Module.Emit.{get_string, trap_if}
use wembed.Module.Control.{Frame}

-- The argument `CONVOP` of the two macros: the value as it is, or a conversion of it.
pub data Conversion : Type 0 where
  as_is : Conversion
  sign_extended zero_extended truncated : Ty → Conversion

module _ ⦃L : Llvm⦄ where
  abbrev pub no_memory : List MemoryType → Bool
  no_memory [] = true
  no_memory (t ∷ ts) = false

  abbrev pub need_memory : String → M (Unit {0})
  need_memory message m = throw_if (no_memory m.memory_types) (invalid message) m

  unfoldable pub convert : Conversion → L.Value → M L.Value
  convert as_is v = return v
  convert (sign_extended t) v = build (cast sext v t)
  convert (zero_extended t) v = build (cast zext v t)
  convert (truncated t) v = build (cast trunc v t)

  -- The address popped, plus the constant offset, in 32 bits: the code throws where the sum wraps.
  unfoldable pub effective_address : Frame L → ℕ → String → M L.Value
  effective_address f offset message = do
    base ← pop_int
    sum ← build (call_intrinsic uadd_with_overflow_i32 (base ∷ L.const_int i32 offset ∷ []))
    total_offset ← build (extract_value i32 sum)
    overflow ← build (extract_overflow sum)
    text ← get_string message
    trap_if f.func overflow throw_vm_exception (text ∷ [])
    return total_offset

  -- `uint lAlign = 1<<lFlags; if (lAlign > BYTES) throw …`
  unfoldable pub check_alignment : ℕ → ℕ → M (Unit {0})
  check_alignment flags bytes m =
      if leb 32 flags
      then throw bad_shift
      else throw_if (ltb bytes (2 ^ flags)) (invalid "unnatural alignment") m

  unfoldable pub load_op : Frame L → Ty → ℕ → Conversion → M (Unit {0})
  unfolding convert effective_address check_alignment
  load_op f type bytes conversion = do
    need_memory "load without memory block"
    flags ← reading (parse_uleb128 32)
    offset ← reading (parse_uleb128 32)
    total_offset ← effective_address f offset "load addr overflow"
    base_memory ← (λ m. ok (m.base_memory, m))
    offseted ← build (in_bounds_gep base_memory total_offset)
    casted ← build (cast pointer_cast offseted (pointer type))
    value ← build (load_as type casted)
    check_alignment flags bytes
    emit (set_alignment value (2 ^ flags))
    emit (set_volatile value)
    result ← convert conversion value
    push result

  unfoldable pub store_op : Frame L → Ty → ℕ → Ty → Conversion → M (Unit {0})
  unfolding convert effective_address check_alignment
  store_op f in_type bytes out_type conversion = do
    need_memory "store without memory block"
    flags ← reading (parse_uleb128 32)
    offset ← reading (parse_uleb128 32)
    value ← pop_typed in_type
    total_offset ← effective_address f offset "store addr overflow"
    base_memory ← (λ m. ok (m.base_memory, m))
    offseted ← build (in_bounds_gep base_memory total_offset)
    casted ← build (cast pointer_cast offseted (pointer out_type))
    stored ← convert conversion value
    instr ← build (store stored casted)
    check_alignment flags bytes
    emit (set_alignment instr (2 ^ flags))
    emit (set_volatile instr)

  unfoldable pub memory_grow_op : M (Unit {0})
  memory_grow_op = do
    need_memory "grow_memory without memory block"
    reading (parse_uleb128 8)
    delta ← pop_int
    context_ref ← (λ m. ok (m.context_ref, m))
    result ← build (call_intrinsic memory_grow (context_ref ∷ delta ∷ []))
    push result

  unfoldable pub memory_size_op : M (Unit {0})
  memory_size_op = do
    need_memory "current_memory without memory block"
    reading (parse_uleb128 8)
    context_ref ← (λ m. ok (m.context_ref, m))
    result ← build (call_intrinsic memory_size (context_ref ∷ []))
    push result

  unfoldable pub const_i32_op : M (Unit {0})
  const_i32_op = do n ← reading (parse_sleb128 32); push (L.const_int i32 n)

  unfoldable pub const_i64_op : M (Unit {0})
  const_i64_op = do n ← reading (parse_sleb128 64); push (L.const_int i64 n)

  -- `LLVMConstBitCast` of the bits, and `LLVMConstReal` of the number.
  unfoldable pub const_f32_op : M (Unit {0})
  const_f32_op = do n ← reading (parse 4); push (L.const_real float n)

  unfoldable pub const_f64_op : M (Unit {0})
  const_f64_op = do n ← reading (parse 8); push (L.const_real double n)
