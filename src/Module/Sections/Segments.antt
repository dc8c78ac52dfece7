-- ===== src/Module/Sections/Segments.antt =====
-- `module::parse_section_element` and `module::parse_section_data` of src/module.cpp. Both build a
-- function whose block `checks` tests that the segments fit before its block `copies` writes them.
use wembed.Base.{
  ℕ, zero, suc, ◌+◌, ◌%◌, ◌^◌, not, [], ◌∷◌, ◌==◌, ltb, if◌then◌else◌, get_elem?, ok, invalid,
  ◌>>=◌, ◌>>◌, return, throw_if,
}
use wembed.Reader.{parse_uleb128}
use wembed.Lang.{anyfunc}
use wembed.Lang.Types.{i1, i8, i32, pointer}
use wembed.Llvm.{Llvm}
use wembed.Llvm.Instructions.{
  BinaryOp, binary, cast, int_to_ptr, pointer_cast, icmp, int_ugt, call_intrinsic, mem_cpy,
  table_size, in_bounds_gep, store, throw_unlinkable, br, ret_void, position_at_end,
}
use wembed.Module.{M, Table, reading, build, emit, append_block}
use wembed.Module.Emit.{const_i32, const_i64, get_string, trap_if, trap_data_copy, trap_elem_copy}
use wembed.Module.Calls.{or_throw}
use wembed.Module.Access.{need_memory}
use wembed.Module.Sections.{advance_by}
use wembed.Module.Sections.Init.{
  Init, run_init, parse_llvm_init, add_init_function, call_from_start,
}

module _ ⦃L : Llvm⦄ where
  -- `lOffset + lElemIndex`
  abbrev pub element_offset : Init L.Value → ℕ → M L.Value
  element_offset offset_init elem_index = do
    offset ← run_init offset_init
    build (binary BinaryOp.add offset (const_i32 elem_index))

  -- The number of the function plus one, for the context to replace.
  abbrev pub copy_element : Table L → Init L.Value → ℕ → ℕ → M (Unit {0})
  copy_element table offset_init elem_index func_index = do
    total_offset ← element_offset offset_init elem_index
    table_ptr ← build (cast pointer_cast table.pointers (pointer (pointer i8)))
    place ← build (in_bounds_gep table_ptr total_offset)
    number ← build (cast int_to_ptr (const_i32 (func_index + 1)) (pointer i8))
    build (store number place)
    return tt

  -- The rest of the elements from `elem_index`; the result is where the checks go on.
  unfoldable pub parse_elements :
      L.Value → Table L → Init L.Value → L.Block → L.Block → ℕ → ℕ → M L.Block
  unfolding run_init
  parse_elements init table offset_init checks copies elem_index zero = return checks
  parse_elements init table offset_init checks copies elem_index (suc count) = do
    func_index ← reading (parse_uleb128 32)
    (λ m. or_throw (get_elem? m.functions func_index) (invalid "function index out of bounds") m)
    emit (position_at_end checks)
    total_offset ← element_offset offset_init elem_index
    next_checks ← trap_elem_copy init total_offset
    emit (position_at_end copies)
    copy_element table offset_init elem_index func_index
    parse_elements init table offset_init next_checks copies (elem_index + 1) count

  abbrev pub elements_of : L.Value → Table L → Init L.Value → L.Block → L.Block → M L.Block
  elements_of init table offset_init checks copies =
      if table.type.elem_type == anyfunc
      then (do
        count ← reading (parse_uleb128 32)
        parse_elements init table offset_init checks copies 0 count)
      else return checks

  unfoldable pub parse_element_segment : L.Value → L.Block → L.Block → M L.Block
  unfolding parse_elements
  parse_element_segment init checks copies = do
    index ← reading (parse_uleb128 32)
    table ← (λ m. or_throw (get_elem? m.tables index) (invalid "table index out of bounds") m)
    emit (position_at_end checks)
    offset_init ← parse_llvm_init i32
    offset ← run_init offset_init
    context_ref ← (λ m. ok (m.context_ref, m))
    tab_size ← build (call_intrinsic table_size (context_ref ∷ []))
    overflow ← build (icmp int_ugt offset tab_size)
    message ← get_string "elements segment does not fit"
    next_checks ← trap_if init overflow throw_unlinkable (message ∷ [])
    elements_of init table offset_init next_checks copies

  unfoldable pub parse_element_list : L.Value → L.Block → ℕ → L.Block → M L.Block
  unfolding parse_element_segment
  parse_element_list init copies zero checks = return checks
  parse_element_list init copies (suc count) checks = do
    next_checks ← parse_element_segment init checks copies
    parse_element_list init copies count next_checks

  -- The ends of the two blocks, and the call from the start function.
  abbrev pub finish_init : L.Value → L.Block → L.Block → M (Unit {0})
  finish_init init checks copies = do
    emit (position_at_end checks)
    emit (br copies)
    emit (position_at_end copies)
    emit ret_void
    call_from_start init

  unfoldable pub parse_section_element : M (Unit {0})
  unfolding parse_element_list
  parse_section_element = do
    init ← add_init_function
    checks ← append_block init
    copies ← append_block init
    count ← reading (parse_uleb128 32)
    last_checks ← parse_element_list init copies count checks
    finish_init init last_checks copies

  -- `LLVMConstInt(i64, ull_t(mCurrent))`, where `base` is the address of the module's bytes.
  abbrev source_address : ℕ → M L.Value
  source_address base m = ok (const_i64 ((base + m.reader.current) % 2 ^ 64), m)

  abbrev pub copy_data : ℕ → L.Value → L.Block → ℕ → M (Unit {0})
  copy_data base offset copies size = do
    emit (position_at_end copies)
    base_memory ← (λ m. ok (m.base_memory, m))
    offseted ← build (in_bounds_gep base_memory offset)
    address ← source_address base
    source ← build (cast int_to_ptr address (pointer i8))
    build
        (call_intrinsic mem_cpy (offseted ∷ source ∷ L.const_int i32 size ∷ L.const_int i1 1 ∷ []))
    reading (advance_by size)

  unfoldable pub parse_data_segment : ℕ → L.Value → L.Block → L.Block → M L.Block
  parse_data_segment base init checks copies = do
    index ← reading (parse_uleb128 32)
    throw_if (not (index == 0)) (invalid "multiple memory block not supported")
    offset_init ← parse_llvm_init i32
    offset ← run_init offset_init
    size ← reading (parse_uleb128 32)
    emit (position_at_end checks)
    next_checks ← trap_data_copy init offset size
    (if ltb 0 size then copy_data base offset copies size else return tt)
    return next_checks

  unfoldable pub parse_data_list : ℕ → L.Value → L.Block → ℕ → L.Block → M L.Block
  unfolding parse_data_segment
  parse_data_list base init copies zero checks = return checks
  parse_data_list base init copies (suc count) checks = do
    next_checks ← parse_data_segment base init checks copies
    parse_data_list base init copies count next_checks

  unfoldable pub parse_section_data : ℕ → M (Unit {0})
  unfolding parse_data_list
  parse_section_data base = do
    need_memory "data provided without memory section"
    init ← add_init_function
    checks ← append_block init
    copies ← append_block init
    emit (position_at_end checks)
    count ← reading (parse_uleb128 32)
    last_checks ← parse_data_list base init copies count checks
    finish_init init last_checks copies
