-- ===== src/Module/Calls.antt =====
-- The instructions in `module::parse_section_code` of src/module.cpp that call functions, and those
-- that read and write locals and globals.
use wembed.Base.{
  ℕ, zero, suc, ◌+◌, ◌-◌, ◌≡◌, Bool, true, false, not, ◌&&◌, List, [], ◌∷◌, ◌++◌, Option, none,
  some, leb, ltb, if◌then◌else◌, length, take, drop, get_elem?, Result, ok, throw, invalid, overrun,
  Stateful, ◌>>=◌, ◌>>◌, return, fail, throw_if,
}
use mathlib.Core.List.{reverse}
use wembed.Reader.{parse_uleb128}
use wembed.Lang.Types.{Ty, i8, i32, i64, void, pointer, same_type}
use wembed.Llvm.{Llvm}
use wembed.Llvm.Instructions.{
  call, call_pointer, select, load, load_as, cast, pointer_cast, int_to_ptr, in_bounds_gep, icmp,
  int_ne, store, throw_vm_exception,
}
use wembed.Module.{M, Table, reading, build}
use wembed.Module.Stack.{top_typed, push, pop, pop_typed}
use wembed.Module.Emit.{const_i64, get_string, i32_to_bool, trap_if}
use wembed.Module.Control.{Frame}
use wembed.Utils.{hash_fn_type}

module _ ⦃L : Llvm⦄ where
  abbrev pub or_throw {ℓ} : {A S : Type ℓ} → Option A → wembed.Base.Exception → S → Result (A × S)
  or_throw none e s = throw e
  or_throw (some a) e s = ok (a, s)

  -- The last `count` values of the stack, oldest first, taken off it. The check is against the whole
  -- stack, not against the floor of the block at hand.
  unfoldable pub take_args : ℕ → M (List L.Value)
  take_args count m =
      if ltb (length m.eval_stack) count
      then throw (invalid "not enough args in stack")
      else ok (reverse (take count m.eval_stack), record m { eval_stack = drop count m.eval_stack })

  -- The loop over `lCalleeParams[i]` and `lArgTypes[i]`, which are as many.
  unfoldable pub check_args : List L.Value → List Ty → M (Unit {0})
  check_args [] ts = return tt
  check_args (v ∷ vs) [] = fail overrun
  check_args (v ∷ vs) (t ∷ ts) = do
    throw_if (not (same_type (L.type_of v) t)) (invalid "arg type mismatch")
    check_args vs ts

  abbrev pub push_call : Ty → L.Value → M (Unit {0})
  push_call type result = if same_type type void then return tt else push result

  unfoldable pub call_op : M (Unit {0})
  unfolding take_args check_args
  call_op = do
    index ← reading (parse_uleb128 32)
    callee ←
        (λ m. or_throw (get_elem? m.functions index) (invalid "function index out of bounds") m)
    let type = L.function_type callee.value
    args ← take_args (length (L.params callee.value))
    check_args args type.params
    result ← build (call callee.value args)
    push_call type.ret result

  abbrev pub first_table : List (Table L) → M (Table L)
  first_table [] = fail overrun
  first_table (t ∷ ts) = return t

  abbrev pub is_empty {ℓ} : {A : Type ℓ} → List A → Bool
  is_empty [] = true
  is_empty (x ∷ xs) = false

  unfoldable pub call_indirect_op : Frame L → M (Unit {0})
  unfolding take_args check_args
  call_indirect_op f = do
    (λ m. throw_if (is_empty m.tables) (invalid "can't use call indirect without table") m)
    signature ← reading (parse_uleb128 32)
    reading (parse_uleb128 8)
    callee_indice ← pop_typed i32
    type ← (λ m. or_throw (get_elem? m.types signature) (invalid "invalid type index") m)
    args ← take_args (length type.params)
    check_args args type.params
    table ← (λ m. first_table m.tables m)
    table_types ← build (cast pointer_cast table.types (pointer i64))
    table_type_ptr ← build (in_bounds_gep table_types callee_indice)
    table_type ← build (load_as i64 table_type_ptr)
    test_type ← build (icmp int_ne (const_i64 (hash_fn_type type)) table_type)
    message ← get_string "call to uninitialized table element"
    trap_if f.func test_type throw_vm_exception (message ∷ [])
    table_ptr ← build (cast pointer_cast table.pointers (pointer (pointer i8)))
    function_ptr ← build (in_bounds_gep table_ptr callee_indice)
    raw_func_ptr ← build (load_as (pointer i8) function_ptr)
    func_ptr ← build (cast pointer_cast raw_func_ptr (pointer i8))
    result ← build (call_pointer type func_ptr args)
    push_call type.ret result

  unfoldable pub select_op : M (Unit {0})
  select_op = do
    condition ← pop_typed i32
    if_false ← pop
    if_true ← pop_typed (L.type_of if_false)
    test ← i32_to_bool condition
    result ← build (select test if_true if_false)
    push result

  abbrev pub local_at : Frame L → ℕ → M L.Value
  local_at f index m = or_throw (get_elem? f.locals index) (invalid "local index out of bounds") m

  unfoldable pub get_local_op : Frame L → M (Unit {0})
  get_local_op f = do
    index ← reading (parse_uleb128 32)
    local ← local_at f index
    value ← build (load local)
    push value

  unfoldable pub set_local_op : Frame L → M (Unit {0})
  set_local_op f = do
    index ← reading (parse_uleb128 32)
    local ← local_at f index
    value ← pop_typed (L.element_type local)
    same ← build (cast int_to_ptr value (L.element_type local))
    build (store same local)
    return tt

  unfoldable pub tee_local_op : Frame L → M (Unit {0})
  tee_local_op f = do
    index ← reading (parse_uleb128 32)
    local ← local_at f index
    value ← top_typed (L.element_type local)
    same ← build (cast int_to_ptr value (L.element_type local))
    build (store same local)
    return tt

  abbrev pub global_at : ℕ → M L.Value
  global_at index m = or_throw (get_elem? m.globals index) (invalid "global index out of bounds") m

  unfoldable pub get_global_op : M (Unit {0})
  get_global_op = do
    index ← reading (parse_uleb128 32)
    global ← global_at index
    value ← build (load global)
    push value

  unfoldable pub set_global_op : M (Unit {0})
  set_global_op = do
    index ← reading (parse_uleb128 32)
    global ← global_at index
    value ← pop_typed (L.element_type global)
    same ← build (cast int_to_ptr value (L.element_type global))
    build (store same global)
    return tt
