-- ===== src/Module/Sections/Init.antt =====
-- `module::parse_llvm_init` and `module::parse_globals` of src/module.cpp. The closure that the
-- former returns is either a constant or the number of a global.
use wembed.Base.{
  ℕ, zero, suc, Bool, true, false, not, [], ◌==◌, if◌then◌else◌, get_elem?, ok, invalid, overrun,
  ◌>>=◌, ◌>>◌, return, fail, throw_if,
}
use wembed.Reader.{parse, parse_uleb128, parse_sleb128}
use wembed.Lang.Opcodes.{o_const_i32, o_const_i64, o_const_f32, o_const_f64, o_get_global, o_end}
use wembed.Lang.Types.{Ty, FnType, void, i32, i64, float, double, same_type}
use wembed.Llvm.{Llvm}
use wembed.Llvm.Instructions.{
  load, store, call, set_initializer, set_global_constant, position_at_end, ret_void,
}
use wembed.Module.{M, reading, build, emit, append_block}
use wembed.Module.Emit.{get_zero}
use wembed.Module.Control.{parse_llvm_vtype}
use wembed.Module.Calls.{or_throw}
use wembed.Module.Sections.{new_global, keep_global}

pub data Init (V : Type 0) : Type 0 where
  constant : V → Init V
  from_global : ℕ → Init V

module _ ⦃L : Llvm⦄ where
  -- A call of the closure.
  unfoldable pub run_init : Init L.Value → M L.Value
  run_init (constant v) = return v
  run_init (from_global index) = do
    global ← (λ m. or_throw (get_elem? m.globals index) overrun m)
    build (load global)

  unfoldable pub init_global : Ty → M (Init L.Value)
  init_global type = do
    index ← reading (parse_sleb128 32)
    global ← (λ m. or_throw (get_elem? m.globals index) (invalid "global index out of bounds") m)
    throw_if (not (same_type type (L.element_type global)))
        (invalid "init global, expected other type")
    return (from_global index)

  unfoldable pub init_value : Ty → ℕ → M (Init L.Value)
  unfolding init_global
  init_value type instr =
      if instr == o_const_i32
      then (do
        throw_if (not (same_type type i32)) (invalid "init i32, expected other type")
        n ← reading (parse_sleb128 32)
        return (constant (L.const_int i32 n)))
      else if instr == o_const_i64
      then (do
        throw_if (not (same_type type i64)) (invalid "init i64, expected other type")
        n ← reading (parse_sleb128 64)
        return (constant (L.const_int i64 n)))
      else if instr == o_const_f32
      then (do
        throw_if (not (same_type type float)) (invalid "init f32, expected other type")
        n ← reading (parse 4)
        return (constant (L.const_real float n)))
      else if instr == o_const_f64
      then (do
        throw_if (not (same_type type double)) (invalid "init f64, expected other type")
        n ← reading (parse 8)
        return (constant (L.const_real double n)))
      else if instr == o_get_global
      then init_global type
      else fail (invalid "unsupported init expr instr")

  unfoldable pub parse_llvm_init : Ty → M (Init L.Value)
  unfolding init_value
  parse_llvm_init type = do
    instr ← reading (parse 1)
    init ← init_value type instr
    end ← reading (parse 1)
    throw_if (not (end == o_end)) (invalid "expected end after init expr")
    return init

  abbrev pub void_function : FnType
  void_function = record { ret = void; params = [] }

  -- A function `wembed.start.…` that the start function calls.
  abbrev pub add_init_function : M L.Value
  add_init_function m =
      let (f, b) = L.add_function void_function m.builder in ok (f, record m { builder = b })

  abbrev pub call_from_start : L.Value → M (Unit {0})
  call_from_start init = do
    start_init ← (λ m. ok (m.start_init, m))
    emit (position_at_end start_init)
    build (call init [])
    return tt

  abbrev pub initialise : Ty → L.Value → L.Value → Bool → M (Unit {0})
  initialise type global value true = emit (set_initializer global value)
  initialise type global value false = do
    zero_value ← get_zero type
    emit (set_initializer global zero_value)
    build (store value global)
    emit (set_global_constant global false)

  unfoldable pub parse_global : M (Unit {0})
  unfolding parse_llvm_init run_init
  parse_global = do
    type ← reading parse_llvm_vtype
    mutable ← reading (parse 1)
    init ← parse_llvm_init type
    value ← run_init init
    global ← new_global type
    emit (set_global_constant global (mutable == 0))
    initialise type global value (L.is_constant value)
    keep_global global

  unfoldable pub parse_global_list : ℕ → M (Unit {0})
  unfolding parse_global
  parse_global_list zero = return tt
  parse_global_list (suc count) = do parse_global; parse_global_list count

  unfoldable pub parse_globals : M (Unit {0})
  unfolding parse_global_list
  parse_globals = do
    init ← add_init_function
    block ← append_block init
    emit (position_at_end block)
    count ← reading (parse_uleb128 32)
    parse_global_list count
    emit ret_void
    call_from_start init
