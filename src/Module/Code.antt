-- ===== src/Module/Code.antt =====
-- The loop over the functions in `module::parse_section_code` of src/module.cpp, and the loop over
-- the instructions of one.
use wembed.Base.{
  ℕ, zero, suc, ◌+◌, Bool, true, false, not, List, [], ◌∷◌, ◌++◌, Option, none, some, ◌==◌, ◌&&◌,
  ltb, if◌then◌else◌, length, get_elem?, ok, throw, invalid, overrun, out_of_fuel, ◌>>=◌, ◌>>◌,
  return, fail, assert,
}
use wembed.Reader.{next_byte, parse_uleb128}
use wembed.Lang.Types.{Ty, void, same_type}
use wembed.Llvm.{Llvm}
use wembed.Llvm.Instructions.{alloca, store, position_at_end, ret, ret_void}
use wembed.Module.{
  M, CfEntry, FuncDef, cf_function, reading, build, emit, append_block, insert_block,
}
use wembed.Module.Stack.{push_cf_entry, push_block_entry, back_reachable, pop_typed}
use wembed.Module.Emit.{create_phi, get_zero}
use wembed.Module.Control.{Frame, parse_llvm_vtype}
use wembed.Module.Dispatch.{run_instruction}
use wembed.Module.Skip.{skip_of, skip_dead}

module _ ⦃L : Llvm⦄ where
  abbrev pub no_entries : List (CfEntry L) → Bool
  no_entries [] = true
  no_entries (c ∷ cs) = false

  abbrev pub compile_if : Frame L → ℕ → Bool → M (Unit {0})
  compile_if f op true = run_instruction f op
  compile_if f op false = return tt

  abbrev pub dispatch : Frame L → ℕ → Bool → M (Unit {0})
  dispatch f op true = run_instruction f op
  dispatch f op false = do compiled ← skip_dead (skip_of op); compile_if f op compiled

  -- One turn of the `while`.
  unfoldable pub body_step : Frame L → M (Unit {0})
  body_step f = do op ← reading next_byte; λ m. dispatch f op (back_reachable m.cf_entries) m

  -- `while (mCurrent < lEndPos && !mCFEntries.empty())`
  unfoldable pub body_loop : Frame L → ℕ → ℕ → M (Unit {0})
  body_loop f end zero m =
      if ltb m.reader.current end && not (no_entries m.cf_entries)
      then throw out_of_fuel
      else ok (tt, m)
  body_loop f end (suc fuel) m =
      if ltb m.reader.current end && not (no_entries m.cf_entries)
      then (body_step f >>= λ done. body_loop f end fuel) m
      else ok (tt, m)

  -- The parameters come with their types, `lParams` and `lParamTypes`.
  unfoldable pub store_params : List L.Value → List Ty → M (List L.Value)
  store_params (p ∷ ps) (t ∷ ts) = do
    alloc ← build (alloca t)
    build (store p alloc)
    locals ← store_params ps ts
    return (alloc ∷ locals)
  store_params ps [] = return []
  store_params [] (t ∷ ts) = fail overrun

  unfoldable pub add_locals : Ty → L.Value → ℕ → M (List L.Value)
  add_locals type zero_value zero = return []
  add_locals type zero_value (suc count) = do
    alloc ← build (alloca type)
    build (store zero_value alloc)
    locals ← add_locals type zero_value count
    return (alloc ∷ locals)

  unfoldable pub parse_locals : ℕ → M (List L.Value)
  unfolding add_locals
  parse_locals zero = return []
  parse_locals (suc groups) = do
    count ← reading (parse_uleb128 32)
    type ← reading parse_llvm_vtype
    zero_value ← get_zero type
    locals ← add_locals type zero_value count
    others ← parse_locals groups
    return (locals ++ others)

  abbrev pub current : M ℕ
  current m = ok (m.reader.current, m)

  abbrev pub return_from : Ty → M (Unit {0})
  return_from type =
      if same_type type void then emit ret_void else (do value ← pop_typed type; emit (ret value))

  abbrev pub function_at : Option (FuncDef L) → M L.Value
  function_at none = fail (invalid "function index out of bounds")
  function_at (some f) = return f.value

  -- Each turn of the loop reads a byte, so one turn more than there are bytes of input is enough.
  unfoldable pub run_body : Frame L → ℕ → M (Unit {0})
  unfolding body_loop
  run_body f end m = body_loop f end (suc (length m.reader.input)) m

  -- A body of one function.
  unfoldable pub parse_function : L.Value → M (Unit {0})
  unfolding store_params parse_locals run_body
  parse_function func = do
    let type = L.function_type func
    func_end ← append_block func
    return_phi ← create_phi type.ret func_end
    push_cf_entry cf_function type.ret func_end return_phi none
    push_block_entry type.ret func_end return_phi
    func_entry ← append_block func
    emit (position_at_end func_entry)
    arguments ← store_params (L.params func) type.params
    body_size ← reading (parse_uleb128 32)
    before ← current
    groups ← reading (parse_uleb128 32)
    locals ← parse_locals groups
    run_body (record { func = func; return_type = type.ret; locals = arguments ++ locals })
        (before + body_size)
    after ← current
    assert (after == before + body_size)
    block ← insert_block
    assert (L.same_block block func_end)
    return_from type.ret

  unfoldable pub parse_functions_code : ℕ → ℕ → M (Unit {0})
  unfolding parse_function
  parse_functions_code index zero = return tt
  parse_functions_code index (suc count) = do
    func ← λ m. function_at (get_elem? m.functions index) m
    parse_function func
    parse_functions_code (index + 1) count

  unfoldable pub parse_section_code : M (Unit {0})
  unfolding parse_functions_code
  parse_section_code m =
      (do count ← reading (parse_uleb128 32); parse_functions_code m.import_func_offset count) m
