-- ===== src/Module/Branches.antt =====
-- The jumps in `module::parse_section_code` of src/module.cpp: `unreachable`, `br`, `br_if`,
-- `br_table` and `return`.
use wembed.Base.{
  ℕ, ◌+◌, true, not, List, [], ◌∷◌, Option, none, some, if◌then◌else◌, length, invalid, overrun,
  ◌>>=◌, ◌>>◌, return, fail, throw_if,
}
use wembed.Reader.{parse_uleb128}
use wembed.Lang.Types.{Ty, i32, void, same_type}
use wembed.Llvm.{Llvm}
use wembed.Llvm.Instructions.{
  switch, br, cond_br, unreachable, add_case, position_at_end, throw_vm_exception,
}
use wembed.Module.{M, CfEntry, BlockEntry, reading, build, emit, append_block}
use wembed.Module.Stack.{branch_depth, top_typed, pop_typed, skip_unreachable}
use wembed.Module.Emit.{const_i32, const_bool, get_string, i32_to_bool, trap_if}
use wembed.Module.Control.{Frame, parse_targets, incoming, pop_into}

module _ ⦃L : Llvm⦄ where
  unfoldable pub unreachable_op : Frame L → M (Unit {0})
  unreachable_op f = do
    message ← get_string "unreachable reached"
    trap_if f.func (const_bool true) throw_vm_exception (message ∷ [])
    emit unreachable
    skip_unreachable

  unfoldable pub br_op : M (Unit {0})
  unfolding pop_into
  br_op = do
    depth ← reading (parse_uleb128 32)
    target ← branch_depth depth
    pop_into target.signature target.signature target.phi
    emit (br target.block)
    skip_unreachable

  -- The value that a conditional jump passes on stays on the stack.
  unfoldable pub top_into : BlockEntry L → M (Unit {0})
  top_into target =
      if same_type target.signature void
      then return tt
      else (do value ← top_typed target.signature; incoming target.phi value)

  unfoldable pub br_if_op : Frame L → M (Unit {0})
  unfolding top_into
  br_if_op f = do
    condition ← pop_typed i32
    depth ← reading (parse_uleb128 32)
    target ← branch_depth depth
    top_into target
    else_block ← append_block f.func
    test ← i32_to_bool condition
    emit (cond_br test target.block else_block)
    emit (position_at_end else_block)

  -- `lResult`, null where the default target takes no value.
  abbrev pub table_result : BlockEntry L → M (Option L.Value)
  table_result target =
      if same_type target.signature void
      then return none
      else (do value ← pop_typed target.signature; incoming target.phi value; return (some value))

  abbrev pub pass_on : BlockEntry L → Option L.Value → M (Unit {0})
  pass_on target none = return tt
  pass_on target (some value) = incoming target.phi value

  unfoldable pub add_cases : L.Value → Ty → Option L.Value → ℕ → List ℕ → M (Unit {0})
  add_cases switch_value signature result i [] = return tt
  add_cases switch_value signature result i (depth ∷ depths) = do
    target ← branch_depth depth
    throw_if (not (same_type target.signature signature)) (invalid "br_table type mismatch")
    emit (add_case switch_value (const_i32 i) target.block)
    pass_on target result
    add_cases switch_value signature result (i + 1) depths

  unfoldable pub br_table_op : M (Unit {0})
  unfolding add_cases parse_targets
  br_table_op = do
    index ← pop_typed i32
    count ← reading (parse_uleb128 32)
    targets ← reading (parse_targets count)
    default ← reading (parse_uleb128 32)
    default_target ← branch_depth default
    result ← table_result default_target
    switch_value ← build (switch index default_target.block (length targets))
    add_cases switch_value default_target.signature result 0 targets
    skip_unreachable

  -- `mCFEntries[0]`, the entry of the function.
  abbrev pub first_of_list : List (CfEntry L) → M (CfEntry L)
  first_of_list [] = fail overrun
  first_of_list (c ∷ []) = return c
  first_of_list (c ∷ d ∷ cs) = first_of_list (d ∷ cs)

  abbrev pub cf_front : M (CfEntry L)
  cf_front m = first_of_list m.cf_entries m

  unfoldable pub return_op : Frame L → M (Unit {0})
  unfolding pop_into
  return_op f = do
    entry ← cf_front
    pop_into f.return_type f.return_type entry.phi
    emit (br entry.end_block)
    skip_unreachable
