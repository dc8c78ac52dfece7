-- ===== src/Module/Control.antt =====
-- The control instructions in `module::parse_section_code` of src/module.cpp.
pub mod End
use wembed.Base.{
  ℕ, zero, suc, Bool, true, false, not, List, [], ◌∷◌, Option, none, some, leb, ◌==◌, if◌then◌else◌,
  length, ok, invalid, malformed, null_pointer, assertion, ◌>>=◌, ◌>>◌, return, fail, throw_if,
  assert,
}
use wembed.Reader.{Parser, parse, parse_uleb128}
use wembed.Lang.Types.{Ty, i32, i64, float, double, void, same_type}
use wembed.Llvm.{Llvm}
use wembed.Llvm.Instructions.{
  br, cond_br, add_incoming, position_at_end, move_block_after, erase_from_parent,
}
use wembed.Module.{
  M, CfEntry, CfInstr, cf_block, cf_if, cf_else, cf_loop, reading, emit, append_block, insert_block,
}
use wembed.Module.Stack.{push_cf_entry, push_block_entry, cf_back, push, pop_typed, resize}
use wembed.Module.Emit.{get_zero, i32_to_bool, create_phi}

-- What stays the same while the body of one function is compiled: `lFunc`, `lReturnType` and
-- `lLocals`.
pub record Frame (L : Llvm) : Type 0 where
  pub func : L.Value
  pub return_type : Ty
  pub locals : List L.Value

-- `parse_llvm_vtype` and `parse_llvm_btype` on the byte that they read.
unfoldable pub value_type : ℕ → Parser Ty
value_type b =
    if b == 127
    then return i32
    else if b == 126
    then return i64
    else if b == 125
    then return float
    else if b == 124
    then return double
    else fail (malformed "unexpected value type")

unfoldable pub parse_llvm_vtype : Parser Ty
unfolding value_type
parse_llvm_vtype = do b ← parse 1; value_type b

unfoldable pub parse_llvm_btype : Parser Ty
unfolding value_type
parse_llvm_btype = do b ← parse 1; if b == 64 then return void else value_type b

-- `for (i = 0; i < count; i++) targets[i] = parse_uleb128<uint32_t>();`
unfoldable pub parse_targets : ℕ → Parser (List ℕ)
parse_targets zero = return []
parse_targets (suc count) = do
  target ← parse_uleb128 32
  targets ← parse_targets count
  return (target ∷ targets)

module _ ⦃L : Llvm⦄ where
  abbrev pub use_phi : Option L.Value → M L.Value
  use_phi none = fail null_pointer
  use_phi (some v) = return v

  -- The jump to a block that takes `value` into its phi.
  abbrev pub incoming : Option L.Value → L.Value → M (Unit {0})
  incoming phi value = do at ← insert_block; p ← use_phi phi; emit (add_incoming p value at)

  -- A value for `phi` from the stack, where the block's type is not void.
  unfoldable pub pop_into : Ty → Ty → Option L.Value → M (Unit {0})
  pop_into signature desired phi =
      if same_type signature void
      then return tt
      else (do value ← pop_typed desired; incoming phi value)

  unfoldable pub block_op : Frame L → M (Unit {0})
  block_op f = do
    type ← reading parse_llvm_btype
    block_end ← append_block f.func
    phi ← create_phi type block_end
    push_cf_entry cf_block type block_end phi none
    push_block_entry type block_end phi

  unfoldable pub loop_op : Frame L → M (Unit {0})
  loop_op f = do
    type ← reading parse_llvm_btype
    loop ← append_block f.func
    loop_end ← append_block f.func
    phi ← create_phi type loop_end
    emit (br loop)
    emit (position_at_end loop)
    push_cf_entry cf_loop type loop_end phi none
    push_block_entry void loop none

  unfoldable pub if_op : Frame L → M (Unit {0})
  if_op f = do
    type ← reading parse_llvm_btype
    then_block ← append_block f.func
    else_block ← append_block f.func
    if_end ← append_block f.func
    phi ← create_phi type if_end
    value ← pop_typed i32
    condition ← i32_to_bool value
    emit (cond_br condition then_block else_block)
    emit (position_at_end then_block)
    push_cf_entry cf_if type if_end phi (some else_block)
    push_block_entry type if_end phi

  -- What `else` and `end` do first: the value of a block whose end is reached goes to its phi.
  abbrev pub leave : CfEntry L → Ty → M (Unit {0})
  leave entry desired =
      if entry.reachable
      then (do pop_into entry.signature desired entry.phi; emit (br entry.end_block))
      else return tt

  abbrev pub check_size : CfEntry L → M (Unit {0})
  check_size entry m =
      throw_if (not (length m.eval_stack == entry.outer_stack_size))
        (invalid "wrong stack size after block end") m

  abbrev pub else_block_of : Option L.Block → M L.Block
  else_block_of none = fail assertion
  else_block_of (some b) = return b

  abbrev pub is_if : CfInstr → Bool
  is_if cf_if = true
  is_if _ = false

  abbrev pub set_back : (CfEntry L → CfEntry L) → List (CfEntry L) → List (CfEntry L)
  set_back g [] = []
  set_back g (c ∷ cs) = g c ∷ cs

  abbrev pub turned : CfEntry L → CfEntry L
  turned c = record c { instr = cf_else; reachable = c.else_reachable; else_block = none }

  unfoldable pub else_op : M (Unit {0})
  unfolding pop_into
  else_op = do
    entry ← cf_back
    leave entry entry.signature
    check_size entry
    else_block ← else_block_of entry.else_block
    assert (is_if entry.instr)
    current ← insert_block
    emit (move_block_after else_block current)
    emit (position_at_end else_block)
    λ m. ok (tt, record m { cf_entries = set_back turned m.cf_entries })

  abbrev pub close_else : CfEntry L → Option L.Block → M (Unit {0})
  close_else entry none = return tt
  close_else entry (some else_block) = do
    current ← insert_block
    emit (move_block_after else_block current)
    emit (position_at_end else_block)
    emit (br entry.end_block)

  abbrev pub phi_or_zero : CfEntry L → L.Value → Bool → M (Unit {0})
  phi_or_zero entry phi true = do
    emit (erase_from_parent phi)
    assert (not (same_type entry.signature void))
    v ← get_zero entry.signature
    push v
  phi_or_zero entry phi false = push phi

  -- The value of a block that ends: its phi, or 0 where no jump reaches the end.
  abbrev pub push_result : CfEntry L → Option L.Value → M (Unit {0})
  push_result entry none m = ok (tt, m)
  push_result entry (some phi) m = phi_or_zero entry phi (L.count_incoming phi m.builder == 0) m

  abbrev pub phi_type : Option L.Value → Ty
  phi_type none = void
  phi_type (some v) = L.type_of v

  abbrev pub drop_back : List (CfEntry L) → List (CfEntry L)
  drop_back [] = []
  drop_back (c ∷ cs) = cs

  -- `LLVMTypeOf(lEntry.mPhi)` of a null phi.
  abbrev pub checked_phi : CfEntry L → M (Unit {0})
  checked_phi entry =
      if entry.reachable
      then (if same_type entry.signature void then return tt else (do use_phi entry.phi; return tt))
      else return tt

  abbrev pub close : CfEntry L → M (Unit {0})
  close entry m =
      (do
        assert (leb entry.outer_block_depth (length m.block_entries))
        λ m. ok (
          tt,
          record m {
            block_entries = resize m.block_entries entry.outer_block_depth;
            cf_entries = drop_back m.cf_entries;
          },
        ))
        m

  -- What `end` does with the innermost entry.
  abbrev pub end_rest : CfEntry L → M (Unit {0})
  end_rest entry = do
    checked_phi entry
    leave entry (phi_type entry.phi)
    check_size entry
    close_else entry entry.else_block
    current ← insert_block
    emit (move_block_after entry.end_block current)
    emit (position_at_end entry.end_block)
    push_result entry entry.phi
    close entry

  unfoldable pub end_op : M (Unit {0})
  unfolding pop_into
  end_op = do entry ← cf_back; end_rest entry
