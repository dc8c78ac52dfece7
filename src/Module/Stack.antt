-- ===== src/Module/Stack.antt =====
-- The operand and control stacks of src/module.cpp: `push`, `pop`, `top`, `pop_int`, `pushCFEntry`,
-- `pushBlockEntry`, `branch_depth` and `skip_unreachable`.
pub mod Floor
use wembed.Base.{
  ℕ, ◌+◌, ◌-◌, ◌≡◌, Bool, true, false, not, ◌&&◌, List, [], ◌∷◌, Option, none, some, ltb, leb, ◌==◌,
  if◌then◌else◌, length, get_elem?, drop, Result, ok, throw, invalid, overrun, Stateful, ◌>>=◌,
  ◌>>◌, return, fail, throw_if, assert,
}
use wembed.Lang.Types.{Ty, i32, i64, same_type}
use wembed.Llvm.{Llvm}
use wembed.Module.{Module, M, CfEntry, BlockEntry, CfInstr}

-- The last `n` elements of a vector that grows at the head.
abbrev pub resize {ℓ} : {A : Type ℓ} → List A → ℕ → List A
resize xs n = drop (length xs - n) xs

-- `v[i]` of a vector whose back is the head of the list.
unfoldable pub vector_at : {A : Type 0} → List A → ℕ → Option A
vector_at [] i = none
vector_at (x ∷ xs) i = if i == length xs then some x else vector_at xs i

module _ ⦃L : Llvm⦄ where
  -- `mCFEntries.back()`, which the callers reach only while the vector is not empty.
  abbrev pub back_of : List (CfEntry L) → Module L → Result (CfEntry L × Module L)
  back_of [] m = throw overrun
  back_of (c ∷ cs) m = ok (c, m)

  abbrev pub cf_back : M (CfEntry L)
  cf_back m = back_of m.cf_entries m

  abbrev pub back_reachable : List (CfEntry L) → Bool
  back_reachable [] = true
  back_reachable (c ∷ cs) = c.reachable

  unfoldable pub push_cf_entry :
      CfInstr → Ty → L.Block → Option L.Value → Option L.Block → M (Unit {0})
  push_cf_entry instr type end_block phi else_block m =
      (do
        assert (back_reachable m.cf_entries)
        λ m. ok (
          tt,
          record m {
            cf_entries =
                record {
                  instr = instr;
                  signature = type;
                  end_block = end_block;
                  phi = phi;
                  else_block = else_block;
                  outer_stack_size = length m.eval_stack;
                  outer_block_depth = length m.block_entries;
                  reachable = true;
                  else_reachable = true;
                }
                ∷ m.cf_entries;
          },
        ))
        m

  unfoldable pub push_block_entry : Ty → L.Block → Option L.Value → M (Unit {0})
  push_block_entry type block phi m = ok (
    tt,
    record m {
      block_entries = record { signature = type; block = block; phi = phi } ∷ m.block_entries;
    },
  )

  abbrev pub entry_or : Option (BlockEntry L) → Module L → Result (BlockEntry L × Module L)
  entry_or none m = throw (invalid "invalid branch target")
  entry_or (some e) m = ok (e, m)

  unfoldable pub branch_depth : ℕ → M (BlockEntry L)
  unfolding vector_at
  branch_depth depth m =
      if leb (length m.block_entries) depth
      then throw (invalid "invalid branch target")
      else entry_or (vector_at m.block_entries (length m.block_entries - depth - 1)) m

  -- `!mCFEntries.empty() && mEvalStack.size() <= mCFEntries.back().mOuterStackSize`
  abbrev pub at_floor : List (CfEntry L) → ℕ → Bool
  at_floor [] size = false
  at_floor (c ∷ cs) size = leb size c.outer_stack_size

  abbrev pub top_of : List L.Value → Module L → Result (L.Value × Module L)
  top_of [] m = throw (invalid "topping empty stack")
  top_of (v ∷ vs) m =
      if at_floor m.cf_entries (length (v ∷ vs))
      then throw (invalid "topping stack outside bounds of current context")
      else ok (v, m)

  unfoldable pub top : M L.Value
  top m = top_of m.eval_stack m

  unfoldable pub top_typed : Ty → M L.Value
  unfolding top
  top_typed desired = do
    v ← top
    throw_if (not (same_type (L.type_of v) desired)) (invalid "topping wrong type")
    return v

  unfoldable pub push : L.Value → M (Unit {0})
  push v m = ok (tt, record m { eval_stack = v ∷ m.eval_stack })

  abbrev pub pop_of : List L.Value → Module L → Result (L.Value × Module L)
  pop_of [] m = throw (invalid "popping empty stack")
  pop_of (v ∷ vs) m =
      if at_floor m.cf_entries (length (v ∷ vs))
      then throw (invalid "popping stack outside bounds of current context")
      else ok (v, record m { eval_stack = vs })

  unfoldable pub pop : M L.Value
  pop m = pop_of m.eval_stack m

  unfoldable pub pop_typed : Ty → M L.Value
  unfolding pop
  pop_typed desired = do
    v ← pop
    throw_if (not (same_type (L.type_of v) desired)) (invalid "popping wrong type")
    return v

  unfoldable pub pop_int : M L.Value
  unfolding pop
  pop_int = do
    v ← pop
    throw_if (not (same_type (L.type_of v) i32) && not (same_type (L.type_of v) i64))
        (invalid "popping wrong type")
    return v

  abbrev pub unreachable_from : List (CfEntry L) → Module L → Result (Unit {0} × Module L)
  unreachable_from [] m = throw overrun
  unreachable_from (up ∷ cs) m =
      if ltb (length m.eval_stack) up.outer_stack_size
      then throw (invalid "invalid stack state")
      else ok (
        tt,
        record m {
          eval_stack = resize m.eval_stack up.outer_stack_size;
          cf_entries = record up { reachable = false } ∷ cs;
          unreachable_depth = 0;
        },
      )

  -- The rest of the block at hand is dead code.
  unfoldable pub skip_unreachable : M (Unit {0})
  skip_unreachable m = unreachable_from m.cf_entries m
