-- ===== src/Module/Skip.antt =====
-- What `module::parse_section_code` of src/module.cpp does with an instruction behind an
-- unconditional jump: it reads over the immediates, counts the blocks that open and close, and
-- builds nothing.
pub mod Immediates
pub mod Format
pub mod Dead
use wembed.Base.{
  ℕ, zero, suc, ◌+◌, ◌-◌, ◌≡◌, Bool, true, false, List, [], ◌∷◌, Option, none, some, ◌==◌,
  if◌then◌else◌, Result, ok, throw, Stateful, ◌>>=◌, ◌>>◌, return, fail,
}
use wembed.Reader.{Reader, Parser, parse, parse_uleb128}
use wembed.Lang.Opcodes.{
  o_block, o_loop, o_if, o_else, o_end, o_memory_grow, o_memory_size, o_br, o_const_i32,
  o_get_local, o_set_local, o_tee_local, o_get_global, o_set_global, o_call, o_br_if, o_const_i64,
  o_const_f32, o_const_f64, o_call_indirect, o_store_f32, o_store_i32, o_load_f32, o_load_i32,
  o_load8_si32, o_load16_si32, o_load8_ui32, o_load16_ui32, o_store8_i32, o_store16_i32,
  o_store_f64, o_store_i64, o_load_f64, o_load_i64, o_load8_si64, o_load16_si64, o_load32_si64,
  o_load8_ui64, o_load16_ui64, o_load32_ui64, o_store8_i64, o_store16_i64, o_store32_i64,
  o_br_table, o_prefix_numeric,
}
use wembed.Llvm.{Llvm}
use wembed.Module.{Module, M, reading}
use wembed.Module.Control.{parse_llvm_btype, parse_targets}

pub data Skip : Type 0 where
  nested at_else at_end skip_byte skip_index skip_index64 skip_float skip_double skip_call : Skip
  skip_access skip_access64 skip_table skip_none : Skip

unfoldable pub skips : List (ℕ × Skip)
skips =
    (o_block, nested)
    ∷ (o_loop, nested)
    ∷ (o_if, nested)
    ∷ (o_else, at_else)
    ∷ (o_end, at_end)
    ∷ (o_memory_grow, skip_byte)
    ∷ (o_memory_size, skip_byte)
    ∷ (o_br, skip_index)
    ∷ (o_const_i32, skip_index)
    ∷ (o_get_local, skip_index)
    ∷ (o_set_local, skip_index)
    ∷ (o_tee_local, skip_index)
    ∷ (o_get_global, skip_index)
    ∷ (o_set_global, skip_index)
    ∷ (o_call, skip_index)
    ∷ (o_br_if, skip_index)
    ∷ (o_const_i64, skip_index64)
    ∷ (o_const_f32, skip_float)
    ∷ (o_const_f64, skip_double)
    ∷ (o_call_indirect, skip_call)
    ∷ (o_store_f32, skip_access)
    ∷ (o_store_i32, skip_access)
    ∷ (o_load_f32, skip_access)
    ∷ (o_load_i32, skip_access)
    ∷ (o_load8_si32, skip_access)
    ∷ (o_load16_si32, skip_access)
    ∷ (o_load8_ui32, skip_access)
    ∷ (o_load16_ui32, skip_access)
    ∷ (o_store8_i32, skip_access)
    ∷ (o_store16_i32, skip_access)
    ∷ (o_store_f64, skip_access64)
    ∷ (o_store_i64, skip_access64)
    ∷ (o_load_f64, skip_access64)
    ∷ (o_load_i64, skip_access64)
    ∷ (o_load8_si64, skip_access64)
    ∷ (o_load16_si64, skip_access64)
    ∷ (o_load32_si64, skip_access64)
    ∷ (o_load8_ui64, skip_access64)
    ∷ (o_load16_ui64, skip_access64)
    ∷ (o_load32_ui64, skip_access64)
    ∷ (o_store8_i64, skip_access64)
    ∷ (o_store16_i64, skip_access64)
    ∷ (o_store32_i64, skip_access64)
    ∷ (o_br_table, skip_table)
    ∷ (o_prefix_numeric, skip_byte)
    ∷ []

unfoldable pub find_skip : ℕ → List (ℕ × Skip) → Skip
find_skip op [] = skip_none
find_skip op ((o, s) ∷ rest) = if o == op then s else find_skip op rest

-- The label that a byte selects.
unfoldable pub skip_of : ℕ → Skip
unfolding skips find_skip
skip_of op = find_skip op skips

-- `mCurrent++` without a read.
abbrev pub advance : Parser (Unit {0})
advance r = ok (tt, record r { current = r.current + 1 })

-- The immediates of an instruction that opens or closes no block.
unfoldable pub skip_immediates : Skip → Parser (Unit {0})
skip_immediates skip_byte = advance
skip_immediates skip_index = do parse_uleb128 32; return tt
skip_immediates skip_index64 = do parse_uleb128 64; return tt
skip_immediates skip_float = do parse 4; return tt
skip_immediates skip_double = do parse 8; return tt
skip_immediates skip_call = do parse_uleb128 32; advance
skip_immediates skip_access = do parse_uleb128 32; parse_uleb128 32; return tt
skip_immediates skip_access64 = do parse_uleb128 32; parse_uleb128 64; return tt
skip_immediates skip_table = do
  count ← parse_uleb128 32
  parse_targets count
  parse_uleb128 32
  return tt
skip_immediates s = return tt

module _ ⦃L : Llvm⦄ where
  -- The closing of a block that is open inside the dead code, or the end of the dead code.
  abbrev pub closing : ℕ → ℕ → M Bool
  closing zero after m = ok (true, m)
  closing (suc d) after m = ok (false, record m { unreachable_depth = after })

  abbrev pub pred : ℕ → ℕ
  pred n = n - 1

  -- Whether the instruction must be compiled after all (`break`), or is done with (`continue`).
  unfoldable pub skip_dead : Skip → M Bool
  skip_dead nested m =
      (do reading parse_llvm_btype; return false)
        (record m { unreachable_depth = m.unreachable_depth + 1 })
  skip_dead at_else m = closing m.unreachable_depth m.unreachable_depth m
  skip_dead at_end m = closing m.unreachable_depth (pred m.unreachable_depth) m
  skip_dead s m = (do reading (skip_immediates s); return false) m
