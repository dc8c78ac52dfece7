-- ===== src/Module.antt =====
-- The state of `class module` (inc/wembed/module.hpp) while it compiles: the reader, the LLVM
-- builder, the index spaces of the wasm module, and the three stacks of the function at hand. A
-- vector's back is the head of its list where the code works at the back (`mEvalStack`,
-- `mCFEntries`, `mBlockEntries`); the other vectors are lists in their own order.
pub mod Keeps
pub mod Stack
pub mod Emit
pub mod Control
pub mod Branches
pub mod Calls
pub mod Float
pub mod Access
pub mod Numeric
pub mod Action
pub mod Tables
pub mod Operators
pub mod Dispatch
pub mod Skip
pub mod Code
pub mod Sections
pub mod Load
pub mod Sound
use wembed.Base.{
  ℕ, String, ◌≡◌, Bool, List, Option, Stateful, Result, ok, throw, ◌>>=◌, ◌>>◌, return,
}
use wembed.Reader.{Reader, Parser}
use wembed.Lang.{TableType, MemoryType, ExternalKind}
use wembed.Lang.Types.{Ty, FnType}
use wembed.Llvm.{Llvm}
use wembed.Llvm.Instructions.{Instr, Effect, Intrinsic, call_intrinsic}

-- `cf_function`, `cf_block`, `cf_if`, `cf_else` and `cf_loop`.
pub data CfInstr : Type 0 where
  cf_function cf_block cf_if cf_else cf_loop : CfInstr

-- A null `mPhi` or `mElse` is `none`.
pub record CfEntry (L : Llvm) : Type 0 where
  pub instr : CfInstr
  pub signature : Ty
  pub end_block : L.Block
  pub phi : Option L.Value
  pub else_block : Option L.Block
  pub outer_stack_size : ℕ
  pub outer_block_depth : ℕ
  pub reachable : Bool
  pub else_reachable : Bool

pub record BlockEntry (L : Llvm) : Type 0 where
  pub signature : Ty
  pub block : L.Block
  pub phi : Option L.Value

pub record Table (L : Llvm) : Type 0 where
  pub type : TableType
  pub pointers : L.Value
  pub types : L.Value

pub record FuncDef (L : Llvm) : Type 0 where
  pub value : L.Value
  pub type_hash : ℕ

pub record Symbol (L : Llvm) : Type 0 where
  pub kind : ExternalKind
  pub type_hash : ℕ
  pub values : List L.Value

-- `externsym`
pub record ExternSym : Type 0 where
  pub module_name : List ℕ
  pub field_name : List ℕ

pub record Import (L : Llvm) : Type 0 where
  pub name : ExternSym
  pub symbol : Symbol L

pub record Export (L : Llvm) : Type 0 where
  pub name : List ℕ
  pub symbol : Symbol L

pub record Module (L : Llvm) : Type 0 where
  pub reader : Reader
  pub builder : L.Builder
  pub import_func_offset : ℕ
  pub unreachable_depth : ℕ
  pub memory_types : List MemoryType
  pub memory_import : ExternSym
  pub table_import : ExternSym
  pub base_memory : L.Value
  pub context_ref : L.Value
  pub tables : List (Table L)
  pub start_func : L.Value
  pub start_init : L.Block
  pub start_user : L.Block
  pub eval_stack : List L.Value
  pub cf_entries : List (CfEntry L)
  pub block_entries : List (BlockEntry L)
  pub types : List FnType
  pub globals : List L.Value
  pub functions : List (FuncDef L)
  pub exports : List (Export L)
  pub imports : List (Import L)

module _ ⦃L : Llvm⦄ where
  abbrev pub M : Type 0 → Type 0
  M A = Stateful (Module L) A

  -- A read at `mCurrent`.
  abbrev pub reading {ℓ} :
      {A : Type ℓ} → (Reader → Result (A × Reader)) → Module L → Result (A × Module L)
  reading p m = elim (p m.reader) [
    | ok (a, r) ↦ ok (a, record m { reader = r })
    | throw e ↦ throw e
  ]

  abbrev built : Module L → L.Value × L.Builder → Result (L.Value × Module L)
  built m (v, b) = ok (v, record m { builder = b })

  unfoldable pub build : Instr L.Value L.Block → M L.Value
  build i m = built m (L.build i m.builder)

  unfoldable pub emit : Effect L.Value L.Block → M (Unit {0})
  emit e m = ok (tt, record m { builder = L.emit e m.builder })

  abbrev appended : Module L → L.Block × L.Builder → Result (L.Block × Module L)
  appended m (v, b) = ok (v, record m { builder = b })

  unfoldable pub append_block : L.Value → M L.Block
  append_block f m = appended m (L.append_block f m.builder)

  unfoldable pub insert_block : M L.Block
  insert_block m = ok (L.insert_block m.builder, m)
