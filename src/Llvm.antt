-- ===== src/Llvm.antt =====
-- The LLVM C interface, as far as src/module.cpp calls it. LLVM is not part of the repository: its
-- values, basic blocks and builder are abstract, each call is a field of `Llvm`, and what the proofs
-- need to know of a call is a field of `TypeLaws`.
pub mod Instructions
pub mod Bits
pub mod Flow
use wembed.Base.{ℕ, String, ◌≡◌, Bool, List, Option, map}
use wembed.Lang.Types.{Ty, FnType}
use Instructions.{Instr, Effect, alloca, result_type}

pub record Llvm : Type 1 where
  -- `LLVMValueRef`, `LLVMBasicBlockRef`, and an `LLVMBuilderRef` with the module that it builds in.
  pub Value : Type 0
  pub Block : Type 0
  pub Builder : Type 0
  -- `LLVMTypeOf`, and `LLVMGetElementType(LLVMTypeOf(f))` of a function.
  pub type_of : Value → Ty
  pub function_type : Value → FnType
  -- `LLVMGetElementType(LLVMTypeOf(v))` of a global or a local, which LLVM holds by its address.
  pub element_type : Value → Ty
  -- `LLVMGetParams`
  pub params : Value → List Value
  -- `LLVMConstInt`, and `LLVMConstReal` of the number with these bits.
  pub const_int : Ty → ℕ → Value
  pub const_real : Ty → ℕ → Value
  pub is_constant : Value → Bool
  -- `LLVMBuild…` for an instruction with a result, and for one that has none.
  pub build : Instr Value Block → Builder → Value × Builder
  pub emit : Effect Value Block → Builder → Builder
  -- `LLVMAppendBasicBlock`, `LLVMGetInsertBlock` and `LLVMCountIncoming`.
  pub append_block : Value → Builder → Block × Builder
  pub insert_block : Builder → Block
  pub count_incoming : Value → Builder → ℕ
  -- `==` on `LLVMBasicBlockRef`.
  pub same_block : Block → Block → Bool
  -- `LLVMAddFunction`, and `LLVMAddGlobal`
  pub add_function : FnType → Builder → Value × Builder
  pub add_global : Ty → Builder → Value × Builder
  -- The address of a string literal.
  pub string_address : String → ℕ
  -- The address of the object that stands for a type, and `boost::hash_combine(seed, v)`.
  pub type_address : Ty → ℕ
  pub hash_combine : ℕ → ℕ → ℕ
  -- `LLVMIsGlobalConstant`
  pub is_global_constant : Value → Builder → Bool
  -- `LLVMVerifyModule`, with its message and the listing of the module.
  pub verification_error : Builder → Option String

-- The types of LLVM's values, as the LLVM language reference states them.
pub record TypeLaws (L : Llvm) : Type 0 where
  pub type_of-build :
      (i : Instr L.Value L.Block) (b : L.Builder)
      → L.type_of (L.build i b).0 ≡ result_type L.type_of L.function_type L.element_type i
  pub type_of-const_int : (t : Ty) (n : ℕ) → L.type_of (L.const_int t n) ≡ t
  pub type_of-const_real : (t : Ty) (n : ℕ) → L.type_of (L.const_real t n) ≡ t
  pub element_type-alloca : (t : Ty) (b : L.Builder) → L.element_type (L.build (alloca t) b).0 ≡ t
  pub element_type-add_global : (t : Ty) (b : L.Builder) → L.element_type (L.add_global t b).0 ≡ t
  pub function_type-add_function :
      (t : FnType) (b : L.Builder) → L.function_type (L.add_function t b).0 ≡ t
  pub params-function_type : (f : L.Value) → map L.type_of (L.params f) ≡ (L.function_type f).params
