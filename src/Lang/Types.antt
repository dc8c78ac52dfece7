-- ===== src/Lang/Types.antt =====
-- The LLVM types that the compiler builds. LLVM keeps one object for each type, so the source
-- compares types by their pointers, and the model by structure.
use wembed.Base.{List, Bool, true, false}

pub data Ty : Type 0 where
  void i1 i8 i16 i32 i64 float double : Ty
  pointer : Ty → Ty
  -- A struct of a value and an overflow bit, the result of the `with.overflow` intrinsics.
  with_overflow : Ty → Ty

pub record FnType : Type 0 where
  pub ret : Ty
  pub params : List Ty

unfoldable pub Ty-discrete : Discrete Ty
Ty-discrete = hlevel

-- `pLHS == pRHS` on `LLVMTypeRef`.
abbrev pub same_type : Ty → Ty → Bool
same_type a b = elim (Ty-discrete a b) [ yes _ ↦ true | no _ ↦ false ]
