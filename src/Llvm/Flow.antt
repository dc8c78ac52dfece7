-- ===== src/Llvm/Flow.antt =====
-- Where control goes in the code that has been built, as the LLVM language reference and the C API
-- state it: a builder adds to the end of the block in which it stands, and a block runs from its first
-- instruction to its terminator. The calls of src/intrinsics.cpp that throw do not return.
use wembed.Base.{ℕ, ◌≡◌, ◌≢◌, Bool, true, false, List, [], ◌∷◌, ◌++◌, if◌then◌else◌, ◌==◌}
use wembed.Llvm.{Llvm}
use wembed.Llvm.Instructions.{
  Instr, Effect, Intrinsic, call_intrinsic, throw_unlinkable, throw_vm_exception, br, cond_br, ret,
  ret_void, unreachable, position_at_end, move_block_after,
}

-- What stands in a block.
pub data Event (V B : Type 0) : Type 0 where
  built : Instr V B → Event V B
  done : Effect V B → Event V B

-- How a block ends when it runs. `falls` is a block without a terminator so far.
pub data Exit (B : Type 0) : Type 0 where
  goes_to : B → Exit B
  raises : Intrinsic → Exit B
  returns falls undefined : Exit B

abbrev pub IsTerminator : {V B : Type 0} → Effect V B → Type 0
IsTerminator (br b) = Unit {0}
IsTerminator (cond_br c b d) = Unit {0}
IsTerminator (ret v) = Unit {0}
IsTerminator ret_void = Unit {0}
IsTerminator unreachable = Unit {0}
IsTerminator e = ⊥

module _ (L : Llvm) where
  pub record FlowLaws : Type 0 where
    -- The blocks that there are, and what stands in each.
    pub known : L.Builder → L.Block → Bool
    pub code : L.Builder → L.Block → List (Event L.Value L.Block)
    pub insert_block-append :
        (f : L.Value) (b : L.Builder) → L.insert_block (L.append_block f b).1 ≡ L.insert_block b
    pub insert_block-build :
        (i : Instr L.Value L.Block) (b : L.Builder)
        → L.insert_block (L.build i b).1 ≡ L.insert_block b
    pub insert_block-terminator :
        (e : Effect L.Value L.Block) (b : L.Builder)
        → IsTerminator e
        → L.insert_block (L.emit e b) ≡ L.insert_block b
    pub insert_block-position :
        (k : L.Block) (b : L.Builder) → L.insert_block (L.emit (position_at_end k) b) ≡ k
    pub insert_block-move :
        (j k : L.Block) (b : L.Builder)
        → L.insert_block (L.emit (move_block_after j k) b) ≡ L.insert_block b
    -- A block that is appended is a new one, with nothing in it.
    pub known-new : (f : L.Value) (b : L.Builder) → known b (L.append_block f b).0 ≡ false
    pub known-appended :
        (f : L.Value) (b : L.Builder) → known (L.append_block f b).1 (L.append_block f b).0 ≡ true
    pub code-appended :
        (f : L.Value) (b : L.Builder) → code (L.append_block f b).1 (L.append_block f b).0 ≡ []
    pub known-append :
        (f : L.Value) (b : L.Builder) (k : L.Block)
        → known b k ≡ true
        → known (L.append_block f b).1 k ≡ true
    pub code-append :
        (f : L.Value) (b : L.Builder) (k : L.Block)
        → known b k ≡ true
        → code (L.append_block f b).1 k ≡ code b k
    pub known-build :
        (i : Instr L.Value L.Block) (b : L.Builder) (k : L.Block)
        → known (L.build i b).1 k ≡ known b k
    pub known-emit :
        (e : Effect L.Value L.Block) (b : L.Builder) (k : L.Block)
        → known (L.emit e b) k ≡ known b k
    -- What is built goes to the end of the block in which the builder stands, and nowhere else.
    pub code-build :
        (i : Instr L.Value L.Block) (b : L.Builder)
        → known b (L.insert_block b) ≡ true
        → code (L.build i b).1 (L.insert_block b) ≡ code b (L.insert_block b) ++ (built i ∷ [])
    pub code-build_away :
        (i : Instr L.Value L.Block) (b : L.Builder) (k : L.Block)
        → k ≢ L.insert_block b
        → code (L.build i b).1 k ≡ code b k
    pub code-terminator :
        (e : Effect L.Value L.Block) (b : L.Builder)
        → IsTerminator e
        → known b (L.insert_block b) ≡ true
        → code (L.emit e b) (L.insert_block b) ≡ code b (L.insert_block b) ++ (done e ∷ [])
    pub code-terminator_away :
        (e : Effect L.Value L.Block) (b : L.Builder) (k : L.Block)
        → IsTerminator e
        → k ≢ L.insert_block b
        → code (L.emit e b) k ≡ code b k
    pub code-position :
        (j : L.Block) (b : L.Builder) (k : L.Block)
        → code (L.emit (position_at_end j) b) k ≡ code b k
    pub code-move :
        (i j : L.Block) (b : L.Builder) (k : L.Block)
        → code (L.emit (move_block_after i j) b) k ≡ code b k

module _ {V B : Type 0} (bits : V → ℕ) where
  -- How a block with this in it ends.
  unfoldable pub exit_of : List (Event V B) → Exit B
  exit_of [] = falls
  exit_of (built (call_intrinsic throw_unlinkable vs) ∷ es) = raises throw_unlinkable
  exit_of (built (call_intrinsic throw_vm_exception vs) ∷ es) = raises throw_vm_exception
  exit_of (built i ∷ es) = exit_of es
  exit_of (done (br b) ∷ es) = goes_to b
  exit_of (done (cond_br c yes_block no_block) ∷ es) =
      goes_to (if bits c == 0 then no_block else yes_block)
  exit_of (done (ret v) ∷ es) = returns
  exit_of (done ret_void ∷ es) = returns
  exit_of (done unreachable ∷ es) = undefined
  exit_of (done e ∷ es) = exit_of es
