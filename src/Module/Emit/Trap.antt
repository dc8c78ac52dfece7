-- ===== src/Module/Emit/Trap.antt =====
-- The blocks that `trap_if` of src/module.cpp emits, and where control goes in them.
use wembed.Base.{◌≡◌, ◌≢◌, refl, sym, ◌∙◌, ap, subst, true, false, List, [], ◌∷◌, ◌++◌, ok, ◌>>=◌}
use wembed.Llvm.{Llvm}
use wembed.Llvm.Flow.{FlowLaws, built, done}
use wembed.Llvm.Instructions.{
  Instr, Effect, Intrinsic, call_intrinsic, cond_br, unreachable, position_at_end, move_block_after,
}
use wembed.Module.{Module, build, emit, append_block, insert_block}
use wembed.Module.Emit.{trap_if}
use wembed.Module.Emit.Flow.{IsPlaced, place, contents}

module _ ⦃L : Llvm⦄ (F : FlowLaws L) where
  other_block : (b : L.Builder) (j k : L.Block) → F.known b j ≡ false → F.known b k ≡ true → j ≢ k
  other_block b j k h g e = absurd (let q = ap (F.known b) e in cc)

  -- What `trap_if` emits: the block so far ends with the branch, the call of the intrinsic stands in a
  -- block of its own that goes nowhere, and the builder goes on in a block with nothing in it.
  pub record Trapped (condition : L.Value) (intrinsic : Intrinsic) (args : List L.Value)
      (m : Module L) (skip : L.Block) (n : Module L) : Type 0 where
    pub trap : L.Block
    pub branch :
        contents F n (place F m)
        ≡ contents F m (place F m) ++ (done (cond_br condition trap skip) ∷ [])
    pub called : contents F n trap ≡ built (call_intrinsic intrinsic args) ∷ done unreachable ∷ []
    pub goes_on : place F n ≡ skip
    pub placed : IsPlaced F n
    pub nothing_yet : contents F n skip ≡ []
    pub trap_elsewhere : trap ≢ skip
    pub start_elsewhere : place F m ≢ skip

  module _ (func condition : L.Value) (intrinsic : Intrinsic) (args : List L.Value) (b : L.Builder)
      (placed : F.known b (L.insert_block b) ≡ true) where
    abbrev start : L.Block
    start = L.insert_block b

    abbrev b1 : L.Builder
    b1 = (L.append_block func b).1

    abbrev trap_then : L.Block
    trap_then = (L.append_block func b).0

    abbrev b2 : L.Builder
    b2 = (L.append_block func b1).1

    abbrev trap_skip : L.Block
    trap_skip = (L.append_block func b1).0

    abbrev branching : Effect L.Value L.Block
    branching = cond_br condition trap_then trap_skip

    abbrev b3 : L.Builder
    b3 = L.emit branching b2

    -- The builder in the block of the trap.
    abbrev b6 : L.Builder
    b6 = L.emit (position_at_end trap_then) (
        L.emit (move_block_after trap_then (L.insert_block b3))
          (L.emit (move_block_after trap_skip (L.insert_block b3)) b3))

    abbrev calling : Instr L.Value L.Block
    calling = call_intrinsic intrinsic args

    abbrev b7 : L.Builder
    b7 = (L.build calling b6).1

    abbrev b8 : L.Builder
    b8 = L.emit unreachable b7

    abbrev b9 : L.Builder
    b9 = L.emit (position_at_end trap_skip) b8

    trap_then-start : trap_then ≢ start
    trap_then-start = other_block b trap_then start (F.known-new func b) placed

    trap_skip-start : trap_skip ≢ start
    trap_skip-start =
        other_block b1 trap_skip start (F.known-new func b1) (F.known-append func b start placed)

    trap_skip-trap_then : trap_skip ≢ trap_then
    trap_skip-trap_then =
        other_block b1 trap_skip trap_then (F.known-new func b1) (F.known-appended func b)

    at2 : L.insert_block b2 ≡ start
    at2 = F.insert_block-append func b1 ∙ F.insert_block-append func b

    at6 : L.insert_block b6 ≡ trap_then
    at6 = F.insert_block-position trap_then _

    at7 : L.insert_block b7 ≡ trap_then
    at7 = F.insert_block-build calling b6 ∙ at6

    known6 : (k : L.Block) → F.known b6 k ≡ F.known b2 k
    known6 k = F.known-emit _ _ k ∙ F.known-emit _ _ k ∙ F.known-emit _ _ k ∙ F.known-emit _ _ k

    known9 : (k : L.Block) → F.known b9 k ≡ F.known b2 k
    known9 k = F.known-emit _ _ k ∙ F.known-emit _ _ k ∙ F.known-build _ _ k ∙ known6 k

    trap_then-known : F.known b2 trap_then ≡ true
    trap_then-known = F.known-append func b1 trap_then (F.known-appended func b)

    code2 : F.code b2 start ≡ F.code b start
    code2 =
        F.code-append func b1 start (F.known-append func b start placed)
        ∙ F.code-append func b start placed

    code3 : F.code b3 start ≡ F.code b2 start ++ (done branching ∷ [])
    code3 =
        subst (λ k. F.code b3 k ≡ F.code b2 k ++ (done branching ∷ [])) at2
          (F.code-terminator branching b2 tt (
            subst (λ k. F.known b2 k ≡ true) (sym at2)
              (F.known-append func b1 start (F.known-append func b start placed))))

    code3_away : (k : L.Block) → k ≢ start → F.code b3 k ≡ F.code b2 k
    code3_away k other =
        F.code-terminator_away branching b2 k tt (subst (λ j. k ≢ j) (sym at2) other)

    code6 : (k : L.Block) → F.code b6 k ≡ F.code b3 k
    code6 k = F.code-position _ _ k ∙ F.code-move _ _ _ k ∙ F.code-move _ _ _ k

    code9_away : (k : L.Block) → k ≢ trap_then → F.code b9 k ≡ F.code b3 k
    code9_away k other =
        F.code-position _ _ k
        ∙ F.code-terminator_away unreachable b7 k tt (subst (λ j. k ≢ j) (sym at7) other)
        ∙ F.code-build_away calling b6 k (subst (λ j. k ≢ j) (sym at6) other)
        ∙ code6 k

    code6_trap : F.code b6 trap_then ≡ []
    code6_trap =
        code6 trap_then
        ∙ code3_away trap_then trap_then-start
        ∙ F.code-append func b1 trap_then (F.known-appended func b)
        ∙ F.code-appended func b

    code7_trap : F.code b7 trap_then ≡ built calling ∷ []
    code7_trap =
        subst (λ k. F.code b7 k ≡ F.code b6 k ++ (built calling ∷ [])) at6
          (F.code-build calling b6
            (subst (λ k. F.known b6 k ≡ true) (sym at6) (known6 trap_then ∙ trap_then-known)))
        ∙ ap (λ es. es ++ (built calling ∷ [])) code6_trap

    code9_trap : F.code b9 trap_then ≡ built calling ∷ done unreachable ∷ []
    code9_trap =
        F.code-position _ _ trap_then
        ∙ subst (λ k. F.code b8 k ≡ F.code b7 k ++ (done unreachable ∷ [])) at7
            (F.code-terminator unreachable b7 tt (
              subst (λ k. F.known b7 k ≡ true) (sym at7)
                (F.known-build calling b6 trap_then ∙ known6 trap_then ∙ trap_then-known)))
        ∙ ap (λ es. es ++ (done unreachable ∷ [])) code7_trap

    code9_skip : F.code b9 trap_skip ≡ []
    code9_skip =
        code9_away trap_skip trap_skip-trap_then
        ∙ code3_away trap_skip trap_skip-start
        ∙ F.code-appended func b1

    code9_start : F.code b9 start ≡ F.code b start ++ (done branching ∷ [])
    code9_start =
        code9_away start (λ e. trap_then-start (sym e))
        ∙ code3
        ∙ ap (λ es. es ++ (done branching ∷ [])) code2

  pub trap_if-Trapped :
      (func condition : L.Value) (intrinsic : Intrinsic) (args : List L.Value) (m : Module L)
      → IsPlaced F m
      → (skip : L.Block) × (n : Module L) × (trap_if func condition intrinsic args m ≡ ok (skip, n))
        × Trapped condition intrinsic args m skip n
  unfolding trap_if append_block emit insert_block build ◌>>=◌
  trap_if-Trapped func condition intrinsic args m placed =
      let b = m.builder in
      (
        trap_skip func condition intrinsic args b placed,
        record m { builder = b9 func condition intrinsic args b placed },
        refl,
        record {
          trap = trap_then func condition intrinsic args b placed;
          branch = code9_start func condition intrinsic args b placed;
          called = code9_trap func condition intrinsic args b placed;
          goes_on = F.insert_block-position _ _;
          placed =
              subst (λ k. F.known (b9 func condition intrinsic args b placed) k ≡ true)
                (sym (F.insert_block-position _ _))
                (known9 func condition intrinsic args b placed _
                  ∙ F.known-appended func (b1 func condition intrinsic args b placed));
          nothing_yet = code9_skip func condition intrinsic args b placed;
          trap_elsewhere = λ e. trap_skip-trap_then func condition intrinsic args b placed (sym e);
          start_elsewhere = λ e. trap_skip-start func condition intrinsic args b placed (sym e);
        },
      )
