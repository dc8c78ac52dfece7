-- ===== src/Module/Control/End.antt =====
-- What the end of a block does to the stacks.
use wembed.Base.{
  ℕ, ◌≤◌, ◌≡◌, ◌≢◌, refl, sym, subst, ◌∙◌, ap, arith, Bool, true, false, List, ◌∷◌, Option, none,
  some, leb, ◌==◌, length, Result, ok, throw, invalid, ◌>>=◌,
}
use wembed.Lang.Types.{Ty, Ty-discrete, void}
use wembed.Llvm.{Llvm}
use wembed.Module.{Module, CfEntry, BlockEntry, CfInstr, emit, insert_block}
use wembed.Module.Stack.{resize}
use wembed.Module.Stack.Floor.{Nested, Floors}
use wembed.Module.Control.{end_op, pop_into}

module _ ⦃L : Llvm⦄ where
  -- A run that returns these operands, entries and jump targets.
  abbrev pub Leaves :
      List L.Value → List (CfEntry L) → List (BlockEntry L) → Result (Unit {0} × Module L) → Type 0
  Leaves stack entries targets (ok (a, n)) =
      (n.eval_stack ≡ stack) × (n.cf_entries ≡ entries) × (n.block_entries ≡ targets)
  Leaves stack entries targets (throw e) = ⊥

  abbrev block_of : CfInstr → L.Block → ℕ → ℕ → Bool → Bool → Option L.Block → CfEntry L
  block_of i end size depth reachable else_reachable else_block = record {
    instr = i;
    signature = void;
    end_block = end;
    phi = none;
    else_block = else_block;
    outer_stack_size = size;
    outer_block_depth = depth;
    reachable = reachable;
    else_reachable = else_reachable;
  }

  same_size : (a b : ℕ) → a ≡ b → (a == b) ≡ true
  same_size a b h = ground arith

  other_size : (a b : ℕ) → a ≢ b → (a == b) ≡ false
  other_size a b h = ground arith

  within : (a b : ℕ) → a ≤ b → leb a b ≡ true
  within a b h = ground arith

  ended :
      (m : Module L) (i : CfInstr) (end : L.Block) (size depth : ℕ) (r s : Bool)
      (o : Option L.Block) (cs : List (CfEntry L))
      → (length m.eval_stack == size) ≡ true
      → leb depth (length m.block_entries) ≡ true
      → Leaves m.eval_stack cs
          (resize m.block_entries depth)
          (end_op (record m { cf_entries = block_of i end size depth r s o ∷ cs }))
  unfolding end_op pop_into emit insert_block ◌>>=◌ Ty-discrete
  ended m i end size depth true s none cs h k = rw (h, ◌>>=◌) (rw (k, ◌>>=◌) (refl, refl, refl))
  ended m i end size depth true s (some b) cs h k = rw (h, ◌>>=◌) (rw (k, ◌>>=◌) (refl, refl, refl))
  ended m i end size depth false s none cs h k = rw (h, ◌>>=◌) (rw (k, ◌>>=◌) (refl, refl, refl))
  ended m i end size depth false s (some b) cs h k =
      rw (h, ◌>>=◌) (rw (k, ◌>>=◌) (refl, refl, refl))

  unended :
      (m : Module L) (i : CfInstr) (end : L.Block) (size depth : ℕ) (r s : Bool)
      (o : Option L.Block) (cs : List (CfEntry L))
      → (length m.eval_stack == size) ≡ false
      → end_op (record m { cf_entries = block_of i end size depth r s o ∷ cs })
        ≡ throw (invalid "wrong stack size after block end")
  unfolding end_op pop_into emit insert_block ◌>>=◌ Ty-discrete
  unended m i end size depth true s o cs h = rw (h, ◌>>=◌) refl
  unended m i end size depth false s o cs h = rw (h, ◌>>=◌) refl

  abbrev ending :
      Module L → CfEntry L → List (CfEntry L) → Ty → Option L.Value → Result (Unit {0} × Module L)
  ending m c cs t p = end_op (record m { cf_entries = record c { signature = t; phi = p } ∷ cs })

  -- The same run, with what the state has in place of what the equations say.
  ending-end_op :
      (m : Module L) (c : CfEntry L) (cs : List (CfEntry L))
      → m.cf_entries ≡ c ∷ cs
      → c.signature ≡ void
      → c.phi ≡ none
      → ending m c cs void none ≡ end_op m
  ending-end_op m c cs e t p =
      ap (λ u. ending m c cs u none) (sym t)
      ∙ ap (λ q. ending m c cs c.signature q) (sym p)
      ∙ ap (λ es. end_op (record m { cf_entries = es })) (sym e)

  -- The end of a block without a result, reached or not, with an `else` to close or not: with no
  -- operand left over in the block it succeeds, the operands are those outside of the block, the
  -- enclosing block is the innermost one again, and the jump targets are those outside of it.
  pub end_op-Leaves :
      (m : Module L) (c : CfEntry L) (cs : List (CfEntry L))
      → m.cf_entries ≡ c ∷ cs
      → c.signature ≡ void
      → c.phi ≡ none
      → length m.eval_stack ≡ c.outer_stack_size
      → Nested m
      → Leaves m.eval_stack cs (resize m.block_entries c.outer_block_depth) (end_op m)
  end_op-Leaves m c cs e t p h nested =
      let floors : Floors (length m.eval_stack) (length m.block_entries) (c ∷ cs) =
        subst (Floors _ _) e nested in
      subst (Leaves m.eval_stack cs (resize m.block_entries c.outer_block_depth))
        (ending-end_op m c cs e t p)
        (ended m c.instr c.end_block c.outer_stack_size c.outer_block_depth c.reachable
          c.else_reachable c.else_block cs (same_size (length m.eval_stack) c.outer_stack_size h)
          (within c.outer_block_depth (length m.block_entries) floors.1))
