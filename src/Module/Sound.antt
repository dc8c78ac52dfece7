-- ===== src/Module/Sound.antt =====
-- What every piece of code that works on the compiler's state keeps, and the rules by which the
-- instructions of src/module.cpp are put together from such pieces.
pub mod Rules
pub mod Control
pub mod Emit
pub mod Branches
pub mod Calls
pub mod Float
pub mod Numeric
pub mod Access
pub mod Dispatch
pub mod End
pub mod Skip
pub mod Body
pub mod Sections
pub mod Interfaces
pub mod Segments
use wembed.Base.{
  ℕ, ◌≤◌, ◌≡◌, refl, ◌∙◌, Bool, true, false, List, [], ◌∷◌, Option, none, some, if◌then◌else◌,
  length, leb, get_elem?, Result, ok, throw, Exception, invalid, ◌>>=◌, return, fail, throw_if,
  assert,
}
use wembed.Base.Runs.{
  IsRaised, Outcome, Runs, Runs-bind, Runs-if, Runs-fail, Runs-return, Runs-throw_if, Runs-assert,
}
use native.Mathlib.Nat.{le_refl, le_trans}
use wembed.Reader.{Reader, Parser}
use wembed.Reader.Forward.{Forward, Advances}
use wembed.Lang.Types.{Ty}
use wembed.Llvm.{Llvm}
use wembed.Llvm.Instructions.{Instr, Effect}
use wembed.Module.{Module, M, CfEntry, BlockEntry, reading, build, emit, append_block, insert_block}
use wembed.Module.Keeps.{Post}
use wembed.Module.Stack.{
  push, pop, pop_of, at_floor, pop_typed, pop_int, top, top_of, top_typed, branch_depth, entry_or,
}
use wembed.Module.Stack.Floor.{Nested, push-Nested, pop-Nested}
use wembed.Module.Calls.{or_throw}

-- A part of a statement that is made only where the flag is set.
abbrev pub When : Bool → Type 0 → Type 0
When true P = P
When false P = Unit {0}

pub when : {P : Type 0} (b : Bool) → P → When b P
when true p = p
when false p = tt

module _ ⦃L : Llvm⦄ where
  abbrev pub SameControl : Module L → Module L → Type 0
  SameControl m n = (n.cf_entries ≡ m.cf_entries) × (n.block_entries ≡ m.block_entries)

  -- From `m` to `n` the bytes stay the same and the reader does not go back. With `control` set, the
  -- control entries and the jump targets stay the same; with `floors` set, they stay in order.
  pub record Steps (control floors : Bool) (m n : Module L) : Type 0 where
    pub same_input : n.reader.input ≡ m.reader.input
    pub onward : m.reader.current ≤ n.reader.current
    pub same_control : When control (SameControl m n)
    pub ordered : When floors (Nested m → Nested n)

  abbrev pub Sound : Bool → Bool → {A : Type 0} → M A → Type 0
  Sound control floors c = Runs (Steps control floors) c

  SameControl-trans :
      (b : Bool) (m n o : Module L)
      → When b (SameControl m n)
      → When b (SameControl n o)
      → When b (SameControl m o)
  SameControl-trans true m n o p q = (q.0 ∙ p.0, q.1 ∙ p.1)
  SameControl-trans false m n o p q = tt

  ordered_trans :
      (b : Bool) (m n o : Module L)
      → When b (Nested m → Nested n)
      → When b (Nested n → Nested o)
      → When b (Nested m → Nested o)
  ordered_trans true m n o p q = λ h. q (p h)
  ordered_trans false m n o p q = tt

  pub Steps_trans : {c f : Bool} (m n o : Module L) → Steps c f m n → Steps c f n o → Steps c f m o
  Steps_trans {c} {f} m n o p q = record {
    same_input = q.same_input ∙ p.same_input;
    onward = le_trans p.onward q.onward;
    same_control = SameControl-trans c m n o p.same_control q.same_control;
    ordered = ordered_trans f m n o p.ordered q.ordered;
  }

  pub Steps_refl : {c f : Bool} (m : Module L) → Steps c f m m
  Steps_refl {c} {f} m = record {
    same_input = refl;
    onward = le_refl m.reader.current;
    same_control = when c (refl, refl);
    ordered = when f (λ h. h);
  }

  pub Steps-weaken : {f : Bool} {m n : Module L} → Steps true f m n → Steps false f m n
  Steps-weaken p = record {
    same_input = p.same_input;
    onward = p.onward;
    same_control = tt;
    ordered = p.ordered;
  }

  -- A step that leaves the reader and the control stacks alone.
  pub Steps-operands :
      {c f : Bool} (m : Module L) (vs : List L.Value)
      → When f (Nested m → Nested (record m { eval_stack = vs }))
      → Steps c f m (record m { eval_stack = vs })
  Steps-operands {c} {f} m vs h = record {
    same_input = refl;
    onward = le_refl m.reader.current;
    same_control = when c (refl, refl);
    ordered = h;
  }

  pub Steps-builder :
      {c f : Bool} (m : Module L) (b : L.Builder) → Steps c f m (record m { builder = b })
  Steps-builder {c} {f} m b = record {
    same_input = refl;
    onward = le_refl m.reader.current;
    same_control = when c (refl, refl);
    ordered = when f (λ h. h);
  }

  -- A step that leaves the reader and the three stacks alone.
  pub Steps-aside :
      {c f : Bool} (m n : Module L)
      → n.reader ≡ m.reader
      → n.eval_stack ≡ m.eval_stack
      → n.cf_entries ≡ m.cf_entries
      → n.block_entries ≡ m.block_entries
      → Steps c f m n
  Steps-aside {c} {f} m n e s t u = record {
    same_input = cc;
    onward = rw e (le_refl m.reader.current);
    same_control = when c (t, u);
    ordered = when f (λ h. rw (s, t, u) h);
  }

  -- A step that leaves the reader alone, with no promise on the control stacks but their order.
  pub Steps-ordered :
      {f : Bool} (m n : Module L)
      → n.reader ≡ m.reader
      → When f (Nested m → Nested n)
      → Steps false f m n
  Steps-ordered m n e h = record {
    same_input = cc;
    onward = rw e (le_refl m.reader.current);
    same_control = tt;
    ordered = h;
  }

  -- The promises that a run makes in any case.
  pub Steps-forget : {c f : Bool} {A : Type 0} {p : M A} → Sound c f p → Sound false false p
  Steps-forget {c} {f} {p = p} h = record { at = λ m. less m (p m) (h.at m) }
    where
      less :
          {A : Type 0} (m : Module L) (r : Result (A × Module L))
          → Outcome (Steps c f) m r
          → Outcome (Steps false false) m r
      less m (ok (a, n)) k = record {
        same_input = k.same_input;
        onward = k.onward;
        same_control = tt;
        ordered = tt;
      }
      less m (throw e) k = k
