-- ===== src/Module/Sound/Rules.antt =====
-- The rules by which pieces of code are put together, on what a run of them may change.
use wembed.Base.{
  ◌-◌, ℕ, refl, Bool, true, false, List, [], ◌∷◌, Option, none, some, if◌then◌else◌, length, leb,
  Result, ok, throw, Exception, invalid, ◌>>=◌, return, fail, throw_if, assert,
}
use wembed.Base.Runs.{
  IsRaised, Outcome, Runs-bind, Runs-fail, Runs-return, Runs-throw_if, Runs-assert,
}
use wembed.Reader.{Reader, Parser}
use wembed.Reader.Forward.{Forward, Advances}
use wembed.Lang.Types.{Ty}
use wembed.Llvm.{Llvm}
use wembed.Llvm.Instructions.{Instr, Effect}
use wembed.Module.{Module, M, BlockEntry, reading, build, emit, append_block, insert_block}
use wembed.Module.Keeps.{Post}
use wembed.Module.Stack.{
  push, pop, pop_of, at_floor, pop_typed, pop_int, top, top_of, top_typed, branch_depth, entry_or,
  vector_at,
}
use wembed.Module.Stack.Floor.{Nested, push-Nested, pop-Nested}
use wembed.Module.Calls.{or_throw}
use wembed.Module.Sound.{when, Steps, Steps_trans, Steps_refl, Steps-operands, Steps-builder, Sound}

module _ ⦃L : Llvm⦄ where
  module _ (c f : Bool) where
    or_throw-Outcome :
        {A : Type 0} (o : Option A) (e : Exception) (m : Module L)
        → IsRaised e
        → Outcome (Steps c f) m (or_throw o e m)
    or_throw-Outcome none e m h = h
    or_throw-Outcome (some a) e m h = Steps_refl m

    popped :
        (m : Module L) (vs : List L.Value)
        → (Nested m → Post (λ before n. Nested n) m (pop_of vs m))
        → Outcome (Steps c f) m (pop_of vs m)
    popped m [] h = tt
    popped m (v ∷ vs) h = kept (at_floor m.cf_entries (length (v ∷ vs))) h
      where
        kept :
            (b : Bool)
            → (Nested m
                → Post
                    (λ before n. Nested n)
                    m
                    (if b
                      then throw (invalid "popping stack outside bounds of current context")
                      else ok (v, record m { eval_stack = vs })))
            → Outcome (Steps c f) m (
                if b
                then throw (invalid "popping stack outside bounds of current context")
                else ok (v, record m { eval_stack = vs }))
        kept true h = tt
        kept false h = Steps-operands m vs (when f h)

  module _ {c f : Bool} where
    pub then_ :
        {A B : Type 0} {p : M A} {g : A → M B}
        → Sound c f p
        → ((a : A) → Sound c f (g a))
        → Sound c f (p >>= g)
    then_ h k = Runs-bind Steps_trans h k

    pub return-Sound : {A : Type 0} (a : A) → Sound c f (return {S = Module L} a)
    return-Sound a = Runs-return Steps_refl a

    pub fail-Sound : {A : Type 0} (e : Exception) → IsRaised e → Sound c f {A = A} (fail e)
    fail-Sound e h = Runs-fail e h

    pub throw_if-Sound : (b : Bool) (e : Exception) → IsRaised e → Sound c f (throw_if b e)
    throw_if-Sound b e h = Runs-throw_if Steps_refl b e h

    pub assert-Sound : (b : Bool) → Sound c f (assert b)
    assert-Sound b = Runs-assert Steps_refl b

    -- A test of the state, and a look at it.
    pub tested-Sound :
        (g : Module L → Bool) (e : Exception) → IsRaised e → Sound c f (λ m. throw_if (g m) e m)
    tested-Sound g e h = record { at = λ m. (throw_if-Sound (g m) e h).at m }

    pub asserted-Sound : (g : Module L → Bool) → Sound c f (λ m. assert (g m) m)
    asserted-Sound g = record { at = λ m. (assert-Sound (g m)).at m }

    pub look-Sound : {A : Type 0} (g : Module L → A) → Sound c f (λ m. ok (g m, m))
    look-Sound g = record { at = λ m. Steps_refl m }

    pub or_throw-Sound :
        {A : Type 0} (g : Module L → Option A) (e : Exception)
        → IsRaised e
        → Sound c f (λ m. or_throw (g m) e m)
    or_throw-Sound g e h = record { at = λ m. or_throw-Outcome c f (g m) e m h }

    pub reading-Sound : {A : Type 0} {p : Parser A} → Advances p → Sound c f (reading p)
    reading-Sound {A} {p} a = record { at = λ m. read m (p m.reader) (a.at m.reader) }
      where
        read :
            (m : Module L) (r : Result (A × Reader))
            → Outcome Forward m.reader r
            → Outcome
                (Steps c f)
                m
                (elim r [ ok (a, s) ↦ ok (a, record m { reader = s }) | throw e ↦ throw e ])
        read m (ok (a, s)) h = record {
          same_input = h.same_input;
          onward = h.onward;
          same_control = when c (refl, refl);
          ordered = when f (λ h. h);
        }
        read m (throw e) h = h

    pub build-Sound : (i : Instr L.Value L.Block) → Sound c f (build i)
    unfolding build
    build-Sound i = record { at = λ m. Steps-builder m (L.build i m.builder).1 }

    pub emit-Sound : (e : Effect L.Value L.Block) → Sound c f (emit e)
    unfolding emit
    emit-Sound e = record { at = λ m. Steps-builder m (L.emit e m.builder) }

    pub append_block-Sound : (v : L.Value) → Sound c f (append_block v)
    unfolding append_block
    append_block-Sound v = record { at = λ m. Steps-builder m (L.append_block v m.builder).1 }

    pub insert_block-Sound : Sound c f insert_block
    unfolding insert_block
    insert_block-Sound = look-Sound (λ m. L.insert_block m.builder)

    pub push-Sound : (v : L.Value) → Sound c f (push v)
    unfolding push
    push-Sound v = record {
      at = λ m. Steps-operands m (v ∷ m.eval_stack) (when f (push-Nested v m));
    }

    pub pop-Sound : Sound c f pop
    unfolding pop
    pop-Sound = record { at = λ m. popped c f m m.eval_stack (pop-Nested m) }

    pub pop_typed-Sound : (t : Ty) → Sound c f (pop_typed t)
    unfolding pop_typed
    pop_typed-Sound t = then_ pop-Sound λ v. then_ (throw_if-Sound _ _ tt) λ done. return-Sound v

    pub pop_int-Sound : Sound c f pop_int
    unfolding pop_int
    pop_int-Sound = then_ pop-Sound λ v. then_ (throw_if-Sound _ _ tt) λ done. return-Sound v

    pub top-Sound : Sound c f top
    unfolding top
    top-Sound = record { at = λ m. topped m m.eval_stack }
      where
        topped : (m : Module L) (vs : List L.Value) → Outcome (Steps c f) m (top_of vs m)
        topped m [] = tt
        topped m (v ∷ vs) = kept (at_floor m.cf_entries (length (v ∷ vs)))
          where
            kept :
                (b : Bool)
                → Outcome (Steps c f) m (
                    if b
                    then throw (invalid "topping stack outside bounds of current context")
                    else ok (v, m))
            kept true = tt
            kept false = Steps_refl m

    pub top_typed-Sound : (t : Ty) → Sound c f (top_typed t)
    unfolding top_typed
    top_typed-Sound t = then_ top-Sound λ v. then_ (throw_if-Sound _ _ tt) λ done. return-Sound v

    pub branch_depth-Sound : (d : ℕ) → Sound c f (branch_depth d)
    unfolding branch_depth
    branch_depth-Sound d = record { at = λ m. within_depth m (leb (length m.block_entries) d) }
      where
        entry : (m : Module L) (o : Option (BlockEntry L)) → Outcome (Steps c f) m (entry_or o m)
        entry m none = tt
        entry m (some e) = Steps_refl m

        within_depth :
            (m : Module L) (b : Bool)
            → Outcome (Steps c f) m (
                if b
                then throw (invalid "invalid branch target")
                else entry_or (vector_at m.block_entries (length m.block_entries - d - 1)) m)
        within_depth m true = tt
        within_depth m false = entry m (vector_at m.block_entries (length m.block_entries - d - 1))
