-- ===== src/Module/Sound/Calls.antt =====
-- Calls and variables. A call takes its arguments from the whole stack, so it makes no promise on the
-- floors.
use wembed.Base.{ℕ, Bool, false, List, [], ◌∷◌, length, ltb, drop, Bool-cases, inl, inr}
use wembed.Base.Runs.{Runs-if}
use wembed.Reader.Forward.{parse_uleb128-Advances}
use wembed.Lang.Types.{Ty, i32}
use wembed.Llvm.{Llvm}
use wembed.Module.{Table}
use wembed.Module.Control.{Frame}
use wembed.Module.Calls.{
  take_args, check_args, push_call, call_op, first_table, call_indirect_op, select_op, local_at,
  global_at, get_local_op, set_local_op, tee_local_op, get_global_op, set_global_op,
}
use wembed.Module.Sound.{Sound, Steps-operands}
use wembed.Module.Sound.Rules.{
  then_, return-Sound, fail-Sound, throw_if-Sound, tested-Sound, or_throw-Sound, reading-Sound,
  build-Sound, push-Sound, pop-Sound, pop_typed-Sound, top_typed-Sound,
}
use wembed.Module.Sound.Control.{i32_to_bool-Sound}
use wembed.Module.Sound.Emit.{get_string-Sound, trap_if-Sound}

module _ ⦃L : Llvm⦄ where
  module _ {c : Bool} where
    take_args-Sound : (n : ℕ) → Sound c false (take_args n)
    unfolding take_args
    take_args-Sound n = record {
      at = λ m. elim (Bool-cases (ltb (length m.eval_stack) n)) [
        | inl r ↦ rw r tt
        | inr r ↦ rw r (Steps-operands m (drop n m.eval_stack) tt)
      ];
    }

    check_args-Sound : (vs : List L.Value) (ts : List Ty) → Sound c false (check_args vs ts)
    unfolding check_args
    check_args-Sound [] ts = return-Sound tt
    check_args-Sound (v ∷ vs) [] = fail-Sound _ tt
    check_args-Sound (v ∷ vs) (t ∷ ts) = then_ (throw_if-Sound _ _ tt) λ x. check_args-Sound vs ts

    push_call-Sound : (t : Ty) (v : L.Value) → Sound c false (push_call t v)
    push_call-Sound t v = Runs-if _ (return-Sound tt) (push-Sound v)

    pub call_op-Sound : Sound c false call_op
    unfolding call_op
    call_op-Sound = then_ (reading-Sound (parse_uleb128-Advances 32)) λ i.
        then_ (or_throw-Sound _ _ tt) λ d.
          then_ (take_args-Sound _)
            λ vs. then_ (check_args-Sound vs _) λ x. then_ (build-Sound _) λ r. push_call-Sound _ r

    first_table-Sound : (ts : List (Table L)) → Sound c false (first_table ts)
    first_table-Sound [] = fail-Sound _ tt
    first_table-Sound (t ∷ ts) = return-Sound t

    pub call_indirect_op-Sound : (g : Frame L) → Sound c false (call_indirect_op g)
    unfolding call_indirect_op
    call_indirect_op-Sound g = then_ (tested-Sound _ _ tt) λ a.
        then_ (reading-Sound (parse_uleb128-Advances 32)) λ s.
          then_ (reading-Sound (parse_uleb128-Advances 8)) λ b. then_ (pop_typed-Sound i32) λ i.
            then_ (or_throw-Sound _ _ tt) λ t. then_ (take_args-Sound _) λ vs.
              then_ (check_args-Sound vs _) λ d.
                then_ (record { at = λ m. (first_table-Sound m.tables).at m })
                  λ e. then_ (build-Sound _) λ j. then_ (build-Sound _) λ k.
                    then_ (build-Sound _) λ l. then_ (build-Sound _) λ m.
                      then_ (get_string-Sound _) λ n. then_ (trap_if-Sound _ _ _ _) λ o.
                        then_ (build-Sound _) λ p. then_ (build-Sound _) λ q.
                          then_ (build-Sound _) λ u.
                            then_ (build-Sound _)
                              λ v. then_ (build-Sound _) λ r. push_call-Sound _ r

  module _ {c f : Bool} where
    pub select_op-Sound : Sound c f select_op
    unfolding select_op
    select_op-Sound = then_ (pop_typed-Sound i32) λ k. then_ pop-Sound λ x.
        then_ (pop_typed-Sound _)
          λ y. then_ (i32_to_bool-Sound k) λ t. then_ (build-Sound _) λ r. push-Sound r

    local_at-Sound : (g : Frame L) (i : ℕ) → Sound c f (local_at g i)
    local_at-Sound g i = or_throw-Sound _ _ tt

    global_at-Sound : (i : ℕ) → Sound c f (global_at i)
    global_at-Sound i = or_throw-Sound _ _ tt

    pub get_local_op-Sound : (g : Frame L) → Sound c f (get_local_op g)
    unfolding get_local_op
    get_local_op-Sound g =
        then_ (reading-Sound (parse_uleb128-Advances 32))
          λ i. then_ (local_at-Sound g i) λ p. then_ (build-Sound _) λ v. push-Sound v

    pub set_local_op-Sound : (g : Frame L) → Sound c f (set_local_op g)
    unfolding set_local_op
    set_local_op-Sound g = then_ (reading-Sound (parse_uleb128-Advances 32)) λ i.
        then_ (local_at-Sound g i) λ p.
          then_ (pop_typed-Sound _)
            λ v. then_ (build-Sound _) λ s. then_ (build-Sound _) λ x. return-Sound tt

    pub tee_local_op-Sound : (g : Frame L) → Sound c f (tee_local_op g)
    unfolding tee_local_op
    tee_local_op-Sound g = then_ (reading-Sound (parse_uleb128-Advances 32)) λ i.
        then_ (local_at-Sound g i) λ p.
          then_ (top_typed-Sound _)
            λ v. then_ (build-Sound _) λ s. then_ (build-Sound _) λ x. return-Sound tt

    pub get_global_op-Sound : Sound c f get_global_op
    unfolding get_global_op
    get_global_op-Sound =
        then_ (reading-Sound (parse_uleb128-Advances 32))
          λ i. then_ (global_at-Sound i) λ p. then_ (build-Sound _) λ v. push-Sound v

    pub set_global_op-Sound : Sound c f set_global_op
    unfolding set_global_op
    set_global_op-Sound = then_ (reading-Sound (parse_uleb128-Advances 32)) λ i.
        then_ (global_at-Sound i) λ p.
          then_ (pop_typed-Sound _)
            λ v. then_ (build-Sound _) λ s. then_ (build-Sound _) λ x. return-Sound tt
