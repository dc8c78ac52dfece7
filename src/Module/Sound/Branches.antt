-- ===== src/Module/Sound/Branches.antt =====
-- The jumps.
use wembed.Base.{
  ℕ, ◌+◌, refl, ltb, length, Bool-cases, inl, inr, Bool, false, List, [], ◌∷◌, Option, none, some,
}
use wembed.Base.Runs.{Outcome, Runs-if}
use wembed.Reader.Forward.{parse_uleb128-Advances}
use wembed.Lang.Types.{Ty, i32}
use wembed.Llvm.{Llvm}
use wembed.Module.{Module, CfEntry, BlockEntry}
use wembed.Module.Keeps.{Post}
use wembed.Module.Stack.{skip_unreachable, unreachable_from}
use wembed.Module.Stack.Floor.{Nested, skip_unreachable-Nested}
use wembed.Module.Control.{Frame}
use wembed.Module.Branches.{
  unreachable_op, br_op, top_into, br_if_op, table_result, pass_on, add_cases, br_table_op,
  first_of_list, cf_front, return_op,
}
use wembed.Module.Sound.{Sound, Steps, Steps-ordered, when}
use wembed.Module.Sound.Rules.{
  then_, return-Sound, fail-Sound, throw_if-Sound, reading-Sound, build-Sound, emit-Sound,
  append_block-Sound, pop_typed-Sound, top_typed-Sound, branch_depth-Sound,
}
use wembed.Module.Sound.Control.{
  parse_targets-Advances, i32_to_bool-Sound, incoming-Sound, pop_into-Sound,
}
use wembed.Module.Sound.Emit.{get_string-Sound, trap_if-Sound}

module _ ⦃L : Llvm⦄ where
  module _ {c f : Bool} where
    top_into-Sound : (e : BlockEntry L) → Sound c f (top_into e)
    unfolding top_into
    top_into-Sound e =
        Runs-if _ (return-Sound tt) (then_ (top_typed-Sound _) λ v. incoming-Sound e.phi v)

    pub br_if_op-Sound : (g : Frame L) → Sound c f (br_if_op g)
    unfolding br_if_op
    br_if_op-Sound g = then_ (pop_typed-Sound i32) λ k.
        then_ (reading-Sound (parse_uleb128-Advances 32)) λ d. then_ (branch_depth-Sound d) λ e.
          then_ (top_into-Sound e) λ x.
            then_ (append_block-Sound g.func)
              λ b. then_ (i32_to_bool-Sound k) λ t. then_ (emit-Sound _) λ y. emit-Sound _

    table_result-Sound : (e : BlockEntry L) → Sound c f (table_result e)
    table_result-Sound e =
        Runs-if _ (return-Sound none)
          (then_ (pop_typed-Sound _) λ v. then_ (incoming-Sound e.phi v) λ x. return-Sound (some v))

    pass_on-Sound : (e : BlockEntry L) (o : Option L.Value) → Sound c f (pass_on e o)
    pass_on-Sound e none = return-Sound tt
    pass_on-Sound e (some v) = incoming-Sound e.phi v

    add_cases-Sound :
        (s : L.Value) (t : Ty) (o : Option L.Value) (i : ℕ) (ds : List ℕ)
        → Sound c f (add_cases s t o i ds)
    unfolding add_cases
    add_cases-Sound s t o i [] = return-Sound tt
    add_cases-Sound s t o i (d ∷ ds) = then_ (branch_depth-Sound d) λ e.
        then_ (throw_if-Sound _ _ tt) λ x.
          then_ (emit-Sound _) λ y. then_ (pass_on-Sound e o) λ z. add_cases-Sound s t o (i + 1) ds

    cf_front-Sound : Sound c f cf_front
    cf_front-Sound = record { at = λ m. (front m.cf_entries).at m }
      where
        front : (cs : List (CfEntry L)) → Sound c f (first_of_list cs)
        front [] = fail-Sound _ tt
        front (d ∷ []) = return-Sound d
        front (d ∷ e ∷ cs) = front (e ∷ cs)

  module _ {f : Bool} where
    skip_unreachable-Sound : Sound false f skip_unreachable
    unfolding skip_unreachable
    skip_unreachable-Sound = record { at = λ m. entered m m.cf_entries (skip_unreachable-Nested m) }
      where
        entered :
            (m : Module L) (cs : List (CfEntry L))
            → (Nested m → Post (λ before n. Nested n) m (unreachable_from cs m))
            → Outcome (Steps false f) m (unreachable_from cs m)
        entered m [] h = tt
        entered m (e ∷ cs) h = elim (Bool-cases (ltb (length m.eval_stack) e.outer_stack_size)) [
          | inl r ↦ rw r tt
          | inr r ↦ rw r (Steps-ordered m _ refl (when f (rw r at h)))
        ]

    pub unreachable_op-Sound : (g : Frame L) → Sound false f (unreachable_op g)
    unfolding unreachable_op
    unreachable_op-Sound g =
        then_ (get_string-Sound _)
          λ s. then_ (trap_if-Sound _ _ _ _) λ x. then_ (emit-Sound _) λ y. skip_unreachable-Sound

    pub br_op-Sound : Sound false f br_op
    unfolding br_op
    br_op-Sound = then_ (reading-Sound (parse_uleb128-Advances 32)) λ d.
        then_ (branch_depth-Sound d)
          λ e. then_ (pop_into-Sound _ _ _) λ x. then_ (emit-Sound _) λ y. skip_unreachable-Sound

    pub br_table_op-Sound : Sound false f br_table_op
    unfolding br_table_op
    br_table_op-Sound = then_ (pop_typed-Sound i32) λ i.
        then_ (reading-Sound (parse_uleb128-Advances 32)) λ n.
          then_ (reading-Sound (parse_targets-Advances n)) λ ts.
            then_ (reading-Sound (parse_uleb128-Advances 32)) λ d. then_ (branch_depth-Sound d) λ e.
              then_ (table_result-Sound e) λ r.
                then_ (build-Sound _)
                  λ s. then_ (add_cases-Sound s _ r 0 ts) λ x. skip_unreachable-Sound

    pub return_op-Sound : (g : Frame L) → Sound false f (return_op g)
    unfolding return_op
    return_op-Sound g =
        then_ cf_front-Sound
          λ e. then_ (pop_into-Sound _ _ _) λ x. then_ (emit-Sound _) λ y. skip_unreachable-Sound
