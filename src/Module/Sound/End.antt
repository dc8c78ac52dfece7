-- ===== src/Module/Sound/End.antt =====
-- The end of a block.
use wembed.Base.{
  ◌-◌, ◌≡◌, refl, sym, subst, ◌∙◌, arith, Bool, true, false, List, [], ◌∷◌, Bool-cases, inl, inr,
  length, length-drop, leb, Result, ok, throw, ◌>>=◌,
}
use wembed.Base.Runs.{Outcome}
use wembed.Llvm.{Llvm}
use wembed.Module.{Module, M, CfEntry}
use wembed.Module.Stack.{back_of, resize}
use wembed.Module.Stack.Floor.{Floors, Floors-raise, Nested}
use wembed.Module.Control.{end_op, end_rest, close, drop_back}
use wembed.Module.Sound.{when, Steps, Steps_trans, Steps-weaken, Steps-ordered, Sound}
use wembed.Module.Sound.Rules.{emit-Sound, insert_block-Sound}
use wembed.Module.Sound.Control.{
  leave-Sound, check_size-Sound, checked_phi-Sound, close_else-Sound, push_result-Sound,
}

module _ ⦃L : Llvm⦄ where
  module _ (f : Bool) where
    -- Code that runs while `entry` is the innermost control entry.
    record Ends (entry : CfEntry L) (k : M (Unit {0})) : Type 0 where
      at :
          (m : Module L) (cs : List (CfEntry L))
          → m.cf_entries ≡ entry ∷ cs
          → Outcome (Steps false f) m (k m)

    released :
        (entry : CfEntry L) {A : Type 0} (m : Module L) (cs : List (CfEntry L))
        (r : Result (A × Module L)) (g : A → M (Unit {0}))
        → m.cf_entries ≡ entry ∷ cs
        → Outcome (Steps true f) m r
        → ((a : A) → Ends entry (g a))
        → Outcome (Steps false f) m (elim r [ ok (a, n) ↦ g a n | throw e ↦ throw e ])
    released entry m cs (throw x) g e h k = h
    released entry m cs (ok (a, n)) g e h k = after (g a n) ((k a).at n cs (h.same_control.0 ∙ e))
      where
        after :
            (r : Result (Unit {0} × Module L))
            → Outcome (Steps false f) n r
            → Outcome (Steps false f) m r
        after (ok (b, o)) q = Steps_trans m n o (Steps-weaken h) q
        after (throw x) q = q

    still_ :
        {entry : CfEntry L} {A : Type 0} {p : M A} {g : A → M (Unit {0})}
        → Sound true f p
        → ((a : A) → Ends entry (g a))
        → Ends entry (p >>= g)
    unfolding ◌>>=◌
    still_ {entry} {A} {p} {g} h k = record {
      at = λ m cs e. released entry m cs (p m) g e (h.at m) k;
    }

    close-Ends : (entry : CfEntry L) → Ends entry (close entry)
    unfolding ◌>>=◌
    close-Ends entry = record {
      at = λ m cs e. elim (Bool-cases (leb entry.outer_block_depth (length m.block_entries))) [
        | inl r ↦ rw r (Steps-ordered m _ refl (when f (closed m cs e)))
        | inr r ↦ rw r tt
      ];
    }
      where
        lower :
            (m : Module L) (cs : List (CfEntry L))
            → Floors (length m.eval_stack) (length m.block_entries) (entry ∷ cs)
            → Floors
                (length m.eval_stack)
                (length (resize m.block_entries entry.outer_block_depth))
                cs
        lower m cs (p, q, floors) =
            Floors-raise _ _ _ _ cs p
              (omega (
                arith,
                length-drop (length m.block_entries - entry.outer_block_depth) m.block_entries,
              ))
              floors

        closed :
            (m : Module L) (cs : List (CfEntry L))
            → m.cf_entries ≡ entry ∷ cs
            → Nested m
            → Floors
                (length m.eval_stack)
                (length (resize m.block_entries entry.outer_block_depth))
                (drop_back m.cf_entries)
        closed m cs e h =
            subst
              (λ es.
                Floors (length m.eval_stack)
                  (length (resize m.block_entries entry.outer_block_depth)) (drop_back es))
              (sym e) (lower m cs (subst (Floors _ _) e h))

    end_from : (e : CfEntry L) → Ends e (end_rest e)
    end_from e = still_ (checked_phi-Sound e) λ a. still_ (leave-Sound e _) λ b.
        still_ (check_size-Sound e) λ x. still_ (close_else-Sound e e.else_block) λ y.
          still_ insert_block-Sound λ z.
            still_ (emit-Sound _)
              λ v. still_ (emit-Sound _) λ w. still_ (push_result-Sound e e.phi) λ u. close-Ends e

    pub end_op-Sound : Sound false f end_op
    unfolding end_op ◌>>=◌
    end_op-Sound = record { at = λ m. ended m m.cf_entries refl }
      where
        ended :
            (m : Module L) (cs : List (CfEntry L))
            → m.cf_entries ≡ cs
            → Outcome
                (Steps false f)
                m
                (elim (back_of cs m) [ ok (c, n) ↦ end_rest c n | throw x ↦ throw x ])
        ended m [] e = tt
        ended m (c ∷ cs) e = (end_from c).at m cs e
