-- ===== src/Module/Sound/Control.antt =====
-- The control instructions: `block`, `loop`, `if`, `else`, `end`.
use wembed.Base.{
  ℕ, zero, suc, refl, Bool, true, false, List, [], ◌∷◌, Option, none, some, ◌==◌, Bool-cases, inl,
  inr, ok, Exception, malformed, ◌>>=◌, fail,
}
use wembed.Base.Runs.{IsRaised, Outcome, Runs-if}
use native.Mathlib.Nat.{le_refl}
use wembed.Reader.Forward.{Advances, parse_uleb128-Advances, parse-Advances, return-Advances}
use wembed.Reader.Forward
use wembed.Lang.Types.{Ty, i32, i64, float, double, void}
use wembed.Llvm.{Llvm}
use wembed.Llvm.Instructions.{br, cond_br, position_at_end, phi, add_incoming}
use wembed.Module.{Module, CfEntry, CfInstr, cf_block, cf_loop, cf_if}
use wembed.Module.Stack.{push_cf_entry, push_block_entry, cf_back, back_of, back_reachable}
use wembed.Module.Stack.Floor.{Floors, push_block_entry-Nested}
use wembed.Module.Emit.{create_phi, i32_to_bool, get_zero}
use wembed.Module.Control.{
  Frame, value_type, parse_llvm_vtype, parse_llvm_btype, parse_targets, use_phi, incoming, pop_into,
  block_op, loop_op, if_op, else_op, leave, check_size, else_block_of, set_back, turned, close_else,
  phi_or_zero, push_result, checked_phi,
}
use wembed.Module.Sound.{when, Steps, Steps_refl, Steps-ordered, Sound}
use wembed.Module.Sound.Rules.{
  then_, return-Sound, fail-Sound, assert-Sound, tested-Sound, reading-Sound, build-Sound,
  emit-Sound, append_block-Sound, insert_block-Sound, push-Sound, pop_typed-Sound,
}

fail-Advances : {A : Type 0} (e : Exception) → IsRaised e → Advances {A = A} (fail e)
fail-Advances e h = record { at = λ r. h }

pub value_type-Advances : (b : ℕ) → Advances (value_type b)
unfolding value_type
value_type-Advances b = Runs-if (b == 127) (return-Advances i32) (
    Runs-if (b == 126) (return-Advances i64) (
      Runs-if (b == 125) (return-Advances float) (
        Runs-if (b == 124) (return-Advances double)
          (fail-Advances (malformed "unexpected value type") tt))))

pub parse_llvm_vtype-Advances : Advances parse_llvm_vtype
unfolding parse_llvm_vtype
parse_llvm_vtype-Advances = Forward.then_ (parse-Advances 1) λ b. value_type-Advances b

pub parse_llvm_btype-Advances : Advances parse_llvm_btype
unfolding parse_llvm_btype
parse_llvm_btype-Advances =
    Forward.then_ (parse-Advances 1)
      λ b. Runs-if (b == 64) (return-Advances void) (value_type-Advances b)

pub parse_targets-Advances : (n : ℕ) → Advances (parse_targets n)
unfolding parse_targets
parse_targets-Advances zero = return-Advances _
parse_targets-Advances (suc n) =
    Forward.then_ (parse_uleb128-Advances 32)
      λ t. Forward.then_ (parse_targets-Advances n) λ ts. return-Advances _

module _ ⦃L : Llvm⦄ where
  module _ {c f : Bool} where
    pub get_zero-Sound : (t : Ty) → Sound c f (get_zero t)
    unfolding get_zero
    get_zero-Sound i32 = return-Sound _
    get_zero-Sound i64 = return-Sound _
    get_zero-Sound float = return-Sound _
    get_zero-Sound double = return-Sound _
    get_zero-Sound t = fail-Sound _ tt

    pub create_phi-Sound : (t : Ty) (b : L.Block) → Sound c f (create_phi t b)
    unfolding create_phi
    create_phi-Sound t b = Runs-if _ (return-Sound none) (
        then_ insert_block-Sound λ before.
          then_ (emit-Sound _)
            λ x. then_ (build-Sound (phi t)) λ v. then_ (emit-Sound _) λ y. return-Sound (some v))

    pub i32_to_bool-Sound : (v : L.Value) → Sound c f (i32_to_bool v)
    unfolding i32_to_bool
    i32_to_bool-Sound v = build-Sound _

    pub use_phi-Sound : (o : Option L.Value) → Sound c f (use_phi o)
    use_phi-Sound none = fail-Sound _ tt
    use_phi-Sound (some v) = return-Sound v

    pub incoming-Sound : (o : Option L.Value) (v : L.Value) → Sound c f (incoming o v)
    incoming-Sound o v =
        then_ insert_block-Sound λ b. then_ (use_phi-Sound o) λ p. emit-Sound (add_incoming p v b)

    pub pop_into-Sound : (t u : Ty) (o : Option L.Value) → Sound c f (pop_into t u o)
    unfolding pop_into
    pop_into-Sound t u o =
        Runs-if _ (return-Sound tt) (then_ (pop_typed-Sound u) λ v. incoming-Sound o v)

    -- What `else` and `end` do before they change the control entry.
    pub leave-Sound : (e : CfEntry L) (t : Ty) → Sound c f (leave e t)
    leave-Sound e t =
        Runs-if _ (then_ (pop_into-Sound e.signature t e.phi) λ a. emit-Sound _) (return-Sound tt)

    pub check_size-Sound : (e : CfEntry L) → Sound c f (check_size e)
    check_size-Sound e = tested-Sound _ _ tt

    else_block_of-Sound : (o : Option L.Block) → Sound c f (else_block_of o)
    else_block_of-Sound none = fail-Sound _ tt
    else_block_of-Sound (some b) = return-Sound b

    pub checked_phi-Sound : (e : CfEntry L) → Sound c f (checked_phi e)
    checked_phi-Sound e =
        Runs-if _ (Runs-if _ (return-Sound tt) (then_ (use_phi-Sound e.phi) λ p. return-Sound tt))
          (return-Sound tt)

    pub close_else-Sound : (e : CfEntry L) (o : Option L.Block) → Sound c f (close_else e o)
    close_else-Sound e none = return-Sound tt
    close_else-Sound e (some b) =
        then_ insert_block-Sound
          λ x. then_ (emit-Sound _) λ y. then_ (emit-Sound _) λ z. emit-Sound _

    phi_or_zero-Sound : (e : CfEntry L) (p : L.Value) (b : Bool) → Sound c f (phi_or_zero e p b)
    phi_or_zero-Sound e p true =
        then_ (emit-Sound _)
          λ x. then_ (assert-Sound _) λ y. then_ (get_zero-Sound e.signature) λ v. push-Sound v
    phi_or_zero-Sound e p false = push-Sound p

    pub push_result-Sound : (e : CfEntry L) (o : Option L.Value) → Sound c f (push_result e o)
    push_result-Sound e none = return-Sound tt
    push_result-Sound e (some p) = record {
      at = λ m. (phi_or_zero-Sound e p (L.count_incoming p m.builder == 0)).at m;
    }

    cf_back-Sound : Sound c f cf_back
    cf_back-Sound = record { at = λ m. back m m.cf_entries }
      where
        back : (m : Module L) (cs : List (CfEntry L)) → Outcome (Steps c f) m (back_of cs m)
        back m [] = tt
        back m (e ∷ cs) = Steps_refl m

  module _ {f : Bool} where
    pub push_cf_entry-Sound :
        (i : CfInstr) (t : Ty) (b : L.Block) (p : Option L.Value) (e : Option L.Block)
        → Sound false f (push_cf_entry i t b p e)
    unfolding push_cf_entry ◌>>=◌
    push_cf_entry-Sound i t b p e = record {
      at = λ m. elim (Bool-cases (back_reachable m.cf_entries)) [
        | inl r ↦ rw r (Steps-ordered m _ refl (when f (λ h. (le_refl _, le_refl _, h))))
        | inr r ↦ rw r tt
      ];
    }

    pub push_block_entry-Sound :
        (t : Ty) (b : L.Block) (p : Option L.Value) → Sound false f (push_block_entry t b p)
    unfolding push_block_entry
    push_block_entry-Sound t b p = record {
      at = λ m. Steps-ordered m _ refl (when f (push_block_entry-Nested t b p m));
    }

    pub block_op-Sound : (g : Frame L) → Sound false f (block_op g)
    unfolding block_op
    block_op-Sound g = then_ (reading-Sound parse_llvm_btype-Advances) λ t.
        then_ (append_block-Sound g.func) λ e.
          then_ (create_phi-Sound t e) λ p.
            then_ (push_cf_entry-Sound cf_block t e p none) λ done. push_block_entry-Sound t e p

    pub loop_op-Sound : (g : Frame L) → Sound false f (loop_op g)
    unfolding loop_op
    loop_op-Sound g = then_ (reading-Sound parse_llvm_btype-Advances) λ t.
        then_ (append_block-Sound g.func) λ l. then_ (append_block-Sound g.func) λ e.
          then_ (create_phi-Sound t e) λ p. then_ (emit-Sound (br l)) λ a.
            then_ (emit-Sound (position_at_end l)) λ b.
              then_ (push_cf_entry-Sound cf_loop t e p none)
                λ done. push_block_entry-Sound void l none

    pub if_op-Sound : (g : Frame L) → Sound false f (if_op g)
    unfolding if_op
    if_op-Sound g = then_ (reading-Sound parse_llvm_btype-Advances) λ t.
        then_ (append_block-Sound g.func) λ x. then_ (append_block-Sound g.func) λ y.
          then_ (append_block-Sound g.func) λ e. then_ (create_phi-Sound t e) λ p.
            then_ (pop_typed-Sound i32) λ v. then_ (i32_to_bool-Sound v) λ k.
              then_ (emit-Sound (cond_br k x y)) λ a. then_ (emit-Sound (position_at_end x)) λ b.
                then_ (push_cf_entry-Sound cf_if t e p (some y))
                  λ done. push_block_entry-Sound t e p

    turned-Sound :
        Sound false f (λ m. ok (tt, record m { cf_entries = set_back turned m.cf_entries }))
    turned-Sound = record {
      at = λ m. Steps-ordered m _ refl (when f (turned_floors _ _ m.cf_entries));
    }
      where
        turned_floors :
            (s d : ℕ) (cs : List (CfEntry L)) → Floors s d cs → Floors s d (set_back turned cs)
        turned_floors s d [] h = h
        turned_floors s d (e ∷ cs) h = h

    pub else_op-Sound : Sound false f else_op
    unfolding else_op
    else_op-Sound = then_ cf_back-Sound λ e. then_ (leave-Sound e _) λ a.
        then_ (check_size-Sound e) λ b. then_ (else_block_of-Sound e.else_block) λ x.
          then_ (assert-Sound _) λ y.
            then_ insert_block-Sound
              λ z. then_ (emit-Sound _) λ v. then_ (emit-Sound _) λ w. turned-Sound
