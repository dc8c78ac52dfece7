-- ===== src/Module/Sound/Numeric.antt =====
-- The numeric instructions.
use wembed.Base.{Bool, ◌>>=◌}
use wembed.Lang.Types.{Ty}
use wembed.Llvm.{Llvm}
use wembed.Llvm.Instructions.{CastOp, IntPredicate, RealPredicate, Intrinsic}
use wembed.Module.{M}
use wembed.Module.Stack.{pop_typed, push}
use wembed.Module.Control.{Frame}
use wembed.Module.Numeric.{
  Truncation, Arithmetic, plain, cleared, udiv_of, sdiv_of, urem_of, srem_of, rotl_of, rotr_of,
  shift_of, copysign_of, trunc_op, sat_trunc_op, eqz_op, icmp_op, fcmp_op, compute, binary_op,
  count_zeros_op, intrinsic_op, round_op, min_op, max_op, neg_op, cast_op, sign_ext_op,
  resize_float_op,
}
use wembed.Module.Sound.{Sound}
use wembed.Module.Sound.Rules.{then_, build-Sound, push-Sound, pop-Sound, pop_typed-Sound}
use wembed.Module.Sound.Control.{get_zero-Sound}
use wembed.Module.Sound.Emit.{
  get_string-Sound, bool_to_i32-Sound, trap_if-Sound, emit_shift_mask-Sound, emit_rotl-Sound,
  emit_rotr-Sound, emit_udiv-Sound, emit_sdiv-Sound, emit_urem-Sound, emit_srem-Sound,
}
use wembed.Module.Sound.Float.{
  emit_quiet_nan_or_intrinsic-Sound, emit_min-Sound, emit_max-Sound, clear_nan-Sound,
}

module _ ⦃L : Llvm⦄ {c f : Bool} where
  pub trunc_op-Sound : (g : Frame L) (t : Truncation) → Sound c f (trunc_op g t)
  unfolding trunc_op
  trunc_op-Sound g t = then_ (pop_typed-Sound _) λ v. then_ (build-Sound _) λ b.
      then_ (build-Sound _) λ e. then_ (build-Sound _) λ x. then_ (build-Sound _) λ y.
        then_ (build-Sound _) λ z. then_ (build-Sound _) λ w. then_ (build-Sound _) λ u.
          then_ (get_string-Sound _)
            λ s. then_ (trap_if-Sound g.func u _ _) λ d. then_ (build-Sound _) λ r. push-Sound r

  pub sat_trunc_op-Sound : (t : Truncation) → Sound c f (sat_trunc_op t)
  unfolding sat_trunc_op
  sat_trunc_op-Sound t = then_ (pop_typed-Sound _) λ v. then_ (build-Sound _) λ b.
      then_ (build-Sound _) λ e. then_ (build-Sound _) λ x. then_ (build-Sound _) λ y.
        then_ (get_zero-Sound _) λ z. then_ (build-Sound _) λ w. then_ (build-Sound _) λ u.
          then_ (build-Sound _) λ i. then_ (build-Sound _) λ j. then_ (build-Sound _) λ k.
            then_ (build-Sound _) λ l.
              then_ (build-Sound _)
                λ m. then_ (get_zero-Sound _) λ n. then_ (build-Sound _) λ r. push-Sound r

  pub eqz_op-Sound : (t : Ty) → Sound c f (eqz_op t)
  unfolding eqz_op
  eqz_op-Sound t =
      then_ (pop_typed-Sound _)
        λ v. then_ (build-Sound _) λ b. then_ (bool_to_i32-Sound b) λ r. push-Sound r

  pub icmp_op-Sound : (p : IntPredicate) → Sound c f (icmp_op p)
  unfolding icmp_op
  icmp_op-Sound p = then_ pop-Sound λ v.
      then_ (pop_typed-Sound _)
        λ w. then_ (build-Sound _) λ b. then_ (bool_to_i32-Sound b) λ r. push-Sound r

  pub fcmp_op-Sound : (p : RealPredicate) → Sound c f (fcmp_op p)
  unfolding fcmp_op
  fcmp_op-Sound p = then_ pop-Sound λ v.
      then_ (pop_typed-Sound _)
        λ w. then_ (build-Sound _) λ b. then_ (bool_to_i32-Sound b) λ r. push-Sound r

  compute-Sound :
      (g : Frame L) (a : Arithmetic) (lhs rhs : L.Value) → Sound c f (compute g a lhs rhs)
  unfolding compute
  compute-Sound g (plain op) lhs rhs = build-Sound _
  compute-Sound g (cleared op) lhs rhs = then_ (build-Sound _) λ r. clear_nan-Sound r
  compute-Sound g (udiv_of t) lhs rhs = emit_udiv-Sound t g.func lhs rhs
  compute-Sound g (sdiv_of t) lhs rhs = emit_sdiv-Sound t g.func lhs rhs
  compute-Sound g (urem_of t) lhs rhs = emit_urem-Sound t g.func lhs rhs
  compute-Sound g (srem_of t) lhs rhs = emit_srem-Sound t g.func lhs rhs
  compute-Sound g (rotl_of t) lhs rhs = emit_rotl-Sound t lhs rhs
  compute-Sound g (rotr_of t) lhs rhs = emit_rotr-Sound t lhs rhs
  compute-Sound g (shift_of op t) lhs rhs = then_ (emit_shift_mask-Sound t rhs) λ n. build-Sound _
  compute-Sound g (copysign_of i) lhs rhs = build-Sound _

  pub binary_op-Sound : (g : Frame L) (a : Arithmetic) → Sound c f (binary_op g a)
  unfolding binary_op
  binary_op-Sound g a =
      then_ pop-Sound
        λ v. then_ (pop_typed-Sound _) λ w. then_ (compute-Sound g a w v) λ r. push-Sound r

  -- One operand of a type, one instruction, its result.
  unary-Sound :
      (t : Ty) (h : L.Value → M L.Value)
      → ((v : L.Value) → Sound c f (h v))
      → Sound c f (do v ← pop_typed t; r ← h v; push r)
  unary-Sound t h k = then_ (pop_typed-Sound t) λ v. then_ (k v) λ r. push-Sound r

  pub count_zeros_op-Sound : (i : Intrinsic) (t : Ty) → Sound c f (count_zeros_op i t)
  unfolding count_zeros_op
  count_zeros_op-Sound i t = unary-Sound t _ λ v. build-Sound _

  pub intrinsic_op-Sound : (i : Intrinsic) (t : Ty) → Sound c f (intrinsic_op i t)
  unfolding intrinsic_op
  intrinsic_op-Sound i t = unary-Sound t _ λ v. build-Sound _

  pub round_op-Sound : (i j : Intrinsic) (t : Ty) → Sound c f (round_op i j t)
  unfolding round_op
  round_op-Sound i j t = unary-Sound t _ λ v. emit_quiet_nan_or_intrinsic-Sound v i j

  pub min_op-Sound : (t : Ty) → Sound c f (min_op t)
  unfolding min_op
  min_op-Sound t = then_ (pop_typed-Sound t) λ v. unary-Sound t _ λ w. emit_min-Sound w v

  pub max_op-Sound : (t : Ty) → Sound c f (max_op t)
  unfolding max_op
  max_op-Sound t = then_ (pop_typed-Sound t) λ v. unary-Sound t _ λ w. emit_max-Sound w v

  pub neg_op-Sound : (t : Ty) → Sound c f (neg_op t)
  unfolding neg_op
  neg_op-Sound t = unary-Sound t _ λ v. build-Sound _

  pub cast_op-Sound : (op : CastOp) (t o : Ty) → Sound c f (cast_op op t o)
  unfolding cast_op
  cast_op-Sound op t o = unary-Sound t _ λ v. build-Sound _

  pub sign_ext_op-Sound : (t o : Ty) → Sound c f (sign_ext_op t o)
  unfolding sign_ext_op
  sign_ext_op-Sound t o =
      then_ pop-Sound λ v. then_ (build-Sound _) λ n. then_ (build-Sound _) λ r. push-Sound r

  pub resize_float_op-Sound : (op : CastOp) (t o : Ty) → Sound c f (resize_float_op op t o)
  unfolding resize_float_op
  resize_float_op-Sound op t o =
      then_ (pop_typed-Sound t)
        λ v. then_ (build-Sound _) λ n. then_ (clear_nan-Sound n) λ r. push-Sound r
