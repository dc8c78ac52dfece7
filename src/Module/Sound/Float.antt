-- ===== src/Module/Sound/Float.antt =====
-- The helpers on floating point values.
use wembed.Base.{ℕ, ◌^◌, ◌-◌, Bool, Exception, runtime}
use wembed.Base.Runs.{IsRaised, Runs-if}
use wembed.Lang.Types.{Ty, i32, i64, float, double, same_type}
use wembed.Llvm.{Llvm}
use wembed.Llvm.Instructions.{Intrinsic, IntPredicate, RealPredicate}
use wembed.Utils.{FpBits, fp_float, fp_double}
use wembed.Module.Float.{
  quiet_nan_as, emit_quiet_nan, emit_quiet_nan_or_intrinsic, bitcast_type, emit_extremum, emit_min,
  emit_max, clear_nan_internal, clear_nan,
}
use wembed.Module.Sound.{Sound}
use wembed.Module.Sound.Rules.{then_, return-Sound, fail-Sound, assert-Sound, build-Sound}
use wembed.Module.Sound.Control.{get_zero-Sound}

module _ ⦃L : Llvm⦄ {c f : Bool} where
  quiet_nan_as-Sound :
      (t u : Ty) (fp : FpBits) (n : ℕ) (v : L.Value) → Sound c f (quiet_nan_as t u fp n v)
  quiet_nan_as-Sound t u fp n v =
      then_ (build-Sound _) λ a. then_ (build-Sound _) λ b. then_ (build-Sound _) λ d. build-Sound _

  emit_quiet_nan-Sound : (v : L.Value) → Sound c f (emit_quiet_nan v)
  unfolding emit_quiet_nan
  emit_quiet_nan-Sound v =
      Runs-if (same_type (L.type_of v) float) (quiet_nan_as-Sound float i32 fp_float (2 ^ 32 - 1) v)
        (Runs-if (same_type (L.type_of v) double)
          (quiet_nan_as-Sound double i64 fp_double (2 ^ 64 - 1) v)
          (fail-Sound (runtime "unexpcted type passed to emit_quiet_nan") tt))

  pub emit_quiet_nan_or_intrinsic-Sound :
      (v : L.Value) (i j : Intrinsic) → Sound c f (emit_quiet_nan_or_intrinsic v i j)
  unfolding emit_quiet_nan_or_intrinsic
  emit_quiet_nan_or_intrinsic-Sound v i j = then_ (build-Sound _) λ n.
      then_ (assert-Sound _)
        λ x. then_ (build-Sound _) λ r. then_ (emit_quiet_nan-Sound v) λ q. build-Sound _

  bitcast_type-Sound : (t u : Ty) (e : Exception) → IsRaised e → Sound c f (bitcast_type t u e)
  bitcast_type-Sound float float e h = return-Sound i32
  bitcast_type-Sound double double e h = return-Sound i64
  bitcast_type-Sound t u e h = fail-Sound e h

  emit_extremum-Sound :
      (e : Exception) (p : IntPredicate) (q r : RealPredicate) (lhs rhs : L.Value)
      → IsRaised e
      → Sound c f (emit_extremum e p q r lhs rhs)
  emit_extremum-Sound e p q r lhs rhs h = then_ (bitcast_type-Sound _ _ e h) λ t.
      then_ (build-Sound _) λ a. then_ (build-Sound _) λ b. then_ (build-Sound _) λ x.
        then_ (build-Sound _) λ y. then_ (build-Sound _) λ z. then_ (build-Sound _) λ u.
          then_ (build-Sound _) λ v. then_ (emit_quiet_nan-Sound rhs) λ s.
            then_ (emit_quiet_nan-Sound lhs) λ w. then_ (build-Sound _) λ i.
              then_ (build-Sound _)
                λ j. then_ (build-Sound _) λ k. then_ (build-Sound _) λ l. build-Sound _

  pub emit_min-Sound : (lhs rhs : L.Value) → Sound c f (emit_min lhs rhs)
  unfolding emit_min
  emit_min-Sound lhs rhs = emit_extremum-Sound _ _ _ _ lhs rhs tt

  pub emit_max-Sound : (lhs rhs : L.Value) → Sound c f (emit_max lhs rhs)
  unfolding emit_max
  emit_max-Sound lhs rhs = emit_extremum-Sound _ _ _ _ lhs rhs tt

  clear_nan_internal-Sound :
      (t u : Ty) (v a b d : L.Value) → Sound c f (clear_nan_internal t u v a b d)
  unfolding clear_nan_internal
  clear_nan_internal-Sound t u v a b d = then_ (build-Sound _) λ x. then_ (build-Sound _) λ y.
      then_ (get_zero-Sound u) λ z. then_ (build-Sound _) λ i. then_ (build-Sound _) λ j.
        then_ (build-Sound _) λ k.
          then_ (build-Sound _)
            λ l. then_ (build-Sound _) λ m. then_ (build-Sound _) λ n. build-Sound _

  pub clear_nan-Sound : (v : L.Value) → Sound c f (clear_nan v)
  unfolding clear_nan
  clear_nan-Sound v =
      Runs-if (same_type (L.type_of v) float)
        (clear_nan_internal-Sound float i32 v (L.const_int i32 8388607) (L.const_int i32 2139095040)
          (L.const_int i32 4194304))
        (Runs-if (same_type (L.type_of v) double)
          (clear_nan_internal-Sound double i64 v (L.const_int i64 4503599627370495)
            (L.const_int i64 9218868437227405312) (L.const_int i64 2251799813685248))
          (fail-Sound (runtime "wrong type while clearing nan") tt))
