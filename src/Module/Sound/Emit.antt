-- ===== src/Module/Sound/Emit.antt =====
-- The helpers that emit the traps, the divisions and the rotations.
use wembed.Base.{Bool, List, String}
use wembed.Lang.Types.{Ty, i32, i64, float, double}
use wembed.Llvm.{Llvm}
use wembed.Llvm.Instructions.{Intrinsic}
use wembed.Module.Emit.{
  bit_count, get_string, bool_to_i32, trap_if, trap_zero_div, signed_bounds, trap_szero_div,
  emit_shift_mask, emit_rotl, emit_rotr, emit_udiv, emit_sdiv, emit_urem, emit_srem,
}
use wembed.Module.Sound.{Sound}
use wembed.Module.Sound.Rules.{
  then_, return-Sound, fail-Sound, build-Sound, emit-Sound, append_block-Sound, insert_block-Sound,
}
use wembed.Module.Sound.Control.{get_zero-Sound}

module _ ⦃L : Llvm⦄ {c f : Bool} where
  pub bit_count-Sound : (t : Ty) → Sound c f (bit_count t)
  unfolding bit_count
  bit_count-Sound i32 = return-Sound _
  bit_count-Sound i64 = return-Sound _
  bit_count-Sound float = return-Sound _
  bit_count-Sound double = return-Sound _
  bit_count-Sound t = fail-Sound _ tt

  pub get_string-Sound : (s : String) → Sound c f (get_string s)
  unfolding get_string
  get_string-Sound s = build-Sound _

  pub bool_to_i32-Sound : (v : L.Value) → Sound c f (bool_to_i32 v)
  unfolding bool_to_i32
  bool_to_i32-Sound v = build-Sound _

  pub trap_if-Sound :
      (func condition : L.Value) (i : Intrinsic) (args : List L.Value)
      → Sound c f (trap_if func condition i args)
  unfolding trap_if
  trap_if-Sound func condition i args = then_ (append_block-Sound func) λ x.
      then_ (append_block-Sound func) λ y. then_ (emit-Sound _) λ p. then_ insert_block-Sound λ b.
        then_ (emit-Sound _) λ q. then_ (emit-Sound _) λ r. then_ (emit-Sound _) λ s.
          then_ (build-Sound _)
            λ v. then_ (emit-Sound _) λ t. then_ (emit-Sound _) λ u. return-Sound _

  trap_zero_div-Sound : (func lhs rhs : L.Value) → Sound c f (trap_zero_div func lhs rhs)
  unfolding trap_zero_div
  trap_zero_div-Sound func lhs rhs =
      then_ (get_zero-Sound _)
        λ z. then_ (build-Sound _) λ d. then_ (get_string-Sound _) λ s. trap_if-Sound func d _ _

  signed_bounds-Sound : (t : Ty) → Sound c f (signed_bounds t)
  unfolding signed_bounds
  signed_bounds-Sound i32 = return-Sound _
  signed_bounds-Sound i64 = return-Sound _
  signed_bounds-Sound t = fail-Sound _ tt

  trap_szero_div-Sound : (func lhs rhs : L.Value) → Sound c f (trap_szero_div func lhs rhs)
  unfolding trap_szero_div
  trap_szero_div-Sound func lhs rhs = then_ (signed_bounds-Sound _) λ bounds.
      then_ (build-Sound _) λ a. then_ (build-Sound _) λ b. then_ (build-Sound _) λ o.
        then_ (get_zero-Sound _) λ z.
          then_ (build-Sound _)
            λ d. then_ (build-Sound _) λ e. then_ (get_string-Sound _) λ s. trap_if-Sound func e _ _

  pub emit_shift_mask-Sound : (t : Ty) (v : L.Value) → Sound c f (emit_shift_mask t v)
  unfolding emit_shift_mask
  emit_shift_mask-Sound t v =
      then_ (bit_count-Sound t) λ n. then_ (build-Sound _) λ w. build-Sound _

  pub emit_rotl-Sound : (t : Ty) (lhs rhs : L.Value) → Sound c f (emit_rotl t lhs rhs)
  unfolding emit_rotl
  emit_rotl-Sound t lhs rhs = then_ (bit_count-Sound t) λ n. then_ (build-Sound _) λ w.
      then_ (build-Sound _) λ m. then_ (emit_shift_mask-Sound t _) λ l.
        then_ (build-Sound _)
          λ h. then_ (emit_shift_mask-Sound t _) λ r. then_ (build-Sound _) λ o. build-Sound _

  pub emit_rotr-Sound : (t : Ty) (lhs rhs : L.Value) → Sound c f (emit_rotr t lhs rhs)
  unfolding emit_rotr
  emit_rotr-Sound t lhs rhs = then_ (bit_count-Sound t) λ n. then_ (build-Sound _) λ w.
      then_ (build-Sound _) λ m. then_ (emit_shift_mask-Sound t _) λ l.
        then_ (build-Sound _)
          λ h. then_ (emit_shift_mask-Sound t _) λ r. then_ (build-Sound _) λ o. build-Sound _

  pub emit_udiv-Sound : (t : Ty) (func lhs rhs : L.Value) → Sound c f (emit_udiv t func lhs rhs)
  unfolding emit_udiv
  emit_udiv-Sound t func lhs rhs = then_ (trap_zero_div-Sound func lhs rhs) λ b. build-Sound _

  pub emit_sdiv-Sound : (t : Ty) (func lhs rhs : L.Value) → Sound c f (emit_sdiv t func lhs rhs)
  unfolding emit_sdiv
  emit_sdiv-Sound t func lhs rhs = then_ (trap_szero_div-Sound func lhs rhs) λ b. build-Sound _

  pub emit_urem-Sound : (t : Ty) (func lhs rhs : L.Value) → Sound c f (emit_urem t func lhs rhs)
  unfolding emit_urem
  emit_urem-Sound t func lhs rhs = then_ (trap_zero_div-Sound func lhs rhs) λ b. build-Sound _

  pub emit_srem-Sound : (t : Ty) (func lhs rhs : L.Value) → Sound c f (emit_srem t func lhs rhs)
  unfolding emit_srem
  emit_srem-Sound t func lhs rhs = then_ (trap_zero_div-Sound func lhs rhs) λ x.
      then_ insert_block-Sound λ p. then_ (append_block-Sound func) λ a.
        then_ (append_block-Sound func) λ b. then_ (build-Sound _) λ l. then_ (build-Sound _) λ r.
          then_ (build-Sound _) λ o. then_ (emit-Sound _) λ u. then_ (emit-Sound _) λ v.
            then_ (build-Sound _) λ s. then_ (emit-Sound _) λ w. then_ (emit-Sound _) λ y.
              then_ (build-Sound _) λ q.
                then_ (get_zero-Sound t)
                  λ z. then_ (emit-Sound _) λ i. then_ (emit-Sound _) λ j. return-Sound _
