-- ===== src/Module/Sound/Access.antt =====
-- Loads, stores, `memory.grow`, `memory.size` and the constants.
use wembed.Base.{
  ℕ, Bool, true, false, String, leb, ltb, ◌^◌, if◌then◌else◌, throw, bad_shift, invalid, throw_if,
}
use wembed.Base.Runs.{Outcome}
use wembed.Reader.Forward.{parse-Advances, parse_uleb128-Advances, parse_sleb128-Advances}
use wembed.Lang.Types.{Ty}
use wembed.Llvm.{Llvm}
use wembed.Module.{Module}
use wembed.Module.Control.{Frame}
use wembed.Module.Access.{
  Conversion, as_is, sign_extended, zero_extended, truncated, need_memory, convert,
  effective_address, check_alignment, load_op, store_op, memory_grow_op, memory_size_op,
  const_i32_op, const_i64_op, const_f32_op, const_f64_op,
}
use wembed.Module.Sound.{Sound, Steps}
use wembed.Module.Sound.Rules.{
  then_, return-Sound, throw_if-Sound, tested-Sound, look-Sound, reading-Sound, build-Sound,
  emit-Sound, push-Sound, pop_typed-Sound, pop_int-Sound,
}
use wembed.Module.Sound.Emit.{get_string-Sound, trap_if-Sound}

module _ ⦃L : Llvm⦄ {c f : Bool} where
  need_memory-Sound : (s : String) → Sound c f (need_memory s)
  need_memory-Sound s = tested-Sound _ _ tt

  convert-Sound : (k : Conversion) (v : L.Value) → Sound c f (convert k v)
  unfolding convert
  convert-Sound as_is v = return-Sound v
  convert-Sound (sign_extended t) v = build-Sound _
  convert-Sound (zero_extended t) v = build-Sound _
  convert-Sound (truncated t) v = build-Sound _

  effective_address-Sound :
      (g : Frame L) (offset : ℕ) (s : String) → Sound c f (effective_address g offset s)
  unfolding effective_address
  effective_address-Sound g offset s = then_ pop_int-Sound λ b. then_ (build-Sound _) λ x.
      then_ (build-Sound _) λ y.
        then_ (build-Sound _)
          λ z. then_ (get_string-Sound _) λ t. then_ (trap_if-Sound _ _ _ _) λ k. return-Sound _

  check_alignment-Sound : (flags bytes : ℕ) → Sound c f (check_alignment flags bytes)
  unfolding check_alignment
  check_alignment-Sound flags bytes = record { at = λ m. tested m (leb 32 flags) }
    where
      tested :
          (m : Module L) (b : Bool)
          → Outcome (Steps c f) m (
              if b
              then throw bad_shift
              else throw_if (ltb bytes (2 ^ flags)) (invalid "unnatural alignment") m)
      tested m true = tt
      tested m false = (throw_if-Sound (ltb bytes (2 ^ flags)) _ tt).at m

  pub load_op-Sound :
      (g : Frame L) (t : Ty) (bytes : ℕ) (k : Conversion) → Sound c f (load_op g t bytes k)
  unfolding load_op
  load_op-Sound g t bytes k = then_ (need_memory-Sound _) λ x.
      then_ (reading-Sound (parse_uleb128-Advances 32)) λ flags.
        then_ (reading-Sound (parse_uleb128-Advances 32)) λ offset.
          then_ (effective_address-Sound g offset _) λ a. then_ (look-Sound _) λ base.
            then_ (build-Sound _) λ o. then_ (build-Sound _) λ p. then_ (build-Sound _) λ v.
              then_ (check_alignment-Sound flags bytes) λ y.
                then_ (emit-Sound _)
                  λ z. then_ (emit-Sound _) λ w. then_ (convert-Sound k v) λ r. push-Sound r

  pub store_op-Sound :
      (g : Frame L) (t : Ty) (bytes : ℕ) (u : Ty) (k : Conversion)
      → Sound c f (store_op g t bytes u k)
  unfolding store_op
  store_op-Sound g t bytes u k = then_ (need_memory-Sound _) λ x.
      then_ (reading-Sound (parse_uleb128-Advances 32)) λ flags.
        then_ (reading-Sound (parse_uleb128-Advances 32)) λ offset. then_ (pop_typed-Sound t) λ v.
          then_ (effective_address-Sound g offset _) λ a. then_ (look-Sound _) λ base.
            then_ (build-Sound _) λ o. then_ (build-Sound _) λ p. then_ (convert-Sound k v) λ s.
              then_ (build-Sound _) λ i.
                then_ (check_alignment-Sound flags bytes)
                  λ y. then_ (emit-Sound _) λ z. emit-Sound _

  pub memory_grow_op-Sound : Sound c f memory_grow_op
  unfolding memory_grow_op
  memory_grow_op-Sound = then_ (need_memory-Sound _) λ x.
      then_ (reading-Sound (parse_uleb128-Advances 8)) λ y.
        then_ pop_int-Sound λ d. then_ (look-Sound _) λ z. then_ (build-Sound _) λ r. push-Sound r

  pub memory_size_op-Sound : Sound c f memory_size_op
  unfolding memory_size_op
  memory_size_op-Sound = then_ (need_memory-Sound _) λ x.
      then_ (reading-Sound (parse_uleb128-Advances 8))
        λ y. then_ (look-Sound _) λ z. then_ (build-Sound _) λ r. push-Sound r

  pub const_i32_op-Sound : Sound c f const_i32_op
  unfolding const_i32_op
  const_i32_op-Sound = then_ (reading-Sound (parse_sleb128-Advances 32)) λ n. push-Sound _

  pub const_i64_op-Sound : Sound c f const_i64_op
  unfolding const_i64_op
  const_i64_op-Sound = then_ (reading-Sound (parse_sleb128-Advances 64)) λ n. push-Sound _

  pub const_f32_op-Sound : Sound c f const_f32_op
  unfolding const_f32_op
  const_f32_op-Sound = then_ (reading-Sound (parse-Advances 4)) λ n. push-Sound _

  pub const_f64_op-Sound : Sound c f const_f64_op
  unfolding const_f64_op
  const_f64_op-Sound = then_ (reading-Sound (parse-Advances 8)) λ n. push-Sound _
