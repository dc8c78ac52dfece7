-- ===== src/Module/Sound/Dispatch.antt =====
-- The switch over the opcode: what every instruction keeps.
use wembed.Base.{
  some_injective, ℕ, ◌≡◌, refl, subst, Bool, true, false, not, List, [], ◌∷◌, Option, none, some,
  String, All, ◌==◌, Bool-cases, inl, inr,
}
use wembed.Base.Runs.{Outcome}
use wembed.Reader.Forward.{next_byte-Advances}
use wembed.Llvm.{Llvm}
use wembed.Module.{Module}
use wembed.Module.Control.{Frame}
use wembed.Module.Action.{
  Action, nop, drop_value, block, loop, when, otherwise, finish, trap, branch, branch_if,
  branch_table, leave_function, call_function, call_through_table, choose, get_local, set_local,
  tee_local, get_global, set_global, grow_memory, size_of_memory, const_i32, const_i64, const_f32,
  const_f64, numeric_prefix, test_zero, negate, minimum, maximum, truncate, truncate_sat, load_from,
  store_to, compare_int, compare_real, arithmetic, count_bits, apply, round_to, convert_to,
  resize_float, extend_from,
}
use wembed.Module.Tables.Truncations.{saturating}
use wembed.Module.Dispatch.{
  find, action, numeric_action, run_action, run_or, run_numeric, run_selected, run_instruction,
}
use wembed.Module.Sound.{Sound, Steps}
use wembed.Module.Sound.Rules.{then_, return-Sound, fail-Sound, reading-Sound, pop-Sound}
use wembed.Module.Sound.Control.{block_op-Sound, loop_op-Sound, if_op-Sound, else_op-Sound}
use wembed.Module.Sound.End.{end_op-Sound}
use wembed.Module.Sound.Branches.{
  unreachable_op-Sound, br_op-Sound, br_if_op-Sound, br_table_op-Sound, return_op-Sound,
}
use wembed.Module.Sound.Calls.{
  call_op-Sound, call_indirect_op-Sound, select_op-Sound, get_local_op-Sound, set_local_op-Sound,
  tee_local_op-Sound, get_global_op-Sound, set_global_op-Sound,
}
use wembed.Module.Sound.Access.{
  load_op-Sound, store_op-Sound, memory_grow_op-Sound, memory_size_op-Sound, const_i32_op-Sound,
  const_i64_op-Sound, const_f32_op-Sound, const_f64_op-Sound,
}
use wembed.Module.Sound.Numeric.{
  trunc_op-Sound, sat_trunc_op-Sound, eqz_op-Sound, icmp_op-Sound, fcmp_op-Sound, binary_op-Sound,
  count_zeros_op-Sound, intrinsic_op-Sound, round_op-Sound, min_op-Sound, max_op-Sound,
  neg_op-Sound, cast_op-Sound, sign_ext_op-Sound, resize_float_op-Sound,
}

-- The instructions that open or close a block, or jump away for good.
abbrev pub is_control : Action → Bool
is_control block = true
is_control loop = true
is_control when = true
is_control otherwise = true
is_control finish = true
is_control trap = true
is_control branch = true
is_control branch_table = true
is_control leave_function = true
is_control a = false

abbrev pub is_call : Action → Bool
is_call call_function = true
is_call call_through_table = true
is_call a = false

-- Of a byte: a byte that selects nothing throws.
abbrev pub selected : (Action → Bool) → Option Action → Bool
selected p none = false
selected p (some a) = p a

saturating-plain :
    All (λ (e : ℕ × Action). (is_control e.1 ≡ false) × (is_call e.1 ≡ false)) saturating
unfolding saturating
saturating-plain = (
  (refl, refl),
  (
    (refl, refl),
    (
      (refl, refl),
      ((refl, refl), ((refl, refl), ((refl, refl), ((refl, refl), ((refl, refl), tt))))),
    ),
  ),
)

find-All :
    (P : Action → Type 0) (op : ℕ) (l : List (ℕ × Action)) (a : Action)
    → All (λ (e : ℕ × Action). P e.1) l
    → find op l ≡ some a
    → P a
unfolding find
find-All P op [] a h e = absurd (cc)
find-All P op ((o, b) ∷ l) a h e = elim (Bool-cases (o == op)) [
  | inl r ↦ subst P (some_injective b a (rw r at e)) h.0
  | inr r ↦ find-All P op l a h.1 (rw r at e)
]

module _ ⦃L : Llvm⦄ where
  pub run_action-Sound :
      (f : Frame L) (a : Action) → Sound (not (is_control a)) (not (is_call a)) (run_action f a)
  unfolding run_action
  run_action-Sound f nop = return-Sound tt
  run_action-Sound f drop_value = then_ pop-Sound λ v. return-Sound tt
  run_action-Sound f block = block_op-Sound f
  run_action-Sound f loop = loop_op-Sound f
  run_action-Sound f when = if_op-Sound f
  run_action-Sound f otherwise = else_op-Sound
  run_action-Sound f finish = end_op-Sound true
  run_action-Sound f trap = unreachable_op-Sound f
  run_action-Sound f branch = br_op-Sound
  run_action-Sound f branch_if = br_if_op-Sound f
  run_action-Sound f branch_table = br_table_op-Sound
  run_action-Sound f leave_function = return_op-Sound f
  run_action-Sound f call_function = call_op-Sound
  run_action-Sound f call_through_table = call_indirect_op-Sound f
  run_action-Sound f choose = select_op-Sound
  run_action-Sound f get_local = get_local_op-Sound f
  run_action-Sound f set_local = set_local_op-Sound f
  run_action-Sound f tee_local = tee_local_op-Sound f
  run_action-Sound f get_global = get_global_op-Sound
  run_action-Sound f set_global = set_global_op-Sound
  run_action-Sound f grow_memory = memory_grow_op-Sound
  run_action-Sound f size_of_memory = memory_size_op-Sound
  run_action-Sound f const_i32 = const_i32_op-Sound
  run_action-Sound f const_i64 = const_i64_op-Sound
  run_action-Sound f const_f32 = const_f32_op-Sound
  run_action-Sound f const_f64 = const_f64_op-Sound
  run_action-Sound f numeric_prefix = fail-Sound _ tt
  run_action-Sound f (test_zero t) = eqz_op-Sound t
  run_action-Sound f (negate t) = neg_op-Sound t
  run_action-Sound f (minimum t) = min_op-Sound t
  run_action-Sound f (maximum t) = max_op-Sound t
  run_action-Sound f (truncate t) = trunc_op-Sound f t
  run_action-Sound f (truncate_sat t) = sat_trunc_op-Sound t
  run_action-Sound f (load_from t n c) = load_op-Sound f t n c
  run_action-Sound f (store_to t n o c) = store_op-Sound f t n o c
  run_action-Sound f (compare_int p) = icmp_op-Sound p
  run_action-Sound f (compare_real p) = fcmp_op-Sound p
  run_action-Sound f (arithmetic a) = binary_op-Sound f a
  run_action-Sound f (count_bits i t) = count_zeros_op-Sound i t
  run_action-Sound f (apply i t) = intrinsic_op-Sound i t
  run_action-Sound f (round_to i j t) = round_op-Sound i j t
  run_action-Sound f (convert_to op t o) = cast_op-Sound op t o
  run_action-Sound f (resize_float op t o) = resize_float_op-Sound op t o
  run_action-Sound f (extend_from t o) = sign_ext_op-Sound t o

  module _ (c d : Bool) where
    run_or-Sound :
        (f : Frame L) (s : String) (o : Option Action)
        → ((a : Action) → o ≡ some a → Sound c d (run_action f a))
        → Sound c d (run_or f s o)
    run_or-Sound f s none h = fail-Sound _ tt
    run_or-Sound f s (some a) h = h a refl

  run_numeric-Sound : (f : Frame L) → Sound true true (run_numeric f)
  unfolding run_numeric numeric_action
  run_numeric-Sound f = then_ (reading-Sound next_byte-Advances) λ op.
      run_or-Sound true true f _ (find op saturating) λ a e.
        let p =
          find-All (λ b. (is_control b ≡ false) × (is_call b ≡ false)) op saturating a
            saturating-plain e in
        plain f a p.0 p.1
    where
      plain :
          (f : Frame L) (a : Action)
          → is_control a ≡ false
          → is_call a ≡ false
          → Sound true true (run_action f a)
      plain f a p q =
          subst (λ k. Sound (not k) true (run_action f a)) p
            (subst (λ k. Sound (not (is_control a)) (not k) (run_action f a)) q
              (run_action-Sound f a))

  run_selected-Sound :
      (f : Frame L) (o : Option Action)
      → Sound (not (selected is_control o)) (not (selected is_call o)) (run_selected f o)
  run_selected-Sound f none = fail-Sound _ tt
  run_selected-Sound f (some numeric_prefix) = run_numeric-Sound f
  run_selected-Sound f (some a) = run_action-Sound f a

  pub run_instruction-Sound :
      (f : Frame L) (op : ℕ)
      → Sound
          (not (selected is_control (action op)))
          (not (selected is_call (action op)))
          (run_instruction f op)
  unfolding run_instruction
  run_instruction-Sound f op = run_selected-Sound f (action op)

  -- Every byte, run as an instruction, is an exception, not of a lack of fuel, or leaves the bytes the
  -- same and does not move the reader back; it leaves the control entries and the jump targets as they
  -- are, if it selects no control instruction; and it keeps the floors of the stacks in order, if it
  -- selects no call.
  pub run_instruction-Steps :
      (f : Frame L) (op : ℕ) (m : Module L)
      → Outcome
          (Steps (not (selected is_control (action op))) (not (selected is_call (action op))))
          m
          (run_instruction f op m)
  run_instruction-Steps f op m = (run_instruction-Sound f op).at m
