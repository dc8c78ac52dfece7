-- ===== src/Module/Emit/Divide.antt =====
-- Which inputs of a division the emitted code traps on, and where control goes in it.
use wembed.Base.{
  ℕ, ◌-◌, ◌^◌, ◌<◌, ◌≡◌, ◌≢◌, ◌↔◌, ◌⊎◌, inl, inr, refl, sym, ◌∙◌, ap, subst, arith, bit_and, bit_or,
  ◌==◌, List, [], ◌∷◌, ◌++◌, String, Bool-cases, true, false, ok_injective, Result, ok, throw,
  ◌>>=◌, ◌>>◌,
}
use wembed.Lang.Types.{Ty, i1, i32, i64}
use wembed.Llvm.{Llvm, TypeLaws}
use wembed.Llvm.Bits.{BitLaws, Yields, running, flag, width}
use wembed.Base.Runs.{Outcome}
use wembed.Llvm.Flow.{FlowLaws, Event, built, done, goes_to, raises, exit_of}
use wembed.Llvm.Instructions.{Instr, throw_vm_exception, cond_br, binary, udiv, sdiv, urem}
use wembed.Module.{Module, M, build}
use wembed.Module.Emit.{
  emit_udiv, emit_sdiv, emit_urem, trap_if, trap_zero_div, trap_szero_div, signed_bounds, get_zero,
  get_string,
}
use wembed.Module.Emit.Flow.{
  IsPlaced, place, contents, Straight, Straight-refl, Straight-trans, GoesStraight,
  build-GoesStraight, return-GoesStraight, exit_of-plain, append_assoc,
}
use wembed.Module.Emit.Trap.{Trapped, trap_if-Trapped}
use wembed.Module.Emit.Built.{Is, built_eq, built_and, built_or}

-- The unsigned and the signed quotients that LLVM leaves undefined, for operands of `w` bits.
abbrev pub NoQuotient : ℕ → ℕ → Type 0
NoQuotient x y = y ≡ 0

abbrev pub NoSignedQuotient : ℕ → ℕ → ℕ → Type 0
NoSignedQuotient w x y = (y ≡ 0) ⊎ ((x ≡ 2 ^ (w - 1)) × (y ≡ 2 ^ w - 1))

zero_test : (y : ℕ) → (flag (y == 0) ≡ 1) ↔ (y ≡ 0)
zero_test y = ground arith

szero_test :
    (x y lo hi : ℕ)
    → (bit_or (flag (y == 0)) (bit_and (flag (x == lo)) (flag (y == hi))) ≡ 1)
      ↔ ((y ≡ 0) ⊎ ((x ≡ lo) × (y ≡ hi)))
szero_test x y lo hi = ground arith

module _ ⦃L : Llvm⦄ (T : TypeLaws L) (bits : L.Value → ℕ) (B : BitLaws L bits) where
  pub zero_i32 : Yields (Is bits i32 0) (get_zero i32)
  unfolding get_zero
  zero_i32 = record { at = λ m. (T.type_of-const_int i32 0, B.bits-const_int i32 0) }

  string_built : (s : String) → Yields (λ (v : L.Value). Unit {0}) (get_string s)
  unfolding get_string build
  string_built s = record { at = λ m. tt }

  pub zero_i64 : Yields (Is bits i64 0) (get_zero i64)
  unfolding get_zero
  zero_i64 = record { at = λ m. (T.type_of-const_int i64 0, B.bits-const_int i64 0) }

module _ ⦃L : Llvm⦄ (T : TypeLaws L) (bits : L.Value → ℕ) (B : BitLaws L bits)
    (F : FlowLaws L) where
  -- An integer type with its zero and the ends of its signed range.
  pub record Signed (t : Ty) (w : ℕ) : Type 0 where
    zero : Yields (Is bits t 0) (get_zero t)
    bounds :
        Yields
          (λ (p : L.Value × L.Value). Is bits t (2 ^ (w - 1)) p.0 × Is bits t (2 ^ w - 1) p.1)
          (signed_bounds t)
    zero_straight : GoesStraight F (get_zero t)
    bounds_straight : GoesStraight F (signed_bounds t)

  pub Signed-i32 : Signed i32 32
  unfolding signed_bounds get_zero
  Signed-i32 = record {
    zero_straight = return-GoesStraight F _;
    bounds_straight = return-GoesStraight F _;
    zero = zero_i32 T bits B;
    bounds = record {
      at = λ m. (
        (T.type_of-const_int i32 _, B.bits-const_int i32 _),
        (T.type_of-const_int i32 _, B.bits-const_int i32 _),
      );
    };
  }

  pub Signed-i64 : Signed i64 64
  unfolding signed_bounds get_zero
  Signed-i64 = record {
    zero_straight = return-GoesStraight F _;
    bounds_straight = return-GoesStraight F _;
    zero = zero_i64 T bits B;
    bounds = record {
      at = λ m. (
        (T.type_of-const_int i64 _, B.bits-const_int i64 _),
        (T.type_of-const_int i64 _, B.bits-const_int i64 _),
      );
    };
  }

  -- The code of `c` goes straight on to a trap on a condition that is 1 exactly where `P` holds, and
  -- behind the trap with `rest`.
  record TestsFor {A : Type 0} (P : Type 0) (func : L.Value)
      (c rest : Module L → Result (A × Module L)) (m : Module L) : Type 0 where
    condition : L.Value
    message : L.Value
    tested : Module L
    same_run : c m ≡ (trap_if func condition throw_vm_exception (message ∷ []) >> rest) tested
    straight : Straight F m tested
    is_flag : L.type_of condition ≡ i1
    exact : (bits condition ≡ 1) ↔ P

  -- The code that `c` emits at `m`, when it runs: the block of `m` goes to a block `target`. Where `P`
  -- holds, that one throws a `vm_runtime_exception`; where it does not, it is the one in which the
  -- builder goes on, and has computed the result by `i`.
  abbrev pub TrapsWhen :
      Type 0 → Instr L.Value L.Block → (Module L → Result (L.Value × Module L)) → Module L → Type 0
  TrapsWhen P i c m =
      (v : L.Value) × (n : Module L) × (es : List (Event L.Value L.Block)) × (target : L.Block)
      × (b : L.Builder) × (c m ≡ ok (v, n))
      × (v ≡ (L.build i b).0)
      × (contents F n (place F m) ≡ contents F m (place F m) ++ es)
      × (exit_of bits es ≡ goes_to target)
      × ((P × (exit_of bits (contents F n target) ≡ raises throw_vm_exception))
          ⊎ ((¬ P) × (target ≡ place F n) × (contents F n target ≡ built i ∷ [])))

  not_one : (c : L.Value) → L.type_of c ≡ i1 → bits c ≢ 0 → bits c ≡ 1
  not_one c e h =
      let below : bits c < 2 = subst (λ t. bits c < 2 ^ width t) e (B.bits-lt c) in
      omega (arith, h, below)

  abbrev branching : L.Value → L.Block → L.Block → List (Event L.Value L.Block)
  branching condition trap skip = done (cond_br condition trap skip) ∷ []

  -- What runs behind the branch.
  landed :
      (P : Type 0) (i : Instr L.Value L.Block) (condition message : L.Value) (skip : L.Block)
      (m n : Module L) (T : Trapped F condition throw_vm_exception (message ∷ []) m skip n)
      → L.type_of condition ≡ i1
      → (bits condition ≡ 1) ↔ P
      → (target : L.Block) × (exit_of bits (branching condition T.trap skip) ≡ goes_to target)
        × ((P × (exit_of bits (F.code (L.build i n.builder).1 target) ≡ raises throw_vm_exception))
            ⊎ ((¬ P)
                × (target ≡ L.insert_block (L.build i n.builder).1)
                × (F.code (L.build i n.builder).1 target ≡ built i ∷ [])))
  unfolding exit_of
  landed P i condition message skip m n T is_flag exact = elim (Bool-cases (bits condition == 0)) [
    | inl zero ↦ (
      skip,
      rw zero refl,
      inr (
        λ p. let one = exact.1 p in let none = zero_bits zero in absurd (omega (arith, one, none)),
        sym (F.insert_block-build i n.builder ∙ T.goes_on),
        subst (λ k. F.code (L.build i n.builder).1 k ≡ F.code n.builder k ++ (built i ∷ []))
              T.goes_on (F.code-build i n.builder T.placed)
            ∙ ap (λ es. es ++ (built i ∷ [])) T.nothing_yet,
      ),
    )
    | inr other ↦ (
      T.trap,
      rw other refl,
      inl (
        exact.0 (not_one condition is_flag (nonzero_bits other)),
        rw
            (
              F.code-build_away i n.builder T.trap
                  (subst (λ k. T.trap ≢ k) (sym T.goes_on) T.trap_elsewhere),
              T.called,
            )
            refl,
      ),
    )
  ]
    where
      zero_bits : (bits condition == 0) ≡ true → bits condition ≡ 0
      zero_bits e = ground arith

      nonzero_bits : (bits condition == 0) ≡ false → bits condition ≢ 0
      nonzero_bits e = λ h. ground arith

  TestsFor-TrapsWhen :
      (P : Type 0) (i : Instr L.Value L.Block) (func : L.Value)
      (c : Module L → Result (L.Value × Module L)) (m : Module L)
      → TestsFor P func c (build i) m
      → TrapsWhen P i c m
  unfolding build ◌>>=◌
  TestsFor-TrapsWhen P i func c m t =
      let o = t.tested in
      let s = t.straight in
      let (skip, n, run, T) =
        trap_if-Trapped F func t.condition throw_vm_exception (t.message ∷ []) o s.placed in
      let (target, goes, lands) = landed P i t.condition t.message skip o n T t.is_flag t.exact in
      let branch = branching t.condition T.trap skip in
      (
        (L.build i n.builder).0,
        record n { builder = (L.build i n.builder).1 },
        s.added ++ branch,
        target,
        n.builder,
        t.same_run ∙ rw (run, ◌>>=◌) refl,
        refl,
        F.code-build_away i n.builder (place F m) (
              subst (λ k. k ≢ L.insert_block n.builder) s.same_place
                (subst (λ k. place F o ≢ k) (sym T.goes_on) T.start_elsewhere))
            ∙ subst (λ k. contents F n k ≡ contents F o k ++ branch) s.same_place T.branch
            ∙ ap (λ es. es ++ branch) s.longer
            ∙ append_assoc (contents F m (place F m)) s.added branch,
        exit_of-plain bits s.added branch s.plain ∙ goes,
        lands,
      )

  -- One more call that goes straight on.
  further :
      {A : Type 0} {c : M A} (m n o : Module L) (a : A)
      → GoesStraight F c
      → c n ≡ ok (a, o)
      → Straight F m n
      → Straight F m o
  further {A = A} {c = c} m n o a h e s = Straight-trans F m n o s (after (c n) (h.at n) e s.placed)
    where
      after :
          (r : Result (A × Module L))
          → Outcome (λ p q. IsPlaced F p → Straight F p q) n r
          → r ≡ ok (a, o)
          → IsPlaced F n
          → Straight F n o
      after (ok (b, q)) k e placed =
          subst (λ (x : A × Module L). Straight F n x.1) (ok_injective _ _ e) (k placed)
      after (throw x) k e placed = absurd (cc)

  get_string-GoesStraight : (s : String) → GoesStraight F (get_string s)
  unfolding get_string
  get_string-GoesStraight s = build-GoesStraight F _ tt

  module _ {t : Ty} {w : ℕ} (S : Signed t w) (func lhs rhs : L.Value) (hl : L.type_of lhs ≡ t)
      (hr : L.type_of rhs ≡ t) where
    zero_straight : GoesStraight F (get_zero (L.type_of rhs))
    zero_straight = rw hr S.zero_straight

    bounds_straight : GoesStraight F (signed_bounds (L.type_of lhs))
    bounds_straight = rw hl S.bounds_straight

    -- `trap_zero_div`, with what comes behind it.
    zero_div-TestsFor :
        (i : Instr L.Value L.Block) (m : Module L)
        → IsPlaced F m
        → TestsFor
            (NoQuotient (bits lhs) (bits rhs))
            func
            (trap_zero_div func lhs rhs >> build i)
            (build i)
            m
    unfolding trap_zero_div ◌>>=◌
    zero_div-TestsFor i m placed = running (rw (← hr) at S.zero) m λ zero m1 e1 p1.
        running (built_eq T bits B rhs zero) m1 λ div_zero m2 e2 p2.
          running (string_built T bits B "int div by zero") m2 λ message m3 e3 p3. record {
            condition = div_zero;
            message = message;
            tested = m3;
            same_run = ground arith;
            straight = further m m2 m3 message (get_string-GoesStraight _) e3 (
                further m m1 m2 div_zero (build-GoesStraight F _ tt) e2
                  (further m m m1 zero zero_straight e1 (Straight-refl F m placed)));
            is_flag = p2.0;
            exact = rw (p2.1, p1.1) (zero_test (bits rhs));
          }

    szero_div-TestsFor :
        (i : Instr L.Value L.Block) (m : Module L)
        → IsPlaced F m
        → TestsFor
            (NoSignedQuotient w (bits lhs) (bits rhs))
            func
            (trap_szero_div func lhs rhs >> build i)
            (build i)
            m
    unfolding trap_szero_div ◌>>=◌
    szero_div-TestsFor i m placed = running (rw (← hl) at S.bounds) m λ ends m1 e1 p1.
        running (built_eq T bits B lhs ends.0) m1 λ is_min m2 e2 p2.
          running (built_eq T bits B rhs ends.1) m2 λ is_minus1 m3 e3 p3.
            running (built_and T bits B is_min is_minus1) m3 λ overflow m4 e4 p4.
              running (rw (← hr) at S.zero) m4 λ zero m5 e5 p5.
                running (built_eq T bits B rhs zero) m5 λ div_zero m6 e6 p6.
                  running (built_or T bits B div_zero overflow (p6.0 ∙ sym (p4.0 ∙ p2.0))) m6
                    λ condition m7 e7 p7.
                      running (string_built T bits B "int div by zero or overflow") m7
                        λ message m8 e8 p8.
                          let s1 =
                            further m m m1 ends bounds_straight e1 (Straight-refl F m placed) in
                          let s2 = further m m1 m2 is_min (build-GoesStraight F _ tt) e2 s1 in
                          let s3 = further m m2 m3 is_minus1 (build-GoesStraight F _ tt) e3 s2 in
                          let s4 = further m m3 m4 overflow (build-GoesStraight F _ tt) e4 s3 in
                          let s5 = further m m4 m5 zero zero_straight e5 s4 in
                          let s6 = further m m5 m6 div_zero (build-GoesStraight F _ tt) e6 s5 in
                          let s7 = further m m6 m7 condition (build-GoesStraight F _ tt) e7 s6 in
                          record {
                            condition = condition;
                            message = message;
                            tested = m8;
                            same_run = ground arith;
                            straight = further m m7 m8 message (get_string-GoesStraight _) e8 s7;
                            is_flag = p7.0 ∙ p6.0;
                            exact =
                                rw (p7.1, p6.1, p4.1, p5.1, p2.1, p3.1, p1.0.1, p1.1.1)
                                  (szero_test (bits lhs) (bits rhs) (2 ^ (w - 1)) (2 ^ w - 1));
                          }

    -- The code that `emit_udiv` emits throws exactly where the divisor is 0, and divides otherwise,
    -- where the builder stands in a block, under the documented laws of LLVM.
    pub emit_udiv-TrapsWhen :
        (m : Module L)
        → IsPlaced F m
        → TrapsWhen
            (NoQuotient (bits lhs) (bits rhs))
            (binary udiv lhs rhs)
            (emit_udiv t func lhs rhs)
            m
    unfolding emit_udiv
    emit_udiv-TrapsWhen m placed =
        TestsFor-TrapsWhen _ (binary udiv lhs rhs) func _ m (zero_div-TestsFor _ m placed)

    -- The code that `emit_urem` emits throws exactly where the divisor is 0, and takes the remainder
    -- otherwise, where the builder stands in a block, under the documented laws of LLVM.
    pub emit_urem-TrapsWhen :
        (m : Module L)
        → IsPlaced F m
        → TrapsWhen
            (NoQuotient (bits lhs) (bits rhs))
            (binary urem lhs rhs)
            (emit_urem t func lhs rhs)
            m
    unfolding emit_urem
    emit_urem-TrapsWhen m placed =
        TestsFor-TrapsWhen _ (binary urem lhs rhs) func _ m (zero_div-TestsFor _ m placed)

    -- The code that `emit_sdiv` emits throws exactly where the divisor is 0, or the dividend is the
    -- least number and the divisor -1, and divides otherwise, where the builder stands in a block,
    -- under the documented laws of LLVM.
    pub emit_sdiv-TrapsWhen :
        (m : Module L)
        → IsPlaced F m
        → TrapsWhen
            (NoSignedQuotient w (bits lhs) (bits rhs))
            (binary sdiv lhs rhs)
            (emit_sdiv t func lhs rhs)
            m
    unfolding emit_sdiv
    emit_sdiv-TrapsWhen m placed =
        TestsFor-TrapsWhen _ (binary sdiv lhs rhs) func _ m (szero_div-TestsFor _ m placed)
