-- ===== src/Module/Emit/Rotate.antt =====
-- `emit_rotl` and `emit_rotr` rotate.
use wembed.Base.{
  ℕ, zero, suc, ◌+◌, ◌-◌, ◌*◌, ◌/◌, ◌%◌, ◌^◌, ◌<◌, ◌≤◌, ◌≡◌, refl, sym, ◌∙◌, arith, bit_or, ok,
  ◌>>=◌,
}
use native.Mathlib.Nat.{mod-eq_of_lt, div-eq_of_lt, mod_self, mod-lt}
use wembed.Base.Complement.{quotient_lt}
use wembed.Base.Bits.{bit_or_high, bit_or_self, bit_and_ones}
use wembed.Base.Powers.{shift-mod, two_pow_split}
use wembed.Lang.Types.{Ty, i32, i64}
use wembed.Llvm.{Llvm, TypeLaws}
use wembed.Llvm.Bits.{BitLaws, Yields, running, width}
use wembed.Module.{Module}
use wembed.Module.Emit.Built.{
  Is, built_const, built_and, built_or, built_sub, built_shl, built_lshr,
}
use wembed.Module.Emit.{emit_shift_mask, emit_rotl, emit_rotr, bit_count}

-- The bits of `a`, `w` of them, moved up by `k`, those that leave at the top coming in below.
abbrev pub rotate_left : ℕ → ℕ → ℕ → ℕ
rotate_left w k a = a % 2 ^ (w - k) * 2 ^ k + a / 2 ^ (w - k)

-- Both shifts of the code by amounts below the width.
shifts_rotate :
    (w k a : ℕ)
    → k < w
    → a < 2 ^ w
    → bit_or (a * 2 ^ k % 2 ^ w) (a / 2 ^ ((w - k) % w)) ≡ rotate_left w k a
shifts_rotate w zero a hk ha =
    let full : w - 0 ≡ w = omega arith in
    let none : w % w ≡ 0 = mod_self w in
    let one : a * 1 ≡ a = omega arith in
    let unit : a / 1 ≡ a = omega arith in
    rw (full, none, one, mod-eq_of_lt ha, unit, div-eq_of_lt ha) (omega (arith, bit_or_self a))
shifts_rotate w (suc k) a hk ha =
    let d : ℕ = w - suc k in
    let same : (w - suc k) % w ≡ w - suc k = mod-eq_of_lt (omega arith) in
    rw (same, shift-mod a (suc k) (w - suc k) w (omega arith))
      (bit_or_high (suc k) (a % 2 ^ (w - suc k)) (a / 2 ^ (w - suc k)) (
        quotient_lt a (2 ^ suc k) (2 ^ (w - suc k))
          (omega (arith, two_pow_split (suc k) w (omega arith)))))

-- The same, moved down.
abbrev pub rotate_right : ℕ → ℕ → ℕ → ℕ
rotate_right w k a = a / 2 ^ k + a % 2 ^ k * 2 ^ (w - k)

shifts_rotate_right :
    (w k a : ℕ)
    → k < w
    → a < 2 ^ w
    → bit_or (a * 2 ^ ((w - k) % w) % 2 ^ w) (a / 2 ^ k) ≡ rotate_right w k a
shifts_rotate_right w zero a hk ha =
    let full : w - 0 ≡ w = omega arith in
    let none : w % w ≡ 0 = mod_self w in
    let one : a * 1 ≡ a = omega arith in
    let unit : a / 1 ≡ a = omega arith in
    let rest : a % 1 ≡ 0 = omega arith in
    rw (full, none, one, mod-eq_of_lt ha, unit, rest) (omega (arith, bit_or_self a))
shifts_rotate_right w (suc k) a hk ha =
    let same : (w - suc k) % w ≡ w - suc k = mod-eq_of_lt (omega arith) in
    rw (same, shift-mod a (w - suc k) (suc k) w (omega arith))
      (bit_or_high (w - suc k) (a % 2 ^ suc k) (a / 2 ^ suc k) (
          quotient_lt a (2 ^ (w - suc k)) (2 ^ suc k)
            (omega (arith, two_pow_split (suc k) w (omega arith))))
        ∙ omega arith)

-- The integer types that wasm rotates: of `w` bits, a power of two.
pub record IntWidth ⦃L : Llvm⦄ (t : Ty) (w j : ℕ) : Type 0 where
  pub counted : (m : Module L) → bit_count t m ≡ ok (w, m)
  pub is_width : width t ≡ w
  pub power : w ≡ 2 ^ j
  pub small : w < 2 ^ 32
  pub positive : 0 < w
  pub wide : 32 ≤ w
  pub wraps : (n : ℕ) → n < 2 ^ w → (w + 2 ^ w - n) % 2 ^ w % w ≡ (w - n % w) % w

pub IntWidth-i32 : ⦃L : Llvm⦄ → IntWidth i32 32 5
unfolding bit_count
IntWidth-i32 = record {
  counted = λ m. refl;
  is_width = refl;
  power = refl;
  small = omega arith;
  positive = omega arith;
  wide = omega arith;
  wraps = λ n h. omega arith;
}

pub IntWidth-i64 : ⦃L : Llvm⦄ → IntWidth i64 64 6
unfolding bit_count
IntWidth-i64 = record {
  counted = λ m. refl;
  is_width = refl;
  power = refl;
  small = omega arith;
  positive = omega arith;
  wide = omega arith;
  wraps = λ n h. omega arith;
}

module _ ⦃L : Llvm⦄ (T : TypeLaws L) (bits : L.Value → ℕ) (B : BitLaws L bits) {t : Ty} {w j : ℕ}
    (I : IntWidth t w j) where
  wide_t : 32 ≤ width t
  wide_t = rw I.is_width I.wide

  counted : Yields (λ n. n ≡ w) (bit_count t)
  counted = record { at = λ m. rw (I.counted m) }

  -- The amount of a shift, cut to the width as wasm wants it.
  emit_shift_mask-mod :
      (count : L.Value) → Yields (λ v. bits v ≡ bits count % w) (emit_shift_mask t count)
  unfolding emit_shift_mask ◌>>=◌
  emit_shift_mask-mod count = record {
    at = λ m. running counted m λ n m1 e1 p1.
        rw (e1, ◌>>=◌)
          (running (built_const T bits B (n - 1) t (omega (arith, p1, I.small)) wide_t) m1
            λ v m2 e2 p2.
              rw (e2, ◌>>=◌)
                (running (built_and T bits B count v) m2 λ r m3 e3 p3.
                  rw e3 (p3.1 ∙ rw (p2.1, p1, I.power) (bit_and_ones j (bits count)))));
  }

  -- `lWidth - pRHS`, cut to the width, is the complementary amount.
  complement :
      (wide rhs minus : L.Value)
      → L.type_of rhs ≡ t
      → Is bits t w wide
      → Is bits
          (L.type_of wide)
          ((bits wide + 2 ^ width (L.type_of wide) - bits rhs) % 2 ^ width (L.type_of wide))
          minus
      → bits minus % w ≡ (w - bits rhs % w) % w
  complement wide rhs minus hr p q =
      rw (q.1, p.1, p.0, I.is_width) (I.wraps (bits rhs) (rw (hr, I.is_width) at (B.bits-lt rhs)))

  lhs-lt : (lhs : L.Value) → L.type_of lhs ≡ t → bits lhs < 2 ^ w
  lhs-lt lhs h = rw (h, I.is_width) at (B.bits-lt lhs)

  in_width :
      (n : ℕ) (v lhs : L.Value)
      → L.type_of lhs ≡ t
      → bits v ≡ n % w
      → bits v < width (L.type_of lhs)
  in_width n v lhs h p = rw (p, h, I.is_width) (mod-lt n I.positive)

  -- Under the laws of LLVM's types and integers, the code that `emit_rotl` emits for an integer
  -- type of wasm rotates to the left by the count modulo the width, for all operands of that type,
  -- and emitting it does not throw.
  pub emit_rotl-rotates :
      (lhs rhs : L.Value)
      → L.type_of lhs ≡ t
      → L.type_of rhs ≡ t
      → Yields (λ v. bits v ≡ rotate_left w (bits rhs % w) (bits lhs)) (emit_rotl t lhs rhs)
  unfolding emit_rotl ◌>>=◌
  emit_rotl-rotates lhs rhs hl hr = record {
    at = λ m. running counted m λ n m1 e1 p1.
        rw (e1, ◌>>=◌)
          (running (built_const T bits B n t (omega (arith, p1, I.small)) wide_t) m1
            λ wide m2 e2 p2.
              rw (e2, ◌>>=◌)
                (running (built_sub T bits B wide rhs) m2 λ minus m3 e3 p3.
                  rw (e3, ◌>>=◌)
                    (running (emit_shift_mask-mod rhs) m3 λ left m4 e4 p4.
                      rw (e4, ◌>>=◌)
                        (running (built_shl T bits B lhs left (in_width _ left lhs hl p4)) m4
                          λ high m5 e5 p5.
                            rw (e5, ◌>>=◌)
                              (running (emit_shift_mask-mod minus) m5 λ right m6 e6 p6.
                                rw (e6, ◌>>=◌)
                                  (running
                                    (built_lshr T bits B lhs right (in_width _ right lhs hl p6)) m6
                                    λ low m7 e7 p7.
                                      rw (e7, ◌>>=◌)
                                        (running (built_or T bits B high low (p5.0 ∙ sym p7.0)) m7
                                          λ result m8 e8 p8. rw e8 (
                                            rw
                                              (
                                                p8.1,
                                                p5.1,
                                                p7.1,
                                                p4,
                                                p6,
                                                complement wide rhs minus hr (p2.0, p2.1 ∙ p1) p3,
                                                hl,
                                                I.is_width,
                                              )
                                              (shifts_rotate w (bits rhs % w) (bits lhs)
                                                (mod-lt _ I.positive) (lhs-lt lhs hl))))))))));
  }

  -- The same for `emit_rotr`, to the right.
  pub emit_rotr-rotates :
      (lhs rhs : L.Value)
      → L.type_of lhs ≡ t
      → L.type_of rhs ≡ t
      → Yields (λ v. bits v ≡ rotate_right w (bits rhs % w) (bits lhs)) (emit_rotr t lhs rhs)
  unfolding emit_rotr ◌>>=◌
  emit_rotr-rotates lhs rhs hl hr = record {
    at = λ m. running counted m λ n m1 e1 p1.
        rw (e1, ◌>>=◌)
          (running (built_const T bits B n t (omega (arith, p1, I.small)) wide_t) m1
            λ wide m2 e2 p2.
              rw (e2, ◌>>=◌)
                (running (built_sub T bits B wide rhs) m2 λ minus m3 e3 p3.
                  rw (e3, ◌>>=◌)
                    (running (emit_shift_mask-mod minus) m3 λ left m4 e4 p4.
                      rw (e4, ◌>>=◌)
                        (running (built_shl T bits B lhs left (in_width _ left lhs hl p4)) m4
                          λ high m5 e5 p5.
                            rw (e5, ◌>>=◌)
                              (running (emit_shift_mask-mod rhs) m5 λ right m6 e6 p6.
                                rw (e6, ◌>>=◌)
                                  (running
                                    (built_lshr T bits B lhs right (in_width _ right lhs hl p6)) m6
                                    λ low m7 e7 p7.
                                      rw (e7, ◌>>=◌)
                                        (running (built_or T bits B high low (p5.0 ∙ sym p7.0)) m7
                                          λ result m8 e8 p8. rw e8 (
                                            rw
                                              (
                                                p8.1,
                                                p5.1,
                                                p7.1,
                                                p4,
                                                p6,
                                                complement wide rhs minus hr (p2.0, p2.1 ∙ p1) p3,
                                                hl,
                                                I.is_width,
                                              )
                                              (shifts_rotate_right w (bits rhs % w) (bits lhs)
                                                (mod-lt _ I.positive) (lhs-lt lhs hl))))))))));
  }
