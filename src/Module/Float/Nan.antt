-- ===== src/Module/Float/Nan.antt =====
-- `clear_nan` makes every NaN quiet, and touches nothing else.
use wembed.Base.{
  ℕ, ◌-◌, ◌/◌, ◌%◌, ◌^◌, ◌≡◌, refl, sym, ◌∙◌, arith, bit_and, bit_or, Bool, not, ◌&&◌,
  if◌then◌else◌, ◌==◌, Result, ◌>>=◌,
}
use wembed.Base.Bits.{bit_and_ones, bit_and_high}
use wembed.Lang.Types.{Ty, Ty-discrete, i32, i64, float, double}
use wembed.Llvm.{Llvm, TypeLaws}
use wembed.Llvm.Bits.{BitLaws, Yields, running, flag, width}
use wembed.Utils.{FpBits, fp_float, fp_double, quiet_nan, exponent_mask, mantissa_mask}
use wembed.Module.{Module}
use wembed.Module.Emit.{get_zero}
use wembed.Module.Emit.Built.{
  Is, built_and, built_or, built_eq, built_ne, built_select, built_bit_cast,
}
use wembed.Module.Emit.Divide.{zero_i32, zero_i64}
use wembed.Module.Float.{clear_nan_internal, clear_nan}

-- The exponent is all ones, and the significand is not 0.
abbrev pub is_nan : FpBits → ℕ → Bool
is_nan f x =
    (x / 2 ^ f.significand_bits % 2 ^ f.exponent_bits == 2 ^ f.exponent_bits - 1)
    && not (x % 2 ^ f.significand_bits == 0)

-- The same number, with the quiet bit set where it is a NaN.
abbrev pub quieted : FpBits → ℕ → ℕ
quieted f x = if is_nan f x then bit_or x (quiet_nan f) else x

-- What the emitted code selects.
abbrev selected : FpBits → ℕ → ℕ
selected f x =
    if bit_and (flag (not (bit_and x (mantissa_mask f) == 0)))
        (flag (bit_and x (exponent_mask f) == exponent_mask f))
      == 0
    then x
    else bit_or x (quiet_nan f)

selected_float : (x : ℕ) → selected fp_float x ≡ quieted fp_float x
selected_float x =
    ground (arith, bit_and_ones 23 x, bit_and_high 23 x 255, bit_and_ones 8 (x / 2 ^ 23))

selected_double : (x : ℕ) → selected fp_double x ≡ quieted fp_double x
selected_double x =
    ground (arith, bit_and_ones 52 x, bit_and_high 52 x 2047, bit_and_ones 11 (x / 2 ^ 52))

module _ ⦃L : Llvm⦄ (T : TypeLaws L) (bits : L.Value → ℕ) (B : BitLaws L bits) where
  clear_nan_internal-selected :
      (f : FpBits) (t int_type : Ty) (input mask_significand mask_exponent nan_bit : L.Value)
      → L.type_of input ≡ t
      → width t ≡ width int_type
      → Is bits int_type (mantissa_mask f) mask_significand
      → Is bits int_type (exponent_mask f) mask_exponent
      → Is bits int_type (quiet_nan f) nan_bit
      → Yields (Is bits int_type 0) (get_zero int_type)
      → Yields
          (λ v. bits v ≡ selected f (bits input))
          (clear_nan_internal t int_type input mask_significand mask_exponent nan_bit)
  unfolding clear_nan_internal ◌>>=◌
  clear_nan_internal-selected f t int_type input ms me nb ht hw ps pe pn zero = record {
    at = λ m. running (built_bit_cast T bits B input int_type (rw ht hw)) m λ raw m1 e1 p1.
        rw (e1, ◌>>=◌)
          (running (built_and T bits B raw ms) m1 λ significand m2 e2 p2.
            rw (e2, ◌>>=◌)
              (running zero m2 λ z m3 e3 p3.
                rw (e3, ◌>>=◌)
                  (running (built_ne T bits B significand z) m3 λ not_inf m4 e4 p4.
                    rw (e4, ◌>>=◌)
                      (running (built_and T bits B raw me) m4 λ exponent m5 e5 p5.
                        rw (e5, ◌>>=◌)
                          (running (built_eq T bits B exponent me) m5 λ max_exp m6 e6 p6.
                            rw (e6, ◌>>=◌)
                              (running (built_and T bits B not_inf max_exp) m6 λ nan m7 e7 p7.
                                rw (e7, ◌>>=◌)
                                  (running (built_or T bits B raw nb (p1.0 ∙ sym pn.0)) m7
                                    λ cleaned m8 e8 p8.
                                      rw (e8, ◌>>=◌)
                                        (running (built_select T bits B nan cleaned raw p8.0) m8
                                          λ result m9 e9 p9.
                                            rw (e9, ◌>>=◌)
                                              (running
                                                (built_bit_cast T bits B result t
                                                  (rw (p9.0, p8.0, p1.0) (sym hw)))
                                                m9
                                                λ out m10 e10 p10. rw e10 (
                                                  rw
                                                    (
                                                      p10.1, p9.1, p8.1, p7.1, p6.1, p5.1, p4.1,
                                                      p3.1, p2.1, p1.1, ps.1, pe.1, pn.1,
                                                    )
                                                    refl))))))))));
  }

  constant : (t : Ty) (n k : ℕ) → n % 2 ^ width t ≡ k → Is bits t k (L.const_int t n)
  constant t n k e = (T.type_of-const_int t n, B.bits-const_int t n ∙ e)

  becomes :
      {A : Type 0} {P Q : A → Type 0} {c : Module L → Result (A × Module L)}
      → Yields P c
      → ((a : A) → P a → Q a)
      → Yields Q c
  becomes h k = record { at = λ m. running h m λ a n e p. rw e (k a p) }

  -- Under the laws of LLVM's types and integers, the code that `clear_nan` emits for a `float` sets
  -- the quiet bit of every NaN and gives every other number back bit for bit, and emitting it does
  -- not throw.
  pub clear_nan-float :
      (input : L.Value)
      → L.type_of input ≡ float
      → Yields (λ v. bits v ≡ quieted fp_float (bits input)) (clear_nan input)
  unfolding clear_nan Ty-discrete ◌>>=◌
  clear_nan-float input h = rw h (
      becomes
        (clear_nan_internal-selected fp_float float i32 input _ _ _ h refl
          (constant i32 8388607 _ refl) (constant i32 2139095040 _ refl)
          (constant i32 4194304 _ refl) (zero_i32 T bits B))
        (λ v e. e ∙ selected_float (bits input)))

  -- The same for a `double`.
  pub clear_nan-double :
      (input : L.Value)
      → L.type_of input ≡ double
      → Yields (λ v. bits v ≡ quieted fp_double (bits input)) (clear_nan input)
  unfolding clear_nan Ty-discrete ◌>>=◌
  clear_nan-double input h = rw h (
      becomes
        (clear_nan_internal-selected fp_double double i64 input _ _ _ h refl
          (constant i64 4503599627370495 _ refl) (constant i64 9218868437227405312 _ refl)
          (constant i64 2251799813685248 _ refl) (zero_i64 T bits B))
        (λ v e. e ∙ selected_double (bits input)))
