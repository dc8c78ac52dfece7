-- ===== src/Reader/Landing.antt =====
-- Where the reader stands once it has read something: inside its buffer, and no further back.
use wembed.Base.{
  ℕ, zero, suc, ◌+◌, ◌≤◌, ◌<◌, ◌^◌, ◌≡◌, refl, arith, List, [], ◌∷◌, some, Bool-cases, Option-cases,
  inl, inr, leb, ◌==◌, length, length-drop, get_elem?, drop, max, bit_and, bit_or, Result, ok,
  throw, ◌>>=◌,
}
use wembed.Base.Runs.{IsRaised}
use wembed.Base.Bits.{bit_or_lt}
use wembed.Base.Powers.{two_pow_pos}
use native.Mathlib.Nat.{mod-lt}
use wembed.Reader.{
  Reader, Leb128, next_byte, parse, group, leb128_loop, leb128_bytes, parse_uleb128, parse_str,
}

pub record Landed (P : Type 0) (r s : Reader) : Type 0 where
  pub same_input : s.input ≡ r.input
  pub onward : r.current ≤ s.current
  pub inside : s.current ≤ length r.input
  pub holds : P

-- A result that `P` holds of, and of where the reader then stands, behind bytes that have all been
-- there, or an exception, but not for lack of fuel.
abbrev pub Lands : {A : Type 0} → (A → ℕ → Type 0) → Reader → Result (A × Reader) → Type 0
Lands P r (ok (a, s)) = Landed (P a s.current) r s
Lands P r (throw e) = IsRaised e

get_elem?-within : (i : ℕ) (xs : List ℕ) (a : ℕ) → get_elem? xs i ≡ some a → i < length xs
get_elem?-within i [] a e = absurd (cc)
get_elem?-within zero (x ∷ xs) a e = omega arith
get_elem?-within (suc i) (x ∷ xs) a e = omega (arith, get_elem?-within i xs a e)

pub parse_byte-Lands :
    (r : Reader) → Lands (λ b c. (r.current < length r.input) × (r.current < c)) r (parse 1 r)
unfolding parse next_byte ◌>>=◌
parse_byte-Lands r = elim (Option-cases (get_elem? r.input r.current)) [
  | inl e ↦ rw (e, ◌>>=◌) tt
  | inr (b, e) ↦
      let h = get_elem?-within r.current r.input b e in
      rw (e, ◌>>=◌)
        (record {
          same_input = refl;
          onward = omega arith;
          inside = omega arith;
          holds = (h, omega arith);
        })
]

-- The loop stops at one of the bytes, with a value of the width.
abbrev Stops : ℕ → ℕ → ℕ → Result Leb128 → Type 0
Stops width first past (ok l) = (first < l.current) × (l.current ≤ past) × (l.value < 2 ^ width)
Stops width first past (throw e) = IsRaised e

Stops-suc :
    (w c n : ℕ) (r : Result Leb128) → Stops w (c + 1) (c + 1 + n) r → Stops w c (c + suc n) r
Stops-suc w c n (ok l) (p, q, v) = (omega arith, omega arith, v)
Stops-suc w c n (throw e) h = h

leb128_loop-Stops :
    (w : ℕ) (l : List ℕ) (shift value c : ℕ)
    → value < 2 ^ w
    → Stops w c (c + length l) (leb128_loop w l shift value c)
unfolding leb128_loop
leb128_loop-Stops w [] shift value c h = tt
leb128_loop-Stops w (b ∷ bs) shift value c h =
    let value' = bit_or value (group w b shift) in
    let fits : value' < 2 ^ w = bit_or_lt w value (group w b shift) h (mod-lt _ (two_pow_pos w)) in
    let more =
      Stops-suc w c (length bs) (leb128_loop w bs (shift + 7) value' (c + 1))
        (leb128_loop-Stops w bs (shift + 7) value' (c + 1) fits) in
    elim (Bool-cases (leb (max w 32) shift)) [
      | inl e ↦ rw e tt
      | inr e ↦ rw e (elim (Bool-cases (bit_and b 0x80 == 0)) [
        | inl last ↦ rw last (omega arith, omega arith, fits)
        | inr further ↦ rw further more
      ])
    ]

landed :
    (w : ℕ) (r : Reader) (l : Result Leb128)
    → Stops w r.current (r.current + length (drop r.current r.input)) l
    → Lands
        (λ (k : Leb128) c. k.value < 2 ^ w)
        r
        (elim l [ ok k ↦ ok (k, record r { current = k.current }) | throw e ↦ throw e ])
landed w r (ok k) (p, q, v) = record {
  same_input = refl;
  onward = omega arith;
  inside = omega (arith, length-drop r.current r.input);
  holds = v;
}
landed w r (throw e) h = h

value_landed :
    (w : ℕ) (r : Reader) (x : Result (Leb128 × Reader))
    → Lands (λ (k : Leb128) c. k.value < 2 ^ w) r x
    → Lands (λ n c. n < 2 ^ w) r (elim x [ ok (k, s) ↦ ok (k.value, s) | throw e ↦ throw e ])
value_landed w r (ok (k, s)) h = record {
  same_input = h.same_input;
  onward = h.onward;
  inside = h.inside;
  holds = h.holds;
}
value_landed w r (throw e) h = h

pub parse_uleb128-Lands : (w : ℕ) (r : Reader) → Lands (λ n c. n < 2 ^ w) r (parse_uleb128 w r)
unfolding parse_uleb128 leb128_bytes ◌>>=◌
parse_uleb128-Lands w r = value_landed w r _ (
    landed w r (leb128_loop w (drop r.current r.input) 0 0 r.current)
      (leb128_loop-Stops w (drop r.current r.input) 0 0 r.current (two_pow_pos w)))

pub parse_str-Lands :
    (size : ℕ) (r : Reader)
    → r.current ≤ length r.input
    → Lands (λ s c. c ≡ r.current + size) r (parse_str size r)
unfolding parse_str
parse_str-Lands size r h = elim (Bool-cases (leb size (length (drop r.current r.input)))) [
  | inl e ↦ rw e (record {
    same_input = refl;
    onward = omega arith;
    inside = ground (arith, length-drop r.current r.input);
    holds = refl;
  })
  | inr e ↦ rw e tt
]
