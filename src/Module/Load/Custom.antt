-- ===== src/Module/Load/Custom.antt =====
-- Where the reader stands behind a custom section.
use wembed.Base.{
  leb_false→lt, ℕ, ◌+◌, ◌-◌, ◌%◌, ◌≤◌, ◌<◌, ◌^◌, ◌≡◌, ◌∙◌, ap, arith, true, false, List, Bool-cases,
  inl, inr, leb, length, Result, ok, throw, ◌>>=◌, ◌>>◌,
}
use wembed.Base.Runs.{Outcome}
use wembed.Reader.{parse_uleb128, parse_str}
use wembed.Reader.Landing.{parse_uleb128-Lands, parse_str-Lands}
use wembed.Llvm.{Llvm}
use wembed.Module.{Module, reading}
use wembed.Module.Sections.{
  advance_wrapping, parse_names, parse_custom_section, same_bytes, name_bytes,
}
use wembed.Module.Sound.{Steps}
use wembed.Module.Load.{internal_size, custom_section}
use wembed.Module.Load.Names.{
  Roams, moved, continued, lands_then, parse_names-Roams, parse_names-done,
}

-- Where the reader is once the size of a custom section is added, as it stands and with the names
-- read.
wrapped_end :
    (p a n payload : ℕ)
    → p ≤ a
    → a + n < 2 ^ 62
    → payload < 2 ^ 32
    → (a + n + internal_size payload (a - p) n) % 2 ^ 64 ≡ p + payload
wrapped_end p a n payload h i j = omega arith

small_size :
    (p a n payload : ℕ)
    → p ≤ a
    → a + n < 2 ^ 62
    → payload < 2 ^ 32
    → a + n ≤ p + payload
    → internal_size payload (a - p) n < 2 ^ 32
small_size p a n payload h i j k = omega arith

leb→le : (a b : ℕ) → leb a b ≡ true → a ≤ b
leb→le a b e = ground arith

module _ ⦃L : Llvm⦄ where
  abbrev pub Bounded : Module L → {A : Type 0} → Result (A × Module L) → Type 0
  Bounded m r = Outcome (Steps false false) m r

  ahead :
      (m n : Module L)
      → n.reader.input ≡ m.reader.input
      → m.reader.current ≤ n.reader.current
      → Steps false false m n
  ahead m n e h = record { same_input = e; onward = h; same_control = tt; ordered = tt }

  -- The end of a custom section named "name", from the state behind the name.
  named :
      (m n : Module L) (size past : ℕ)
      → n.reader.input ≡ m.reader.input
      → m.reader.current ≤ n.reader.current
      → n.reader.current ≤ length m.reader.input
      → length m.reader.input < 2 ^ 62
      → (n.reader.current + size) % 2 ^ 64 ≡ past
      → m.reader.current ≤ past
      → (n.reader.current ≤ past → size < 2 ^ 32)
      → Bounded m ((parse_names size >> reading (advance_wrapping size)) n)
  unfolding ◌>>=◌
  named m n size past same onward inside room end behind small =
      elim (Bool-cases (leb ((n.reader.current + size) % 2 ^ 64) n.reader.current)) [
        | inl e ↦
            rw (parse_names-done size n (leb→le _ _ e), ◌>>=◌) (ahead m _ same (omega (arith, end)))
        | inr e ↦ roamed (parse_names size n) (parse_names-Roams size n) (leb_false→lt _ _ e)
      ]
    where
      roamed :
          (r : Result (Unit {0} × Module L))
          → Outcome Roams n r
          → n.reader.current < (n.reader.current + size) % 2 ^ 64
          → Bounded m (continued r (λ x. reading (advance_wrapping size)))
      roamed (throw e) l i = l
      roamed (ok (x, o)) l i =
          let bytes : length n.reader.input ≡ length m.reader.input = ap length same in
          let close : size < 2 ^ 32 = small (omega arith) in
          let over : o.reader.current ≤ length n.reader.input + 2 ^ 32 = l.near (omega arith) in
          ahead m _ (l.same_input ∙ same) (omega (arith, l.onward))

  named_or_not :
      (m n : Module L) (name : List ℕ) (size past : ℕ)
      → n.reader.input ≡ m.reader.input
      → m.reader.current ≤ n.reader.current
      → n.reader.current ≤ length m.reader.input
      → length m.reader.input < 2 ^ 62
      → (n.reader.current + size) % 2 ^ 64 ≡ past
      → m.reader.current ≤ past
      → (n.reader.current ≤ past → size < 2 ^ 32)
      → Bounded m (parse_custom_section name size n)
  unfolding parse_custom_section
  named_or_not m n name size past same onward inside room end behind small =
      elim (Bool-cases (same_bytes name name_bytes)) [
        | inl e ↦ rw e (named m n size past same onward inside room end behind small)
        | inr e ↦ rw e (ahead m _ same (omega (arith, end)))
      ]

  pub custom_section-Bounded :
      (payload : ℕ) (m : Module L)
      → length m.reader.input < 2 ^ 62
      → payload < 2 ^ 32
      → Bounded m (custom_section payload m)
  unfolding custom_section ◌>>=◌
  custom_section-Bounded payload m room fits =
      lands_then (Steps false false) _ (parse_uleb128 32) _ m (parse_uleb128-Lands 32 m.reader)
        λ size r a.
          let bytes : length r.input ≡ length m.reader.input = ap length a.same_input in
          lands_then (λ x n. Steps false false m n) _ (parse_str size) _ (moved m r)
            (parse_str-Lands size r (omega (arith, a.inside)))
            λ name s b.
              let within : s.current ≤ length m.reader.input = omega (arith, b.inside) in
              let behind : s.current ≡ r.current + size = b.holds in
              let end =
                wrapped_end m.reader.current r.current size payload a.onward (omega arith) fits in
              named_or_not m (moved m s) name
                (internal_size payload (r.current - m.reader.current) size)
                (m.reader.current + payload) (b.same_input ∙ a.same_input)
                (omega (arith, a.onward, b.onward)) within room (omega (arith, end)) (omega arith)
                (λ i.
                  small_size m.reader.current r.current size payload a.onward (omega arith) fits
                    (omega (arith, i)))
