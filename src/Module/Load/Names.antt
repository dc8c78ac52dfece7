-- ===== src/Module/Load/Names.antt =====
-- Where the reader stands behind the names of a module: the loop over the parts of the name section.
use wembed.Base.{
  ℕ, zero, suc, ◌+◌, ◌%◌, ◌≤◌, ◌<◌, ◌^◌, ◌≡◌, refl, ◌∙◌, ap, arith, Option, none, some, Bool-cases,
  inl, inr, ltb, le→ltb_false, ◌==◌, length, get_elem?, Result, ok, throw, ◌>>=◌, ◌>>◌,
}
use wembed.Base.Runs.{Outcome}
use wembed.Reader.{Reader, Parser, parse, parse_uleb128, parse_str}
use wembed.Reader.Landing.{Landed, Lands, parse_byte-Lands, parse_uleb128-Lands, parse_str-Lands}
use wembed.Llvm.{Llvm}
use wembed.Llvm.Instructions.{Effect}
use wembed.Module.{Module, M, FuncDef, reading, emit}
use wembed.Module.Sections.{
  named_function, parse_function_names, name_subsection, names_loop, parse_names,
}

module _ ⦃L : Llvm⦄ where
  -- The reader goes on, and no more than `2 ^ 32` bytes over the end if it was not there before.
  pub record Roams (m n : Module L) : Type 0 where
    pub same_input : n.reader.input ≡ m.reader.input
    pub onward : m.reader.current ≤ n.reader.current
    pub near :
        m.reader.current ≤ length m.reader.input + 2 ^ 32
        → n.reader.current ≤ length m.reader.input + 2 ^ 32

  pub Roams-refl : (m : Module L) → Roams m m
  Roams-refl m = record { same_input = refl; onward = omega arith; near = λ h. h }

  pub Roams-trans : (m n o : Module L) → Roams m n → Roams n o → Roams m o
  Roams-trans m n o p q = record {
    same_input = q.same_input ∙ p.same_input;
    onward = omega (arith, p.onward, q.onward);
    near = λ h. omega (
      arith,
      p.near h,
      q.near (omega (arith, p.near h, ap length p.same_input)),
      ap length p.same_input,
    );
  }

  deepen :
      {A : Type 0} (m n : Module L) (r : Result (A × Module L))
      → Roams m n
      → Outcome Roams n r
      → Outcome Roams m r
  deepen m n (ok (b, o)) h k = Roams-trans m n o h k
  deepen m n (throw e) h k = k

  abbrev pub moved : Module L → Reader → Module L
  moved m r = record m { reader = r }

  Landed-Roams :
      {P : Type 0} (m : Module L) (s : Reader) → Landed P m.reader s → Roams m (moved m s)
  Landed-Roams m s h = record {
    same_input = h.same_input;
    onward = h.onward;
    near = λ k. omega (arith, h.inside);
  }

  abbrev pub continued : {A B : Type 0} → Result (A × Module L) → (A → M B) → Result (B × Module L)
  continued r g = elim r [ ok (a, n) ↦ g a n | throw e ↦ throw e ]

  abbrev lifted : {A : Type 0} → Module L → Result (A × Reader) → Result (A × Module L)
  lifted m r = elim r [ ok (a, s) ↦ ok (a, record m { reader = s }) | throw e ↦ throw e ]

  -- Something read, and what goes on from there.
  pub lands_then :
      {A B : Type 0} (R : Module L → Module L → Type 0) (P : A → ℕ → Type 0) (p : Parser A)
      (g : A → M B) (m : Module L)
      → Lands P m.reader (p m.reader)
      → ((a : A) (s : Reader) → Landed (P a s.current) m.reader s → Outcome R m (g a (moved m s)))
      → Outcome R m ((reading p >>= g) m)
  unfolding ◌>>=◌
  lands_then {A} {B} R P p g m h k = from (p m.reader) h
    where
      from : (r : Result (A × Reader)) → Lands P m.reader r → Outcome R m (continued (lifted m r) g)
      from (ok (a, s)) l = k a s l
      from (throw e) l = l

  read_then :
      {A B : Type 0} (P : A → ℕ → Type 0) (p : Parser A) (g : A → M B) (m : Module L)
      → Lands P m.reader (p m.reader)
      → ((a : A) (s : Reader)
          → Landed (P a s.current) m.reader s
          → Outcome Roams (moved m s) (g a (moved m s)))
      → Outcome Roams m ((reading p >>= g) m)
  read_then P p g m h k =
      lands_then Roams P p g m h
        λ a s l. deepen m (moved m s) (g a (moved m s)) (Landed-Roams m s l) (k a s l)

  named_then :
      {B : Type 0} (o : Option (FuncDef L)) (g : L.Value → M B) (m : Module L)
      → ((v : L.Value) → Outcome Roams m (g v m))
      → Outcome Roams m ((named_function o >>= g) m)
  unfolding ◌>>=◌
  named_then none g m h = tt
  named_then (some d) g m h = h d.value

  emit_then :
      {B : Type 0} (e : Effect L.Value L.Block) (g : M B) (m : Module L)
      → ((n : Module L) → n.reader ≡ m.reader → Outcome Roams n (g n))
      → Outcome Roams m ((emit e >> g) m)
  unfolding emit ◌>>=◌
  emit_then e g m h =
      let n : Module L = record m { builder = L.emit e m.builder } in
      deepen m n (g n) (record { same_input = refl; onward = omega arith; near = λ k. k })
        (h n refl)

  names_Roam :
      (count : ℕ) (m : Module L)
      → m.reader.current ≤ length m.reader.input
      → Outcome Roams m (parse_function_names count m)
  unfolding parse_function_names ◌>>=◌
  names_Roam zero m h = Roams-refl m
  names_Roam (suc count) m h =
      read_then _ (parse_uleb128 32) _ m (parse_uleb128-Lands 32 m.reader) λ index r a.
        read_then _ (parse_uleb128 32) _ (moved m r) (parse_uleb128-Lands 32 r) λ size s b.
          read_then _ (parse_str size) _ (moved m s)
            (parse_str-Lands size s (omega (arith, b.inside, ap length b.same_input)))
            λ name t c. named_then (get_elem? m.functions index) _ (moved m t) λ f.
              emit_then _ (parse_function_names count) (moved m t)
                λ n e. names_Roam count n (rw e (omega (arith, c.inside, ap length c.same_input)))

  pub runs_then :
      {A B : Type 0} (c : M A) (g : A → M B) (m : Module L)
      → Outcome Roams m (c m)
      → ((a : A) (n : Module L) → Roams m n → Outcome Roams n (g a n))
      → Outcome Roams m ((c >>= g) m)
  unfolding ◌>>=◌
  runs_then {A} {B} c g m h k = from (c m) h
    where
      from : (r : Result (A × Module L)) → Outcome Roams m r → Outcome Roams m (continued r g)
      from (ok (a, n)) l = deepen m n (g a n) l (k a n l)
      from (throw e) l = l

  subsection-Roams :
      (kind size : ℕ) (m : Module L)
      → m.reader.current ≤ length m.reader.input
      → size < 2 ^ 32
      → Outcome Roams m (name_subsection kind size m)
  subsection-Roams kind size m h k = elim (Bool-cases (kind == 1)) [
    | inl e ↦ rw e (
        read_then _ (parse_uleb128 32) _ m (parse_uleb128-Lands 32 m.reader) λ count s a.
          names_Roam count (moved m s) (omega (arith, a.inside, ap length a.same_input)))
    | inr e ↦ rw e (record { same_input = refl; onward = omega arith; near = λ i. omega arith })
  ]

  -- With more fuel than bytes are left, the loop does not run out of it.
  pub names_loop-Roams :
      (end fuel : ℕ) (m : Module L)
      → 0 < fuel
      → length m.reader.input < fuel + m.reader.current
      → Outcome Roams m (names_loop end fuel m)
  unfolding names_loop
  names_loop-Roams end zero m h k = absurd (omega arith)
  names_loop-Roams end (suc fuel) m h k = elim (Bool-cases (ltb m.reader.current end)) [
    | inl e ↦ rw e (
        read_then _ (parse 1) _ m (parse_byte-Lands m.reader) λ kind r a.
          read_then _ (parse_uleb128 32) _ (moved m r) (parse_uleb128-Lands 32 r) λ size s b.
            runs_then (name_subsection kind size) (λ x. names_loop end fuel) (moved m s)
              (subsection-Roams kind size (moved m s)
                (omega (arith, b.inside, ap length b.same_input)) b.holds)
              λ x n c. names_loop-Roams end fuel n (omega (arith, a.holds)) (
                omega (
                  arith,
                  a.holds,
                  b.onward,
                  c.onward,
                  ap length a.same_input,
                  ap length b.same_input,
                  ap length c.same_input,
                )))
    | inr e ↦ rw e (Roams-refl m)
  ]

  pub parse_names-Roams : (size : ℕ) (m : Module L) → Outcome Roams m (parse_names size m)
  unfolding parse_names
  parse_names-Roams size m =
      names_loop-Roams _ (suc (length m.reader.input)) m (omega arith) (omega arith)

  -- An end that is already behind the reader.
  pub parse_names-done :
      (size : ℕ) (m : Module L)
      → (m.reader.current + size) % 2 ^ 64 ≤ m.reader.current
      → parse_names size m ≡ ok (tt, m)
  unfolding parse_names names_loop
  parse_names-done size m h = rw (le→ltb_false _ _ h) refl
