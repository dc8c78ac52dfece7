-- ===== src/Module/Load/Ends.antt =====
-- The loop over the sections comes to an end, and with it the constructor of `module`.
use wembed.Base.{
  ltb_false→le, ℕ, zero, suc, ◌+◌, ◌≤◌, ◌<◌, ◌^◌, ◌≡◌, refl, ◌∙◌, ap, arith, false, List, Option,
  none, some, String, Bool-cases, inl, inr, ltb, ◌==◌, length, Result, ok, throw, malformed,
}
use wembed.Base.Runs.{IsRaised, Outcome, Outcome-then, Runs-if}
use wembed.Reader.{Reader, parse, parse_uleb128}
use wembed.Reader.Forward.{Forward, parse-Advances}
use wembed.Reader.Landing.{Landed, parse_byte-Lands, parse_uleb128-Lands}
use wembed.Llvm.{Llvm}
use wembed.Module.{Module, reading}
use wembed.Module.Sound.{Steps, Sound}
use wembed.Module.Sound.Rules.{
  then_, return-Sound, fail-Sound, look-Sound, emit-Sound, reading-Sound,
}
use wembed.Module.Sound.Body.{parse_section_code-Sound}
use wembed.Module.Sound.Sections.{
  parse_types-Sound, parse_functions-Sound, parse_section_table-Sound, parse_section_memory-Sound,
}
use wembed.Module.Sound.Interfaces.{
  parse_imports-Sound, parse_exports-Sound, parse_section_start-Sound,
}
use wembed.Module.Sound.Segments.{
  parse_globals-Sound, parse_section_element-Sound, parse_section_data-Sound,
}
use wembed.Module.Load.{
  parse_section, next_section, sections_loop, parse_sections, verified, of_version, complete,
  parse_module, new_module, checked_magic, construct,
}
use wembed.Module.Load.Names.{moved, lands_then}
use wembed.Module.Load.Custom.{Bounded, custom_section-Bounded}

module _ ⦃L : Llvm⦄ where
  other_section-Sound :
      (base unset payload id : ℕ)
      → (id == 0) ≡ false
      → Sound false false (parse_section base unset payload id)
  unfolding parse_section
  other_section-Sound base unset payload id e = rw e (
      Runs-if (id == 1) parse_types-Sound (
        Runs-if (id == 2) (parse_imports-Sound unset) (
          Runs-if (id == 3) parse_functions-Sound (
            Runs-if (id == 4) (parse_section_table-Sound unset) (
              Runs-if (id == 5) (parse_section_memory-Sound unset) (
                Runs-if (id == 6) parse_globals-Sound (
                  Runs-if (id == 7) parse_exports-Sound (
                    Runs-if (id == 8) parse_section_start-Sound (
                      Runs-if (id == 9) parse_section_element-Sound (
                        Runs-if (id == 10) parse_section_code-Sound (
                          Runs-if (id == 11) (parse_section_data-Sound base)
                            (fail-Sound (malformed "unknown section ID") tt))))))))))))

  parse_section-Bounded :
      (base unset payload id : ℕ) (m : Module L)
      → length m.reader.input < 2 ^ 62
      → payload < 2 ^ 32
      → Bounded m (parse_section base unset payload id m)
  unfolding parse_section
  parse_section-Bounded base unset payload id m room fits = elim (Bool-cases (id == 0)) [
    | inl e ↦ rw e (custom_section-Bounded payload m room fits)
    | inr e ↦ (other_section-Sound base unset payload id e).at m
  ]

  -- A section starts inside the buffer and ends further on.
  record Passed (m n : Module L) : Type 0 where
    same_input : n.reader.input ≡ m.reader.input
    inside : m.reader.current < length m.reader.input
    further : m.reader.current < n.reader.current

  next_section-Passed :
      (base unset : ℕ) (m : Module L)
      → length m.reader.input < 2 ^ 62
      → Outcome Passed m (next_section base unset m)
  next_section-Passed base unset m room =
      lands_then Passed _ (parse 1) _ m (parse_byte-Lands m.reader) λ id r a.
        lands_then (λ x n. Passed m n) _ (parse_uleb128 32) _ (moved m r) (parse_uleb128-Lands 32 r)
          λ payload s b. passed r s a b (parse_section base unset payload id (moved m s)) (
            parse_section-Bounded base unset payload id (moved m s)
              (omega (arith, room, ap length a.same_input, ap length b.same_input)) b.holds)
    where
      passed :
          {Q : Type 0} (r s : Reader)
          → Landed
              ((m.reader.current < length m.reader.input) × (m.reader.current < r.current))
              m.reader
              r
          → Landed Q r s
          → (x : Result (Unit {0} × Module L)) → Bounded (moved m s) x
          → Outcome Passed m x
      passed r s a b (throw e) k = k
      passed r s a b (ok (y, n)) k = record {
        same_input = k.same_input ∙ b.same_input ∙ a.same_input;
        inside = a.holds.0;
        further = omega (arith, a.holds.1, b.onward, k.onward);
      }

  -- All sections are read.
  pub record Finished (m n : Module L) : Type 0 where
    pub same_input : n.reader.input ≡ m.reader.input
    pub at_end : length m.reader.input ≤ n.reader.current

  finished : (m n o : Module L) → n.reader.input ≡ m.reader.input → Finished n o → Finished m o
  finished m n o e h = record {
    same_input = h.same_input ∙ e;
    at_end = omega (arith, h.at_end, ap length e);
  }

  finished_after :
      (m n : Module L) (r : Result (Unit {0} × Module L))
      → n.reader.input ≡ m.reader.input
      → Outcome Finished n r
      → Outcome Finished m r
  finished_after m n (ok (a, o)) e h = finished m n o e h
  finished_after m n (throw x) e h = h

  -- With more fuel than bytes are left, the loop over the sections does not run out of it, and ends
  -- only at the end of the buffer.
  pub sections_loop-Finished :
      (base unset fuel : ℕ) (m : Module L)
      → length m.reader.input < 2 ^ 62
      → 0 < fuel
      → length m.reader.input < fuel + m.reader.current
      → Outcome Finished m (sections_loop base unset fuel m)
  unfolding sections_loop
  sections_loop-Finished base unset zero m room h k = absurd (omega arith)
  sections_loop-Finished base unset (suc fuel) m room h k =
      elim (Bool-cases (ltb m.reader.current (length m.reader.input))) [
        | inl e ↦ rw e (
            Outcome-then Finished (Passed m) (next_section base unset)
              (λ x. sections_loop base unset fuel) m (next_section-Passed base unset m room)
              λ a n p. finished_after m n (sections_loop base unset fuel n) p.same_input (
                sections_loop-Finished base unset fuel n (omega (arith, ap length p.same_input))
                  (omega (arith, p.inside, p.further))
                  (omega (arith, p.inside, p.further, ap length p.same_input))))
        | inr e ↦ rw e (record { same_input = refl; at_end = ltb_false→le _ _ e })
      ]

  parse_sections-Finished :
      (base unset : ℕ) (m : Module L)
      → length m.reader.input < 2 ^ 62
      → Outcome Finished m (parse_sections base unset m)
  unfolding parse_sections
  parse_sections-Finished base unset m room =
      sections_loop-Finished base unset (suc (length m.reader.input)) m room (omega arith)
        (omega arith)

  verified-Sound : (o : Option String) → Sound false false (verified o)
  verified-Sound none = return-Sound tt
  verified-Sound (some message) = fail-Sound _ tt

  complete-Sound : Sound false false complete
  unfolding complete
  complete-Sound = then_ (look-Sound _) λ a. then_ (look-Sound _) λ b. then_ (emit-Sound _) λ x.
      then_ (emit-Sound _) λ y. then_ (emit-Sound _) λ z.
        then_ (emit-Sound _)
          λ w. record { at = λ m. (verified-Sound (L.verification_error m.builder)).at m }

  -- What the constructor returns has been read to the end, and what it throws is not a lack of fuel.
  abbrev pub Loaded : List ℕ → Result (Unit {0} × Module L) → Type 0
  Loaded input (ok (a, n)) = (n.reader.input ≡ input) × (length input ≤ n.reader.current)
  Loaded input (throw e) = IsRaised e

  completed :
      (m n : Module L) (r : Result (Unit {0} × Module L))
      → Finished m n
      → Outcome (Steps false false) n r
      → Outcome Finished m r
  completed m n (ok (a, o)) h k = record {
    same_input = k.same_input ∙ h.same_input;
    at_end = omega (arith, h.at_end, k.onward);
  }
  completed m n (throw e) h k = k

  of_version-Finished :
      (base unset version : ℕ) (m : Module L)
      → length m.reader.input < 2 ^ 62
      → Outcome Finished m (of_version base unset version m)
  of_version-Finished base unset version m room = elim (Bool-cases (version == 1)) [
    | inl e ↦ rw e (parse_sections-Finished base unset m room)
    | inr e ↦ rw e tt
  ]

  parse_module-Finished :
      (base unset : ℕ) (m : Module L)
      → length m.reader.input < 2 ^ 62
      → Outcome Finished m (parse_module base unset m)
  unfolding parse_module
  parse_module-Finished base unset m room =
      Outcome-then Finished (λ n. n.reader.input ≡ m.reader.input) (reading (parse 4)) _ m
        (same m _ ((reading-Sound (parse-Advances 4)).at m))
        λ version n e. finished_after m n _ e (
          Outcome-then Finished (Finished n) (of_version base unset version) (λ x. complete) n
            (of_version-Finished base unset version n (omega (arith, ap length e)))
            λ a o h. completed n o (complete o) h (complete-Sound.at o))
    where
      same :
          {A : Type 0} (m : Module L) (r : Result (A × Module L))
          → Outcome (Steps false false) m r
          → Outcome (λ x n. n.reader.input ≡ m.reader.input) m r
      same m (ok (a, n)) h = h.same_input
      same m (throw e) h = h

  loaded :
      (m : Module L) (input : List ℕ) (r : Result (Unit {0} × Module L))
      → m.reader.input ≡ input
      → Outcome Finished m r
      → Loaded input r
  loaded m input (ok (a, n)) e h = (h.same_input ∙ e, omega (arith, h.at_end, ap length e))
  loaded m input (throw x) e h = h

  new_module-reader :
      (r : Reader) (builder : L.Builder) {input : List ℕ}
      → r.input ≡ input
      → (new_module r builder).reader.input ≡ input
  unfolding new_module
  new_module-reader r builder e = e

  checked_magic-Loaded :
      (base unset : ℕ) (builder : L.Builder) (input : List ℕ) (r : Result (ℕ × Reader))
      → length input < 2 ^ 62
      → Outcome (λ x (s : Reader). s.input ≡ input) (record { input = input; current = 0 }) r
      → Loaded input (checked_magic base unset builder r)
  checked_magic-Loaded base unset builder input (throw e) room h = h
  checked_magic-Loaded base unset builder input (ok (magic, r)) room h =
      elim (Bool-cases (magic == 0x6d736100)) [
        | inl e ↦ rw e (
            loaded (new_module r builder) input _ (new_module-reader r builder h) (
              parse_module-Finished base unset (new_module r builder)
                (omega (arith, ap length (new_module-reader r builder h)))))
        | inr e ↦ rw e tt
      ]

  bytes_kept :
      (input : List ℕ) (r : Result (ℕ × Reader))
      → Outcome Forward (record { input = input; current = 0 }) r
      → Outcome (λ x (s : Reader). s.input ≡ input) (record { input = input; current = 0 }) r
  bytes_kept input (ok (a, s)) h = h.same_input
  bytes_kept input (throw e) h = h

  -- The constructor on fewer than `2 ^ 62` bytes: it does not run out of the fuel of its loops, and
  -- where it returns the reader has passed all the bytes, which are unchanged.
  pub construct-Loaded :
      (base unset : ℕ) (builder : L.Builder) (input : List ℕ)
      → length input < 2 ^ 62
      → Loaded input (construct base unset builder (some input))
  unfolding construct
  construct-Loaded base unset builder input room = elim (Bool-cases (ltb (length input) 4)) [
    | inl e ↦ rw e tt
    | inr e ↦ rw e (
        checked_magic-Loaded base unset builder input _ room
          (bytes_kept input _ ((parse-Advances 4).at (record { input = input; current = 0 }))))
  ]
