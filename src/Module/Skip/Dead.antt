-- ===== src/Module/Skip/Dead.antt =====
-- The loop of `module::parse_section_code` over dead code.
use wembed.Base.{
  some_injective, ℕ, zero, suc, ◌+◌, ◌-◌, ◌≤◌, ◌<◌, ◌≡◌, ◌≢◌, refl, sym, ◌∙◌, ap, arith, Bool,
  false, List, [], ◌∷◌, ◌++◌, Option, none, some, Option-cases, inl, inr, lt→ltb, length,
  length-append, drop, drop-append, All, Result, ok, ◌>>=◌, return,
}
use wembed.Llvm.{Llvm}
use wembed.Reader.{Reader}
use wembed.Module.{Module, CfEntry, reading}
use wembed.Module.Stack.{back_reachable}
use wembed.Module.Control.{Frame}
use wembed.Module.Skip.{
  Skip, nested, at_else, at_end, skip_byte, skip_index, skip_index64, skip_float, skip_double,
  skip_call, skip_access, skip_access64, skip_table, skip_none, skip_of, skip_dead, skip_immediates,
  closing, pred,
}
use wembed.Module.Skip.Immediates.{
  ReadsTo, IsBlockType, IsImmediate, nesting, append_assoc, reads_next_byte,
  skip_immediates-ReadsTo, parse_llvm_btype-ReadsTo,
}
use wembed.Module.Skip.Format.{form, HasForm, nesting_of, HasForm-skip_of, nesting_of-skip_of}
use wembed.Module.Code.{body_step, body_loop, no_entries}

-- An instruction as it stands in the code.
pub record Encoded : Type 0 where
  pub op : ℕ
  pub immediates : List ℕ

abbrev pub encode : List Encoded → List ℕ
encode [] = []
encode (i ∷ is) = i.op ∷ (i.immediates ++ encode is)

-- The same over a sequence.
abbrev pub walk : ℕ → List Encoded → Option ℕ
walk depth [] = some depth
walk depth (i ∷ is) = elim (nesting_of (form i.op) depth) [
  | none ↦ none
  | some inner ↦ walk inner is
]

-- An opcode of the binary format with the bytes that belong to it.
abbrev pub IsEncoded : Encoded → Type 0
IsEncoded i = (i.op < 256) × HasForm (form i.op) i.immediates

never : (d : ℕ) → none ≡ some d → ⊥
never d e = absurd cc

add_zero : (n : ℕ) → n ≡ n + 0
add_zero n = omega arith

module _ ⦃L : Llvm⦄ where
  -- The state further on in the same dead code: only the place and the number of open blocks change.
  abbrev pub moved : Module L → ℕ → ℕ → Module L
  moved m by depth = record m {
    reader = record m.reader { current = m.reader.current + by };
    unreachable_depth = depth;
  }

  abbrev skipped : Module L → ℕ → ℕ → Result (Bool × Module L)
  skipped m by depth = ok (false, moved m by depth)

  read_step :
      (p : Reader → Result (Unit {0} × Reader)) (bytes rest : List ℕ) (m : Module L) (depth : ℕ)
      → ReadsTo p bytes tt
      → drop m.reader.current m.reader.input ≡ bytes ++ rest
      → some m.unreachable_depth ≡ some depth
      → (reading p >>= λ done. return false) m ≡ ok (false, moved m (length bytes) depth)
  unfolding ◌>>=◌
  read_step p bytes rest m depth h here e =
      rw (h.at m.reader rest here, ◌>>=◌)
        (ap (skipped m (length bytes)) (some_injective m.unreachable_depth depth e))

  nested_step :
      (b : ℕ) (rest : List ℕ) (m : Module L)
      → IsBlockType b
      → drop m.reader.current m.reader.input ≡ b ∷ rest
      → skip_dead nested m ≡ ok (false, moved m 1 (suc m.unreachable_depth))
  unfolding skip_dead ◌>>=◌
  nested_step b rest m h here =
      let (t, read) = parse_llvm_btype-ReadsTo b h in
      rw (read.at m.reader rest here, ◌>>=◌) (ap (skipped m 1) (omega arith))

  abbrev in_place : Module L → ℕ → ℕ → Result (Bool × Module L)
  in_place m n depth =
      ok (false, record m { reader = record m.reader { current = n }; unreachable_depth = depth })

  stays : (m : Module L) (depth : ℕ) → in_place m m.reader.current depth ≡ skipped m 0 depth
  stays m depth = ap (λ n. in_place m n depth) (add_zero m.reader.current)

  else_step :
      (d depth : ℕ) (m : Module L)
      → nesting at_else d ≡ some depth
      → closing d d m ≡ ok (false, moved m 0 depth)
  else_step zero depth m e = absurd cc
  else_step (suc d) depth m e = stays m (suc d) ∙ ap (skipped m 0) (some_injective (suc d) depth e)

  end_step :
      (d depth : ℕ) (m : Module L)
      → nesting at_end d ≡ some depth
      → closing d (pred d) m ≡ ok (false, moved m 0 depth)
  end_step zero depth m e = absurd cc
  end_step (suc d) depth m e =
      stays m (suc d - 1) ∙ ap (skipped m 0) (omega (arith, some_injective d depth e))

  plain_step :
      (s : Skip) (bytes rest : List ℕ) (m : Module L) (depth : ℕ)
      → s ≢ nested
      → IsImmediate s bytes
      → drop m.reader.current m.reader.input ≡ bytes ++ rest
      → some m.unreachable_depth ≡ some depth
      → (reading (skip_immediates s) >>= λ done. return false) m ≡ skipped m (length bytes) depth
  plain_step s bytes rest m depth other h here e =
      read_step (skip_immediates s) bytes rest m depth (skip_immediates-ReadsTo s bytes other h)
        here e

  skip_dead-moved :
      (s : Skip) (bytes rest : List ℕ) (m : Module L) (depth : ℕ)
      → IsImmediate s bytes
      → drop m.reader.current m.reader.input ≡ bytes ++ rest
      → nesting s m.unreachable_depth ≡ some depth
      → skip_dead s m ≡ skipped m (length bytes) depth
  unfolding skip_dead
  skip_dead-moved nested bytes rest m depth (b, q, bt) here e = rw q (
      nested_step b rest m bt (rw q at here)
      ∙ ap (skipped m 1) (some_injective (suc m.unreachable_depth) depth e))
  skip_dead-moved at_else bytes rest m depth q here e =
      rw q (else_step m.unreachable_depth depth m e)
  skip_dead-moved at_end bytes rest m depth q here e = rw q (end_step m.unreachable_depth depth m e)
  skip_dead-moved skip_byte bytes rest m depth h here e =
      plain_step skip_byte bytes rest m depth (cc) h here e
  skip_dead-moved skip_index bytes rest m depth h here e =
      plain_step skip_index bytes rest m depth (cc) h here e
  skip_dead-moved skip_index64 bytes rest m depth h here e =
      plain_step skip_index64 bytes rest m depth (cc) h here e
  skip_dead-moved skip_float bytes rest m depth h here e =
      plain_step skip_float bytes rest m depth (cc) h here e
  skip_dead-moved skip_double bytes rest m depth h here e =
      plain_step skip_double bytes rest m depth (cc) h here e
  skip_dead-moved skip_call bytes rest m depth h here e =
      plain_step skip_call bytes rest m depth (cc) h here e
  skip_dead-moved skip_access bytes rest m depth h here e =
      plain_step skip_access bytes rest m depth (cc) h here e
  skip_dead-moved skip_access64 bytes rest m depth h here e =
      plain_step skip_access64 bytes rest m depth (cc) h here e
  skip_dead-moved skip_table bytes rest m depth h here e =
      plain_step skip_table bytes rest m depth (cc) h here e
  skip_dead-moved skip_none bytes rest m depth h here e =
      plain_step skip_none bytes rest m depth (cc) h here e

  abbrev turned_to : Module L → ℕ → ℕ → Result (Unit {0} × Module L)
  turned_to m n depth =
      ok (tt, record m { reader = record m.reader { current = n }; unreachable_depth = depth })

  body_step-moved :
      (f : Frame L) (op : ℕ) (bytes rest : List ℕ) (m : Module L) (depth : ℕ)
      → IsImmediate (skip_of op) bytes
      → drop m.reader.current m.reader.input ≡ op ∷ (bytes ++ rest)
      → nesting (skip_of op) m.unreachable_depth ≡ some depth
      → back_reachable m.cf_entries ≡ false
      → body_step f m ≡ ok (tt, moved m (suc (length bytes)) depth)
  unfolding body_step ◌>>=◌
  body_step-moved f op bytes rest m depth h here e dead =
      let first = (reads_next_byte op).at m.reader (bytes ++ rest) here in
      let n : Module L = record m { reader = record m.reader { current = m.reader.current + 1 } } in
      let second =
        skip_dead-moved (skip_of op) bytes rest n depth h
          (drop-append m.reader.current (m.reader.current + 1) m.reader.input (op ∷ [])
            (bytes ++ rest) here (omega arith))
          e in
      rw (first, ◌>>=◌)
        (rw (dead, ◌>>=◌) (rw (second, ◌>>=◌) (ap (λ k. turned_to m k depth) (omega arith))))

  entered : (cs : List (CfEntry L)) → back_reachable cs ≡ false → no_entries cs ≡ false
  entered [] e = absurd cc
  entered (c ∷ cs) e = refl

  body_loop-turn :
      (f : Frame L) (end fuel : ℕ) (m n : Module L)
      → m.reader.current < end
      → back_reachable m.cf_entries ≡ false
      → body_step f m ≡ ok (tt, n)
      → body_loop f end (suc fuel) m ≡ body_loop f end fuel n
  unfolding body_loop ◌>>=◌
  body_loop-turn f end fuel m n room dead step =
      rw (lt→ltb m.reader.current end room, entered m.cf_entries dead) (rw (step, ◌>>=◌) refl)

  abbrev looped : Frame L → ℕ → ℕ → Module L → ℕ → ℕ → Result (Unit {0} × Module L)
  looped f end fuel m n depth =
      body_loop f end fuel
        (record m { reader = record m.reader { current = n }; unreachable_depth = depth })

  -- Behind an unconditional jump the loop reads over every sequence of instructions of the binary
  -- format, each with the immediates that the format gives it, that closes no block it has not opened:
  -- it takes one turn for each, and ends behind them with only its place and the number of open blocks
  -- changed, so nothing is built and no operand is touched.
  pub body_loop-dead :
      (f : Frame L) (end fuel : ℕ) (is : List Encoded) (rest : List ℕ) (m : Module L) (depth : ℕ)
      → All IsEncoded is
      → drop m.reader.current m.reader.input ≡ encode is ++ rest
      → m.reader.current + length (encode is) ≤ end
      → walk m.unreachable_depth is ≡ some depth
      → back_reachable m.cf_entries ≡ false
      → body_loop f end (length is + fuel) m
        ≡ body_loop f end fuel (moved m (length (encode is)) depth)
  body_loop-dead f end fuel [] rest m depth h here room e dead =
      ap (λ n. body_loop f end n m) (omega arith)
      ∙ ap (looped f end fuel m m.reader.current) (some_injective m.unreachable_depth depth e)
      ∙ ap (λ n. looped f end fuel m n depth) (add_zero m.reader.current)
  body_loop-dead f end fuel (i ∷ is) rest m depth ((byte, h), hs) here room e dead =
      elim (Option-cases (nesting_of (form i.op) m.unreachable_depth)) [
        | inl stop ↦ absurd (never depth (rw (stop, walk) at e))
        | inr (inner, go) ↦
            let behind = append_assoc i.immediates (encode is) rest in
            let step =
              body_step-moved f i.op i.immediates (encode is ++ rest) m inner
                (HasForm-skip_of i.op i.immediates byte h)
                (here ∙ ap (λ bytes. i.op ∷ bytes) behind)
                (sym (nesting_of-skip_of i.op i.immediates m.unreachable_depth byte h) ∙ go) dead in
            let n = moved m (suc (length i.immediates)) inner in
            let there =
              drop-append m.reader.current n.reader.current m.reader.input (i.op ∷ i.immediates)
                (encode is ++ rest) (here ∙ ap (λ bytes. i.op ∷ bytes) behind) refl in
            ap (λ k. body_loop f end k m) (omega arith)
            ∙ body_loop-turn f end (length is + fuel) m n
                (omega (arith, length-append i.immediates (encode is))) dead step
            ∙ body_loop-dead f end fuel is rest n depth hs there
                (omega (arith, length-append i.immediates (encode is))) (rw (go, walk) at e) dead
            ∙ ap (λ k. looped f end fuel m k depth)
                (omega (arith, length-append i.immediates (encode is)))
      ]
