-- ===== src/Module/Sound/Body.antt =====
-- The loop over the instructions of a function and the loop over the functions: they end.
use wembed.Base.{
  ℕ, zero, suc, ◌+◌, ◌<◌, ap, arith, false, not, ◌&&◌, List, [], ◌∷◌, Option, none, some, ltb,
  Bool-cases, Option-cases, inl, inr, length, get_elem?, Result, ok, throw, ◌>>=◌,
}
use wembed.Base.Runs.{IsRaised, Outcome, Runs-if}
use wembed.Reader.{next_byte, parse_uleb128}
use wembed.Reader.Forward.{parse_uleb128-Advances}
use wembed.Lang.Types.{Ty}
use wembed.Llvm.{Llvm}
use wembed.Module.{Module, M, FuncDef, cf_function, reading}
use wembed.Module.Stack.{back_reachable}
use wembed.Module.Stack.Floor.{get_elem?-lt}
use wembed.Module.Control.{Frame}
use wembed.Module.Code.{
  no_entries, body_step, body_loop, run_body, store_params, add_locals, parse_locals, return_from,
  function_at, parse_function, parse_functions_code, parse_section_code,
}
use wembed.Module.Sound.{Steps, Steps_refl, Steps_trans}
use wembed.Module.Sound.Rules.{
  then_, return-Sound, fail-Sound, assert-Sound, look-Sound, reading-Sound, build-Sound, emit-Sound,
  append_block-Sound, insert_block-Sound, pop_typed-Sound,
}
use wembed.Module.Sound.Control.{
  parse_llvm_vtype-Advances, get_zero-Sound, create_phi-Sound, push_cf_entry-Sound,
  push_block_entry-Sound,
}
use wembed.Module.Sound.Skip.{Bounded, dispatch-Sound}

module _ ⦃L : Llvm⦄ where
  -- One turn: it starts inside the buffer and ends further on.
  record Turn (m n : Module L) : Type 0 where
    bounded : Steps false false m n
    inside : m.reader.current < length m.reader.input
    further : m.reader.current < n.reader.current

  abbrev Turns : Module L → Result (Unit {0} × Module L) → Type 0
  Turns m (ok (a, n)) = Turn m n
  Turns m (throw e) = IsRaised e

  turned :
      (m : Module L) (r : Result (Unit {0} × Module L))
      → m.reader.current < length m.reader.input
      → Outcome
          (Steps false false)
          (record m { reader = record { input = m.reader.input; current = m.reader.current + 1 } })
          r
      → Turns m r
  turned m (ok (a, n)) h k = record {
    bounded = record {
      same_input = k.same_input;
      onward = omega (arith, k.onward);
      same_control = tt;
      ordered = tt;
    };
    inside = h;
    further = omega (arith, k.onward);
  }
  turned m (throw e) h k = k

  body_step-Turns : (f : Frame L) (m : Module L) → Turns m (body_step f m)
  unfolding body_step next_byte ◌>>=◌
  body_step-Turns f m = elim (Option-cases (get_elem? m.reader.input m.reader.current)) [
    | inl e ↦ rw (e, ◌>>=◌) tt
    | inr (b, e) ↦
        rw (e, ◌>>=◌)
          (turned m _ (get_elem?-lt m.reader.current m.reader.input b e) (
            (dispatch-Sound f b (back_reachable m.cf_entries)).at (record m {
              reader = record { input = m.reader.input; current = m.reader.current + 1 };
            })))
  ]

  deepen :
      (m n : Module L) (r : Result (Unit {0} × Module L))
      → Steps false false m n
      → Outcome (Steps false false) n r
      → Outcome (Steps false false) m r
  deepen m n (ok (b, o)) h k = Steps_trans m n o h k
  deepen m n (throw e) h k = k

  turn_then :
      (m : Module L) (r : Result (Unit {0} × Module L)) (g : M (Unit {0}))
      → Turns m r
      → ((n : Module L) → Turn m n → Outcome (Steps false false) n (g n))
      → Outcome (Steps false false) m (elim r [ ok (a, n) ↦ g n | throw e ↦ throw e ])
  turn_then m (ok (a, n)) g t h = deepen m n (g n) t.bounded (h n t)
  turn_then m (throw e) g t h = t

  -- The loop over a body, with more fuel than bytes are left: it does not run out of the fuel, and
  -- where it returns the bytes are the same and the reader has not gone back.
  pub body_loop-Sound :
      (f : Frame L) (end fuel : ℕ) (m : Module L)
      → 0 < fuel
      → length m.reader.input < fuel + m.reader.current
      → Outcome (Steps false false) m (body_loop f end fuel m)
  unfolding body_loop ◌>>=◌
  body_loop-Sound f end zero m h k = absurd (omega arith)
  body_loop-Sound f end (suc fuel) m h k =
      elim (Bool-cases (ltb m.reader.current end && not (no_entries m.cf_entries))) [
        | inl e ↦ rw e (
            turn_then m (body_step f m) (body_loop f end fuel) (body_step-Turns f m) λ n t.
              body_loop-Sound f end fuel n (omega (arith, t.inside, t.further))
                (omega (arith, t.inside, t.further, ap length t.bounded.same_input)))
        | inr e ↦ rw e (Steps_refl m)
      ]

  run_body-Sound : (f : Frame L) (end : ℕ) → Bounded (run_body f end)
  unfolding run_body
  run_body-Sound f end = record {
    at = λ m. body_loop-Sound f end (suc (length m.reader.input)) m (omega arith) (omega arith);
  }

  store_params-Sound : (ps : List L.Value) (ts : List Ty) → Bounded (store_params ps ts)
  unfolding store_params
  store_params-Sound (p ∷ ps) (t ∷ ts) =
      then_ (build-Sound _)
        λ a. then_ (build-Sound _) λ b. then_ (store_params-Sound ps ts) λ ls. return-Sound _
  store_params-Sound [] [] = return-Sound []
  store_params-Sound (p ∷ ps) [] = return-Sound []
  store_params-Sound [] (t ∷ ts) = fail-Sound _ tt

  add_locals-Sound : (t : Ty) (v : L.Value) (n : ℕ) → Bounded (add_locals t v n)
  unfolding add_locals
  add_locals-Sound t v zero = return-Sound []
  add_locals-Sound t v (suc n) =
      then_ (build-Sound _)
        λ a. then_ (build-Sound _) λ b. then_ (add_locals-Sound t v n) λ ls. return-Sound _

  parse_locals-Sound : (n : ℕ) → Bounded (parse_locals n)
  unfolding parse_locals
  parse_locals-Sound zero = return-Sound []
  parse_locals-Sound (suc n) = then_ (reading-Sound (parse_uleb128-Advances 32)) λ count.
      then_ (reading-Sound parse_llvm_vtype-Advances) λ t. then_ (get_zero-Sound t) λ z.
        then_ (add_locals-Sound t z count) λ ls. then_ (parse_locals-Sound n) λ os. return-Sound _

  return_from-Sound : (t : Ty) → Bounded (return_from t)
  return_from-Sound t = Runs-if _ (emit-Sound _) (then_ (pop_typed-Sound t) λ v. emit-Sound _)

  function_at-Sound : (o : Option (FuncDef L)) → Bounded (function_at o)
  function_at-Sound none = fail-Sound _ tt
  function_at-Sound (some d) = return-Sound d.value

  parse_function-Sound : (func : L.Value) → Bounded (parse_function func)
  unfolding parse_function
  parse_function-Sound func = then_ (append_block-Sound func) λ end.
      then_ (create_phi-Sound _ end) λ p. then_ (push_cf_entry-Sound cf_function _ end p none) λ a.
        then_ (push_block_entry-Sound _ end p) λ b. then_ (append_block-Sound func) λ entry.
          then_ (emit-Sound _) λ c. then_ (store_params-Sound _ _) λ args.
            then_ (reading-Sound (parse_uleb128-Advances 32)) λ size. then_ (look-Sound _) λ before.
              then_ (reading-Sound (parse_uleb128-Advances 32)) λ groups.
                then_ (parse_locals-Sound groups) λ locals. then_ (run_body-Sound _ _) λ d.
                  then_ (look-Sound _) λ after. then_ (assert-Sound _) λ e.
                    then_ insert_block-Sound
                      λ block. then_ (assert-Sound _) λ g. return_from-Sound _

  parse_functions_code-Sound : (index count : ℕ) → Bounded (parse_functions_code index count)
  unfolding parse_functions_code
  parse_functions_code-Sound index zero = return-Sound tt
  parse_functions_code-Sound index (suc count) =
      then_ (record { at = λ m. (function_at-Sound (get_elem? m.functions index)).at m })
        λ func. then_ (parse_function-Sound func) λ a. parse_functions_code-Sound (index + 1) count

  pub parse_section_code-Sound : Bounded parse_section_code
  unfolding parse_section_code
  parse_section_code-Sound = record { at = λ m. (compiled m.import_func_offset).at m }
    where
      compiled :
          (index : ℕ)
          → Bounded (do count ← reading (parse_uleb128 32); parse_functions_code index count)
      compiled index =
          then_ (reading-Sound (parse_uleb128-Advances 32)) λ n. parse_functions_code-Sound index n
