-- ===== src/Module/Sound/Skip.antt =====
-- The switch over dead code, and an instruction whether dead or not.
use wembed.Base.{ℕ, zero, suc, ◌+◌, refl, arith, Bool, true, false, Result, ok, throw, ◌>>◌, return}
use wembed.Base.Runs.{Outcome}
use wembed.Reader.Forward.{Advances, return-Advances, parse-Advances, parse_uleb128-Advances}
use wembed.Reader.Forward
use wembed.Llvm.{Llvm}
use wembed.Module.{Module, M, reading}
use wembed.Module.Control.{Frame, parse_llvm_btype}
use wembed.Module.Dispatch.{run_instruction}
use wembed.Module.Skip.{
  Skip, nested, at_else, at_end, skip_byte, skip_index, skip_index64, skip_float, skip_double,
  skip_call, skip_access, skip_access64, skip_table, skip_of, skip_dead, skip_immediates, advance,
  closing, pred,
}
use wembed.Module.Code.{compile_if, dispatch}
use wembed.Module.Sound.{Sound, Steps, Steps_refl, Steps_trans, Steps-forget}
use wembed.Module.Sound.Rules.{then_, return-Sound, reading-Sound}
use wembed.Module.Sound.Control.{parse_llvm_btype-Advances, parse_targets-Advances}
use wembed.Module.Sound.Dispatch.{run_instruction-Sound}

advance-Advances : Advances advance
advance-Advances = record { at = λ r. record { same_input = refl; onward = omega arith } }

skip_immediates-Advances : (s : Skip) → Advances (skip_immediates s)
unfolding skip_immediates
skip_immediates-Advances skip_byte = advance-Advances
skip_immediates-Advances skip_index =
    Forward.then_ (parse_uleb128-Advances 32) λ n. return-Advances tt
skip_immediates-Advances skip_index64 =
    Forward.then_ (parse_uleb128-Advances 64) λ n. return-Advances tt
skip_immediates-Advances skip_float = Forward.then_ (parse-Advances 4) λ n. return-Advances tt
skip_immediates-Advances skip_double = Forward.then_ (parse-Advances 8) λ n. return-Advances tt
skip_immediates-Advances skip_call = Forward.then_ (parse_uleb128-Advances 32) λ n. advance-Advances
skip_immediates-Advances skip_access =
    Forward.then_ (parse_uleb128-Advances 32)
      λ n. Forward.then_ (parse_uleb128-Advances 32) λ m. return-Advances tt
skip_immediates-Advances skip_access64 =
    Forward.then_ (parse_uleb128-Advances 32)
      λ n. Forward.then_ (parse_uleb128-Advances 64) λ m. return-Advances tt
skip_immediates-Advances skip_table = Forward.then_ (parse_uleb128-Advances 32) λ n.
    Forward.then_ (parse_targets-Advances n)
      λ ts. Forward.then_ (parse_uleb128-Advances 32) λ d. return-Advances tt
skip_immediates-Advances s = return-Advances tt

module _ ⦃L : Llvm⦄ where
  abbrev pub Bounded : {A : Type 0} → M A → Type 0
  Bounded c = Sound false false c

  counted : (d : ℕ) (m : Module L) → Steps false false m (record m { unreachable_depth = d })
  counted d m = record { same_input = refl; onward = omega arith; same_control = tt; ordered = tt }

  closing-Outcome : (d after : ℕ) (m : Module L) → Outcome (Steps false false) m (closing d after m)
  closing-Outcome zero after m = Steps_refl m
  closing-Outcome (suc d) after m = counted after m

  abbrev opening : M Bool
  opening = do reading parse_llvm_btype; return false

  opening-Sound : Bounded opening
  opening-Sound = then_ (reading-Sound parse_llvm_btype-Advances) λ t. return-Sound false

  deeper :
      (m n : Module L) (r : Result (Bool × Module L))
      → Steps false false m n
      → Outcome (Steps false false) n r
      → Outcome (Steps false false) m r
  deeper m n (ok (b, o)) h k = Steps_trans m n o h k
  deeper m n (throw e) h k = k

  abbrev one_deeper : Module L → Module L
  one_deeper m = record m { unreachable_depth = m.unreachable_depth + 1 }

  skip_dead-Sound : (s : Skip) → Bounded (skip_dead s)
  unfolding skip_dead
  skip_dead-Sound nested = record {
    at = λ m.
        deeper m (one_deeper m) (opening (one_deeper m)) (counted (m.unreachable_depth + 1) m)
          (opening-Sound.at (one_deeper m));
  }
  skip_dead-Sound at_else = record {
    at = λ m. closing-Outcome m.unreachable_depth m.unreachable_depth m;
  }
  skip_dead-Sound at_end = record {
    at = λ m. closing-Outcome m.unreachable_depth (pred m.unreachable_depth) m;
  }
  skip_dead-Sound s = then_ (reading-Sound (skip_immediates-Advances s)) λ x. return-Sound false

  run_instruction-Bounded : (f : Frame L) (op : ℕ) → Bounded (run_instruction f op)
  run_instruction-Bounded f op = Steps-forget (run_instruction-Sound f op)

  compile_if-Sound : (f : Frame L) (op : ℕ) (b : Bool) → Bounded (compile_if f op b)
  compile_if-Sound f op true = run_instruction-Bounded f op
  compile_if-Sound f op false = return-Sound tt

  pub dispatch-Sound : (f : Frame L) (op : ℕ) (b : Bool) → Bounded (dispatch f op b)
  dispatch-Sound f op true = run_instruction-Bounded f op
  dispatch-Sound f op false = then_ (skip_dead-Sound (skip_of op)) λ b. compile_if-Sound f op b
