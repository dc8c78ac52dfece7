-- ===== src/Examples/Loading.antt =====
-- The loops over instructions and sections of src/module.cpp on a module and its parts.
use wembed.Base.{
  ℕ, zero, suc, ◌≡◌, refl, arith, false, not, List, [], ◌∷◌, none, some, All, map, ok, throw,
  invalid,
}
use wembed.Base.Runs.{Outcome}
use wembed.Lang.{ek_function}
use wembed.Lang.Types.{void, i32, pointer}
use wembed.Utils.{hash_fn_type}
use wembed.Module.{Module}
use wembed.Module.Dispatch.{action, run_instruction}
use wembed.Module.Code.{body_loop}
use wembed.Module.Sound.{Steps}
use wembed.Module.Sound.Dispatch.{is_control, is_call, selected, run_instruction-Steps}
use wembed.Module.Sound.Body.{body_loop-Sound}
use wembed.Module.Sections.{parse_types, parse_functions}
use wembed.Module.Sections.Types.{
  int32, int64, float64, Signature, function_type, with_types, parse_types-encoding,
}
use wembed.Module.Sections.Init.{parse_llvm_init}
use wembed.Module.Sections.Misread.{parse_llvm_init-misread}
use wembed.Module.Sections.Imports.{parse_imports}
use wembed.Module.Sections.Exports.{parse_exports}
use wembed.Module.Sections.Found.{AllDistinct, AllFound, parse_exports-AllFound}
use wembed.Module.Sections.Hashed.{IsHashed, parse_functions-IsHashed}
use wembed.Module.Load.{construct}
use wembed.Module.Load.Ends.{Loaded, construct-Loaded}
use wembed.Examples.Machine.{Word, word, machine, machine-TypeLaws, blank, no_code}
use wembed.Examples.Compiling.{within, frame}

-- `drop` in a block with one operand of its own.
run_instruction-Steps_example :
    Outcome
      (Steps ⦃L = machine⦄
        (not (selected is_control (action 0x1a)))
        (not (selected is_call (action 0x1a))))
      within
      (run_instruction ⦃L = machine⦄ frame 0x1a within)
run_instruction-Steps_example = run_instruction-Steps ⦃L = machine⦄ frame 0x1a within

-- `i32.const 5`, `drop` and `end`, in a body of four bytes.
abbrev body : Module machine
body = record within { reader = record { input = 0x41 ∷ 5 ∷ 0x1a ∷ 0xb ∷ []; current = 0 } }

body_loop-Sound_example :
    Outcome (Steps ⦃L = machine⦄ false false) body (body_loop ⦃L = machine⦄ frame 4 5 body)
body_loop-Sound_example = body_loop-Sound ⦃L = machine⦄ frame 4 5 body (omega arith) (omega arith)

-- The magic code, the version, and a type section with the type of a function of nothing.
construct-Loaded_example :
    Loaded ⦃L = machine⦄ (0 ∷ 97 ∷ 115 ∷ 109 ∷ 1 ∷ 0 ∷ 0 ∷ 0 ∷ 1 ∷ 4 ∷ 1 ∷ 0x60 ∷ 0 ∷ 0 ∷ []) (
      construct ⦃L = machine⦄ 4096 0 no_code
        (some (0 ∷ 97 ∷ 115 ∷ 109 ∷ 1 ∷ 0 ∷ 0 ∷ 0 ∷ 1 ∷ 4 ∷ 1 ∷ 0x60 ∷ 0 ∷ 0 ∷ [])))
construct-Loaded_example =
    construct-Loaded ⦃L = machine⦄ 4096 0 no_code
      (0 ∷ 97 ∷ 115 ∷ 109 ∷ 1 ∷ 0 ∷ 0 ∷ 0 ∷ 1 ∷ 4 ∷ 1 ∷ 0x60 ∷ 0 ∷ 0 ∷ []) (omega arith)

-- One export, "a", and the export section that adds the same function as "b".
abbrev exporting : Module machine
exporting = record blank {
  reader = record { input = 1 ∷ 1 ∷ 98 ∷ 0 ∷ 0 ∷ []; current = 0 };
  functions =
      record {
        value = word (pointer void) 7;
        type_hash = hash_fn_type ⦃L = machine⦄ (word (pointer void) 7).function;
      }
      ∷ [];
  exports =
      record {
        name = 97 ∷ [];
        symbol = record { kind = ek_function; type_hash = 77; values = word (pointer void) 7 ∷ [] };
      }
      ∷ [];
}

parse_exports-AllFound_example :
    Outcome
      (λ before n. AllDistinct ⦃L = machine⦄ n.exports × AllFound ⦃L = machine⦄ n.exports)
      exporting
      (parse_exports ⦃L = machine⦄ exporting)
parse_exports-AllFound_example = parse_exports-AllFound ⦃L = machine⦄ exporting (tt, tt)

-- One function, and bytes that are both a section with one import of a function of the type 0 and a
-- section with one function of that type: either way there are two functions.
abbrev declaring : Module machine
declaring = record exporting {
  reader = record { input = 1 ∷ 0 ∷ 0 ∷ 0 ∷ 0 ∷ []; current = 0 };
  types = record { ret = i32; params = i32 ∷ [] } ∷ [];
}

parse_functions-IsHashed_example :
    Outcome
      (λ before n. All (IsHashed ⦃L = machine⦄ machine-TypeLaws) n.functions)
      declaring
      (parse_imports ⦃L = machine⦄ 0 declaring)
    × Outcome
        (λ before n. All (IsHashed ⦃L = machine⦄ machine-TypeLaws) n.functions)
        declaring
        (parse_functions ⦃L = machine⦄ declaring)
parse_functions-IsHashed_example =
    parse_functions-IsHashed ⦃L = machine⦄ machine-TypeLaws 0 declaring (refl, tt)

-- Two function types, the first with its number of parameters in two bytes.
abbrev signatures : List Signature
signatures =
    record { padding = 1; params = int32 ∷ float64 ∷ []; result = some int64 }
    ∷ record { padding = 0; params = []; result = none }
    ∷ []

abbrev type_section : Module machine
type_section = record blank {
  reader = record {
    input = 2 ∷ 0x60 ∷ 130 ∷ 0 ∷ 0x7f ∷ 0x7c ∷ 1 ∷ 0x7e ∷ 0x60 ∷ 0 ∷ 0 ∷ 3 ∷ [];
    current = 0;
  };
}

parse_types-encoding_example :
    parse_types ⦃L = machine⦄ type_section
    ≡ ok (tt, with_types ⦃L = machine⦄ type_section (map function_type signatures) 11)
parse_types-encoding_example =
    parse_types-encoding ⦃L = machine⦄ 0 signatures (3 ∷ []) type_section refl
      (omega arith, omega arith, omega arith)
      ((omega arith, omega arith, omega arith), ((omega arith, omega arith, omega arith), tt))

abbrev copies : ℕ → List Word
copies zero = []
copies (suc n) = word (pointer i32) 7 ∷ copies n

-- The global 64 of 65, as an initialiser.
abbrev global_section : Module machine
global_section = record blank {
  reader = record { input = 0x23 ∷ 64 ∷ 0xb ∷ []; current = 0 };
  globals = copies 65;
}

parse_llvm_init-misread_example :
    parse_llvm_init ⦃L = machine⦄ i32 global_section ≡ throw (invalid "global index out of bounds")
parse_llvm_init-misread_example =
    parse_llvm_init-misread ⦃L = machine⦄ i32 64 [] global_section refl (omega arith) (omega arith)
      (omega arith) (omega arith)
