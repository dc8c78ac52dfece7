-- ===== src/Examples/Compiling.antt =====
-- The stacks and the dead code of src/module.cpp on concrete states.
use wembed.Base.{
  ◌+◌, ◌≡◌, ◌≢◌, refl, arith, inl, true, false, [], ◌∷◌, none, some, length, ok, ◌>>◌,
}
use wembed.Lang.Types.{i32, void}
use wembed.Module.{Module, CfEntry, cf_block}
use wembed.Module.Keeps.{Post}
use wembed.Module.Stack.{push, pop, push_block_entry, branch_depth}
use wembed.Module.Stack.Floor.{Nested, pop-push, branch_depth-push_block_entry}
use wembed.Module.Sections.{parse_custom_section, name_bytes, parse_section_memory}
use wembed.Module.Sections.Memories.{IsDeclared, parse_section_memory-IsDeclared}
use wembed.Module.Sections.Custom.{parse_custom_section-name}
use wembed.Module.Control.{Frame, end_op}
use wembed.Module.Control.End.{Leaves, end_op-Leaves}
use wembed.Module.Code.{body_loop}
use wembed.Module.Skip.Format.{form}
use wembed.Reader.Signed.{pos}
use wembed.Module.Skip.Dead.{moved, body_loop-dead}
use wembed.Examples.Machine.{word, machine, blank}

abbrev inner : CfEntry machine
inner = record {
  instr = cf_block;
  signature = void;
  end_block = 1;
  phi = none;
  else_block = none;
  outer_stack_size = 1;
  outer_block_depth = 0;
  reachable = true;
  else_reachable = true;
}

-- One operand outside of the block and one inside.
abbrev pub within : Module machine
within = record blank {
  eval_stack = word i32 7 ∷ word i32 8 ∷ [];
  cf_entries = inner ∷ [];
  block_entries = record { signature = void; block = 1; phi = none } ∷ [];
}

within-Nested : Nested ⦃L = machine⦄ within
within-Nested = (omega arith, omega arith, tt)

pop-push_example :
    (push ⦃L = machine⦄ (word i32 9) >> pop ⦃L = machine⦄) within ≡ ok (word i32 9, within)
pop-push_example = pop-push ⦃L = machine⦄ (word i32 9) within within-Nested

branch_depth-push_block_entry_example :
    (n : Module machine) × (branch_depth ⦃L = machine⦄ 0 within
      ≡ ok (record { signature = void; block = 1; phi = none }, within))
    × (push_block_entry ⦃L = machine⦄ i32 2 (some (word i32 0)) within ≡ ok (tt, n))
    × (branch_depth ⦃L = machine⦄ 0 n
        ≡ ok (record { signature = i32; block = 2; phi = some (word i32 0) }, n))
    × (branch_depth ⦃L = machine⦄ 1 n ≡ ok (record { signature = void; block = 1; phi = none }, n))
branch_depth-push_block_entry_example =
    branch_depth-push_block_entry ⦃L = machine⦄ i32 2 (some (word i32 0)) 0 within
      (record { signature = void; block = 1; phi = none }) refl

-- `i32.const 5`, a block that jumps to its end, and the end of the dead code.
abbrev dead : Module machine
dead = record within {
  reader = record { input = 0x41 ∷ 5 ∷ 0x2 ∷ 0x40 ∷ 0xc ∷ 0 ∷ 0xb ∷ 0xb ∷ []; current = 0 };
  cf_entries = record inner { reachable = false } ∷ [];
}

abbrev pub frame : Frame machine
frame = record { func = word i32 0; return_type = void; locals = [] }

body_loop-dead_example :
    body_loop ⦃L = machine⦄ frame 8 (4 + 9) dead
    ≡ body_loop ⦃L = machine⦄ frame 8 9 (moved ⦃L = machine⦄ dead 7 0)
unfolding form
body_loop-dead_example =
    body_loop-dead ⦃L = machine⦄ frame 8 9
      (record { op = 0x41; immediates = 5 ∷ [] }
        ∷ record { op = 0x2; immediates = 0x40 ∷ [] }
        ∷ record { op = 0xc; immediates = 0 ∷ [] }
        ∷ record { op = 0xb; immediates = [] }
        ∷ [])
      (0xb ∷ []) dead 0
      (
        (omega arith, (0, pos 5, refl, omega arith, omega arith)),
        (
          (omega arith, (0x40, refl, inl refl)),
          (
            (omega arith, (0, (0, 0, omega arith, omega arith, refl, refl))),
            ((omega arith, refl), tt),
          ),
        ),
      )
      refl (omega arith) refl refl

-- The block with no operand of its own left.
abbrev finished : Module machine
finished = record within { eval_stack = word i32 8 ∷ [] }

end_op-Leaves_example : Leaves ⦃L = machine⦄ (word i32 8 ∷ []) [] [] (end_op ⦃L = machine⦄ finished)
end_op-Leaves_example =
    end_op-Leaves ⦃L = machine⦄ finished inner [] refl refl refl refl (omega arith, omega arith, tt)

-- The name of the module, in a part of its own of 4 bytes, and the section behind it.
abbrev section : Module machine
section = record blank { reader = record { input = 0 ∷ 2 ∷ 1 ∷ 97 ∷ 10 ∷ []; current = 0 } }

not_one : length (blank.eval_stack) ≢ 1
not_one e = omega arith

parse_custom_section-name_example :
    parse_custom_section ⦃L = machine⦄ name_bytes 4 section
    ≡ ok (tt, record section { reader = record section.reader { current = 8 } })
parse_custom_section-name_example =
    parse_custom_section-name ⦃L = machine⦄
      (record { kind = 0; extra = 0; payload = 1 ∷ 97 ∷ [] } ∷ []) (10 ∷ []) section
      ((not_one, omega arith, omega arith, omega arith), tt) refl (omega arith)

-- A memory section with one memory of two pages.
abbrev memory_section : Module machine
memory_section = record blank { reader = record { input = 1 ∷ 1 ∷ 2 ∷ 3 ∷ []; current = 0 } }

parse_section_memory-IsDeclared_example :
    Post
      (λ before n. IsDeclared n.memory_types)
      memory_section
      (parse_section_memory ⦃L = machine⦄ 0 memory_section)
parse_section_memory-IsDeclared_example =
    parse_section_memory-IsDeclared ⦃L = machine⦄ 0 memory_section tt
