-- ===== src/Lib.antt =====
-- wembed compiles WebAssembly modules to native code through LLVM, and embeds them in a C++ program.
-- The class `module` parses a binary module and emits LLVM code while it reads (inc/wembed/module.hpp,
-- src/module.cpp); the class `context` links the result with the program and owns its memory and table
-- (inc/wembed/context.hpp, src/context.cpp); the compiled code calls back into src/intrinsics.cpp, and
-- src/posix.cpp reserves the memory.
--
-- The files:
--   Base      numbers, lists, the exceptions of the program and the monad of code that changes a state
--             or throws.
--   Reader    the byte reader of `module`: `parse`, `parse_uleb128`, `parse_sleb128`, `parse_str`. The
--             state is the input and the place in it. A read at the end or behind is `overrun`.
--   Lang      inc/wembed/lang.hpp: limits, table and memory types, opcodes, and the LLVM types.
--   Llvm      LLVM as a parameter: a record of its calls, the laws of its types (`TypeLaws`), of its
--             integer instructions (`BitLaws`) and of its blocks (`FlowLaws`), as the LLVM language
--             reference and the C API state them.
--   Utils     the type hashes and the masks of floating point numbers, inc/wembed/utils.hpp and
--             src/utils.cpp.
--   Module    the compiler. Module.antt has the fields of `class module` that compiling changes.
--             Stack has the operand and control stacks, Emit and Float the `emit_…`, `trap_…` and NaN
--             helpers, Control, Branches, Calls, Access and Numeric one operation for each instruction
--             of the switch in `parse_section_code`, Tables and Operators its labels, Dispatch the
--             switch, Skip the switch over dead code (Skip/Format has the WebAssembly binary format that it
--             is held against), and Code the loops over functions and bodies.
--             Sections has the parsers of the other sections: those of types, functions, tables,
--             memories and custom sections in Sections.antt, the rest in Sections/Imports, Init (the
--             globals and `parse_llvm_init`), Exports (with the start section) and Segments (elements
--             and data). Load is `parse_sections` and the constructor. Sound has one lemma for every
--             operation, on what a run of it may change, and the rules that put these together.
--   Runtime   Memory is `virtual_mapping`, `memory`, `memory_grow` and `memory_size`; Table is `table`
--             and `table_size`; Link is how the constructor of `context` binds imports and the
--             memory, Link/Tables how it binds the table, and Remap how it replaces function indices
--             in a table by addresses. Context is what a program gives to a context and gets from it
--             (`expose_…`, `get_export`, `get_fn`, `get_global`), and Context/Construct puts the
--             parts of the constructor together.
--   Examples  the theorems at concrete inputs, on a small instance of LLVM that computes.
--
-- The vectors `mEvalStack`, `mCFEntries` and `mBlockEntries` have their back at the head of a list. A
-- null pointer that the source tests is `none`. Machine integers are numbers with their wrap-around
-- written out. C++ leaves some runs undefined; these are exceptions of their own in Base.Results, so
-- that a theorem which gives a result excludes them, but for one: bits that `parse_sleb128` shifts out
-- of a signed type are cut off, as GCC and Clang do it. The loops over a body, over the parts of a name
-- section and over the sections have one more turn of fuel than the input has bytes; each turn reads
-- at least a byte, and Module/Sound/Body and Module/Load prove that the fuel is enough.
--
-- Not modelled: the names of values that the constructor of `module` reads back from LLVM (linking has
-- them as a parameter), the set-up of LLVM's target and JIT in the constructor of `context`, the LLVM
-- passes of `module::optimize`, printing and profiling, cli/driver.cpp, demo.cpp and the tests. LLVM,
-- the kernel, Boost and the signal library are parameters or outside.
pub mod Base
pub mod Reader
pub mod Lang
pub mod Llvm
pub mod Utils
pub mod Module
pub mod Runtime
pub mod Examples
