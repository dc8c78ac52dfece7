-- ===== src/Module/Load.antt =====
-- The loop over the sections, `module::parse_sections`, and the constructor of `module`, both in
-- src/module.cpp. `base` is the address of the module's bytes, and `unset` what a maximum that is
-- never written holds. The names of functions and symbols that the constructor reads back from LLVM
-- are not kept: linking takes them as a parameter.
pub mod Names
pub mod Custom
pub mod Ends
use wembed.Base.{
  ℕ, zero, suc, ◌+◌, ◌-◌, ◌*◌, ◌%◌, ◌^◌, Bool, true, false, not, List, [], ◌∷◌, Option, none, some,
  String, ltb, ◌==◌, if◌then◌else◌, length, Result, ok, throw, invalid, malformed, out_of_fuel,
  ◌>>=◌, ◌>>◌, return, fail, throw_if,
}
use wembed.Reader.{Reader, parse, parse_uleb128, parse_str}
use wembed.Lang.Types.{Ty, void, i8}
use wembed.Llvm.{Llvm}
use wembed.Llvm.Instructions.{br, ret_void, position_at_end}
use wembed.Module.{Module, M, ExternSym, reading, emit}
use wembed.Module.Code.{current, parse_section_code}
use wembed.Module.Sections.{
  parse_types, parse_functions, parse_section_table, parse_section_memory, parse_custom_section,
}
use wembed.Module.Sections.Imports.{parse_imports}
use wembed.Module.Sections.Init.{parse_globals, void_function}
use wembed.Module.Sections.Exports.{parse_exports, parse_section_start}
use wembed.Module.Sections.Segments.{parse_section_element, parse_section_data}

-- `lPayloadSize - lNameSizeBytes - lName.size()` in 64 bits.
abbrev pub internal_size : ℕ → ℕ → ℕ → ℕ
internal_size payload size_bytes name_size =
    (payload + 2 * 2 ^ 64 - size_bytes - name_size) % 2 ^ 64

module _ ⦃L : Llvm⦄ where
  unfoldable pub custom_section : ℕ → M (Unit {0})
  custom_section payload = do
    before ← current
    name_size ← reading (parse_uleb128 32)
    after ← current
    name ← reading (parse_str name_size)
    parse_custom_section name (internal_size payload (after - before) name_size)

  -- The switch over the section's number.
  unfoldable pub parse_section : ℕ → ℕ → ℕ → ℕ → M (Unit {0})
  unfolding custom_section
  parse_section base unset payload id =
      if id == 0
      then custom_section payload
      else if id == 1
      then parse_types
      else if id == 2
      then parse_imports unset
      else if id == 3
      then parse_functions
      else if id == 4
      then parse_section_table unset
      else if id == 5
      then parse_section_memory unset
      else if id == 6
      then parse_globals
      else if id == 7
      then parse_exports
      else if id == 8
      then parse_section_start
      else if id == 9
      then parse_section_element
      else if id == 10
      then parse_section_code
      else if id == 11
      then parse_section_data base
      else fail (malformed "unknown section ID")

  abbrev pub next_section : ℕ → ℕ → M (Unit {0})
  next_section base unset = do
    id ← reading (parse 1)
    payload ← reading (parse_uleb128 32)
    parse_section base unset payload id

  -- `while (mCurrent < mEnd)`
  unfoldable pub sections_loop : ℕ → ℕ → ℕ → M (Unit {0})
  unfolding parse_section
  sections_loop base unset zero m =
      if ltb m.reader.current (length m.reader.input) then throw out_of_fuel else ok (tt, m)
  sections_loop base unset (suc fuel) m =
      if ltb m.reader.current (length m.reader.input)
      then (next_section base unset >>= λ done. sections_loop base unset fuel) m
      else ok (tt, m)

  -- Each section takes at least the byte of its number.
  unfoldable pub parse_sections : ℕ → ℕ → M (Unit {0})
  unfolding sections_loop
  parse_sections base unset m = sections_loop base unset (suc (length m.reader.input)) m

  abbrev no_symbol : ExternSym
  no_symbol = record { module_name = []; field_name = [] }

  -- The object behind its magic code: the two globals, and the start function with its two blocks.
  -- The intrinsics that `init_intrinsics` declares are part of the interface to LLVM.
  unfoldable pub new_module : Reader → L.Builder → Module L
  new_module r builder =
      let (base_memory, b) = L.add_global i8 builder in
      let (context_ref, c) = L.add_global i8 b in
      let (start_func, d) = L.add_function void_function c in
      let (start_init, e) = L.append_block start_func d in
      let (start_user, f) = L.append_block start_func e in
      record {
        reader = r;
        builder = L.emit (position_at_end start_init) f;
        import_func_offset = 0;
        unreachable_depth = 0;
        memory_types = [];
        memory_import = no_symbol;
        table_import = no_symbol;
        base_memory = base_memory;
        context_ref = context_ref;
        tables = [];
        start_func = start_func;
        start_init = start_init;
        start_user = start_user;
        eval_stack = [];
        cf_entries = [];
        block_entries = [];
        types = [];
        globals = [];
        functions = [];
        exports = [];
        imports = [];
      }

  abbrev pub verified : Option String → M (Unit {0})
  verified none = return tt
  verified (some message) = fail (invalid "module failed verification: ")

  -- The end of the start function, and LLVM's check of the module.
  unfoldable pub complete : M (Unit {0})
  complete = do
    start_init ← (λ m. ok (m.start_init, m))
    start_user ← (λ m. ok (m.start_user, m))
    emit (position_at_end start_init)
    emit (br start_user)
    emit (position_at_end start_user)
    emit ret_void
    λ m. verified (L.verification_error m.builder) m

  abbrev pub of_version : ℕ → ℕ → ℕ → M (Unit {0})
  of_version base unset version =
      if version == 1 then parse_sections base unset else fail (malformed "unexpected version")

  -- The rest of the constructor.
  unfoldable pub parse_module : ℕ → ℕ → M (Unit {0})
  unfolding parse_sections complete
  parse_module base unset = do version ← reading (parse 4); of_version base unset version; complete

  -- What the magic code lets through.
  abbrev pub checked_magic : ℕ → ℕ → L.Builder → Result (ℕ × Reader) → Result (Unit {0} × Module L)
  checked_magic base unset builder (ok (magic, r)) =
      if magic == 0x6d736100
      then parse_module base unset (new_module r builder)
      else throw (malformed "unexpected magic code")
  checked_magic base unset builder (throw e) = throw e

  -- `module::module(pInput, pLen)`; a null `pInput` is `none`, and `builder` is a new LLVM module.
  unfoldable pub construct : ℕ → ℕ → L.Builder → Option (List ℕ) → Result (Unit {0} × Module L)
  unfolding parse_module new_module
  construct base unset builder none = throw (malformed "invalid input")
  construct base unset builder (some input) =
      if ltb (length input) 4
      then throw (malformed "invalid input")
      else checked_magic base unset builder (parse 4 (record { input = input; current = 0 }))
