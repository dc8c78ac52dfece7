-- ===== src/Module/Sections.antt =====
-- The sections of a module in src/module.cpp that hold types, functions, tables and memories, and the
-- custom sections with the names. `mMaximum` of limits without a maximum is never written, so the
-- parsers of limits take what it holds as `unset`.
pub mod Custom
pub mod Memories
pub mod Imports
pub mod Init
pub mod Exports
pub mod Found
pub mod Hashed
pub mod Segments
pub mod Types
pub mod Misread
use wembed.Base.{
  ℕ, zero, suc, ◌+◌, ◌%◌, ◌^◌, ◌≡◌, Bool, true, false, not, ◌&&◌, ◌||◌, List, [], ◌∷◌, ◌++◌, Option,
  none, some, ltb, leb, ◌==◌, if◌then◌else◌, length, get_elem?, Result, ok, throw, invalid,
  out_of_fuel, Stateful, ◌>>=◌, ◌>>◌, return, fail, throw_if,
}
use wembed.Reader.{Reader, Parser, parse, parse_uleb128, parse_str}
use wembed.Lang.{ResizableLimits, TableType, MemoryType, has_maximum}
use wembed.Lang.Types.{Ty, FnType, void, i8, i64, pointer}
use wembed.Utils.{hash_fn_type}
use wembed.Llvm.{Llvm}
use wembed.Llvm.Instructions.{set_value_name}
use wembed.Module.{Module, M, Table, FuncDef, reading, emit}
use wembed.Module.Control.{parse_llvm_vtype}

-- The maximum, where the flags say that there is one.
abbrev pub limits_maximum : ℕ → ℕ → ℕ → Parser ResizableLimits
limits_maximum unset flags initial =
    if has_maximum (record { flags = flags; initial = initial; maximum = unset })
    then (do
      maximum ← parse_uleb128 32
      throw_if (ltb maximum initial) (invalid "maximum shouldn't be smaller than initial")
      return (record { flags = flags; initial = initial; maximum = maximum }))
    else return (record { flags = flags; initial = initial; maximum = unset })

unfoldable pub parse_resizable_limits : ℕ → Parser ResizableLimits
parse_resizable_limits unset = do
  flags ← parse 1
  initial ← parse_uleb128 32
  limits_maximum unset flags initial

unfoldable pub parse_table_type : ℕ → Parser TableType
unfolding parse_resizable_limits
parse_table_type unset = do
  elem_type ← parse 1
  limits ← parse_resizable_limits unset
  return (record { elem_type = elem_type; limits = limits })

unfoldable pub parse_vtypes : ℕ → Parser (List Ty)
parse_vtypes zero = return []
parse_vtypes (suc count) = do
  type ← parse_llvm_vtype
  types ← parse_vtypes count
  return (type ∷ types)

unfoldable pub parse_type : Parser FnType
unfolding parse_vtypes
parse_type = do
  parse 1
  param_count ← parse_uleb128 32
  params ← parse_vtypes param_count
  return_count ← parse_uleb128 32
  throw_if (ltb 1 return_count) (invalid "only one return type supported")
  ret ← (if return_count == 0 then return void else parse_llvm_vtype)
  return (record { ret = ret; params = params })

unfoldable pub parse_type_list : ℕ → Parser (List FnType)
unfolding parse_type
parse_type_list zero = return []
parse_type_list (suc count) = do
  type ← parse_type
  types ← parse_type_list count
  return (type ∷ types)

-- `mCurrent += size` for a `size_t`, which may stand for a negative number, and for a `uint32_t`.
abbrev pub advance_wrapping : ℕ → Parser (Unit {0})
advance_wrapping size r = ok (tt, record r { current = (r.current + size) % 2 ^ 64 })

abbrev pub advance_by : ℕ → Parser (Unit {0})
advance_by size r = ok (tt, record r { current = r.current + size })

abbrev pub too_big : ResizableLimits → Bool
too_big l = ltb 65536 l.initial || (not (l.flags == 0) && ltb 65536 l.maximum)

-- "wasm.names.func."
abbrev pub name_prefix : List ℕ
name_prefix =
    119 ∷ 97 ∷ 115 ∷ 109 ∷ 46 ∷ 110 ∷ 97 ∷ 109 ∷ 101 ∷ 115 ∷ 46 ∷ 102 ∷ 117 ∷ 110 ∷ 99 ∷ 46 ∷ []

-- "name"
abbrev pub name_bytes : List ℕ
name_bytes = 110 ∷ 97 ∷ 109 ∷ 101 ∷ []

abbrev pub same_bytes : List ℕ → List ℕ → Bool
same_bytes [] [] = true
same_bytes (a ∷ xs) (b ∷ ys) = (a == b) && same_bytes xs ys
same_bytes _ _ = false

module _ ⦃L : Llvm⦄ where
  unfoldable pub parse_types : M (Unit {0})
  unfolding parse_type_list
  parse_types = do
    count ← reading (parse_uleb128 32)
    types ← reading (parse_type_list count)
    λ m. ok (tt, record m { types = types })

  abbrev pub add_function : FnType → M (FuncDef L)
  add_function type m =
      let (f, b) = L.add_function type m.builder in
      let def : FuncDef L = record { value = f; type_hash = hash_fn_type type } in
      ok (def, record m { builder = b; functions = m.functions ++ (def ∷ []) })

  abbrev pub new_global : Ty → M L.Value
  new_global type m = let (g, b) = L.add_global type m.builder in ok (g, record m { builder = b })

  abbrev pub keep_global : L.Value → M (Unit {0})
  keep_global global m = ok (tt, record m { globals = m.globals ++ (global ∷ []) })

  abbrev pub function_type_at : Option FnType → M FnType
  function_type_at none = fail (invalid "type index out of range")
  function_type_at (some type) = return type

  unfoldable pub parse_function_list : ℕ → M (Unit {0})
  parse_function_list zero = return tt
  parse_function_list (suc count) = do
    index ← reading (parse_uleb128 32)
    type ← λ m. function_type_at (get_elem? m.types index) m
    add_function type
    parse_function_list count

  unfoldable pub parse_functions : M (Unit {0})
  unfolding parse_function_list
  parse_functions m =
      (do count ← reading (parse_uleb128 32); parse_function_list count)
        (record m { import_func_offset = length m.functions })

  abbrev pub no_tables : List (Table L) → Bool
  no_tables [] = true
  no_tables (t ∷ ts) = false

  abbrev pub add_table : TableType → M (Table L)
  add_table type m =
      let (p, b) = L.add_global (pointer i8) m.builder in
      let (t, c) = L.add_global i64 b in
      let table : Table L = record { type = type; pointers = p; types = t } in
      ok (table, record m { builder = c; tables = m.tables ++ (table ∷ []) })

  unfoldable pub parse_table_list : ℕ → ℕ → M (Unit {0})
  unfolding parse_table_type
  parse_table_list unset zero = return tt
  parse_table_list unset (suc count) = do
    λ m. throw_if (not (no_tables m.tables)) (invalid "multiple tables not supported") m
    type ← reading (parse_table_type unset)
    add_table type
    parse_table_list unset count

  unfoldable pub parse_section_table : ℕ → M (Unit {0})
  unfolding parse_table_list
  parse_section_table unset = do count ← reading (parse_uleb128 32); parse_table_list unset count

  abbrev pub no_memories : List MemoryType → Bool
  no_memories [] = true
  no_memories (t ∷ ts) = false

  abbrev pub add_memory : ResizableLimits → M (Unit {0})
  add_memory limits m =
      ok (tt, record m { memory_types = m.memory_types ++ (record { limits = limits } ∷ []) })

  unfoldable pub parse_memory_list : ℕ → ℕ → M (Unit {0})
  unfolding parse_resizable_limits
  parse_memory_list unset zero = return tt
  parse_memory_list unset (suc count) = do
    limits ← reading (parse_resizable_limits unset)
    throw_if (too_big limits) (invalid "memory size too big, max 65536 pages")
    add_memory limits
    parse_memory_list unset count

  unfoldable pub parse_section_memory : ℕ → M (Unit {0})
  unfolding parse_memory_list
  parse_section_memory unset = do
    count ← reading (parse_uleb128 32)
    throw_if (ltb 1 count) (invalid "only one memory region supported")
    λ m. throw_if (not (no_memories m.memory_types) && ltb 0 count) (invalid "multiple memories") m
    parse_memory_list unset count

  abbrev pub named_function : Option (FuncDef L) → M L.Value
  named_function none = fail (invalid "function index out of bounds")
  named_function (some f) = return f.value

  unfoldable pub parse_function_names : ℕ → M (Unit {0})
  parse_function_names zero = return tt
  parse_function_names (suc count) = do
    index ← reading (parse_uleb128 32)
    size ← reading (parse_uleb128 32)
    name ← reading (parse_str size)
    function ← λ m. named_function (get_elem? m.functions index) m
    emit (set_value_name function (name_prefix ++ name))
    parse_function_names count

  abbrev pub name_subsection : ℕ → ℕ → M (Unit {0})
  name_subsection kind size =
      if kind == 1
      then (do count ← reading (parse_uleb128 32); parse_function_names count)
      else reading (advance_by size)

  -- `while (mCurrent < lEnd)` in `parse_names`.
  unfoldable pub names_loop : ℕ → ℕ → M (Unit {0})
  unfolding parse_function_names
  names_loop end zero m = if ltb m.reader.current end then throw out_of_fuel else ok (tt, m)
  names_loop end (suc fuel) m =
      if ltb m.reader.current end
      then (do
        kind ← reading (parse 1)
        size ← reading (parse_uleb128 32)
        name_subsection kind size
        names_loop end fuel)
          m
      else ok (tt, m)

  unfoldable pub parse_names : ℕ → M (Unit {0})
  unfolding names_loop
  parse_names size m =
      names_loop ((m.reader.current + size) % 2 ^ 64) (suc (length m.reader.input)) m

  -- The branch for "dylink" is the one for every other name.
  unfoldable pub parse_custom_section : List ℕ → ℕ → M (Unit {0})
  unfolding parse_names
  parse_custom_section name size =
      if same_bytes name name_bytes
      then (do parse_names size; reading (advance_wrapping size))
      else reading (advance_wrapping size)
