-- ===== src/Module/Sections/Imports.antt =====
-- `module::parse_imports` of src/module.cpp. `mImports` is a map of multimaps, so every import is
-- added.
use wembed.Base.{
  ℕ, zero, suc, not, [], ◌∷◌, ◌++◌, Option, none, some, ◌==◌, length, get_elem?, ok, invalid,
  malformed, ◌>>=◌, ◌>>◌, return, fail, throw_if,
}
use wembed.Reader.{parse, parse_uleb128, parse_str}
use wembed.Lang.{ExternalKind, ek_function, ek_table, ek_memory, ek_global, ek_other, external_kind}
use wembed.Lang.Types.{FnType}
use wembed.Utils.{hash_table, hash_memory, hash_type}
use wembed.Llvm.{Llvm}
use wembed.Llvm.Instructions.{set_external_linkage, set_global_constant}
use wembed.Module.{M, Symbol, ExternSym, reading, emit}
use wembed.Module.Control.{parse_llvm_vtype}
use wembed.Module.Sections.{
  parse_resizable_limits, parse_table_type, too_big, no_tables, no_memories, add_function,
  add_memory, add_table, new_global, keep_global,
}

module _ ⦃L : Llvm⦄ where
  -- `mImports[module].emplace(field, symbol)`
  abbrev pub add_import : ExternSym → Symbol L → M (Unit {0})
  add_import name symbol m =
      ok (tt, record m { imports = m.imports ++ (record { name = name; symbol = symbol } ∷ []) })

  abbrev pub type_at : Option FnType → M FnType
  type_at none = fail (invalid "invalid type index")
  type_at (some type) = return type

  unfoldable pub import_function : ExternSym → M (Unit {0})
  import_function name = do
    index ← reading (parse_uleb128 32)
    type ← λ m. type_at (get_elem? m.types index) m
    function ← add_function type
    emit (set_external_linkage function.value)
    add_import name (record {
      kind = ek_function;
      type_hash = function.type_hash;
      values = function.value ∷ [];
    })

  unfoldable pub import_global : ExternSym → M (Unit {0})
  import_global name = do
    type ← reading parse_llvm_vtype
    mutable ← reading (parse 1)
    global ← new_global type
    emit (set_external_linkage global)
    emit (set_global_constant global (mutable == 0))
    keep_global global
    add_import name (record {
      kind = ek_global;
      type_hash = hash_type type (mutable == 0);
      values = global ∷ [];
    })

  abbrev pub name_table : ExternSym → M (Unit {0})
  name_table name m = ok (tt, record m { table_import = name })

  abbrev pub name_memory : ExternSym → M (Unit {0})
  name_memory name m = ok (tt, record m { memory_import = name })

  unfoldable pub import_table : ℕ → ExternSym → M (Unit {0})
  import_table unset name = do
    name_table name
    λ m. throw_if (not (no_tables m.tables)) (invalid "multiple tables not supported") m
    type ← reading (parse_table_type unset)
    table ← add_table type
    emit (set_external_linkage table.pointers)
    emit (set_external_linkage table.types)
    add_import name (record {
      kind = ek_table;
      type_hash = hash_table;
      values = table.pointers ∷ table.types ∷ [];
    })

  unfoldable pub import_memory : ℕ → ExternSym → M (Unit {0})
  import_memory unset name = do
    λ m. throw_if (not (no_memories m.memory_types)) (invalid "multiple memories") m
    name_memory name
    limits ← reading (parse_resizable_limits unset)
    throw_if (too_big limits) (invalid "memory size too big, max 65536 pages")
    add_memory limits
    base_memory ← λ m. ok (m.base_memory, m)
    add_import name
        (record { kind = ek_memory; type_hash = hash_memory; values = base_memory ∷ [] })

  unfoldable pub import_of_kind : ℕ → ExternSym → ExternalKind → M (Unit {0})
  unfolding import_function import_global import_table import_memory
  import_of_kind unset name ek_function = import_function name
  import_of_kind unset name ek_global = import_global name
  import_of_kind unset name ek_table = import_table unset name
  import_of_kind unset name ek_memory = import_memory unset name
  import_of_kind unset name (ek_other b) = fail (malformed "unexpected import kind")

  unfoldable pub parse_import : ℕ → M (Unit {0})
  unfolding import_of_kind
  parse_import unset = do
    module_size ← reading (parse_uleb128 32)
    module_name ← reading (parse_str module_size)
    field_size ← reading (parse_uleb128 32)
    field_name ← reading (parse_str field_size)
    kind ← reading (parse 1)
    import_of_kind unset (record { module_name = module_name; field_name = field_name })
        (external_kind kind)

  unfoldable pub parse_import_list : ℕ → ℕ → M (Unit {0})
  unfolding parse_import
  parse_import_list unset zero = return tt
  parse_import_list unset (suc count) = do parse_import unset; parse_import_list unset count

  abbrev pub set_import_offset : M (Unit {0})
  set_import_offset m = ok (tt, record m { import_func_offset = length m.functions })

  unfoldable pub parse_imports : ℕ → M (Unit {0})
  unfolding parse_import_list
  parse_imports unset = do
    count ← reading (parse_uleb128 32)
    parse_import_list unset count
    set_import_offset
