-- ===== src/Runtime/Context.antt =====
-- `class context` of inc/wembed/context.hpp and src/context.cpp: what its constructor does in which
-- order, and what a program gets from it. LLVM's JIT is a parameter: `engine` is
-- `LLVMOrcGetSymbolAddress`, `run` a call of the code at an address, and `data_of`, `pointers_of` and
-- `types_of` are where a memory and a table at an address have their data.
pub mod Exports
pub mod Construct
pub mod Linked
use wembed.Base.{
  ℕ, zero, suc, ◌+◌, ◌≡◌, Bool, true, false, not, List, [], ◌∷◌, Option, none, some, ◌==◌,
  if◌then◌else◌, String, length, Result, ok, throw, runtime, overrun, unlinkable, null_pointer,
  bad_optional, Stateful, ◌>>=◌, ◌>>◌, return, fail, throw_if,
}
use wembed.Lang.{
  ExternalKind, ek_function, ek_table, ek_memory, ek_global, ek_other, TableType, MemoryType,
}
use wembed.Lang.Types.{Ty}
use wembed.Utils.{hash_table, hash_memory, hash_type, hash_fn_ctype}
use wembed.Llvm.{Llvm}
use wembed.Module.{Module, Table, Symbol, FuncDef}
use wembed.Module.Sections.Exports.{find_export}
use wembed.Runtime.Memory.{Store, MemoryRefs, mem}
use wembed.Runtime.Table.{RuntimeTable, Tables, TableRefs, tab}
use wembed.Runtime.Remap.{remap}
use wembed.Runtime.Link.{
  ResolveResult, Resolvers, Symbols, find_symbol, emplace, link_imports, link_memory, kind_number,
}
use wembed.Runtime.Link.Tables.{link_table, stored_table}

-- The memories and tables of the program.
pub record World : Type 0 where
  pub store : Store
  pub tables : Tables

-- `mSymbols`, and the references to the memory and the table.
pub record Context : Type 0 where
  pub symbols : Symbols
  pub memory_refs : MemoryRefs
  pub table_refs : TableRefs

-- `expose_glob` and `expose_cglob`, `expose_func`, `expose_table` and `expose_memory`. The types are
-- those that `hash_ctype` gives for the C++ types.
module _ ⦃L : Llvm⦄ where
  unfoldable pub expose_glob : ℕ → Ty → Bool → ResolveResult
  expose_glob pointer type is_const = record {
    pointer = pointer;
    kind = ek_global;
    type_hash = hash_type type is_const;
  }

  unfoldable pub expose_func : ℕ → Ty → List Ty → ResolveResult
  expose_func pointer ret params = record {
    pointer = pointer;
    kind = ek_function;
    type_hash = hash_fn_ctype ret params;
  }

abbrev pub expose_table : ℕ → ResolveResult
expose_table pointer = record { pointer = pointer; kind = ek_table; type_hash = hash_table }

abbrev pub expose_memory : ℕ → ResolveResult
expose_memory pointer = record { pointer = pointer; kind = ek_memory; type_hash = hash_memory }

module _ (engine : List ℕ → Result ℕ) where
  abbrev pub symbol_or : Option ℕ → List ℕ → Result ℕ
  symbol_or (some pointer) name = ok pointer
  symbol_or none name = engine name

  -- An error of the engine is a `std::runtime_error` with its message.
  unfoldable pub get_pointer : Symbols → List ℕ → Result ℕ
  get_pointer symbols name = symbol_or (find_symbol name symbols) name

  -- The address alone: `orc_sym_resolver` does not look at the engine's error.
  abbrev address_of : Result ℕ → ℕ → ℕ
  address_of (ok a) unset = a
  address_of (throw e) unset = unset

  abbrev resolved_or : Option ℕ → List ℕ → ℕ → ℕ
  resolved_or (some pointer) name unset = pointer
  resolved_or none name unset = address_of (engine name) unset

  unfoldable pub orc_sym_resolver : Symbols → List ℕ → ℕ → ℕ
  orc_sym_resolver symbols name unset = resolved_or (find_symbol name symbols) name unset

  module _ ⦃L : Llvm⦄ (name_of : L.Value → List ℕ) (m : Module L) (c : Context) where
    abbrev pub answered : ExternalKind → ℕ → Result ℕ → Result ResolveResult
    answered kind hash (ok pointer) =
        ok (record { pointer = pointer; kind = kind; type_hash = hash })
    answered kind hash (throw e) = throw e

    abbrev pub first_pointer : List L.Value → Result ℕ
    first_pointer [] = throw overrun
    first_pointer (v ∷ vs) = get_pointer c.symbols (name_of v)

    -- `tab()` and `mem()`
    abbrev table_pointer : TableRefs → Result ℕ
    table_pointer r = elim (tab r (λ a. none)) [ ok (a, s) ↦ ok a | throw e ↦ throw e ]

    abbrev memory_pointer : MemoryRefs → Result ℕ
    memory_pointer r = elim (mem r (λ a. none)) [ ok (a, s) ↦ ok a | throw e ↦ throw e ]

    abbrev pub pointer_of : ExternalKind → List L.Value → Result ℕ
    pointer_of ek_table values = table_pointer c.table_refs
    pointer_of ek_memory values = memory_pointer c.memory_refs
    pointer_of _ values = first_pointer values

    abbrev pub exported : Option (Symbol L) → Result ResolveResult
    exported none = ok (record { pointer = 0; kind = ek_global; type_hash = 0 })
    exported (some s) = answered s.kind s.type_hash (pointer_of s.kind s.values)

    unfoldable pub get_export : List ℕ → Result ResolveResult
    unfolding find_export get_pointer tab mem
    get_export name = exported (find_export name m.exports)

    abbrev pub checked_fn : ResolveResult → Result ℕ
    checked_fn r =
        if r.pointer == 0
        then throw (runtime "function not found: ")
        else if not (kind_number r.kind == 0)
        then throw (runtime " is not a function")
        else ok r.pointer

    abbrev pub checked_global : ResolveResult → Result ℕ
    checked_global r =
        if r.pointer == 0
        then throw (runtime "global not found")
        else if not (kind_number r.kind == 3)
        then throw (runtime "global not found")
        else ok r.pointer

    abbrev pub checked_by : (ResolveResult → Result ℕ) → Result ResolveResult → Result ℕ
    checked_by check (ok r) = check r
    checked_by check (throw e) = throw e

    -- The pointer that the function returned by `get_fn` calls, and the one of `get_global`.
    unfoldable pub get_fn : List ℕ → Result ℕ
    get_fn name = checked_by checked_fn (get_export name)

    unfoldable pub get_global : List ℕ → Result ℕ
    get_global name = checked_by checked_global (get_export name)
