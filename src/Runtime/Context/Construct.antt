-- ===== src/Runtime/Context/Construct.antt =====
-- The constructor of `context` in src/context.cpp, from the imports to the addresses in the tables.
-- `builtins` are the symbols of the intrinsics and of the C library, `maps` and `protects` the
-- kernel's answers, and `fresh` an address for the memory or the table of the context's own.
use wembed.Base.{
  ℕ, Bool, List, [], ◌∷◌, Option, none, some, ◌==◌, if◌then◌else◌, String, Exception, Result, ok,
  throw, vm_runtime, null_pointer, Stateful, ◌>>=◌, ◌>>◌, return,
}
use wembed.Llvm.{Llvm}
use wembed.Lang.{MemoryType}
use wembed.Module.{Module, Table}
use wembed.Runtime.Memory.{Store, MemoryRefs, mem}
use wembed.Runtime.Table.{RuntimeTable, Tables, TableRefs, tab}
use wembed.Runtime.Remap.{remap}
use wembed.Runtime.Link.{Resolvers, Symbols, emplace, link_imports, link_memory}
use wembed.Runtime.Link.Tables.{link_table, stored_table}
use wembed.Runtime.Context.{World, Context, get_pointer}

-- "wembed.baseMemory"
abbrev pub base_memory_name : List ℕ
base_memory_name =
    119 ∷ 101 ∷ 109 ∷ 98 ∷ 101 ∷ 100 ∷ 46 ∷ 98 ∷ 97 ∷ 115 ∷ 101 ∷ 77 ∷ 101 ∷ 109 ∷ 111 ∷ 114 ∷ 121
    ∷ []

-- "wembed.tablePtrs"
abbrev pub table_ptrs_name : List ℕ
table_ptrs_name =
    119 ∷ 101 ∷ 109 ∷ 98 ∷ 101 ∷ 100 ∷ 46 ∷ 116 ∷ 97 ∷ 98 ∷ 108 ∷ 101 ∷ 80 ∷ 116 ∷ 114 ∷ 115 ∷ []

-- "wembed.tableTypes"
abbrev pub table_types_name : List ℕ
table_types_name =
    119 ∷ 101 ∷ 109 ∷ 98 ∷ 101 ∷ 100 ∷ 46 ∷ 116 ∷ 97 ∷ 98 ∷ 108 ∷ 101 ∷ 84 ∷ 121 ∷ 112 ∷ 101 ∷ 115
    ∷ []

-- "wembed.start"
abbrev pub start_name : List ℕ
start_name = 119 ∷ 101 ∷ 109 ∷ 98 ∷ 101 ∷ 100 ∷ 46 ∷ 115 ∷ 116 ∷ 97 ∷ 114 ∷ 116 ∷ []

abbrev pub lift : {A : Type 0} → Result A → Stateful World A
lift (ok a) w = ok (a, w)
lift (throw e) w = throw e

abbrev pub on_store : {A : Type 0} → Stateful Store A → Stateful World A
on_store c w = elim (c w.store) [ ok (a, s) ↦ ok (a, record w { store = s }) | throw e ↦ throw e ]

abbrev pub on_tables : {A : Type 0} → Stateful Tables A → Stateful World A
on_tables c w = elim (c w.tables) [
  | ok (a, s) ↦ ok (a, record w { tables = s })
  | throw e ↦ throw e
]

-- How a call of compiled code ends: it returns, `try_signal` makes a `std::system_error` with a message
-- of a signal, or the code throws an exception of the intrinsics, which passes through.
pub data Call : Type 0 where
  returned : World → Call
  signalled : String → Call
  thrown : Exception → Call

-- The program and the machine around a context.
pub record Host : Type 0 where
  pub resolvers : Resolvers
  pub builtins : Symbols
  pub maps : Bool
  pub protects : ℕ → Bool
  pub engine : List ℕ → Result ℕ
  -- A call through `try_signal`.
  pub run : ℕ → World → Call
  pub data_of : ℕ → ℕ
  pub pointers_of : ℕ → ℕ
  pub types_of : ℕ → ℕ

module _ (h : Host) where
  -- `mSymbols.emplace("wembed.baseMemory", mem()->data())` of a module with a memory.
  abbrev pub memory_symbols : List MemoryType → MemoryRefs → Symbols → Stateful World Symbols
  memory_symbols [] refs symbols = return symbols
  memory_symbols (t ∷ ts) refs symbols = do
    a ← on_store (mem refs)
    return (emplace base_memory_name (h.data_of a) symbols)

  abbrev pub table_symbols {ℓ} :
      {A : Type ℓ} → List A → TableRefs → Symbols → Stateful World Symbols
  table_symbols [] refs symbols = return symbols
  table_symbols (t ∷ ts) refs symbols = do
    a ← on_tables (tab refs)
    return (
        emplace table_types_name (h.types_of a) (emplace table_ptrs_name (h.pointers_of a) symbols))

  abbrev called : Call → Result (Unit {0} × World)
  called (returned w) = ok (tt, w)
  called (signalled message) = throw (vm_runtime message)
  called (thrown e) = throw e

  -- The call of the start function, where it has an address.
  unfoldable pub run_start : ℕ → Stateful World (Unit {0})
  run_start start w = if start == 0 then ok (tt, w) else called (h.run start w)

  module _ ⦃L : Llvm⦄ (name_of : L.Value → List ℕ) where
    abbrev replaced :
        ℕ → RuntimeTable → World → Result (List ℕ × List ℕ) → Result (Unit {0} × World)
    replaced a t w (throw e) = throw e
    replaced a t w (ok (ps, ts)) =
        ok (
          tt,
          record w { tables = stored_table a (record t { pointers = ps; types = ts }) w.tables },
        )

    abbrev replace_at :
        Module L → Symbols → Table L → ℕ → Option RuntimeTable → World → Result (Unit {0} × World)
    replace_at m symbols spec a none w = throw null_pointer
    replace_at m symbols spec a (some t) w = replaced a t w (
        remap m.functions (λ v. get_pointer h.engine symbols (name_of v)) spec.type.limits.initial
          t.pointers t.types)

    -- The loop over the tables: each turn works on `tab()`.
    unfoldable pub replace_indices :
        Module L → Symbols → TableRefs → List (Table L) → Stateful World (Unit {0})
    unfolding remap get_pointer tab
    replace_indices m symbols refs [] = return tt
    replace_indices m symbols refs (spec ∷ specs) = do
      a ← on_tables (tab refs)
      λ w. replace_at m symbols spec a (w.tables a) w
      replace_indices m symbols refs specs

    unfoldable pub new_context : ℕ → ℕ → Module L → Stateful World Context
    unfolding link_imports link_memory link_table run_start replace_indices
    new_context fresh_memory fresh_table m = do
      imported ← lift (link_imports name_of h.resolvers m.imports h.builtins)
      memory_refs ← on_store (link_memory name_of h.resolvers h.maps h.protects fresh_memory m)
      with_memory ← memory_symbols m.memory_types memory_refs imported
      table_refs ← on_tables (link_table h.resolvers fresh_table m)
      symbols ← table_symbols m.tables table_refs with_memory
      start ← lift (get_pointer h.engine symbols start_name)
      run_start start
      replace_indices m symbols table_refs m.tables
      return (record { symbols = symbols; memory_refs = memory_refs; table_refs = table_refs })
