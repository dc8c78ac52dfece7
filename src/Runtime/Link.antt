-- ===== src/Runtime/Link.antt =====
-- How the constructor of `context` in src/context.cpp binds the imports of a module. `resolvers` is
-- the program that embeds wembed: it maps a module's name to the function that resolves its fields.
pub mod Provided
pub mod Fits
pub mod Tables
use wembed.Base.{
  ℕ, zero, suc, ◌≡◌, Bool, true, false, not, ◌&&◌, ◌||◌, List, [], ◌∷◌, Option, none, some, ltb,
  ◌==◌, if◌then◌else◌, Result, ok, throw, unlinkable, overrun, Stateful, ◌>>=◌, ◌>>◌, return, fail,
  throw_if,
}
use wembed.Lang.{
  ExternalKind, ek_function, ek_table, ek_memory, ek_global, ek_other, MemoryType, has_maximum,
  memory_initial, memory_maximum,
}
use wembed.Llvm.{Llvm}
use wembed.Module.{Module, Import, Symbol, ExternSym}
use wembed.Runtime.Memory.{
  Memory, Store, MemoryRefs, memory_pages, memory_capacity, load_memory, stored, memory_of_type,
}

-- `resolve_result_t`
pub record ResolveResult : Type 0 where
  pub pointer : ℕ
  pub kind : ExternalKind
  pub type_hash : ℕ

-- `resolver_t` and `resolvers_t`.
abbrev pub Resolver : Type 0
Resolver = List ℕ → ResolveResult

abbrev pub Resolvers : Type 0
Resolvers = List ℕ → Option Resolver

-- The number that stands for a kind, by which C++ compares.
abbrev pub kind_number : ExternalKind → ℕ
kind_number ek_function = 0
kind_number ek_table = 1
kind_number ek_memory = 2
kind_number ek_global = 3
kind_number (ek_other b) = b

abbrev pub same_name : List ℕ → List ℕ → Bool
same_name [] [] = true
same_name (a ∷ xs) (b ∷ ys) = (a == b) && same_name xs ys
same_name _ _ = false

abbrev pub Symbols : Type 0
Symbols = List (List ℕ × ℕ)

unfoldable pub find_symbol : List ℕ → Symbols → Option ℕ
find_symbol name [] = none
find_symbol name ((n, p) ∷ rest) = if same_name n name then some p else find_symbol name rest

abbrev emplace_new : List ℕ → ℕ → Symbols → Option ℕ → Symbols
emplace_new name pointer symbols none = (name, pointer) ∷ symbols
emplace_new name pointer symbols (some p) = symbols

-- `mSymbols.emplace`, which leaves a symbol that is there.
unfoldable pub emplace : List ℕ → ℕ → Symbols → Symbols
unfolding find_symbol
emplace name pointer symbols = emplace_new name pointer symbols (find_symbol name symbols)

module _ ⦃L : Llvm⦄ (name_of : L.Value → List ℕ) (resolvers : Resolvers) where
  -- `mValueNames[0]`
  abbrev pub bind_first : List L.Value → ℕ → Symbols → Result Symbols
  bind_first [] pointer symbols = throw overrun
  bind_first (v ∷ vs) pointer symbols = ok (emplace (name_of v) pointer symbols)

  unfoldable pub bind_symbol : ExternalKind → List L.Value → ℕ → Symbols → Result Symbols
  unfolding emplace
  bind_symbol ek_memory values pointer symbols = ok symbols
  bind_symbol ek_table values pointer symbols = ok symbols
  bind_symbol _ values pointer symbols = bind_first values pointer symbols

  abbrev pub refuses : ResolveResult → Symbol L → Bool
  refuses r s =
      (r.pointer == 0)
      || (not (kind_number r.kind == kind_number s.kind) || not (r.type_hash == s.type_hash))

  abbrev resolved : Import L → Symbols → Option Resolver → Result Symbols
  resolved i symbols none = throw (unlinkable "import from unknown module")
  resolved i symbols (some resolver) =
      let r = resolver i.name.field_name in
      if refuses r i.symbol
      then throw (unlinkable "can't import symbol")
      else bind_symbol r.kind i.symbol.values r.pointer symbols

  unfoldable pub link_import : Import L → Symbols → Result Symbols
  unfolding bind_symbol
  link_import i symbols = resolved i symbols (resolvers i.name.module_name)

  -- The imports in the order in which the maps of the source give them.
  unfoldable pub link_imports : List (Import L) → Symbols → Result Symbols
  unfolding link_import
  link_imports [] symbols = ok symbols
  link_imports (i ∷ is) symbols = elim (link_import i symbols) [
    | ok bound ↦ link_imports is bound
    | throw e ↦ throw e
  ]

  abbrev pub is_empty : List ℕ → Bool
  is_empty [] = true
  is_empty (c ∷ cs) = false

  abbrev pub check_import : MemoryType → ℕ → Stateful Store MemoryRefs
  check_import type pointer = do
    m ← load_memory pointer
    throw_if (ltb (memory_pages m) (memory_initial type))
        (unlinkable "can't import memory, too small")
    throw_if (has_maximum type.limits && ltb (memory_maximum type) (memory_capacity m))
        (unlinkable "can't import memory, too large")
    return (record { external_memory = some pointer; self_memory = none })

  abbrev pub import_memory : MemoryType → List ℕ → Option Resolver → Stateful Store MemoryRefs
  import_memory type field none = fail (unlinkable "import memory from unknown module")
  import_memory type field (some resolver) =
      let r = resolver field in
      if r.pointer == 0
      then fail (unlinkable "can't memory symbol")
      else check_import type r.pointer

  abbrev pub own_memory : ℕ → Result Memory → Stateful Store MemoryRefs
  own_memory fresh (ok m) s =
      ok (record { external_memory = none; self_memory = some fresh }, stored fresh m s)
  own_memory fresh (throw e) s = throw e

  -- The memory of a context: the one that the module imports, or a new one at the address `fresh`.
  abbrev pub memory_for :
      Bool → (ℕ → Bool) → ℕ → ExternSym → List MemoryType → Stateful Store MemoryRefs
  memory_for maps protects fresh import [] =
      return (record { external_memory = none; self_memory = none })
  memory_for maps protects fresh import (type ∷ types) =
      if is_empty import.module_name
      then own_memory fresh (memory_of_type maps protects type)
      else import_memory type import.field_name (resolvers import.module_name)

  unfoldable pub link_memory : Bool → (ℕ → Bool) → ℕ → Module L → Stateful Store MemoryRefs
  unfolding memory_initial memory_maximum memory_of_type
  link_memory maps protects fresh m = memory_for maps protects fresh m.memory_import m.memory_types
