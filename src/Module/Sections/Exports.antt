-- ===== src/Module/Sections/Exports.antt =====
-- `module::parse_exports`, `module::symbol1` and `module::parse_section_start` of src/module.cpp.
-- `mExports` is a map whose keys the code checks to be new.
use wembed.Base.{
  ℕ, zero, suc, Bool, true, false, not, List, [], ◌∷◌, ◌++◌, Option, none, some, ltb, if◌then◌else◌,
  length, get_elem?, ok, invalid, runtime, overrun, ◌>>=◌, ◌>>◌, return, fail, throw_if,
}
use wembed.Reader.{parse, parse_uleb128, parse_str}
use wembed.Lang.{ExternalKind, ek_function, ek_table, ek_memory, ek_global, ek_other, external_kind}
use wembed.Lang.Types.{void, same_type}
use wembed.Utils.{hash_table, hash_memory, hash_type}
use wembed.Llvm.{Llvm}
use wembed.Llvm.Instructions.{call, position_at_end}
use wembed.Module.{M, Table, FuncDef, Symbol, Export, reading, build, emit}
use wembed.Module.Calls.{or_throw}
use wembed.Module.Sections.{same_bytes}

module _ ⦃L : Llvm⦄ where
  -- `mExports.find(name)`
  unfoldable pub find_export : List ℕ → List (Export L) → Option (Symbol L)
  find_export name [] = none
  find_export name (e ∷ es) = if same_bytes e.name name then some e.symbol else find_export name es

  abbrev pub is_some {ℓ} : {A : Type ℓ} → Option A → Bool
  is_some none = false
  is_some (some a) = true

  abbrev pub add_export : List ℕ → Symbol L → M (Unit {0})
  add_export name symbol m =
      ok (tt, record m { exports = m.exports ++ (record { name = name; symbol = symbol } ∷ []) })

  abbrev function_symbol : FuncDef L → Symbol L
  function_symbol f = record { kind = ek_function; type_hash = f.type_hash; values = f.value ∷ [] }

  -- The hash takes in whether LLVM holds the global to be constant now.
  abbrev global_symbol : L.Value → Bool → Symbol L
  global_symbol global is_const = record {
    kind = ek_global;
    type_hash = hash_type (L.element_type global) is_const;
    values = global ∷ [];
  }

  abbrev table_symbol : Table L → Symbol L
  table_symbol t = record {
    kind = ek_table;
    type_hash = hash_table;
    values = t.pointers ∷ t.types ∷ [];
  }

  abbrev memory_symbol : L.Value → Symbol L
  memory_symbol base = record { kind = ek_memory; type_hash = hash_memory; values = base ∷ [] }

  -- What an export of a kind and an index stands for. The table is `mTables[0]` whatever the index.
  unfoldable pub symbol_of : ExternalKind → ℕ → M (Symbol L)
  symbol_of ek_function index = do
    f ← (λ m. or_throw (get_elem? m.functions index) (invalid "function index out of bounds") m)
    return (function_symbol f)
  symbol_of ek_global index = do
    g ← (λ m. or_throw (get_elem? m.globals index) (invalid "global index out of bounds") m)
    λ m. ok (global_symbol g (L.is_global_constant g m.builder), m)
  symbol_of ek_table index = do
    (λ m. or_throw (get_elem? m.tables index) (invalid "table index out of bounds") m)
    t ← (λ m. or_throw (get_elem? m.tables 0) overrun m)
    return (table_symbol t)
  symbol_of ek_memory index = do
    (λ m. or_throw (get_elem? m.memory_types index) (invalid "memory index out of bounds") m)
    λ m. ok (memory_symbol m.base_memory, m)
  symbol_of (ek_other b) index = fail (runtime "unsupported export type")

  unfoldable pub parse_export : M (Unit {0})
  unfolding find_export symbol_of
  parse_export = do
    size ← reading (parse_uleb128 32)
    name ← reading (parse_str size)
    λ m. throw_if (is_some (find_export name m.exports)) (invalid "duplicate export name") m
    kind ← reading (parse 1)
    index ← reading (parse_uleb128 32)
    symbol ← symbol_of (external_kind kind) index
    add_export name symbol

  unfoldable pub parse_export_list : ℕ → M (Unit {0})
  unfolding parse_export
  parse_export_list zero = return tt
  parse_export_list (suc count) = do parse_export; parse_export_list count

  unfoldable pub parse_exports : M (Unit {0})
  unfolding parse_export_list
  parse_exports = do count ← reading (parse_uleb128 32); parse_export_list count

  -- The one value of an export. Its messages end with the name.
  abbrev only_value : Option (Symbol L) → M L.Value
  only_value none = fail (runtime "can't find symbol: ")
  only_value (some s) =
      if ltb 1 (length s.values)
      then fail (runtime "more than one value in: ")
      else (λ m. or_throw (get_elem? s.values 0) overrun m)

  unfoldable pub symbol1 : List ℕ → M L.Value
  unfolding find_export
  symbol1 name m = only_value (find_export name m.exports) m

  abbrev is_nil {ℓ} : {A : Type ℓ} → List A → Bool
  is_nil [] = true
  is_nil (x ∷ xs) = false

  unfoldable pub parse_section_start : M (Unit {0})
  parse_section_start = do
    start_user ← (λ m. ok (m.start_user, m))
    emit (position_at_end start_user)
    index ← reading (parse_uleb128 32)
    f ← (λ m. or_throw (get_elem? m.functions index) (invalid "function index out of bounds") m)
    throw_if (not (same_type (L.function_type f.value).ret void))
        (invalid "start function required to return void")
    throw_if (not (is_nil (L.function_type f.value).params))
        (invalid "start function require no input param")
    build (call f.value [])
    return tt
