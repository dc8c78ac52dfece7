-- ===== src/Examples/Linking.antt =====
-- The tables and the linking of inc/wembed/context.hpp and src/context.cpp on concrete inputs.
use wembed.Base.{ℕ, ◌+◌, ◌≡◌, ◌≢◌, ◌↔◌, refl, arith, true, List, [], ◌∷◌, none, some, All, ok, leb}
use wembed.Lang.{MemoryType, TableType, anyfunc, ek_function, memory_initial, table_initial}
use wembed.Lang.Types.{i32}
use wembed.Runtime.Remap.{remap, AllReady, remap-AllReady}
use wembed.Module.{FuncDef, Module, Import}
use wembed.Runtime.Table.{table_of_type, table_of_type-zeros}
use wembed.Runtime.Link.{Resolvers, link_imports, link_memory}
use wembed.Runtime.Link.Provided.{IsProvided, Binds, link_imports-IsProvided}
use wembed.Runtime.Link.Fits.{NamesSuiting, link_memory-Suits}
use wembed.Examples.Machine.{Word, word, machine, blank}

abbrev small_table : TableType
small_table = record {
  elem_type = anyfunc;
  limits = record { flags = 1; initial = 4; maximum = 2 };
}

table_of_type-zeros_example :
    ((table_of_type small_table).pointers ≡ 0 ∷ 0 ∷ 0 ∷ 0 ∷ [])
    × ((table_of_type small_table).types ≡ 0 ∷ 0 ∷ 0 ∷ 0 ∷ [])
unfolding table_initial
table_of_type-zeros_example = table_of_type-zeros small_table

abbrev host : Resolvers
host name = some (λ field. record { pointer = 4096; kind = ek_function; type_hash = 77 })

abbrev printing : Import machine
printing = record {
  name = record { module_name = 1 ∷ []; field_name = 2 ∷ [] };
  symbol = record { kind = ek_function; type_hash = 77; values = word i32 1 ∷ [] };
}

abbrev named : Word → List ℕ
named v = v.pattern ∷ []

link_imports-IsProvided_example :
    Binds ⦃L = machine⦄ named host (link_imports ⦃L = machine⦄ named host (printing ∷ []) [])
    ↔ All (IsProvided ⦃L = machine⦄ named host) (printing ∷ [])
link_imports-IsProvided_example =
    link_imports-IsProvided ⦃L = machine⦄ named host (printing ∷ []) [] ((word i32 1, [], refl), tt)

abbrev two_pages : MemoryType
two_pages = record { limits = record { flags = 1; initial = 2; maximum = 3 } }

abbrev with_memory : Module machine
with_memory = record blank { memory_types = two_pages ∷ [] }

link_memory-Suits_example :
    NamesSuiting two_pages
      (link_memory ⦃L = machine⦄ named host true (λ n. leb n 0x100000000) 5 with_memory (λ a. none))
unfolding memory_initial
link_memory-Suits_example =
    link_memory-Suits ⦃L = machine⦄ named host true (λ n. leb n 0x100000000) 5 with_memory two_pages
      [] (λ a. none) refl (omega arith)

-- A function at address 1003, and a table with its index, an empty entry and another module's
-- address.
abbrev linked : List (FuncDef machine)
linked = record { value = word i32 3; type_hash = 77 } ∷ []

abbrev placed : Word → ℕ
placed v = v.pattern + 1000

three_there : placed (word i32 3) ≢ 0
three_there e = omega arith

remap-AllReady_example :
    (qs : List ℕ) × (us : List ℕ) × (remap ⦃L = machine⦄ linked
        (λ v. ok (placed v))
        2
        (1 ∷ 0 ∷ 4096 ∷ [])
        (0 ∷ 0 ∷ 5 ∷ [])
      ≡ ok (qs, us))
    × AllReady ⦃L = machine⦄ linked
        (λ v. ok (placed v))
        placed
        2
        (1 ∷ 0 ∷ 4096 ∷ [])
        (0 ∷ 0 ∷ 5 ∷ [])
        qs
        us
remap-AllReady_example =
    remap-AllReady ⦃L = machine⦄ linked (λ v. ok (placed v)) placed 2 (1 ∷ 0 ∷ 4096 ∷ [])
      (0 ∷ 0 ∷ 5 ∷ []) ((refl, three_there), tt) (omega arith) (omega arith)
