-- ===== src/Examples/Serving.antt =====
-- What a context of inc/wembed/context.hpp imports and gives to the program, on concrete inputs.
use wembed.Base.{
  some_injective, ℕ, ◌<◌, ◌^◌, ◌==◌, if◌then◌else◌, Bool, true, false, ◌+◌, ◌≡◌, ◌≢◌, ◌↔◌, refl,
  subst, arith, List, [], ◌∷◌, some, none, All, Result, ok, ◌>>=◌,
}
use wembed.Lang.{TableType, table_maximum, anyfunc, ek_function, ek_global, ek_table}
use wembed.Lang.Types.{FnType, i32, i64}
use wembed.Utils.{hash_fn_type, hash_fn_ctype, typehash_combine, hash_type, hash_args}
use wembed.Module.{Module, Import}
use wembed.Runtime.Table.{RuntimeTable, Tables, table_of_type}
use wembed.Runtime.Link.{
  Resolver, Resolvers, bind_symbol, link_import, link_imports, link_memory, emplace, find_symbol,
}
use wembed.Runtime.Link.Provided.{IsProvided}
use wembed.Runtime.Context.Construct.{Host, returned, run_start, replace_indices, new_context}
use wembed.Runtime.Context.Linked.{new_context-IsProvided}
use wembed.Runtime.Link.Tables.{NamesSuiting, link_table, link_table-Suits}
use wembed.Runtime.Context.{World, Context, get_pointer, get_fn, get_global, expose_func}
use wembed.Runtime.Context.Exports.{
  Exports, get_fn-Exports, get_global-Exports, link_import-expose_func,
}
use wembed.Examples.Machine.{Word, word, machine, blank}

abbrev two_slots : TableType
two_slots = record { elem_type = anyfunc; limits = record { flags = 1; initial = 2; maximum = 3 } }

abbrev with_table : Module machine
with_table = record blank {
  tables = record { type = two_slots; pointers = word i32 1; types = word i32 2 } ∷ [];
  table_import = record { module_name = 1 ∷ []; field_name = 2 ∷ [] };
}

-- The program's own table of that type, at address 4096.
abbrev shared : Tables
shared = λ a. if a == 4096 then some (table_of_type two_slots) else none

abbrev lender : Resolvers
lender name = some (λ field. record { pointer = 4096; kind = ek_table; type_hash = 77 })

if-below :
    (b : Bool) (u : RuntimeTable)
    → (if b then some (table_of_type two_slots) else none) ≡ some u
    → table_maximum u.type < 2 ^ 64
unfolding table_of_type table_maximum
if-below true u e =
    subst (λ (t : RuntimeTable). table_maximum t.type < 2 ^ 64)
      (some_injective (table_of_type two_slots) u e) (omega arith)
if-below false u e = absurd (cc)

shared-below : (b : ℕ) (u : RuntimeTable) → shared b ≡ some u → table_maximum u.type < 2 ^ 64
shared-below b u e = if-below (b == 4096) u e

link_table-Suits_example :
    NamesSuiting two_slots (link_table ⦃L = machine⦄ lender 5 with_table shared)
link_table-Suits_example =
    link_table-Suits ⦃L = machine⦄ lender 5 with_table
      (record { type = two_slots; pointers = word i32 1; types = word i32 2 }) shared refl
      shared-below

-- A module that exports its function 3 as "a" and its global 4 as "b", placed by the engine.
abbrev serving : Module machine
serving = record blank {
  exports =
      record {
        name = 97 ∷ [];
        symbol = record { kind = ek_function; type_hash = 77; values = word i32 3 ∷ [] };
      }
      ∷ record {
        name = 98 ∷ [];
        symbol = record { kind = ek_global; type_hash = 78; values = word i32 4 ∷ [] };
      }
      ∷ [];
}

abbrev place : List ℕ → Result ℕ
place [] = ok 0
place (c ∷ cs) = ok (c + 1000)

abbrev name_of : Word → List ℕ
name_of v = v.pattern ∷ []

abbrev context : Context
context = record {
  symbols = [];
  memory_refs = record { external_memory = none; self_memory = none };
  table_refs = record { external_table = none; self_table = none };
}

get_fn-Exports_example :
    (get_fn place ⦃L = machine⦄ name_of serving context (97 ∷ []) ≡ ok 1003)
    ↔ Exports place ⦃L = machine⦄ name_of serving context (97 ∷ []) 0 1003
get_fn-Exports_example = get_fn-Exports place ⦃L = machine⦄ name_of serving context (97 ∷ []) 1003

get_global-Exports_example :
    (get_global place ⦃L = machine⦄ name_of serving context (98 ∷ []) ≡ ok 1004)
    ↔ Exports place ⦃L = machine⦄ name_of serving context (98 ∷ []) 3 1004
get_global-Exports_example =
    get_global-Exports place ⦃L = machine⦄ name_of serving context (98 ∷ []) 1004

-- `int32_t f(int64_t)` at address 4096, given as the field "f" of every module.
abbrev signature : FnType
signature = record { ret = i32; params = i64 ∷ [] }

abbrev giving : Resolver
giving field = expose_func ⦃L = machine⦄ 4096 i32 (i64 ∷ [])

abbrev printing : Import machine
printing = record {
  name = record { module_name = 1 ∷ []; field_name = 102 ∷ [] };
  symbol = record {
    kind = ek_function;
    type_hash = hash_fn_type ⦃L = machine⦄ signature;
    values = word i32 1 ∷ [];
  };
}

abbrev address : ℕ
address = 4096

there : address ≢ 0
there e = omega arith

link_import-expose_func_example :
    link_import ⦃L = machine⦄ name_of (λ m. some giving) printing [] ≡ ok (emplace (1 ∷ []) 4096 [])
link_import-expose_func_example =
    link_import-expose_func ⦃L = machine⦄ name_of (λ m. some giving) printing giving signature
      (word i32 1) [] 4096 [] refl refl refl there

-- The program gives that function, and `memcpy` is built in.
abbrev host : Host
host = record {
  resolvers = λ m. some giving;
  builtins = (109 ∷ [], 8192) ∷ [];
  maps = true;
  protects = λ n. true;
  engine = place;
  run = λ start w. returned w;
  data_of = λ a. a;
  pointers_of = λ a. a;
  types_of = λ a. a;
}

abbrev importing : Module machine
importing = record blank { imports = printing ∷ [] }

abbrev world : World
world = record { store = λ a. none; tables = λ a. none }

abbrev linked : Context
linked = record context { symbols = (1 ∷ [], 4096) ∷ (109 ∷ [], 8192) ∷ [] }

links : new_context host ⦃L = machine⦄ name_of 5 6 importing world ≡ ok (linked, world)
unfolding new_context link_imports link_import bind_symbol expose_func emplace find_symbol
    link_memory link_table get_pointer run_start replace_indices ◌>>=◌ hash_fn_type hash_fn_ctype
    typehash_combine hash_type hash_args
links = refl

known : find_symbol (109 ∷ []) host.builtins ≡ some 8192
unfolding find_symbol
known = refl

new_context-IsProvided_example :
    All (IsProvided ⦃L = machine⦄ name_of host.resolvers) (printing ∷ [])
    × (get_pointer place linked.symbols (109 ∷ []) ≡ ok 8192)
new_context-IsProvided_example =
    new_context-IsProvided host ⦃L = machine⦄ name_of 5 6 importing world world linked (109 ∷ [])
      8192 links known
