-- ===== src/Runtime/Link/Tables.antt =====
-- The table of a context: how the constructor of `context` in src/context.cpp makes or imports it.
use wembed.Base.{
  ℕ, ◌+◌, ◌^◌, ◌≤◌, ◌<◌, ◌≡◌, refl, arith, Bool, Bool-cases, true, false, ◌&&◌, List, [], ◌∷◌,
  Option, Option-cases, none, some, ltb, ◌==◌, ◌⊎◌, inl, inr, if◌then◌else◌, Result, ok, throw,
  unlinkable, Stateful, ◌>>=◌, ◌>>◌, return, fail, throw_if,
}
use wembed.Lang.{TableType, has_maximum, table_initial, table_maximum}
use wembed.Llvm.{Llvm}
use wembed.Module.{Module, Table, ExternSym}
use wembed.Runtime.Table.{
  RuntimeTable, TableRefs, Tables, load_table, table_slots, table_capacity, table_of_type,
}
use wembed.Runtime.Link.{Resolver, Resolvers}

abbrev pub stored_table : ℕ → RuntimeTable → Tables → Tables
stored_table a t s = λ b. if b == a then some t else s b

abbrev pub unnamed : List ℕ → Bool
unnamed [] = true
unnamed (c ∷ cs) = false

abbrev pub own_table : ℕ → TableType → Stateful Tables TableRefs
own_table fresh type s = ok (
  record { external_table = none; self_table = some fresh },
  stored_table fresh (table_of_type type) s,
)

abbrev pub check_table : TableType → ℕ → Stateful Tables TableRefs
check_table type pointer = do
  t ← load_table pointer
  throw_if (ltb (table_slots t) (table_initial type)) (unlinkable "can't import table, too small")
  throw_if (has_maximum type.limits && ltb (table_maximum type) (table_capacity t))
      (unlinkable "can't import table, too large")
  return (record { external_table = some pointer; self_table = none })

abbrev pub import_table : TableType → List ℕ → Option Resolver → Stateful Tables TableRefs
import_table type field none = fail (unlinkable "import table from unknown module")
import_table type field (some resolver) =
    let r = resolver field in
    if r.pointer == 0 then fail (unlinkable "can't import table") else check_table type r.pointer

module _ ⦃L : Llvm⦄ (resolvers : Resolvers) where
  abbrev pub table_for : ℕ → ExternSym → List (Table L) → Stateful Tables TableRefs
  table_for fresh import [] = return (record { external_table = none; self_table = none })
  table_for fresh import (t ∷ u ∷ ts) = fail (unlinkable "multiple tables not supproted")
  table_for fresh import (t ∷ []) =
      if unnamed import.module_name
      then own_table fresh t.type
      else import_table t.type import.field_name (resolvers import.module_name)

  -- The table that the module imports, or a new one at the address `fresh`.
  unfoldable pub link_table : ℕ → Module L → Stateful Tables TableRefs
  unfolding table_initial table_maximum table_of_type table_slots table_capacity
  link_table fresh m = table_for fresh m.table_import m.tables

-- A table of the slots that the type asks for at least, and of a maximum that is, where the type has
-- one, at most one more than it allows.
abbrev pub Suits : TableType → RuntimeTable → Type 0
Suits type t =
    (table_initial type ≤ table_slots t)
    × ((has_maximum type.limits ≡ false) ⊎ (table_maximum t.type ≤ table_maximum type + 1))

abbrev table_named : Option ℕ → Option ℕ → Option ℕ
table_named (some a) own = some a
table_named none own = own

-- The references of a result name a table that suits the type. An exception names none.
abbrev pub NamesSuiting : TableType → Result (TableRefs × Tables) → Type 0
NamesSuiting type (ok (refs, s)) =
    (a : ℕ) × (t : RuntimeTable) × (table_named refs.external_table refs.self_table ≡ some a)
    × (s a ≡ some t)
    × Suits type t
NamesSuiting type (throw e) = Unit {0}

stored_here : (a : ℕ) (t : RuntimeTable) (s : Tables) → stored_table a t s a ≡ some t
stored_here a t s = ground arith

-- The capacity is one below the maximum, so the check lets through one more than it should.
Suits-test :
    (type : TableType) (t : RuntimeTable)
    → table_maximum t.type < 2 ^ 64
    → ltb (table_slots t) (table_initial type) ≡ false
    → (has_maximum type.limits && ltb (table_maximum type) (table_capacity t)) ≡ false
    → Suits type t
unfolding table_capacity
Suits-test type t fits small large = ground arith

check_table-NamesSuiting :
    (type : TableType) (a : ℕ) (s : Tables)
    → ((b : ℕ) (t : RuntimeTable) → s b ≡ some t → table_maximum t.type < 2 ^ 64)
    → NamesSuiting type (check_table type a s)
unfolding ◌>>=◌
check_table-NamesSuiting type a s fits = elim (Option-cases (s a)) [
  | inl e ↦ rw (e, ◌>>=◌) tt
  | inr (t, e) ↦
      rw (e, ◌>>=◌)
        (elim (Bool-cases (ltb (table_slots t) (table_initial type))) [
          | inl small ↦ rw (small, ◌>>=◌) tt
          | inr enough ↦
              rw (enough, ◌>>=◌)
                (elim (Bool-cases
                  (has_maximum type.limits && ltb (table_maximum type) (table_capacity t))) [
                    | inl large ↦ rw (large, ◌>>=◌) tt
                    | inr under ↦
                        rw (under, ◌>>=◌)
                          (a, t, refl, e, Suits-test type t (fits a t e) enough under)
                  ])
        ])
]

import_table-NamesSuiting :
    (type : TableType) (field : List ℕ) (o : Option Resolver) (s : Tables)
    → ((b : ℕ) (t : RuntimeTable) → s b ≡ some t → table_maximum t.type < 2 ^ 64)
    → NamesSuiting type (import_table type field o s)
import_table-NamesSuiting type field none s fits = tt
import_table-NamesSuiting type field (some resolver) s fits =
    elim (Bool-cases ((resolver field).pointer == 0)) [
      | inl null ↦ rw null tt
      | inr there ↦ rw there (check_table-NamesSuiting type (resolver field).pointer s fits)
    ]

own_table-NamesSuiting :
    (fresh : ℕ) (type : TableType) (s : Tables) → NamesSuiting type (own_table fresh type s)
unfolding table_of_type table_slots
own_table-NamesSuiting fresh type s = (
  fresh,
  table_of_type type,
  refl,
  stored_here fresh (table_of_type type) s,
  (omega arith, inr (omega arith)),
)

module _ ⦃L : Llvm⦄ (resolvers : Resolvers) where
  -- A context of a module with one table either throws, or works with a table of at least the slots
  -- that the module asks for, whose maximum is, where the module gives one, at most one above it.
  -- This is so for a table of its own and for one that it imports, if no table's maximum takes more
  -- than 64 bits.
  pub link_table-Suits :
      (fresh : ℕ) (m : Module L) (t : Table L) (s : Tables)
      → m.tables ≡ t ∷ []
      → ((b : ℕ) (u : RuntimeTable) → s b ≡ some u → table_maximum u.type < 2 ^ 64)
      → NamesSuiting t.type (link_table resolvers fresh m s)
  unfolding link_table
  link_table-Suits fresh m t s e fits = elim (Bool-cases (unnamed m.table_import.module_name)) [
    | inl own ↦ rw (e, own) (own_table-NamesSuiting fresh t.type s)
    | inr named ↦
        rw (e, named)
          (import_table-NamesSuiting t.type m.table_import.field_name
            (resolvers m.table_import.module_name) s fits)
  ]
