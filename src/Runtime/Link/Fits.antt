-- ===== src/Runtime/Link/Fits.antt =====
-- The memory that a context works with is as large as the module asks for.
use wembed.Base.{
  ℕ, ◌*◌, ◌%◌, ◌^◌, ◌≤◌, ◌≡◌, refl, ap, arith, Bool, Bool-cases, true, false, ◌&&◌, List, ◌∷◌,
  Option, Option-cases, none, some, ltb, ◌==◌, ◌⊎◌, inl, inr, Result, ok, throw, bad_alloc, ◌>>=◌,
}
use wembed.Lang.{MemoryType, page_size, max_pages, has_maximum, memory_initial, memory_maximum}
use wembed.Llvm.{Llvm}
use wembed.Module.{Module}
use wembed.Runtime.Memory.{
  Memory, Store, MemoryRefs, memory_pages, memory_capacity, self_or, stored, memory_of_type,
  new_mapping, mapping_resize,
}
use wembed.Runtime.Link.{
  Resolver, Resolvers, link_memory, check_import, import_memory, own_memory, is_empty,
}

-- A memory of the pages that the type asks for at least, and of the maximum that it allows at most.
abbrev pub Suits : MemoryType → Memory → Type 0
Suits type m =
    (memory_initial type ≤ memory_pages m)
    × ((has_maximum type.limits ≡ false) ⊎ (memory_capacity m ≤ memory_maximum type))

-- The references of a result name a memory that suits the type. An exception names none.
abbrev pub NamesSuiting : MemoryType → Result (MemoryRefs × Store) → Type 0
NamesSuiting type (ok (refs, s)) =
    (a : ℕ) × (m : Memory) × (self_or refs.external_memory refs.self_memory ≡ some a)
    × (s a ≡ some m)
    × Suits type m
NamesSuiting type (throw e) = Unit {0}

stored_here : (a : ℕ) (m : Memory) (s : Store) → stored a m s a ≡ some m
stored_here a m s = ground arith

nothing_there : (n : ℕ) → ltb 0 (n * page_size) ≡ false → 0 ≡ n * page_size
nothing_there n e = ground arith

module _ ⦃L : Llvm⦄ (name_of : L.Value → List ℕ) (resolvers : Resolvers) where
  Suits-test :
      (type : MemoryType) (m : Memory)
      → ltb (memory_pages m) (memory_initial type) ≡ false
      → (has_maximum type.limits && ltb (memory_maximum type) (memory_capacity m)) ≡ false
      → Suits type m
  Suits-test type m small large = ground arith

  check_import-NamesSuiting :
      (type : MemoryType) (a : ℕ) (s : Store)
      → NamesSuiting type (check_import name_of resolvers type a s)
  unfolding ◌>>=◌
  check_import-NamesSuiting type a s = elim (Option-cases (s a)) [
    | inl e ↦ rw (e, ◌>>=◌) tt
    | inr (m, e) ↦
        rw (e, ◌>>=◌)
          (elim (Bool-cases (ltb (memory_pages m) (memory_initial type))) [
            | inl small ↦ rw (small, ◌>>=◌) tt
            | inr enough ↦
                rw (enough, ◌>>=◌)
                  (elim (Bool-cases
                    (has_maximum type.limits && ltb (memory_maximum type) (memory_capacity m))) [
                      | inl large ↦ rw (large, ◌>>=◌) tt
                      | inr fits ↦ rw (fits, ◌>>=◌) (a, m, refl, e, Suits-test type m enough fits)
                    ])
          ])
  ]

  import_memory-NamesSuiting :
      (type : MemoryType) (field : List ℕ) (o : Option Resolver) (s : Store)
      → NamesSuiting type (import_memory name_of resolvers type field o s)
  import_memory-NamesSuiting type field none s = tt
  import_memory-NamesSuiting type field (some resolver) s =
      elim (Bool-cases ((resolver field).pointer == 0)) [
        | inl null ↦ rw null tt
        | inr there ↦ rw there (check_import-NamesSuiting type (resolver field).pointer s)
      ]

  abbrev made : MemoryType → Memory
  made type = record { type = type; impl = record { cur_size = memory_initial type * page_size } }

  memory_of_type-cases :
      (maps : Bool) (protects : ℕ → Bool) (type : MemoryType)
      → memory_initial type ≤ max_pages
      → (memory_of_type maps protects type ≡ throw bad_alloc)
        ⊎ (memory_of_type maps protects type ≡ ok (made type))
  unfolding memory_of_type new_mapping mapping_resize
  memory_of_type-cases false protects type h = inl refl
  memory_of_type-cases true protects type h =
      let cut : memory_initial type * page_size % 2 ^ 64 ≡ memory_initial type * page_size =
        omega arith in
      elim (Bool-cases (ltb 0 (memory_initial type * page_size))) [
        | inl more ↦ elim (Bool-cases (protects (memory_initial type * page_size))) [
          | inl granted ↦ inr (rw (cut, more, granted) refl)
          | inr bare ↦ inl (rw (cut, more, bare) refl)
        ]
        | inr nothing ↦ inr (
            rw (cut, nothing)
              (ap (λ n. ok (record { type = type; impl = record { cur_size = n } }))
                (nothing_there (memory_initial type) nothing)))
      ]

  own_memory-NamesSuiting :
      (maps : Bool) (protects : ℕ → Bool) (fresh : ℕ) (type : MemoryType) (s : Store)
      → memory_initial type ≤ max_pages
      → NamesSuiting type (own_memory name_of resolvers fresh (memory_of_type maps protects type) s)
  own_memory-NamesSuiting maps protects fresh type s h =
      elim (memory_of_type-cases maps protects type h) [
        | inl e ↦ rw e tt
        | inr e ↦ rw e (
          fresh,
          made type,
          refl,
          stored_here fresh (made type) s,
          (omega arith, inr (omega arith)),
        )
      ]

  -- A context of a module that has a memory either throws, or works with a memory of at least the
  -- pages that the module asks for, whose maximum is at most the module's where it has one. This is
  -- so for a memory of its own and for one that it imports.
  pub link_memory-Suits :
      (maps : Bool) (protects : ℕ → Bool) (fresh : ℕ) (m : Module L) (type : MemoryType)
      (types : List MemoryType) (s : Store)
      → m.memory_types ≡ type ∷ types
      → memory_initial type ≤ max_pages
      → NamesSuiting type (link_memory name_of resolvers maps protects fresh m s)
  unfolding link_memory
  link_memory-Suits maps protects fresh m type types s e h =
      elim (Bool-cases (is_empty name_of resolvers m.memory_import.module_name)) [
        | inl own ↦ rw (e, own) (own_memory-NamesSuiting maps protects fresh type s h)
        | inr named ↦
            rw (e, named)
              (import_memory-NamesSuiting type m.memory_import.field_name
                (resolvers m.memory_import.module_name) s)
      ]
