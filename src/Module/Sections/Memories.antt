-- ===== src/Module/Sections/Memories.antt =====
-- The memories that a module may declare.
use wembed.Base.{
  ℕ, zero, suc, ◌≤◌, ◌≡◌, refl, arith, Bool-cases, true, false, not, ◌&&◌, List, [], ◌∷◌, ltb, ◌⊎◌,
  inl, inr, Result, ok, throw, Exception, ◌>>=◌,
}
use wembed.Reader.{parse_uleb128}
use wembed.Lang.{ResizableLimits, MemoryType, max_pages, memory_initial}
use wembed.Llvm.{Llvm}
use wembed.Module.{Module}
use wembed.Module.Keeps.{Post}
use wembed.Module.Sections.{
  no_memories, too_big, parse_resizable_limits, parse_memory_list, parse_section_memory,
}

Result-cases :
    {A : Type 0} (r : Result A) → ((a : A) × (r ≡ ok a)) ⊎ ((e : Exception) × (r ≡ throw e))
Result-cases (ok a) = inl (a, refl)
Result-cases (throw e) = inr (e, refl)

-- At most one memory, of at most 65536 pages.
abbrev pub IsDeclared : List MemoryType → Type 0
IsDeclared [] = Unit {0}
IsDeclared (t ∷ []) = memory_initial t ≤ max_pages
IsDeclared (t ∷ u ∷ ts) = ⊥

module _ ⦃L : Llvm⦄ where
  small_initial :
      (l : ResizableLimits) → too_big l ≡ false → memory_initial (record { limits = l }) ≤ max_pages
  unfolding memory_initial
  small_initial l e = ground arith

  one_memory :
      (unset : ℕ) (m : Module L)
      → m.memory_types ≡ []
      → Post (λ before n. IsDeclared n.memory_types) m (parse_memory_list unset 1 m)
  unfolding parse_memory_list ◌>>=◌
  one_memory unset m none = elim (Result-cases (parse_resizable_limits unset m.reader)) [
    | inr (x, e) ↦ rw (e, ◌>>=◌) tt
    | inl ((limits, r), e) ↦
        rw (e, ◌>>=◌)
          (elim (Bool-cases (too_big limits)) [
            | inl big ↦ rw (big, ◌>>=◌) tt
            | inr small ↦ rw (small, ◌>>=◌) (rw none (small_initial limits small))
          ])
  ]

  no_more :
      (unset : ℕ) (m : Module L)
      → IsDeclared m.memory_types
      → Post (λ before n. IsDeclared n.memory_types) m (parse_memory_list unset 0 m)
  unfolding parse_memory_list
  no_more unset m h = h

  empty_memories : (ts : List MemoryType) → (not (no_memories ts) && true) ≡ false → ts ≡ []
  empty_memories [] e = refl
  empty_memories (t ∷ ts) e = absurd (cc)

  declared :
      (unset count : ℕ) (m : Module L)
      → IsDeclared m.memory_types
      → ltb 1 count ≡ false
      → (not (no_memories m.memory_types) && ltb 0 count) ≡ false
      → Post (λ before n. IsDeclared n.memory_types) m (parse_memory_list unset count m)
  declared unset zero m h one empty = no_more unset m h
  declared unset (suc zero) m h one empty = one_memory unset m (empty_memories m.memory_types empty)
  declared unset (suc (suc n)) m h one empty = absurd (ground arith)

  -- The memory section, where it does not throw, leaves at most one memory, whose initial size is
  -- at most 65536 pages, in a module that had at most one such memory before, an imported one.
  pub parse_section_memory-IsDeclared :
      (unset : ℕ) (m : Module L)
      → IsDeclared m.memory_types
      → Post (λ before n. IsDeclared n.memory_types) m (parse_section_memory unset m)
  unfolding parse_section_memory ◌>>=◌
  parse_section_memory-IsDeclared unset m h = elim (Result-cases (parse_uleb128 32 m.reader)) [
    | inr (x, e) ↦ rw (e, ◌>>=◌) tt
    | inl ((count, r), e) ↦
        rw (e, ◌>>=◌)
          (elim (Bool-cases (ltb 1 count)) [
            | inl many ↦ rw (many, ◌>>=◌) tt
            | inr one ↦
                rw (one, ◌>>=◌)
                  (elim (Bool-cases (not (no_memories m.memory_types) && ltb 0 count)) [
                    | inl more ↦ rw (more, ◌>>=◌) tt
                    | inr empty ↦
                        rw (empty, ◌>>=◌)
                          (declared unset count (record m { reader = r }) h one empty)
                  ])
          ])
  ]
