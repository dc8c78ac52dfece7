-- ===== src/Runtime/Sized.antt =====
-- Memories stay within their limits: what the constructors of `memory` and `memory_grow` keep.
use native.Mathlib.Decide.{ℕ_discrete}
use wembed.Base.{
  some_injective, ℕ, ◌+◌, ◌*◌, ◌%◌, ◌^◌, ◌<◌, ◌≤◌, ◌≡◌, ◌≢◌, refl, sym, subst, ◌∙◌, arith, Bool,
  Bool-cases, true, Option, Option-cases, none, some, inl, inr, Result, ok, throw, bad_optional,
  null_pointer, ◌>>=◌,
}
use wembed.Lang.{MemoryType, ResizableLimits, page_size, memory_initial}
use wembed.Module.Keeps.{Post}
use wembed.Runtime.Memory.{
  Memory, Store, MemoryRefs, memory_pages, mem, self_or, memory_grow, grow_at, new_mapping,
  mapping_resize, memory_of_type, memory_of_size,
}
use wembed.Runtime.Grow.{
  IsSized, page_limit, growth, with_pages, Grown, grow_at-Grown, fails_or_fits, memory_grow-grow_at,
}

-- Memories that are all of whole pages within their limits.
abbrev pub AllSized : Store → Type 0
AllSized s = (a : ℕ) (m : Memory) → s a ≡ some m → IsSized m

same_address : (a b : ℕ) → Dec (a ≡ b)
same_address = ℕ_discrete

with_pages-IsSized : (m : Memory) (n : ℕ) → n ≤ page_limit m.type → IsSized (with_pages m n)
with_pages-IsSized m n h = record {
  whole = omega arith;
  addressable = omega arith;
  limited = omega arith;
}

growth-le : (limit size delta : ℕ) → size ≤ limit → (growth limit size delta).1 ≤ limit
growth-le limit size delta h = ground arith

module _ (maps : Bool) (protects : ℕ → Bool) (a : ℕ) (m : Memory) (s : Store) (here : s a ≡ some m)
    (delta : ℕ) (small : delta < 2 ^ 32) (h : AllSized s) where
  sized : IsSized m
  sized = h a m here

  grown_memories :
      (t : Store) (n : ℕ)
      → n ≤ page_limit m.type
      → t a ≡ some (with_pages m n)
      → ((b : ℕ) → b ≢ a → t b ≡ s b)
      → AllSized t
  grown_memories t n le at others b k e = elim (same_address b a) [
    | yes same ↦
        subst IsSized (some_injective (with_pages m n) k (cc (at, e, same)))
          (with_pages-IsSized m n le)
    | no other ↦ h b k (sym (others b other) ∙ e)
  ]

  after :
      (run : Result (ℕ × Store))
      → Grown s a m (growth (page_limit m.type) (memory_pages m) delta) run
      → Post (λ before t. AllSized t) s run
  after run (t, e, at, others) = rw e (
      grown_memories t _
        (growth-le (page_limit m.type) (memory_pages m) delta
          (omega (arith, sized.addressable, sized.limited)))
        at others)

  grow_at-AllSized : Post (λ before t. AllSized t) s (grow_at maps protects a m delta s)
  grow_at-AllSized = elim (Bool-cases (protects ((memory_pages m + delta) * page_size))) [
    | inl ready ↦ after _ (grow_at-Grown maps protects a m s here sized delta small ready)
    | inr bare ↦ elim (fails_or_fits maps protects a m s here sized delta small bare) [
      | inl e ↦ rw e tt
      | inr grown ↦ after _ grown
    ]
  ]

no_address :
    (maps : Bool) (protects : ℕ → Bool) (refs : MemoryRefs) (s : Store) (delta : ℕ)
    → self_or refs.external_memory refs.self_memory ≡ none
    → memory_grow maps protects refs delta s ≡ throw bad_optional
unfolding memory_grow mem ◌>>=◌
no_address maps protects refs s delta unnamed = ground arith

nothing_there :
    (maps : Bool) (protects : ℕ → Bool) (refs : MemoryRefs) (a : ℕ) (s : Store) (delta : ℕ)
    → self_or refs.external_memory refs.self_memory ≡ some a
    → s a ≡ none
    → memory_grow maps protects refs delta s ≡ throw null_pointer
unfolding memory_grow mem ◌>>=◌
nothing_there maps protects refs a s delta named gone = ground arith

-- `memory_grow`, where it returns, keeps every memory of whole pages and within its limits, whatever
-- pages the kernel grants.
pub memory_grow-AllSized :
    (maps : Bool) (protects : ℕ → Bool) (refs : MemoryRefs) (s : Store) (delta : ℕ)
    → delta < 2 ^ 32
    → AllSized s
    → Post (λ before t. AllSized t) s (memory_grow maps protects refs delta s)
memory_grow-AllSized maps protects refs s delta small h =
    elim (Option-cases (self_or refs.external_memory refs.self_memory)) [
      | inl unnamed ↦ rw (no_address maps protects refs s delta unnamed) tt
      | inr (a, named) ↦ elim (Option-cases (s a)) [
        | inl gone ↦ rw (nothing_there maps protects refs a s delta named gone) tt
        | inr (m, here) ↦
            rw (memory_grow-grow_at maps protects refs a m s delta named here)
              (grow_at-AllSized maps protects a m s here delta small h)
      ]
    ]

-- A memory made from its type has the initial number of pages, where that is within the limits and
-- the kernel grants the pages.
pub memory_of_type-pages :
    (protects : ℕ → Bool) (type : MemoryType)
    → memory_initial type ≤ page_limit type
    → protects (memory_initial type * page_size) ≡ true
    → memory_of_type true protects type
      ≡ ok (
          with_pages (record { type = type; impl = record { cur_size = 0 } }) (memory_initial type))
unfolding memory_of_type new_mapping mapping_resize
memory_of_type-pages protects type fits ready = ground arith

mapped :
    (protects : ℕ → Bool) (initial : ℕ)
    → initial < 2 ^ 32
    → protects (initial % 2 ^ 16 * page_size) ≡ true
    → new_mapping true protects (initial * page_size % 2 ^ 32)
      ≡ ok (record { cur_size = initial % 2 ^ 16 * page_size })
unfolding new_mapping mapping_resize
mapped protects initial small ready =
    let cut : initial * page_size % 2 ^ 32 ≡ initial % 2 ^ 16 * page_size = omega arith in
    rw cut (ground arith)

-- A memory made from a number of pages has that number modulo 65536, the product of the pages and
-- their size being cut to 32 bits: 65536 pages, which wasm allows, give an empty memory.
pub memory_of_size-pages :
    (protects : ℕ → Bool) (unset : ResizableLimits) (initial : ℕ) (maximum : Option ℕ)
    → initial < 2 ^ 32
    → protects (initial % 2 ^ 16 * page_size) ≡ true
    → (m : Memory) × (memory_of_size true protects unset initial maximum ≡ ok m)
      × (memory_pages m ≡ initial % 2 ^ 16)
unfolding memory_of_size
memory_of_size-pages protects unset initial maximum small ready =
    rw (mapped protects initial small ready) (_, refl, omega arith)
