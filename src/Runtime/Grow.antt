-- ===== src/Runtime/Grow.antt =====
-- What `memory_grow` promises, against the wasm rule for `memory.grow`.
use native.Mathlib.Decide.{dec_lt}
use wembed.Base.{
  ℕ, ◌+◌, ◌-◌, ◌*◌, ◌/◌, ◌^◌, ◌<◌, ◌≤◌, ◌≡◌, ◌≢◌, refl, sym, subst, ◌∙◌, ap, arith, Bool, true,
  false, ◌||◌, not, Option-cases, some, ltb, leb, if◌then◌else◌, ◌⊎◌, inl, inr, Result, ok, throw,
  bad_alloc, ◌>>=◌, min,
}
use wembed.Lang.{MemoryType, page_size, max_pages, memory_maximum}
use wembed.Runtime.Memory.{
  Memory, Store, MemoryRefs, memory_pages, stored, mem, self_or, memory_grow, memory_size, grow_at,
  mapping_resize, memory_resize, reached_limit,
}

-- A memory of whole pages, not more of them than wasm has, nor than its own maximum.
pub record IsSized (m : Memory) : Type 0 where
  pub whole : m.impl.cur_size ≡ memory_pages m * page_size
  pub addressable : memory_pages m ≤ max_pages
  pub limited : memory_pages m ≤ memory_maximum m.type

-- The pages that a memory may have.
abbrev pub page_limit : MemoryType → ℕ
page_limit type = min max_pages (memory_maximum type)

-- The wasm rule: what a growth by `delta` of a memory of `size` pages gives, and the size behind it.
abbrev pub growth : ℕ → ℕ → ℕ → ℕ × ℕ
growth limit size delta =
    if leb (size + delta) limit then (size, size + delta) else (2 ^ 32 - 1, size)

-- The memory with that number of pages.
abbrev pub with_pages : Memory → ℕ → Memory
with_pages m size = record m { impl = record { cur_size = size * page_size } }

-- The call that returns `out.0`, and leaves `out.1` pages at the address and every other memory
-- alone.
abbrev pub Grown : Store → ℕ → Memory → ℕ × ℕ → Result (ℕ × Store) → Type 0
Grown s a m out run =
    (t : Store) × (run ≡ ok (out.0, t))
    × (t a ≡ some (with_pages m out.1))
    × ((b : ℕ) → b ≢ a → t b ≡ s b)

limit_test :
    (type : MemoryType) (size : ℕ)
    → (ltb max_pages size || reached_limit type.limits size) ≡ not (leb size (page_limit type))
unfolding memory_maximum
limit_test type size = ground arith

with_pages-same : (m : Memory) → IsSized m → with_pages m (memory_pages m) ≡ m
with_pages-same m h =
    ap (λ (size : ℕ). record m { impl = record { cur_size = size } }) (sym h.whole)

growth-over :
    (limit size delta : ℕ) → limit < size + delta → growth limit size delta ≡ (2 ^ 32 - 1, size)
growth-over limit size delta h = ground arith

growth-fits :
    (limit size delta : ℕ) → size + delta ≤ limit → growth limit size delta ≡ (size, size + delta)
growth-fits limit size delta h = ground arith

growth-none : (limit size : ℕ) → size ≤ limit → growth limit size 0 ≡ (size, size)
growth-none limit size h = ground arith

zero_delta : (d : ℕ) → d ≤ 0 → d ≡ 0
zero_delta d l = omega arith

add_zero : (n : ℕ) → n + 0 ≡ n
add_zero n = omega arith

stored-here : (a : ℕ) (m : Memory) (s : Store) → stored a m s a ≡ some m
stored-here a m s = ground arith

stored-elsewhere : (a b : ℕ) (m : Memory) (s : Store) → b ≢ a → stored a m s b ≡ s b
stored-elsewhere a b m s h = ground arith

module _ (maps : Bool) (protects : ℕ → Bool) (a : ℕ) (m : Memory) (s : Store) (here : s a ≡ some m)
    (h : IsSized m) where
  same : s a ≡ some (with_pages m (memory_pages m))
  same = here ∙ ap some (sym (with_pages-same m h))

  refused :
      (delta : ℕ)
      → page_limit m.type < memory_pages m + delta
      → delta < 2 ^ 32
      → grow_at maps protects a m delta s ≡ ok (2 ^ 32 - 1, s)
  unfolding grow_at ◌>>=◌
  refused delta over small =
      ground (arith, limit_test m.type (memory_pages m + delta), h.addressable)

  unchanged : grow_at maps protects a m 0 s ≡ ok (memory_pages m, s)
  unfolding grow_at ◌>>=◌
  unchanged = ground (arith, limit_test m.type (memory_pages m), h.addressable, h.limited)

  unchanged-Grown :
      Grown s a m (growth (page_limit m.type) (memory_pages m) 0) (grow_at maps protects a m 0 s)
  unchanged-Grown =
      subst (λ out. Grown s a m out (grow_at maps protects a m 0 s))
        (sym (
          growth-none (page_limit m.type) (memory_pages m)
            (omega (arith, h.addressable, h.limited))))
        (s, unchanged, same, λ b other. refl)

  extended :
      (delta : ℕ)
      → memory_pages m + delta ≤ page_limit m.type
      → 0 < delta
      → protects ((memory_pages m + delta) * page_size) ≡ true
      → grow_at maps protects a m delta s
        ≡ ok (memory_pages m, stored a (with_pages m (memory_pages m + delta)) s)
  unfolding grow_at ◌>>=◌ memory_resize mapping_resize
  extended delta fits more ready =
      ground (arith, limit_test m.type (memory_pages m + delta), h.addressable)

  exhausted :
      (delta : ℕ)
      → memory_pages m + delta ≤ page_limit m.type
      → 0 < delta
      → protects ((memory_pages m + delta) * page_size) ≡ false
      → grow_at maps protects a m delta s ≡ throw bad_alloc
  unfolding grow_at ◌>>=◌ memory_resize mapping_resize
  exhausted delta fits more bare =
      ground (arith, limit_test m.type (memory_pages m + delta), h.addressable)

  pub grow_at-Grown :
      (delta : ℕ)
      → delta < 2 ^ 32
      → protects ((memory_pages m + delta) * page_size) ≡ true
      → Grown s a m
          (growth (page_limit m.type) (memory_pages m) delta)
          (grow_at maps protects a m delta s)
  grow_at-Grown delta small ready = elim (dec_lt (page_limit m.type) (memory_pages m + delta)) [
    | yes over ↦
        rw (growth-over (page_limit m.type) (memory_pages m) delta over)
          (s, refused delta over small, same, λ b other. refl)
    | no fits ↦
        rw (growth-fits (page_limit m.type) (memory_pages m) delta (omega arith))
          (elim (dec_lt 0 delta) [
            | yes more ↦ (
              stored a (with_pages m (memory_pages m + delta)) s,
              extended delta (omega arith) more ready,
              stored-here a _ s,
              λ b other. stored-elsewhere a b _ s other,
            )
            | no none_more ↦
                rw (zero_delta delta (omega arith), add_zero (memory_pages m))
                  (s, unchanged, same, λ b other. refl)
          ])
  ]

  pub fails_or_fits :
      (delta : ℕ)
      → delta < 2 ^ 32
      → protects ((memory_pages m + delta) * page_size) ≡ false
      → (grow_at maps protects a m delta s ≡ throw bad_alloc)
        ⊎ Grown s a m
            (growth (page_limit m.type) (memory_pages m) delta)
            (grow_at maps protects a m delta s)
  fails_or_fits delta small bare = elim (dec_lt (page_limit m.type) (memory_pages m + delta)) [
    | yes over ↦ inr (
        rw (growth-over (page_limit m.type) (memory_pages m) delta over)
          (s, refused delta over small, same, λ b other. refl))
    | no fits ↦ elim (dec_lt 0 delta) [
      | yes more ↦ inl (exhausted delta (omega arith) more bare)
      | no none_more ↦ inr (rw (zero_delta delta (omega arith)) unchanged-Grown)
    ]
  ]

pub memory_grow-grow_at :
    (maps : Bool) (protects : ℕ → Bool) (refs : MemoryRefs) (a : ℕ) (m : Memory) (s : Store)
    (delta : ℕ)
    → self_or refs.external_memory refs.self_memory ≡ some a
    → s a ≡ some m
    → memory_grow maps protects refs delta s ≡ grow_at maps protects a m delta s
unfolding memory_grow mem ◌>>=◌
memory_grow-grow_at maps protects refs a m s delta named here = ground arith

-- `memory_grow` of a context's memory, which is within its limits, follows the wasm rule for
-- `memory.grow`, where the kernel grants the pages: it returns the old size and adds `delta` pages
-- if the limits allow that, and returns -1 and changes nothing otherwise. No other memory changes.
pub memory_grow-Grown :
    (maps : Bool) (protects : ℕ → Bool) (refs : MemoryRefs) (a : ℕ) (m : Memory) (s : Store)
    (delta : ℕ)
    → self_or refs.external_memory refs.self_memory ≡ some a
    → s a ≡ some m
    → IsSized m
    → delta < 2 ^ 32
    → protects ((memory_pages m + delta) * page_size) ≡ true
    → Grown s a m
        (growth (page_limit m.type) (memory_pages m) delta)
        (memory_grow maps protects refs delta s)
memory_grow-Grown maps protects refs a m s delta named here h small ready =
    rw (memory_grow-grow_at maps protects refs a m s delta named here)
      (grow_at-Grown maps protects a m s here h delta small ready)

memory_size-read :
    (refs : MemoryRefs) (a : ℕ) (m : Memory) (t : Store) (size : ℕ)
    → self_or refs.external_memory refs.self_memory ≡ some a
    → t a ≡ some (with_pages m size)
    → size ≤ max_pages
    → memory_size refs t ≡ ok (size, t)
unfolding memory_size mem ◌>>=◌
memory_size-read refs a m t size named here small =
    let paged : size * page_size / page_size ≡ size = omega arith in
    elim (Option-cases refs.external_memory) [
      | inl e ↦ elim (Option-cases refs.self_memory) [
        | inl f ↦ ground arith
        | inr (b, f) ↦ ground (arith, paged)
      ]
      | inr (b, e) ↦ ground (arith, paged)
    ]

-- Where a growth succeeds, every context that has the memory at this address reads the new size:
-- `memory_size` there returns the old size and `delta`.
pub memory_size-memory_grow :
    (maps : Bool) (protects : ℕ → Bool) (refs other : MemoryRefs) (a : ℕ) (m : Memory) (s : Store)
    (delta : ℕ)
    → self_or refs.external_memory refs.self_memory ≡ some a
    → self_or other.external_memory other.self_memory ≡ some a
    → s a ≡ some m
    → IsSized m
    → memory_pages m + delta ≤ page_limit m.type
    → protects ((memory_pages m + delta) * page_size) ≡ true
    → (t : Store) × (memory_grow maps protects refs delta s ≡ ok (memory_pages m, t))
      × (memory_size other t ≡ ok (memory_pages m + delta, t))
memory_size-memory_grow maps protects refs other a m s delta named also here h fits ready =
    let grown =
      subst (λ out. Grown s a m out (memory_grow maps protects refs delta s))
        (growth-fits (page_limit m.type) (memory_pages m) delta fits)
        (memory_grow-Grown maps protects refs a m s delta named here h (omega arith) ready) in
    (
      grown.0,
      grown.1,
      memory_size-read other a m grown.0 (memory_pages m + delta) also grown.2 (omega arith),
    )
