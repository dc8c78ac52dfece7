-- ===== src/Runtime/Memory.antt =====
-- `virtual_mapping` of src/posix.cpp, `memory` of inc/wembed/context.hpp, and the intrinsics
-- `memory_grow` and `memory_size` of src/intrinsics.cpp. `protects n` says whether `mprotect` makes
-- the first `n` bytes of the mapping accessible, and `maps` whether `mmap` reserves it: the kernel
-- is not part of the repository.
use wembed.Base.{
  ℕ, ◌+◌, ◌*◌, ◌/◌, ◌%◌, ◌^◌, ◌-◌, bit_or, Bool, true, false, ◌&&◌, ◌||◌, Option, none, some, ltb,
  ◌==◌, if◌then◌else◌, Result, ok, throw, bad_alloc, bad_optional, null_pointer, Stateful, ◌>>=◌,
  ◌>>◌, return,
}
use wembed.Lang.{
  ResizableLimits, MemoryType, has_maximum, page_size, max_pages, memory_initial, memory_maximum,
}

-- `mCurSize`
pub record VirtualMapping : Type 0 where
  pub cur_size : ℕ

pub record Memory : Type 0 where
  pub type : MemoryType
  pub impl : VirtualMapping

-- The memories at their addresses. Contexts share a memory by its address.
abbrev pub Store : Type 0
Store = ℕ → Option Memory

-- `mExternalMemory`, and the address of `mSelfMemory` where it has a value.
pub record MemoryRefs : Type 0 where
  pub external_memory : Option ℕ
  pub self_memory : Option ℕ

-- `memory::size` and `memory::capacity`.
abbrev pub memory_pages : Memory → ℕ
memory_pages m = m.impl.cur_size / page_size

abbrev pub memory_capacity : Memory → ℕ
memory_capacity m = memory_maximum m.type

-- The memory at an address.
abbrev loaded : Option Memory → Store → Result (Memory × Store)
loaded none s = throw null_pointer
loaded (some m) s = ok (m, s)

abbrev pub load_memory : ℕ → Stateful Store Memory
load_memory a s = loaded (s a) s

abbrev pub stored : ℕ → Memory → Store → Store
stored a m s = λ b. if b == a then some m else s b

abbrev pub self_or : Option ℕ → Option ℕ → Option ℕ
self_or (some a) own = some a
self_or none own = own

abbrev address_of : Option ℕ → Store → Result (ℕ × Store)
address_of (some a) s = ok (a, s)
address_of none s = throw bad_optional

-- `context::mem`
unfoldable pub mem : MemoryRefs → Stateful Store ℕ
mem refs = address_of (self_or refs.external_memory refs.self_memory)

-- `lLimits.mFlags & 0x1 && lNewSize > lLimits.mMaximum`
abbrev pub reached_limit : ResizableLimits → ℕ → Bool
reached_limit l size = has_maximum l && ltb l.maximum size

module _ (maps : Bool) (protects : ℕ → Bool) where
  unfoldable pub mapping_resize : ℕ → VirtualMapping → Result VirtualMapping
  mapping_resize size v =
      if protects size then ok (record v { cur_size = size }) else throw bad_alloc

  unfoldable pub new_mapping : ℕ → Result VirtualMapping
  unfolding mapping_resize
  new_mapping initial =
      if maps
      then (if ltb 0 initial
          then mapping_resize initial (record { cur_size = 0 })
          else ok (record { cur_size = 0 }))
      else throw bad_alloc

  abbrev with_impl : MemoryType → Result VirtualMapping → Result Memory
  with_impl type (ok impl) = ok (record { type = type; impl = impl })
  with_impl type (throw e) = throw e

  -- `memory(const memory_type &)`
  unfoldable pub memory_of_type : MemoryType → Result Memory
  unfolding new_mapping memory_initial
  memory_of_type type = with_impl type (new_mapping (memory_initial type * page_size % 2 ^ 64))

  abbrev limits_of : ResizableLimits → ℕ → Option ℕ → ResizableLimits
  limits_of unset initial none = record unset { initial = initial }
  limits_of unset initial (some maximum) = record {
    flags = bit_or unset.flags 0x1;
    initial = initial;
    maximum = maximum;
  }

  -- `memory(uint32_t, std::optional<uint32_t>)`. The product has the 32 bits of its factors, and the
  -- limits hold what stands in memory where nothing has been written.
  unfoldable pub memory_of_size : ResizableLimits → ℕ → Option ℕ → Result Memory
  unfolding new_mapping
  memory_of_size unset initial maximum =
      with_impl (record { limits = limits_of unset initial maximum })
        (new_mapping (initial * page_size % 2 ^ 32))

  abbrev resized : Memory → Result VirtualMapping → Result Memory
  resized m (ok impl) = ok (record m { impl = impl })
  resized m (throw e) = throw e

  -- `memory::resize`
  unfoldable pub memory_resize : ℕ → Memory → Result Memory
  unfolding mapping_resize
  memory_resize size m = resized m (mapping_resize (size * page_size % 2 ^ 64) m.impl)

  abbrev store_resized : ℕ → Result Memory → Store → Result (Unit {0} × Store)
  store_resized a (ok m) s = ok (tt, stored a m s)
  store_resized a (throw e) s = throw e

  -- `memory_grow` behind the lookup of the memory. The `catch` is for an exception that `resize` does
  -- not throw.
  unfoldable pub grow_at : ℕ → Memory → ℕ → Stateful Store ℕ
  unfolding memory_resize
  grow_at a m delta s =
      let previous = memory_pages m in
      let size = (previous + delta) % 2 ^ 64 in
      if ltb max_pages size || reached_limit m.type.limits size
      then ok (2 ^ 32 - 1, s)
      else (do
        (if ltb 0 delta then store_resized a (memory_resize size m) else return tt)
        return (previous % 2 ^ 32))
          s

  unfoldable pub memory_grow : MemoryRefs → ℕ → Stateful Store ℕ
  unfolding mem grow_at
  memory_grow refs delta = do a ← mem refs; m ← load_memory a; grow_at a m delta

abbrev is_none : Option ℕ → Bool
is_none none = true
is_none (some a) = false

unfoldable pub memory_size : MemoryRefs → Stateful Store ℕ
unfolding mem
memory_size refs = do
  a ← mem refs
  (if is_none refs.external_memory && is_none refs.self_memory
      then return 0
      else (do m ← load_memory a; return (memory_pages m % 2 ^ 32)))
