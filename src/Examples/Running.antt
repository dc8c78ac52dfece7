-- ===== src/Examples/Running.antt =====
-- The memories of src/intrinsics.cpp and inc/wembed/context.hpp on concrete inputs.
use wembed.Base.{
  ℕ, ◌≡◌, refl, subst, arith, Bool, true, false, none, some, ok, leb, ◌==◌, if◌then◌else◌,
}
use wembed.Lang.{memory_initial, memory_maximum}
use wembed.Module.Keeps.{Post}
use wembed.Runtime.Memory.{
  Memory, Store, MemoryRefs, memory_pages, memory_grow, memory_size, memory_of_size, memory_of_type,
}
use wembed.Runtime.Grow.{IsSized, Grown, memory_grow-Grown, memory_size-memory_grow}
use wembed.Runtime.Sized.{
  AllSized, memory_grow-AllSized, memory_of_type-pages, memory_of_size-pages,
}

-- A memory of one page that may have three.
abbrev one_page : Memory
one_page = record {
  type = record { limits = record { flags = 1; initial = 1; maximum = 3 } };
  impl = record { cur_size = 65536 };
}

abbrev one_memory : Store
one_memory = λ a. if a == 5 then some one_page else none

abbrev own : MemoryRefs
own = record { external_memory = none; self_memory = some 5 }

abbrev foreign : MemoryRefs
foreign = record { external_memory = some 5; self_memory = none }

abbrev granted : ℕ → Bool
granted n = leb n 0x100000000

one_page-IsSized : IsSized one_page
unfolding memory_maximum
one_page-IsSized = record { whole = refl; addressable = omega arith; limited = omega arith }

memory_grow-Grown_example :
    Grown one_memory 5 one_page (1, 3) (memory_grow true granted own 2 one_memory)
unfolding memory_maximum
memory_grow-Grown_example =
    memory_grow-Grown true granted own 5 one_page one_memory 2 refl refl one_page-IsSized
      (omega arith) refl

memory_size-memory_grow_example :
    (t : Store) × (memory_grow true granted own 1 one_memory ≡ ok (1, t))
    × (memory_size foreign t ≡ ok (2, t))
unfolding memory_maximum
memory_size-memory_grow_example =
    memory_size-memory_grow true granted own foreign 5 one_page one_memory 1 refl refl refl
      one_page-IsSized (omega arith) refl

some_same : (m n : Memory) → some m ≡ some n → m ≡ n
some_same m n e = cc

only_page : (b : Bool) (m : Memory) → (if b then some one_page else none) ≡ some m → IsSized m
only_page true m e = subst IsSized (some_same one_page m e) one_page-IsSized
only_page false m e = absurd (ground arith)

one_memory-AllSized : AllSized one_memory
one_memory-AllSized a m e = only_page (a == 5) m e

memory_grow-AllSized_example :
    Post (λ before t. AllSized t) one_memory (memory_grow true granted own 9 one_memory)
memory_grow-AllSized_example =
    memory_grow-AllSized true granted own one_memory 9 (omega arith) one_memory-AllSized

memory_of_type-pages_example : memory_of_type true granted one_page.type ≡ ok one_page
unfolding memory_maximum memory_initial
memory_of_type-pages_example = memory_of_type-pages granted one_page.type (omega arith) refl

memory_of_size-pages_example :
    (m : Memory) × (memory_of_size true granted one_page.type.limits 65536 none ≡ ok m)
    × (memory_pages m ≡ 0)
memory_of_size-pages_example =
    memory_of_size-pages granted one_page.type.limits 65536 none (omega arith) refl
