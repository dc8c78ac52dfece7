-- ===== src/Lang.antt =====
-- The wasm types of inc/wembed/lang.hpp.
pub mod Types
pub mod Opcodes
use wembed.Base.{ℕ, ◌*◌, ◌+◌, ◌%◌, ◌≡◌, bit_and, Bool, true, false, if◌then◌else◌, ◌==◌, not}

-- `sPageSize`, `sMaxPages` and `sMaxTableSize`.
abbrev pub page_size : ℕ
page_size = 64 * 1024

abbrev pub max_pages : ℕ
max_pages = 64 * 1024

abbrev pub max_table_size : ℕ
max_table_size = 256

-- `e_anyfunc`
abbrev pub anyfunc : ℕ
anyfunc = 112

pub record ResizableLimits : Type 0 where
  pub flags : ℕ
  pub initial : ℕ
  pub maximum : ℕ

-- `mFlags & 0x1`
abbrev pub has_maximum : ResizableLimits → Bool
has_maximum l = not (bit_and l.flags 0x1 == 0)

pub record TableType : Type 0 where
  pub elem_type : ℕ
  pub limits : ResizableLimits

pub record MemoryType : Type 0 where
  pub limits : ResizableLimits

unfoldable pub table_initial : TableType → ℕ
table_initial t = t.limits.initial

unfoldable pub table_maximum : TableType → ℕ
table_maximum t = if has_maximum t.limits then t.limits.maximum else max_table_size

unfoldable pub memory_initial : MemoryType → ℕ
memory_initial t = t.limits.initial

unfoldable pub memory_maximum : MemoryType → ℕ
memory_maximum t = if has_maximum t.limits then t.limits.maximum else max_pages

pub data ExternalKind : Type 0 where
  ek_function ek_table ek_memory ek_global : ExternalKind
  -- The cast in `parse_external_kind` lets every other byte through.
  ek_other : ℕ → ExternalKind

-- `(external_kind)` of a byte.
unfoldable pub external_kind : ℕ → ExternalKind
external_kind b =
    if b == 0
    then ek_function
    else if b == 1
    then ek_table
    else if b == 2
    then ek_memory
    else if b == 3
    then ek_global
    else ek_other b
