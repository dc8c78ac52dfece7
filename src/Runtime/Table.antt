-- ===== src/Runtime/Table.antt =====
-- `table` of inc/wembed/context.hpp, and the intrinsic `table_size` of src/intrinsics.cpp.
use wembed.Base.{
  ℕ, zero, suc, ◌+◌, ◌-◌, ◌%◌, ◌^◌, ◌≡◌, refl, ap, ◌∙◌, arith, bit_or, Bool, true, false, ◌&&◌,
  List, [], ◌∷◌, ◌++◌, Option, none, some, if◌then◌else◌, length, take, Result, ok, throw,
  null_pointer, bad_optional, Stateful, ◌>>=◌, return,
}
use wembed.Lang.{TableType, table_initial, table_maximum}

-- `mType`, `mPointers` and `mTypes`.
pub record RuntimeTable : Type 0 where
  pub type : TableType
  pub pointers : List ℕ
  pub types : List ℕ

abbrev pub zeros : ℕ → List ℕ
zeros zero = []
zeros (suc n) = 0 ∷ zeros n

-- `std::vector::resize`
abbrev pub vector_resize : List ℕ → ℕ → List ℕ
vector_resize xs n = take n xs ++ zeros (n - length xs)

-- `table(const table_type &)`
unfoldable pub table_of_type : TableType → RuntimeTable
unfolding table_initial table_maximum
table_of_type type = record {
  type = type;
  pointers = vector_resize (zeros (table_maximum type + 1)) (table_initial type);
  types = vector_resize (zeros (table_maximum type + 1)) (table_initial type);
}

abbrev sized_type : TableType → ℕ → Option ℕ → TableType
sized_type unset initial none = record unset { limits = record unset.limits { initial = initial } }
sized_type unset initial (some maximum) = record unset {
  limits = record { flags = bit_or unset.limits.flags 0x1; initial = initial; maximum = maximum };
}

-- `table(uint32_t, std::optional<uint32_t>)`. The type holds what stands in memory where nothing has
-- been written.
unfoldable pub table_of_size : TableType → ℕ → Option ℕ → RuntimeTable
unfolding table_initial table_maximum
table_of_size unset initial maximum =
    let type = sized_type unset initial maximum in
    record {
      type = type;
      pointers = vector_resize [] (table_maximum type + 1);
      types = vector_resize [] (table_initial type);
    }

-- `table::size` and `table::capacity`.
unfoldable pub table_slots : RuntimeTable → ℕ
unfolding table_initial
table_slots t = table_initial t.type

unfoldable pub table_capacity : RuntimeTable → ℕ
unfolding table_maximum
table_capacity t = (table_maximum t.type + 2 ^ 64 - 1) % 2 ^ 64

-- `mExternalTable`, and the address of `mSelfTable` where it has a value.
pub record TableRefs : Type 0 where
  pub external_table : Option ℕ
  pub self_table : Option ℕ

abbrev pub Tables : Type 0
Tables = ℕ → Option RuntimeTable

abbrev table_address : Option ℕ → Option ℕ → Tables → Result (ℕ × Tables)
table_address (some a) own s = ok (a, s)
table_address none (some a) s = ok (a, s)
table_address none none s = throw bad_optional

-- `context::tab`
unfoldable pub tab : TableRefs → Stateful Tables ℕ
tab refs = table_address refs.external_table refs.self_table

abbrev loaded : Option RuntimeTable → Tables → Result (RuntimeTable × Tables)
loaded none s = throw null_pointer
loaded (some t) s = ok (t, s)

abbrev pub load_table : ℕ → Stateful Tables RuntimeTable
load_table a s = loaded (s a) s

abbrev absent : Option ℕ → Bool
absent none = true
absent (some a) = false

unfoldable pub table_size : TableRefs → Stateful Tables ℕ
unfolding tab table_slots
table_size refs = do
  a ← tab refs
  (if absent refs.external_table && absent refs.self_table
      then return 0
      else (do t ← load_table a; return (table_slots t % 2 ^ 32)))

length-zeros : (n : ℕ) → length (zeros n) ≡ n
length-zeros zero = refl
length-zeros (suc n) = omega (arith, length-zeros n)

take-zeros : (n m : ℕ) → take n (zeros m) ++ zeros (n - m) ≡ zeros n
take-zeros zero m = ap zeros {y = 0} (omega arith)
take-zeros (suc n) zero = ap zeros {y = suc n} (omega arith)
take-zeros (suc n) (suc m) =
    ap (λ k. 0 ∷ (take n (zeros m) ++ zeros k)) {y = n - m} (omega arith)
    ∙ ap (λ xs. 0 ∷ xs) (take-zeros n m)

-- A table made from its type has as many null pointers and null type hashes as its initial size says,
-- whether or not that is more than its maximum.
pub table_of_type-zeros :
    (type : TableType)
    → (table_of_type type).pointers ≡ zeros (table_initial type)
      × (table_of_type type).types ≡ zeros (table_initial type)
unfolding table_of_type
table_of_type-zeros type =
    let e =
      ap
        (λ k.
          take (table_initial type) (zeros (table_maximum type + 1))
          ++ zeros (table_initial type - k))
        (length-zeros (table_maximum type + 1)) in
    let all = e ∙ take-zeros (table_initial type) (table_maximum type + 1) in (all, all)
