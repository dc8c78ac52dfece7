-- ===== src/Module/Sections/Misread.antt =====
-- The index of a global in an initialiser, which `module::parse_llvm_init` of src/module.cpp reads
-- as a signed number.
use wembed.Base.{
  ℕ, zero, suc, ◌∙◌, ap, ◌+◌, ◌-◌, ◌%◌, ◌^◌, ◌≤◌, ◌<◌, ◌≡◌, refl, arith, List, [], ◌∷◌, length,
  drop, none, drop-append, get_elem?, inl, ok, throw, invalid, ◌>>=◌,
}
use wembed.Reader.{Reader, parse_sleb128}
use wembed.Reader.Signed.{negsuc}
use wembed.Reader.Sleb.{parse_sleb128-encoding}
use wembed.Lang.Types.{Ty}
use wembed.Llvm.{Llvm}
use wembed.Module.{Module}
use wembed.Module.Sections.Init.{init_global, init_value, parse_llvm_init}
use wembed.Module.Skip.Immediates.{reads_byte}
use wembed.Lang.Opcodes.{o_get_global, o_end}

-- A byte from 64 to 127 is the encoding of a negative number.
read_negative :
    (r : Reader) (b : ℕ) (rest : List ℕ)
    → drop r.current r.input ≡ b ∷ rest
    → 64 ≤ b
    → b < 128
    → parse_sleb128 32 r ≡ ok (2 ^ 32 + b - 128, record r { current = r.current + 1 })
read_negative r b rest here low high =
    let same : b ≡ 2 ^ 7 - 1 - (127 - b) % 2 ^ 7 = omega (arith, low, high) in
    let value : 2 ^ 32 - 1 - (127 - b) % 2 ^ 32 ≡ 2 ^ 32 + b - 128 = omega (arith, low, high) in
    parse_sleb128-encoding r 0 32 (negsuc (127 - b)) rest (here ∙ ap (λ n. n ∷ rest) same)
      (omega arith) (omega arith) (inl (omega arith))
    ∙ ap (λ n. ok (n, record r { current = r.current + 1 })) value

beyond : {A : Type 0} (xs : List A) (i : ℕ) → length xs ≤ i → get_elem? xs i ≡ none
beyond [] i h = refl
beyond (x ∷ xs) zero h = absurd (omega (arith, h))
beyond (x ∷ xs) (suc i) h = beyond xs i (omega (arith, h))

module _ ⦃L : Llvm⦄ where
  init_global-read :
      (type : Ty) (b : ℕ) (rest : List ℕ) (m : Module L)
      → drop m.reader.current m.reader.input ≡ b ∷ rest
      → 64 ≤ b
      → b < 128
      → length m.globals < 2 ^ 31
      → init_global type m ≡ throw (invalid "global index out of bounds")
  unfolding init_global ◌>>=◌
  init_global-read type b rest m here low high few =
      rw (read_negative m.reader b rest here low high, ◌>>=◌)
        (rw (beyond m.globals (2 ^ 32 + b - 128) (omega (arith, low, few)), ◌>>=◌) refl)

  -- An initialiser that is the global of an index from 64 to 127, in the shortest encoding, is
  -- refused as out of bounds, of whatever type it is, in a module of less than 2 ^ 31 globals that
  -- has it.
  pub parse_llvm_init-misread :
      (type : Ty) (index : ℕ) (rest : List ℕ) (m : Module L)
      → drop m.reader.current m.reader.input ≡ o_get_global ∷ index ∷ o_end ∷ rest
      → 64 ≤ index
      → index < 128
      → index < length m.globals
      → length m.globals < 2 ^ 31
      → parse_llvm_init type m ≡ throw (invalid "global index out of bounds")
  unfolding parse_llvm_init init_value ◌>>=◌
  parse_llvm_init-misread type index rest m here low high there few =
      let first = (reads_byte o_get_global).at m.reader (index ∷ o_end ∷ rest) here in
      let behind =
        drop-append m.reader.current (m.reader.current + 1) m.reader.input (o_get_global ∷ [])
          (index ∷ o_end ∷ rest) here refl in
      rw (first, ◌>>=◌)
        (rw
          (
            init_global-read type index (o_end ∷ rest)
                (record m { reader = record m.reader { current = m.reader.current + 1 } }) behind
                low high few,
            ◌>>=◌,
          )
          refl)
