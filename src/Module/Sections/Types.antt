-- ===== src/Module/Sections/Types.antt =====
-- `module::parse_types` of src/module.cpp reads back what the WebAssembly binary format writes for
-- function types.
use wembed.Base.{
  ℕ, suc, ◌+◌, ◌*◌, ◌^◌, ◌<◌, ◌≡◌, refl, subst, ap, ◌∙◌, arith, List, [], ◌∷◌, ◌++◌, map, Option,
  none, some, All, length, length-append, drop, drop-append, ltb, ◌==◌, if◌then◌else◌, throw_if,
  invalid, ok, ◌>>=◌, ◌>>◌, return,
}
use native.Mathlib.Nat.{mod-eq_of_lt}
use wembed.Reader.{Parser, parse_uleb128}
use wembed.Reader.Leb.{leb128_encoding}
use wembed.Lang.Types.{Ty, FnType, void, i32, i64, float, double}
use wembed.Llvm.{Llvm}
use wembed.Module.{Module}
use wembed.Module.Control.{parse_llvm_vtype, value_type}
use wembed.Module.Skip.Immediates.{
  ReadsTo, reads_return, reads_bind, reads_uleb128, reads_byte, append_assoc,
}
use wembed.Module.Sections.{parse_vtypes, parse_type, parse_type_list, parse_types}

-- The value types of WebAssembly, with their bytes and the types that LLVM has for them.
pub data ValueType : Type 0 where
  int32 int64 float32 float64 : ValueType

abbrev pub code : ValueType → ℕ
code int32 = 0x7f
code int64 = 0x7e
code float32 = 0x7d
code float64 = 0x7c

abbrev pub llvm_type : ValueType → Ty
llvm_type int32 = i32
llvm_type int64 = i64
llvm_type float32 = float
llvm_type float64 = double

-- A function type, and by how many bytes its number of parameters is padded.
pub record Signature : Type 0 where
  pub padding : ℕ
  pub params : List ValueType
  pub result : Option ValueType

abbrev encode_result : Option ValueType → List ℕ
encode_result none = 0 ∷ []
encode_result (some t) = 1 ∷ code t ∷ []

abbrev encode_signature : Signature → List ℕ
encode_signature s =
    0x60
    ∷ (leb128_encoding s.padding (length s.params) ++ (map code s.params ++ encode_result s.result))

abbrev encode_list : List Signature → List ℕ
encode_list [] = []
encode_list (s ∷ ss) = encode_signature s ++ encode_list ss

abbrev pub encode_signatures : ℕ → List Signature → List ℕ
encode_signatures padding ss = leb128_encoding padding (length ss) ++ encode_list ss

-- A number of 32 bits in a number of bytes that starts inside them.
abbrev Fits : ℕ → ℕ → Type 0
Fits padding n = (n < 128 ^ suc padding) × (n < 2 ^ 32) × (7 * padding < 32)

abbrev pub IsEncodable : Signature → Type 0
IsEncodable s = Fits s.padding (length s.params)

abbrev result_type : Option ValueType → Ty
result_type none = void
result_type (some t) = llvm_type t

abbrev pub function_type : Signature → FnType
function_type s = record { ret = result_type s.result; params = map llvm_type s.params }

append_nil : (xs : List ℕ) → xs ++ [] ≡ xs
append_nil [] = refl
append_nil (x ∷ xs) = ap (λ ys. x ∷ ys) (append_nil xs)

-- A last parser, whose result a pure function is applied to.
reads_map :
    {A B : Type 0} {p : Parser A} (f : A → B) {bytes : List ℕ} {a : A}
    → ReadsTo p bytes a
    → ReadsTo (p >>= λ x. return (f x)) bytes (f a)
reads_map {p = p} f {bytes = bytes} {a = a} h =
    subst (λ bs. ReadsTo (p >>= λ x. return (f x)) bs (f a)) (append_nil bytes)
      (reads_bind (λ x. return (f x)) h (reads_return (f a)))

value_type-code : (t : ValueType) → value_type (code t) ≡ return (llvm_type t)
unfolding value_type
value_type-code int32 = refl
value_type-code int64 = refl
value_type-code float32 = refl
value_type-code float64 = refl

reads_value_type : (t : ValueType) → ReadsTo parse_llvm_vtype (code t ∷ []) (llvm_type t)
unfolding parse_llvm_vtype
reads_value_type t =
    reads_bind value_type (reads_byte (code t))
      (rw (value_type-code t) (reads_return (llvm_type t)))

reads_params :
    (ts : List ValueType) → ReadsTo (parse_vtypes (length ts)) (map code ts) (map llvm_type ts)
unfolding parse_vtypes
reads_params [] = reads_return []
reads_params (t ∷ ts) =
    reads_bind _ (reads_value_type t) (reads_map (λ us. llvm_type t ∷ us) (reads_params ts))

reads_size : (k n : ℕ) → Fits k n → ReadsTo (parse_uleb128 32) (leb128_encoding k n) n
reads_size k n h =
    subst (λ v. ReadsTo (parse_uleb128 32) (leb128_encoding k n) v) (mod-eq_of_lt h.1)
      (reads_uleb128 32 k n h.0 h.2)

small : (n : ℕ) → n < 128 → Fits 0 n
small n h = (omega (arith, h), omega (arith, h), omega arith)

abbrev after_params : List Ty → ℕ → Parser FnType
after_params params return_count = do
  throw_if (ltb 1 return_count) (invalid "only one return type supported")
  ret ← (if return_count == 0 then return void else parse_llvm_vtype)
  return (record { ret = ret; params = params })

reads_result :
    (params : List Ty) (o : Option ValueType)
    → ReadsTo
        (parse_uleb128 32 >>= after_params params)
        (encode_result o)
        (record { ret = result_type o; params = params })
reads_result params none =
    reads_bind (after_params params) (reads_size 0 0 (small 0 (omega arith)))
      (reads_bind _ (reads_return tt) (reads_bind _ (reads_return void) (reads_return _)))
reads_result params (some t) =
    reads_bind (after_params params) (reads_size 0 1 (small 1 (omega arith)))
      (reads_bind _ (reads_return tt) (reads_bind _ (reads_value_type t) (reads_return _)))

reads_signature :
    (s : Signature) → IsEncodable s → ReadsTo parse_type (encode_signature s) (function_type s)
unfolding parse_type
reads_signature s h = reads_bind _ (reads_byte 0x60) (
    reads_bind _ (reads_size s.padding (length s.params) h)
      (reads_bind _ (reads_params s.params) (reads_result (map llvm_type s.params) s.result)))

reads_list :
    (ss : List Signature)
    → All IsEncodable ss
    → ReadsTo (parse_type_list (length ss)) (encode_list ss) (map function_type ss)
unfolding parse_type_list
reads_list [] h = reads_return []
reads_list (s ∷ ss) (h, hs) =
    reads_bind _ (reads_signature s h) (reads_map (λ ts. function_type s ∷ ts) (reads_list ss hs))

module _ ⦃L : Llvm⦄ where
  -- What `parse_types` leaves behind.
  abbrev pub with_types : Module L → List FnType → ℕ → Module L
  with_types m types size = record m {
    types = types;
    reader = record m.reader { current = m.reader.current + size };
  }

  -- The type section reads back every list of function types, whose numbers of parameters are padded or not: the
  -- types of the module are then those that LLVM has for them, and the reader stands behind the
  -- section.
  pub parse_types-encoding :
      (padding : ℕ) (ss : List Signature) (rest : List ℕ) (m : Module L)
      → drop m.reader.current m.reader.input ≡ encode_signatures padding ss ++ rest
      → Fits padding (length ss)
      → All IsEncodable ss
      → parse_types m
        ≡ ok (tt, with_types m (map function_type ss) (length (encode_signatures padding ss)))
  unfolding parse_types ◌>>=◌
  parse_types-encoding padding ss rest m here h hs =
      let size = leb128_encoding padding (length ss) in
      let behind = here ∙ append_assoc size (encode_list ss) rest in
      let first = (reads_size padding (length ss) h).at m.reader (encode_list ss ++ rest) behind in
      let second =
        (reads_list ss hs).at (record m.reader { current = m.reader.current + length size }) rest
          (drop-append m.reader.current (m.reader.current + length size) m.reader.input size
            (encode_list ss ++ rest) behind refl) in
      rw (first, ◌>>=◌)
        (rw (second, ◌>>=◌)
          (ap
            (λ n. ok (
              tt,
              record m { types = map function_type ss; reader = record m.reader { current = n } },
            ))
            (omega (arith, length-append size (encode_list ss)))))
