-- ===== src/Module/Skip/Immediates.antt =====
-- The immediates that the skipping code of `module::parse_section_code` reads over.
use wembed.Base.{
  Option, none, ℕ, zero, suc, ◌+◌, ◌*◌, ◌/◌, ◌%◌, ◌^◌, ◌<◌, ◌≡◌, ◌≢◌, refl, subst, ◌∙◌, ap, arith,
  List, [], ◌∷◌, ◌++◌, some, ◌⊎◌, inl, inr, ◌==◌, if◌then◌else◌, length, length-append, get_elem?,
  drop, drop-append, ok, ◌>>=◌, return,
}
use wembed.Lang.Types.{Ty, void, i32, i64, float, double}
use wembed.Reader.{Reader, Parser, next_byte, parse, parse_uleb128}
use wembed.Reader.Leb.{leb128_encoding, parse_uleb128-encoding}
use wembed.Module.Control.{parse_llvm_btype, value_type, parse_targets}
use wembed.Module.Skip.{
  Skip, nested, at_else, at_end, skip_byte, skip_index, skip_index64, skip_float, skip_double,
  skip_call, skip_access, skip_access64, skip_table, skip_none, skip_immediates, advance,
}

-- `p` reads exactly these bytes, wherever they stand, and returns `a`.
pub record ReadsTo {A : Type 0} (p : Parser A) (bytes : List ℕ) (a : A) : Type 0 where
  pub at :
      (r : Reader) (rest : List ℕ)
      → drop r.current r.input ≡ bytes ++ rest
      → p r ≡ ok (a, record r { current = r.current + length bytes })

moved : {A : Type 0} {m n : ℕ} (f : ℕ → A) → m ≡ n → f m ≡ f n
moved f e = ap f e

pub reads_return : {A : Type 0} (a : A) → ReadsTo (return {S = Reader} a) [] a
reads_return a = record {
  at = λ r rest e. moved (λ n. ok (a, record r { current = n })) (omega arith);
}

pub append_assoc : (xs ys zs : List ℕ) → (xs ++ ys) ++ zs ≡ xs ++ (ys ++ zs)
append_assoc [] ys zs = refl
append_assoc (x ∷ xs) ys zs = ap (λ ws. x ∷ ws) (append_assoc xs ys zs)

pub reads_bind :
    {A B : Type 0} {p : Parser A} (f : A → Parser B) {xs ys : List ℕ} {a : A} {b : B}
    → ReadsTo p xs a
    → ReadsTo (f a) ys b
    → ReadsTo (p >>= f) (xs ++ ys) b
unfolding ◌>>=◌
reads_bind f {xs = xs} {ys = ys} {b = b} h k = record {
  at = λ r rest e.
      let first = h.at r (ys ++ rest) (e ∙ append_assoc xs ys rest) in
      let second =
        k.at (record r { current = r.current + length xs }) rest
          (drop-append r.current (r.current + length xs) r.input xs (ys ++ rest)
            (e ∙ append_assoc xs ys rest) refl) in
      rw (first, ◌>>=◌)
        (second
          ∙ moved (λ n. ok (b, record r { current = n })) (omega (arith, length-append xs ys)));
}

pub reads_advance : (b : ℕ) → ReadsTo advance (b ∷ []) tt
reads_advance b = record { at = λ r rest e. refl }

get_elem?-drop :
    (n : ℕ) (xs : List ℕ) (y : ℕ) (ys : List ℕ) → drop n xs ≡ y ∷ ys → get_elem? xs n ≡ some y
get_elem?-drop zero [] y ys e = absurd cc
get_elem?-drop zero (x ∷ xs) y ys e = cc
get_elem?-drop (suc n) [] y ys e = absurd cc
get_elem?-drop (suc n) (x ∷ xs) y ys e = get_elem?-drop n xs y ys e

pub reads_next_byte : (b : ℕ) → ReadsTo next_byte (b ∷ []) b
unfolding next_byte
reads_next_byte b = record { at = λ r rest e. rw (get_elem?-drop r.current r.input b rest e) refl }

pub length-leb128_encoding : (k v : ℕ) → length (leb128_encoding k v) ≡ k + 1
length-leb128_encoding zero v = refl
length-leb128_encoding (suc k) v = omega (arith, length-leb128_encoding k (v / 128))

pub reads_uleb128 :
    (w k v : ℕ)
    → v < 128 ^ suc k
    → 7 * k < w
    → ReadsTo (parse_uleb128 w) (leb128_encoding k v) (v % 2 ^ w)
reads_uleb128 w k v h i = record {
  at = λ r rest e. rw (length-leb128_encoding k v) (parse_uleb128-encoding r k v w rest e h i);
}

-- Bytes that `parse_uleb128` reads for a type of `w` bits, and their number.
abbrev pub IsUleb128 : ℕ → List ℕ → ℕ → Type 0
IsUleb128 w bytes n =
    (k : ℕ) × (v : ℕ) × (v < 128 ^ suc k)
    × (7 * k < w)
    × (bytes ≡ leb128_encoding k v)
    × (n ≡ v % 2 ^ w)

-- `parse_llvm_btype` knows the byte.
abbrev pub IsBlockType : ℕ → Type 0
IsBlockType b = (b ≡ 64) ⊎ ((b ≡ 127) ⊎ ((b ≡ 126) ⊎ ((b ≡ 125) ⊎ (b ≡ 124))))

-- That many numbers, one after another.
abbrev pub AreTargets : ℕ → List ℕ → Type 0
AreTargets zero bytes = bytes ≡ []
AreTargets (suc count) bytes =
    (xs : List ℕ) × (ys : List ℕ) × (n : ℕ) × (bytes ≡ xs ++ ys)
    × IsUleb128 32 xs n
    × AreTargets count ys

abbrev pub AreIndices : ℕ → List ℕ → Type 0
AreIndices w bytes =
    (xs : List ℕ) × (ys : List ℕ) × (m : ℕ) × (n : ℕ) × (bytes ≡ xs ++ ys)
    × IsUleb128 32 xs m
    × IsUleb128 w ys n

-- The bytes that wasm puts behind an opcode of that kind.
abbrev pub IsImmediate : Skip → List ℕ → Type 0
IsImmediate nested bytes = (b : ℕ) × (bytes ≡ b ∷ []) × IsBlockType b
IsImmediate skip_byte bytes = (b : ℕ) × (bytes ≡ b ∷ [])
IsImmediate skip_index bytes = (n : ℕ) × IsUleb128 32 bytes n
IsImmediate skip_index64 bytes = (n : ℕ) × IsUleb128 64 bytes n
IsImmediate skip_float bytes = length bytes ≡ 4
IsImmediate skip_double bytes = length bytes ≡ 8
IsImmediate skip_call bytes =
    (xs : List ℕ) × (b : ℕ) × (n : ℕ) × (bytes ≡ xs ++ (b ∷ [])) × IsUleb128 32 xs n
IsImmediate skip_access bytes = AreIndices 32 bytes
IsImmediate skip_access64 bytes = AreIndices 64 bytes
IsImmediate skip_table bytes =
    (xs : List ℕ) × (ys : List ℕ) × (zs : List ℕ) × (count : ℕ) × (n : ℕ) × (bytes
      ≡ xs ++ (ys ++ zs))
    × IsUleb128 32 xs count
    × AreTargets count ys
    × IsUleb128 32 zs n
IsImmediate at_else bytes = bytes ≡ []
IsImmediate at_end bytes = bytes ≡ []
IsImmediate skip_none bytes = bytes ≡ []

-- The blocks that are open behind what a label reads over, `none` where it ends the dead code.
abbrev pub nesting : Skip → ℕ → Option ℕ
nesting nested depth = some (suc depth)
nesting at_else zero = none
nesting at_else (suc depth) = some (suc depth)
nesting at_end zero = none
nesting at_end (suc depth) = some depth
nesting s depth = some depth

reads_uleb :
    (w : ℕ) (bytes : List ℕ) (n : ℕ) → IsUleb128 w bytes n → ReadsTo (parse_uleb128 w) bytes n
reads_uleb w bytes n (k, v, h, i, e, f) = rw (e, f) (reads_uleb128 w k v h i)

append-nil : (xs : List ℕ) → xs ++ [] ≡ xs
append-nil [] = refl
append-nil (x ∷ xs) = ap (λ ws. x ∷ ws) (append-nil xs)

-- A last step that reads nothing.
reads_last :
    {A B : Type 0} {p : Parser A} (g : A → B) (xs : List ℕ) (a : A)
    → ReadsTo p xs a
    → ReadsTo (p >>= λ x. return (g x)) xs (g a)
reads_last {p = p} g xs a h =
    subst (λ bytes. ReadsTo (p >>= λ x. return (g x)) bytes (g a)) (append-nil xs)
      (reads_bind (λ x. return (g x)) h (reads_return (g a)))

reads_parse : (bytes : List ℕ) → (n : ℕ) × ReadsTo (parse (length bytes)) bytes n
unfolding parse
reads_parse [] = (0, reads_return 0)
reads_parse (b ∷ bytes) =
    let (n, h) = reads_parse bytes in
    (
      b + 256 * n,
      reads_bind (λ low. parse (length bytes) >>= λ high. return (low + 256 * high))
          (reads_next_byte b) (reads_last (λ high. b + 256 * high) bytes n h),
    )

reads_targets :
    (count : ℕ) (bytes : List ℕ)
    → AreTargets count bytes
    → (ts : List ℕ) × ReadsTo (parse_targets count) bytes ts
unfolding parse_targets
reads_targets zero bytes e = ([], rw e (reads_return []))
reads_targets (suc count) bytes (xs, ys, n, e, h, k) =
    let (ts, rest) = reads_targets count ys k in
    (
      n ∷ ts,
      rw e (
          reads_bind (λ target. parse_targets count >>= λ targets. return (target ∷ targets))
            (reads_uleb 32 xs n h) (reads_last (λ targets. n ∷ targets) ys ts rest)),
    )

reads_indices :
    (w : ℕ) (bytes : List ℕ)
    → AreIndices w bytes
    → ReadsTo (parse_uleb128 32 >>= λ x. parse_uleb128 w >>= λ y. return tt) bytes tt
reads_indices w bytes (xs, ys, m, n, e, h, k) = rw e (
    reads_bind (λ x. parse_uleb128 w >>= λ y. return tt) (reads_uleb 32 xs m h)
      (reads_last (λ y. tt) ys n (reads_uleb w ys n k)))

reads_call :
    (bytes : List ℕ)
    → IsImmediate skip_call bytes
    → ReadsTo (parse_uleb128 32 >>= λ x. advance) bytes tt
reads_call bytes (xs, b, n, e, h) =
    rw e (reads_bind (λ x. advance) (reads_uleb 32 xs n h) (reads_advance b))

reads_table :
    (bytes : List ℕ) → IsImmediate skip_table bytes → ReadsTo (skip_immediates skip_table) bytes tt
unfolding skip_immediates
reads_table bytes (xs, ys, zs, count, n, e, h, targets, k) =
    let (ts, middle) = reads_targets count ys targets in
    rw e (
      reads_bind (λ c. parse_targets c >>= λ t. parse_uleb128 32 >>= λ d. return tt)
        (reads_uleb 32 xs count h)
        (reads_bind (λ t. parse_uleb128 32 >>= λ d. return tt) middle
          (reads_last (λ d. tt) zs n (reads_uleb 32 zs n k))))

-- The skipping code reads the immediates of every kind of instruction, and nothing else.
pub skip_immediates-ReadsTo :
    (s : Skip) (bytes : List ℕ)
    → s ≢ nested
    → IsImmediate s bytes
    → ReadsTo (skip_immediates s) bytes tt
unfolding skip_immediates
skip_immediates-ReadsTo nested bytes other h = absurd (other refl)
skip_immediates-ReadsTo at_else bytes other e = rw e (reads_return tt)
skip_immediates-ReadsTo at_end bytes other e = rw e (reads_return tt)
skip_immediates-ReadsTo skip_byte bytes other (b, e) = rw e (reads_advance b)
skip_immediates-ReadsTo skip_index bytes other (n, h) =
    reads_last (λ x. tt) bytes n (reads_uleb 32 bytes n h)
skip_immediates-ReadsTo skip_index64 bytes other (n, h) =
    reads_last (λ x. tt) bytes n (reads_uleb 64 bytes n h)
skip_immediates-ReadsTo skip_float bytes other e =
    let (n, h) = reads_parse bytes in reads_last (λ x. tt) bytes n (rw (← e) h)
skip_immediates-ReadsTo skip_double bytes other e =
    let (n, h) = reads_parse bytes in reads_last (λ x. tt) bytes n (rw (← e) h)
skip_immediates-ReadsTo skip_call bytes other h = reads_call bytes h
skip_immediates-ReadsTo skip_access bytes other h = reads_indices 32 bytes h
skip_immediates-ReadsTo skip_access64 bytes other h = reads_indices 64 bytes h
skip_immediates-ReadsTo skip_table bytes other h = reads_table bytes h
skip_immediates-ReadsTo skip_none bytes other e = rw e (reads_return tt)

abbrev type_of_byte : ℕ → Parser Ty
type_of_byte b = if b == 64 then return void else value_type b

pub reads_byte : (b : ℕ) → ReadsTo (parse 1) (b ∷ []) b
unfolding parse
reads_byte b = subst (ReadsTo (parse 1) (b ∷ [])) (low_byte b) (
    reads_bind (λ low. parse 0 >>= λ high. return (low + 256 * high)) (reads_next_byte b)
      (reads_last (λ high. b + 256 * high) [] 0 (reads_return 0)))
  where
    low_byte : (n : ℕ) → n + 256 * 0 ≡ n
    low_byte n = omega arith

pub parse_llvm_btype-ReadsTo :
    (b : ℕ) → IsBlockType b → (t : Ty) × ReadsTo parse_llvm_btype (b ∷ []) t
unfolding parse_llvm_btype value_type
parse_llvm_btype-ReadsTo b (inl e) =
    (void, rw e (reads_bind type_of_byte (reads_byte 64) (reads_return void)))
parse_llvm_btype-ReadsTo b (inr (inl e)) =
    (i32, rw e (reads_bind type_of_byte (reads_byte 127) (reads_return i32)))
parse_llvm_btype-ReadsTo b (inr (inr (inl e))) =
    (i64, rw e (reads_bind type_of_byte (reads_byte 126) (reads_return i64)))
parse_llvm_btype-ReadsTo b (inr (inr (inr (inl e)))) =
    (float, rw e (reads_bind type_of_byte (reads_byte 125) (reads_return float)))
parse_llvm_btype-ReadsTo b (inr (inr (inr (inr e)))) =
    (double, rw e (reads_bind type_of_byte (reads_byte 124) (reads_return double)))
