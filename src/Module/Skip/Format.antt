-- ===== src/Module/Skip/Format.antt =====
-- The instructions of the WebAssembly binary format, with the bytes behind each opcode, and that
-- `module::parse_section_code` of src/module.cpp has a label for every one that has some.
use wembed.Base.{
  ℕ, zero, suc, ◌+◌, ◌*◌, ◌%◌, ◌^◌, ◌<◌, ◌≡◌, refl, sym, subst, arith, Bool, Bool-cases, true,
  false, ◌&&◌, ◌||◌, List, [], ◌∷◌, ◌++◌, Option, none, some, inl, inr, ◌==◌, leb, if◌then◌else◌,
  length,
}
use native.Mathlib.Nat.{mod-lt}
use wembed.Base.Powers.{two_pow_pos}
use wembed.Reader.Signed.{ℤ, pos, negsuc, wrap, Within}
use wembed.Reader.Sleb.{sleb128_encoding, seven_bits}
use wembed.Module.Skip.{
  Skip, nested, at_else, at_end, skip_byte, skip_index, skip_index64, skip_float, skip_double,
  skip_call, skip_access, skip_access64, skip_table, skip_none, skip_of, find_skip, skips,
}
use wembed.Module.Skip.Immediates.{
  IsUleb128, IsBlockType, AreTargets, AreIndices, IsImmediate, nesting,
}

-- What the binary format puts behind an opcode; `undefined` for the bytes that are no opcode.
pub data Form : Type 0 where
  block_type else_form end_form plain index branch_table call_form memory_argument reserved : Form
  const32 const64 real32 real64 saturating undefined : Form

abbrev within : ℕ → ℕ → ℕ → Bool
within low high op = leb low op && leb op high

-- The chapter on instructions of the binary format, with its numbers.
unfoldable pub form : ℕ → Form
form op =
    if within 0x00 0x01 op
    then plain
    else if within 0x02 0x04 op
    then block_type
    else if op == 0x05
    then else_form
    else if op == 0x0b
    then end_form
    else if within 0x0c 0x0d op
    then index
    else if op == 0x0e
    then branch_table
    else if op == 0x0f
    then plain
    else if op == 0x10
    then index
    else if op == 0x11
    then call_form
    else if within 0x1a 0x1b op
    then plain
    else if within 0x20 0x24 op
    then index
    else if within 0x28 0x3e op
    then memory_argument
    else if within 0x3f 0x40 op
    then reserved
    else if op == 0x41
    then const32
    else if op == 0x42
    then const64
    else if op == 0x43
    then real32
    else if op == 0x44
    then real64
    else if within 0x45 0xc4 op
    then plain
    else if op == 0xfc
    then saturating
    else undefined

-- A signed number of `w` bits in a number of bytes that starts inside them.
abbrev pub IsSleb128 : ℕ → List ℕ → Type 0
IsSleb128 w bytes =
    (k : ℕ) × (z : ℤ) × (bytes ≡ sleb128_encoding k z) × Within (64 * 128 ^ k) z × (7 * k < w)

-- The bytes of that form.
abbrev pub HasForm : Form → List ℕ → Type 0
HasForm block_type bytes = (b : ℕ) × (bytes ≡ b ∷ []) × IsBlockType b
HasForm else_form bytes = bytes ≡ []
HasForm end_form bytes = bytes ≡ []
HasForm plain bytes = bytes ≡ []
HasForm index bytes = (n : ℕ) × IsUleb128 32 bytes n
HasForm branch_table bytes =
    (xs : List ℕ) × (ys : List ℕ) × (zs : List ℕ) × (count : ℕ) × (n : ℕ) × (bytes
      ≡ xs ++ (ys ++ zs))
    × IsUleb128 32 xs count
    × AreTargets count ys
    × IsUleb128 32 zs n
HasForm call_form bytes = (xs : List ℕ) × (n : ℕ) × (bytes ≡ xs ++ (0 ∷ [])) × IsUleb128 32 xs n
HasForm memory_argument bytes = AreIndices 32 bytes
HasForm reserved bytes = bytes ≡ 0 ∷ []
HasForm const32 bytes = IsSleb128 32 bytes
HasForm const64 bytes = IsSleb128 64 bytes
HasForm real32 bytes = length bytes ≡ 4
HasForm real64 bytes = length bytes ≡ 8
HasForm saturating bytes = (b : ℕ) × (bytes ≡ b ∷ []) × (b < 8)
HasForm undefined bytes = ⊥

-- The accesses to 64 bit integers and doubles, whose offset the code reads as 64 bits.
abbrev is_wide : ℕ → Bool
is_wide op =
    (op == 0x29)
    || ((op == 0x2b)
        || (within 0x30 0x35 op || ((op == 0x37) || ((op == 0x39) || within 0x3c 0x3e op))))

-- The label that the form asks for.
abbrev label : Form → Bool → Skip → Skip
label block_type wide s = nested
label else_form wide s = at_else
label end_form wide s = at_end
label plain wide s = skip_none
label index wide s = skip_index
label branch_table wide s = skip_table
label call_form wide s = skip_call
label memory_argument true s = skip_access64
label memory_argument false s = skip_access
label reserved wide s = skip_byte
label const32 wide s = skip_index
label const64 wide s = skip_index64
label real32 wide s = skip_float
label real64 wide s = skip_double
label saturating wide s = skip_byte
label undefined wide s = s

unfoldable Skip-discrete : Discrete Skip
Skip-discrete = hlevel

abbrev has_label : ℕ → Bool
has_label op = elim (Skip-discrete (skip_of op) (label (form op) (is_wide op) (skip_of op))) [
  | yes _ ↦ true
  | no _ ↦ false
]

abbrev all_below : ℕ → (ℕ → Bool) → Bool
all_below zero test = true
all_below (suc n) test = test n && all_below n test

labels_there : all_below 256 has_label ≡ true
unfolding skip_of find_skip skips form Skip-discrete
labels_there = refl

both : (a b : Bool) → (a && b) ≡ true → (a ≡ true) × (b ≡ true)
both true b e = (refl, e)
both false b e = absurd (cc)

all_below-at : (n : ℕ) (test : ℕ → Bool) (i : ℕ) → all_below n test ≡ true → i < n → test i ≡ true
all_below-at zero test i e h = absurd (omega (arith, h))
all_below-at (suc n) test i e h = elim (Bool-cases (i == n)) [
  | inl same ↦
      let here : n ≡ i = ground arith in
      subst (λ k. test k ≡ true) here (both (test n) (all_below n test) e).0
  | inr other ↦
      let lower : i < n = ground arith in
      all_below-at n test i (both (test n) (all_below n test) e).1 lower
]

skip_of-label : (op : ℕ) → op < 256 → skip_of op ≡ label (form op) (is_wide op) (skip_of op)
skip_of-label op h =
    decided (Skip-discrete (skip_of op) (label (form op) (is_wide op) (skip_of op)))
      (all_below-at 256 has_label op labels_there h)
  where
    decided :
        (d : Dec (skip_of op ≡ label (form op) (is_wide op) (skip_of op)))
        → elim d [ yes _ ↦ true | no _ ↦ false ] ≡ true
        → skip_of op ≡ label (form op) (is_wide op) (skip_of op)
    decided (yes e) h = e
    decided (no n) h = absurd (cc)

-- A signed encoding has the bytes of an unsigned one.
IsSleb128-IsUleb128 : (w : ℕ) (bytes : List ℕ) → IsSleb128 w bytes → (n : ℕ) × IsUleb128 w bytes n
IsSleb128-IsUleb128 w bytes (k, z, e, fits, short) =
    (wrap (7 * (k + 1)) z % 2 ^ w, (k, wrap (7 * (k + 1)) z, wrap_fits z, short, e, refl))
  where
    wrap_fits : (z : ℤ) → wrap (7 * (k + 1)) z < 128 ^ suc k
    wrap_fits (pos n) = rw (← seven_bits k) (mod-lt n (two_pow_pos (7 * (k + 1))))
    wrap_fits (negsuc n) = rw (← seven_bits k) (omega (arith, two_pow_pos (7 * (k + 1))))

widened : (bytes : List ℕ) (n : ℕ) → IsUleb128 32 bytes n → (m : ℕ) × IsUleb128 64 bytes m
widened bytes n (k, v, fits, short, e, f) =
    (v % 2 ^ 64, (k, v, fits, omega (arith, short), e, refl))

HasForm-IsImmediate :
    (f : Form) (wide : Bool) (s : Skip) (bytes : List ℕ)
    → HasForm f bytes
    → IsImmediate (label f wide s) bytes
HasForm-IsImmediate block_type wide s bytes h = h
HasForm-IsImmediate else_form wide s bytes h = h
HasForm-IsImmediate end_form wide s bytes h = h
HasForm-IsImmediate plain wide s bytes h = h
HasForm-IsImmediate index wide s bytes h = h
HasForm-IsImmediate branch_table wide s bytes h = h
HasForm-IsImmediate call_form wide s bytes (xs, n, e, h) = (xs, 0, n, e, h)
HasForm-IsImmediate memory_argument true s bytes (xs, ys, m, n, e, h, k) =
    let (n', k') = widened ys n k in (xs, ys, m, n', e, h, k')
HasForm-IsImmediate memory_argument false s bytes h = h
HasForm-IsImmediate reserved wide s bytes e = (0, e)
HasForm-IsImmediate const32 wide s bytes h = IsSleb128-IsUleb128 32 bytes h
HasForm-IsImmediate const64 wide s bytes h = IsSleb128-IsUleb128 64 bytes h
HasForm-IsImmediate real32 wide s bytes h = h
HasForm-IsImmediate real64 wide s bytes h = h
HasForm-IsImmediate saturating wide s bytes (b, e, h) = (b, e)
HasForm-IsImmediate undefined wide s bytes h = absurd h

-- The bytes behind an opcode are those that its label reads over.
pub HasForm-skip_of :
    (op : ℕ) (bytes : List ℕ) → op < 256 → HasForm (form op) bytes → IsImmediate (skip_of op) bytes
HasForm-skip_of op bytes h k =
    subst (λ s. IsImmediate s bytes) (sym (skip_of-label op h))
      (HasForm-IsImmediate (form op) (is_wide op) (skip_of op) bytes k)

-- The blocks that are open behind an instruction, `none` where it closes one that was not opened, or
-- begins the `else` of one.
abbrev pub nesting_of : Form → ℕ → Option ℕ
nesting_of block_type depth = some (suc depth)
nesting_of else_form zero = none
nesting_of else_form (suc depth) = some (suc depth)
nesting_of end_form zero = none
nesting_of end_form (suc depth) = some depth
nesting_of f depth = some depth

nesting_of-label :
    (f : Form) (wide : Bool) (s : Skip) (bytes : List ℕ) (depth : ℕ)
    → HasForm f bytes
    → nesting_of f depth ≡ nesting (label f wide s) depth
nesting_of-label block_type wide s bytes depth h = refl
nesting_of-label else_form wide s bytes zero h = refl
nesting_of-label else_form wide s bytes (suc depth) h = refl
nesting_of-label end_form wide s bytes zero h = refl
nesting_of-label end_form wide s bytes (suc depth) h = refl
nesting_of-label plain wide s bytes depth h = refl
nesting_of-label index wide s bytes depth h = refl
nesting_of-label branch_table wide s bytes depth h = refl
nesting_of-label call_form wide s bytes depth h = refl
nesting_of-label memory_argument true s bytes depth h = refl
nesting_of-label memory_argument false s bytes depth h = refl
nesting_of-label reserved wide s bytes depth h = refl
nesting_of-label const32 wide s bytes depth h = refl
nesting_of-label const64 wide s bytes depth h = refl
nesting_of-label real32 wide s bytes depth h = refl
nesting_of-label real64 wide s bytes depth h = refl
nesting_of-label saturating wide s bytes depth h = refl
nesting_of-label undefined wide s bytes depth h = absurd h

pub nesting_of-skip_of :
    (op : ℕ) (bytes : List ℕ) (depth : ℕ)
    → op < 256
    → HasForm (form op) bytes
    → nesting_of (form op) depth ≡ nesting (skip_of op) depth
nesting_of-skip_of op bytes depth h k =
    subst (λ s. nesting_of (form op) depth ≡ nesting s depth) (sym (skip_of-label op h))
      (nesting_of-label (form op) (is_wide op) (skip_of op) bytes depth k)
