-- ===== src/Examples/Machine.antt =====
-- A small instance of the LLVM interface: a value is its type and its bits, computed when it is
-- built.
use wembed.Base.{
  ◌∙◌, length, ltb, ℕ, ◌+◌, ◌-◌, ◌*◌, ◌/◌, ◌%◌, ◌^◌, ◌<◌, ◌≡◌, refl, arith, bit_and, bit_or, List,
  [], ◌∷◌, map, ap, Bool, true, false, not, none, if◌then◌else◌, ◌==◌,
}
use native.Mathlib.Nat.{mod-lt, mod-eq_of_lt, div-le_self}
use wembed.Base.Bits.{bit_and_le, bit_or_lt}
use wembed.Base.Powers.{two_pow_pos, two_pow_le}
use wembed.Lang.Types.{Ty, FnType, void, i64, pointer}
use wembed.Module.{Module, ExternSym}
use wembed.Llvm.{Llvm, TypeLaws}
use wembed.Llvm.Flow.{FlowLaws, Event, built, done, IsTerminator}
use wembed.Examples.Blocks.{
  at_block, add_at, add_block, length-add_at, length-add_block, at_block-add_at,
  at_block-add_at_away, at_block-add_block, at_block-new,
}
use wembed.Llvm.Bits.{BitLaws, width, flag}
use wembed.Llvm.Instructions.{
  Effect, position_at_end, br, cond_br, ret, ret_void, unreachable, Instr, result_type, binary,
  cast, icmp, select, alloca, and, or, sub, shl, lshr, int_eq, int_ne,
}

pub record Word : Type 0 where
  pub type : Ty
  pub element : Ty
  pub function : FnType
  pub parameters : List Ty
  pub pattern : ℕ

abbrev no_function : FnType
no_function = record { ret = void; params = [] }

abbrev pub word : Ty → ℕ → Word
word t n = record { type = t; element = t; function = no_function; parameters = []; pattern = n }

abbrev pub bits : Word → ℕ
bits v = v.pattern % 2 ^ width v.type

abbrev evaluate : Instr Word ℕ → ℕ
evaluate (binary and x y) = bit_and (bits x) (bits y)
evaluate (binary or x y) = bit_or (bits x) (bits y)
evaluate (binary sub x y) = (bits x + 2 ^ width x.type - bits y) % 2 ^ width x.type
evaluate (binary shl x y) = bits x * 2 ^ bits y % 2 ^ width x.type
evaluate (binary lshr x y) = bits x / 2 ^ bits y
evaluate (cast op v t) = bits v
evaluate (icmp int_eq x y) = flag (bits x == bits y)
evaluate (icmp int_ne x y) = flag (not (bits x == bits y))
evaluate (select c x y) = if bits c == 0 then bits y else bits x
evaluate i = 0

abbrev pointee : Instr Word ℕ → Ty
pointee (alloca t) = t
pointee i = void

abbrev mixed : ℕ → ℕ → ℕ
mixed seed v = seed * 31 + v

-- The blocks so far, and the one in which the builder stands.
pub record Code : Type 0 where
  pub place : ℕ
  pub blocks : List (List (Event Word ℕ))

-- One block with nothing in it.
abbrev pub no_code : Code
no_code = record { place = 0; blocks = [] ∷ [] }

abbrev ended : Effect Word ℕ → Code → Code
ended e b = record b { blocks = add_at b.place (done e) b.blocks }

abbrev emitted : Effect Word ℕ → Code → Code
emitted (position_at_end k) b = record b { place = k }
emitted (br k) b = ended (br k) b
emitted (cond_br c j k) b = ended (cond_br c j k) b
emitted (ret v) b = ended (ret v) b
emitted ret_void b = ended ret_void b
emitted unreachable b = ended unreachable b
emitted e b = b

abbrev pub machine : Llvm
machine = record {
  Value = Word;
  Block = ℕ;
  Builder = Code;
  type_of = λ v. v.type;
  function_type = λ v. v.function;
  element_type = λ v. v.element;
  params = λ v. map (λ t. word t 0) v.function.params;
  const_int = word;
  const_real = word;
  is_constant = λ v. true;
  build = λ i b. (
    record {
      type = result_type (λ v. v.type) (λ v. v.function) (λ v. v.element) i;
      element = pointee i;
      function = no_function;
      parameters = [];
      pattern = evaluate i;
    },
    record b { blocks = add_at b.place (built i) b.blocks },
  );
  emit = emitted;
  append_block = λ f b. (length b.blocks, record b { blocks = add_block b.blocks });
  insert_block = λ b. b.place;
  count_incoming = λ v b. 1;
  same_block = λ a b. a == b;
  add_function = λ t b. (record (word (pointer void) 0) { function = t }, b);
  add_global = λ t b. (record (word (pointer t) 0) { element = t }, b);
  string_address = λ s. 4096;
  type_address = λ t. width t;
  hash_combine = mixed;
  is_global_constant = λ v b. false;
  verification_error = λ b. none;
}

map-types : (ts : List Ty) → map (λ (v : Word). v.type) (map (λ t. word t 0) ts) ≡ ts
map-types [] = refl
map-types (t ∷ ts) = ap (λ us. t ∷ us) (map-types ts)

pub machine-TypeLaws : TypeLaws machine
machine-TypeLaws = record {
  type_of-build = λ i b. refl;
  type_of-const_int = λ t n. refl;
  type_of-const_real = λ t n. refl;
  element_type-alloca = λ t b. refl;
  element_type-add_global = λ t b. refl;
  function_type-add_function = λ t b. refl;
  params-function_type = λ f. map-types f.function.params;
}

flag-bit : (b : Bool) → flag b % 2 ≡ flag b
flag-bit true = refl
flag-bit false = refl

if-cut : (b : Bool) (x y w : ℕ) → x < w → y < w → (if b then y else x) % w ≡ (if b then y else x)
if-cut true x y w h i = mod-eq_of_lt i
if-cut false x y w h i = mod-eq_of_lt h

bits-cut : (v : Word) → bits v < 2 ^ width v.type
bits-cut v = mod-lt v.pattern (two_pow_pos (width v.type))

twice_cut : (n k : ℕ) → n % 2 ^ k % 2 ^ k ≡ n % 2 ^ k
twice_cut n k = mod-eq_of_lt (mod-lt n (two_pow_pos k))

pub machine-BitLaws : BitLaws machine bits
machine-BitLaws = record {
  bits-lt = bits-cut;
  bits-const_int = λ t n. refl;
  bits-zext =
      λ v t b h. mod-eq_of_lt (omega (arith, bits-cut v, two_pow_le (width v.type) (width t) h));
  bits-bit_cast = λ v t b h. mod-eq_of_lt (rw (← h) (bits-cut v));
  bits-and = λ x y b. mod-eq_of_lt (omega (arith, bits-cut x, bit_and_le (bits x) (bits y)));
  bits-or = λ x y b h.
      mod-eq_of_lt (bit_or_lt (width x.type) (bits x) (bits y) (bits-cut x) (rw h (bits-cut y)));
  bits-sub = λ x y b. twice_cut _ (width x.type);
  bits-shl = λ x y b h. twice_cut _ (width x.type);
  bits-lshr =
      λ x y b h. mod-eq_of_lt (omega (arith, bits-cut x, div-le_self (bits x) (2 ^ bits y)));
  bits-icmp_eq = λ x y b. flag-bit (bits x == bits y);
  bits-icmp_ne = λ x y b. flag-bit (not (bits x == bits y));
  bits-select = λ c x y b h.
      if-cut (bits c == 0) (bits x) (bits y) (2 ^ width x.type) (bits-cut x) (rw h (bits-cut y));
}

pub above : (n : ℕ) → ltb n n ≡ false
above n = ground arith

pub one_above : (n m : ℕ) → m ≡ n + 1 → ltb n m ≡ true
one_above n m e = ground arith

pub still_below : (k n m : ℕ) → m ≡ n + 1 → ltb k n ≡ true → ltb k m ≡ true
still_below k n m e h = ground arith

pub known-emitted :
    (e : Effect Word ℕ) (b : Code) (k : ℕ)
    → ltb k (length (emitted e b).blocks) ≡ ltb k (length b.blocks)
known-emitted (position_at_end j) b k = refl
known-emitted (br j) b k = ap (λ n. ltb k n) (length-add_at b.place _ b.blocks)
known-emitted (cond_br c i j) b k = ap (λ n. ltb k n) (length-add_at b.place _ b.blocks)
known-emitted (ret v) b k = ap (λ n. ltb k n) (length-add_at b.place _ b.blocks)
known-emitted ret_void b k = ap (λ n. ltb k n) (length-add_at b.place _ b.blocks)
known-emitted unreachable b k = ap (λ n. ltb k n) (length-add_at b.place _ b.blocks)
known-emitted e b k = refl

-- A terminator goes to the end of the block.
pub emitted-ended : (e : Effect Word ℕ) (b : Code) → IsTerminator e → emitted e b ≡ ended e b
emitted-ended (br j) b h = refl
emitted-ended (cond_br c i j) b h = refl
emitted-ended (ret v) b h = refl
emitted-ended ret_void b h = refl
emitted-ended unreachable b h = refl
emitted-ended e b h = absurd h

unfoldable pub machine_flow : FlowLaws machine
machine_flow = record {
  known = λ b k. ltb k (length b.blocks);
  code = λ b k. at_block b.blocks k;
  insert_block-append = λ f b. refl;
  insert_block-build = λ i b. refl;
  insert_block-terminator = λ e b h. ap (λ (c : Code). c.place) (emitted-ended e b h);
  insert_block-position = λ k b. refl;
  insert_block-move = λ j k b. refl;
  known-new = λ f b. above (length b.blocks);
  known-appended = λ f b. one_above (length b.blocks) _ (length-add_block b.blocks);
  code-appended = λ f b. at_block-new b.blocks;
  known-append = λ f b k h. still_below k (length b.blocks) _ (length-add_block b.blocks) h;
  code-append = λ f b k h. at_block-add_block b.blocks k;
  known-build = λ i b k. ap (λ n. ltb k n) (length-add_at b.place _ b.blocks);
  known-emit = known-emitted;
  code-build = λ i b h. at_block-add_at b.place (built i) b.blocks h;
  code-build_away = λ i b k h. at_block-add_at_away b.place k (built i) b.blocks h;
  code-terminator = λ e b t h.
      ap (λ (c : Code). at_block c.blocks b.place) (emitted-ended e b t)
      ∙ at_block-add_at b.place (done e) b.blocks h;
  code-terminator_away = λ e b k t h.
      ap (λ (c : Code). at_block c.blocks k) (emitted-ended e b t)
      ∙ at_block-add_at_away b.place k (done e) b.blocks h;
  code-position = λ j b k. refl;
  code-move = λ i j b k. refl;
}

abbrev pub nobody : ExternSym
nobody = record { module_name = []; field_name = [] }

-- A module of nothing.
abbrev pub blank : Module machine
blank = record {
  reader = record { input = []; current = 0 };
  builder = no_code;
  import_func_offset = 0;
  unreachable_depth = 0;
  memory_types = [];
  memory_import = nobody;
  table_import = nobody;
  base_memory = word i64 0;
  context_ref = word i64 0;
  tables = [];
  start_func = word i64 0;
  start_init = 0;
  start_user = 0;
  eval_stack = [];
  cf_entries = [];
  block_entries = [];
  types = [];
  globals = [];
  functions = [];
  exports = [];
  imports = [];
}
