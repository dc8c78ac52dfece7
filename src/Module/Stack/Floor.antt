-- ===== src/Module/Stack/Floor.antt =====
-- The discipline of the stacks: each control entry has a floor below which its block's code sees no
-- operand and no jump target.
use wembed.Base.{
  ◌==◌, leb_false→lt, ℕ, zero, suc, ◌-◌, ◌≤◌, ◌<◌, ◌≡◌, refl, arith, Bool, true, false, List, [],
  ◌∷◌, Option, some, ltb, leb, Bool-cases, inl, inr, if◌then◌else◌, length, length-drop, get_elem?,
  Result, ok, throw, Exception, ◌>>=◌, ◌>>◌,
}
use wembed.Lang.Types.{Ty}
use wembed.Llvm.{Llvm}
use wembed.Module.{Module, CfEntry, BlockEntry, CfInstr}
use wembed.Module.Keeps.{Post}
use wembed.Module.Stack.{
  resize, back_reachable, push, pop, push_cf_entry, push_block_entry, branch_depth, vector_at,
  skip_unreachable, at_floor, pop_of, unreachable_from,
}

lt→leb_false : (a b : ℕ) → b < a → leb a b ≡ false
lt→leb_false a b h = ground arith

pub get_elem?-lt :
    {A : Type 0} (i : ℕ) (xs : List A) (a : A) → get_elem? xs i ≡ some a → i < length xs
get_elem?-lt i [] a e = absurd (cc)
get_elem?-lt zero (x ∷ xs) a e = omega arith
get_elem?-lt (suc i) (x ∷ xs) a e = omega (arith, get_elem?-lt i xs a e)

-- The elements from the back are those of the list from its head.
vector_at-get_elem? :
    {A : Type 0} (xs : List A) (i : ℕ)
    → i < length xs
    → vector_at xs (length xs - i - 1) ≡ get_elem? xs i
unfolding vector_at
vector_at-get_elem? [] i h = absurd (omega (arith, h))
vector_at-get_elem? (x ∷ xs) zero h =
    let last : (length (x ∷ xs) - 0 - 1 == length xs) ≡ true = ground arith in rw last refl
vector_at-get_elem? (x ∷ xs) (suc i) h =
    let other : (length (x ∷ xs) - suc i - 1 == length xs) ≡ false = ground arith in
    let same : length (x ∷ xs) - suc i - 1 ≡ length xs - i - 1 = omega (arith, h) in
    rw (other, same) (vector_at-get_elem? xs i (omega (arith, h)))

module _ ⦃L : Llvm⦄ where
  -- The floors of the entries, innermost first, never rise outwards, and lie below the tops.
  abbrev pub Floors : ℕ → ℕ → List (CfEntry L) → Type 0
  Floors size depth [] = Unit {0}
  Floors size depth (c ∷ cs) =
      (c.outer_stack_size ≤ size)
      × (c.outer_block_depth ≤ depth)
      × Floors c.outer_stack_size c.outer_block_depth cs

  abbrev pub Nested : Module L → Type 0
  Nested m = Floors (length m.eval_stack) (length m.block_entries) m.cf_entries

  pub Floors-raise :
      (s t d e : ℕ) (cs : List (CfEntry L)) → s ≤ t → d ≤ e → Floors s d cs → Floors t e cs
  Floors-raise s t d e [] h k floors = tt
  Floors-raise s t d e (c ∷ cs) h k (p, q, floors) = (omega arith, omega arith, floors)

  above_floor :
      (s d : ℕ) (cs : List (CfEntry L))
      → at_floor cs (suc s) ≡ false
      → Floors (suc s) d cs
      → Floors s d cs
  above_floor s d [] e floors = tt
  above_floor s d (c ∷ cs) e (p, q, floors) =
      (omega (arith, leb_false→lt (suc s) c.outer_stack_size e), q, floors)

  if-Post :
      {A : Type 0} (b : Bool) (m : Module L) (e : Exception) (r : Result (A × Module L))
      → (b ≡ false → Post (λ before n. Nested n) m r)
      → Post (λ before n. Nested n) m (if b then throw e else r)
  if-Post true m e r k = tt
  if-Post false m e r k = k refl

  pub push-Nested :
      (v : L.Value) (m : Module L) → Nested m → Post (λ before n. Nested n) m (push v m)
  unfolding push
  push-Nested v m h = Floors-raise _ _ _ _ m.cf_entries (omega arith) (omega arith) h

  pub pop-Nested : (m : Module L) → Nested m → Post (λ before n. Nested n) m (pop m)
  unfolding pop
  pop-Nested m h = stacked m.eval_stack h
    where
      stacked :
          (vs : List L.Value)
          → Floors (length vs) (length m.block_entries) m.cf_entries
          → Post (λ before n. Nested n) m (pop_of vs m)
      stacked [] floors = tt
      stacked (v ∷ vs) floors =
          if-Post (at_floor m.cf_entries (suc (length vs))) m _
            (ok (v, record m { eval_stack = vs }))
            (λ e. above_floor (length vs) (length m.block_entries) m.cf_entries e floors)

  pub push_cf_entry-Nested :
      (i : CfInstr) (t : Ty) (b : L.Block) (p : Option L.Value) (e : Option L.Block) (m : Module L)
      → Nested m
      → Post (λ before n. Nested n) m (push_cf_entry i t b p e m)
  unfolding push_cf_entry ◌>>=◌
  push_cf_entry-Nested i t b p e m h = elim (Bool-cases (back_reachable m.cf_entries)) [
    | inl r ↦ rw r (omega arith, omega arith, h)
    | inr r ↦ rw r tt
  ]

  pub push_block_entry-Nested :
      (t : Ty) (b : L.Block) (p : Option L.Value) (m : Module L)
      → Nested m
      → Post (λ before n. Nested n) m (push_block_entry t b p m)
  unfolding push_block_entry
  push_block_entry-Nested t b p m h =
      Floors-raise _ _ _ _ m.cf_entries (omega arith) (omega arith) h

  pub skip_unreachable-Nested :
      (m : Module L) → Nested m → Post (λ before n. Nested n) m (skip_unreachable m)
  unfolding skip_unreachable
  skip_unreachable-Nested m h = entered m.cf_entries h
    where
      resized : (n : ℕ) → n ≤ length m.eval_stack → n ≤ length (resize m.eval_stack n)
      resized n le = omega (arith, length-drop (length m.eval_stack - n) m.eval_stack)

      entered :
          (cs : List (CfEntry L))
          → Floors (length m.eval_stack) (length m.block_entries) cs
          → Post (λ before n. Nested n) m (unreachable_from cs m)
      entered [] floors = tt
      entered (c ∷ cs) (p, q, floors) =
          if-Post (ltb (length m.eval_stack) c.outer_stack_size) m _ _
            (λ e. (resized c.outer_stack_size p, q, floors))

  pushed_above : (s d : ℕ) (cs : List (CfEntry L)) → Floors s d cs → at_floor cs (suc s) ≡ false
  pushed_above s d [] floors = refl
  pushed_above s d (c ∷ cs) (p, q, floors) = ground arith

  -- On stacks in order what is pushed is popped, and everything else is as before.
  pub pop-push : (v : L.Value) (m : Module L) → Nested m → (push v >> pop) m ≡ ok (v, m)
  unfolding push pop ◌>>=◌
  pop-push v m h =
      rw (pushed_above (length m.eval_stack) (length m.block_entries) m.cf_entries h) refl

  abbrev deadened : Module L → CfEntry L → List (CfEntry L) → Module L
  deadened m c cs = record m {
    eval_stack = resize m.eval_stack c.outer_stack_size;
    cf_entries = record c { reachable = false } ∷ cs;
    unreachable_depth = 0;
  }

  branch_depth-lookup :
      (depth : ℕ) (m : Module L) (e : BlockEntry L)
      → get_elem? m.block_entries depth ≡ some e
      → branch_depth depth m ≡ ok (e, m)
  unfolding branch_depth
  branch_depth-lookup depth m e found =
      let inside = get_elem?-lt depth m.block_entries e found in
      rw
        (
          lt→leb_false (length m.block_entries) depth inside,
          vector_at-get_elem? m.block_entries depth inside,
          found,
        )
        refl

  -- Jump targets count from the innermost block: 0 is the block just entered, and every other target
  -- is one further away than outside of it.
  pub branch_depth-push_block_entry :
      (t : Ty) (b : L.Block) (p : Option L.Value) (depth : ℕ) (m : Module L) (e : BlockEntry L)
      → get_elem? m.block_entries depth ≡ some e
      → (n : Module L) × (branch_depth depth m ≡ ok (e, m))
        × (push_block_entry t b p m ≡ ok (tt, n))
        × (branch_depth 0 n ≡ ok (record { signature = t; block = b; phi = p }, n))
        × (branch_depth (suc depth) n ≡ ok (e, n))
  unfolding push_block_entry
  branch_depth-push_block_entry t b p depth m e found =
      let n : Module L = record m {
        block_entries = record { signature = t; block = b; phi = p } ∷ m.block_entries;
      } in
      (
        n,
        branch_depth-lookup depth m e found,
        refl,
        branch_depth-lookup 0 n _ refl,
        branch_depth-lookup (suc depth) n e found,
      )
