-- ===== src/Runtime/Context/Linked.antt =====
-- What holds of every context that the constructor of src/context.cpp makes.
use wembed.Base.{
  ok_injective, ℕ, ◌≡◌, refl, subst, ap, Bool, Bool-cases, Option-cases, inl, inr, true, false,
  ◌&&◌, List, [], ◌∷◌, some, All, ◌==◌, Result, ok, throw, Stateful, ◌>>=◌, return, arith,
}
use wembed.Lang.{ExternalKind, ek_function, ek_table, ek_memory, ek_global, ek_other, MemoryType}
use wembed.Llvm.{Llvm}
use wembed.Module.{Module, Import}
use wembed.Runtime.Memory.{MemoryRefs, mem}
use wembed.Runtime.Table.{TableRefs, tab}
use wembed.Runtime.Link.{
  Symbols, same_name, find_symbol, emplace, Resolvers, bind_first, bind_symbol, refuses,
  link_import, link_imports,
}
use wembed.Runtime.Link.Provided.{IsProvided, Binds-IsProvided}
use wembed.Runtime.Context.{World, Context, get_pointer}
use wembed.Runtime.Context.Construct.{
  base_memory_name, table_ptrs_name, table_types_name, Host, new_context, lift, on_store, on_tables,
  memory_symbols, table_symbols,
}

both : (a b : Bool) → (a && b) ≡ true → (a ≡ true) × (b ≡ true)
both true b e = (refl, e)
both false b e = absurd (cc)

same_number : (x y : ℕ) → (x == y) ≡ true → x ≡ y
same_number x y e = ground arith

same_name-equal : (a b : List ℕ) → same_name a b ≡ true → a ≡ b
same_name-equal [] [] e = refl
same_name-equal (x ∷ a) (y ∷ b) e =
    let (head, tail) = both (x == y) (same_name a b) e in
    let first = same_number x y head in let rest = same_name-equal a b tail in cc
same_name-equal [] (y ∷ b) e = absurd (cc)
same_name-equal (x ∷ a) [] e = absurd (cc)

-- Every symbol of the first is the same in the second.
abbrev Keeps : Symbols → Symbols → Type 0
Keeps s t = (name : List ℕ) (p : ℕ) → find_symbol name s ≡ some p → find_symbol name t ≡ some p

emplace-Keeps : (n : List ℕ) (q : ℕ) (s : Symbols) → Keeps s (emplace n q s)
unfolding emplace find_symbol
emplace-Keeps n q s name p e = elim (Option-cases (find_symbol n s)) [
  | inr (r, there) ↦ rw there e
  | inl new ↦ rw new (elim (Bool-cases (same_name n name)) [
    | inl same ↦ absurd (let known = ap (λ k. find_symbol k s) (same_name-equal n name same) in cc)
    | inr other ↦ rw other e
  ])
]

-- The two parts of a run that gives a result.
bound :
    {S A B : Type 0} (c : Stateful S A) (f : A → Stateful S B) (s : S) (b : B) (u : S)
    → (c >>= f) s ≡ ok (b, u)
    → (a : A) × (t : S) × (c s ≡ ok (a, t)) × (f a t ≡ ok (b, u))
unfolding ◌>>=◌
bound {S} {A} {B} c f s b u e = first (c s) refl e
  where
    first :
        (r : Result (A × S))
        → c s ≡ r
        → elim r [ ok (a, t) ↦ f a t | throw x ↦ throw x ] ≡ ok (b, u)
        → (a : A) × (t : S) × (c s ≡ ok (a, t)) × (f a t ≡ ok (b, u))
    first (ok (a, t)) same e = (a, t, same, e)
    first (throw x) same e = absurd (cc)

-- Every result of the code satisfies `P`.
abbrev Ensures : {S A : Type 0} → (A → Type 0) → Stateful S A → Type 0
Ensures {S} {A} P c = (s : S) (a : A) (t : S) → c s ≡ ok (a, t) → P a

Ensures-bind :
    {S A B : Type 0} {P : A → Type 0} (Q : B → Type 0) (c : Stateful S A) (f : A → Stateful S B)
    → Ensures P c
    → ((a : A) → P a → Ensures Q (f a))
    → Ensures Q (c >>= f)
Ensures-bind Q c f h k s b u e =
    let (a, t, first, rest) = bound c f s b u e in k a (h s a t first) t b u rest

-- A part whose result does not matter.
Ensures-after :
    {S A B : Type 0} (Q : B → Type 0) (c : Stateful S A) (f : A → Stateful S B)
    → ((a : A) → Ensures Q (f a))
    → Ensures Q (c >>= f)
Ensures-after Q c f k = Ensures-bind {P = λ a. Unit {0}} Q c f (λ s a t e. tt) (λ a x. k a)

pair_injective :
    {A S : Type 0} (a b : A) (s t : S) → ◌≡◌ {A = Result (A × S)} (ok (a, s)) (ok (b, t)) → a ≡ b
pair_injective a b s t e = cc

Ensures-return : {S A : Type 0} (P : A → Type 0) (a : A) → P a → Ensures P (return {S = S} a)
Ensures-return P a p s b t e = subst P (pair_injective a b s t e) p

Ensures-lift : {A : Type 0} (r : Result A) → Ensures (λ a. r ≡ ok a) (lift r)
Ensures-lift (ok b) w a u e = cc
Ensures-lift (throw x) w a u e = absurd (cc)

module _ ⦃L : Llvm⦄ (name_of : L.Value → List ℕ) (resolvers : Resolvers) where
  bound_first :
      (vs : List L.Value) (p : ℕ) (s t : Symbols)
      → bind_first name_of resolvers vs p s ≡ ok t
      → Keeps s t
  bound_first [] p s t e = absurd (cc)
  bound_first (v ∷ vs) p s t e =
      subst (Keeps s) (ok_injective _ t e) (emplace-Keeps (name_of v) p s)

  bind_symbol-Keeps :
      (k : ExternalKind) (vs : List L.Value) (p : ℕ) (s t : Symbols)
      → bind_symbol name_of resolvers k vs p s ≡ ok t
      → Keeps s t
  unfolding bind_symbol
  bind_symbol-Keeps ek_memory vs p s t e = subst (Keeps s) (ok_injective s t e) (λ n q h. h)
  bind_symbol-Keeps ek_table vs p s t e = subst (Keeps s) (ok_injective s t e) (λ n q h. h)
  bind_symbol-Keeps ek_function vs p s t e = bound_first vs p s t e
  bind_symbol-Keeps ek_global vs p s t e = bound_first vs p s t e
  bind_symbol-Keeps (ek_other b) vs p s t e = bound_first vs p s t e

  link_import-Keeps :
      (i : Import L) (s t : Symbols) → link_import name_of resolvers i s ≡ ok t → Keeps s t
  unfolding link_import
  link_import-Keeps i s t e = elim (Option-cases (resolvers i.name.module_name)) [
    | inl unknown ↦ absurd (let q = rw unknown at e in cc)
    | inr (resolver, known) ↦
        let q = rw known at e in
        elim (Bool-cases (refuses name_of resolvers (resolver i.name.field_name) i.symbol)) [
          | inl bad ↦ absurd (let x = rw bad at q in cc)
          | inr good ↦ bind_symbol-Keeps _ _ _ s t (rw good at q)
        ]
  ]

  link_imports-Keeps :
      (is : List (Import L)) (s u : Symbols)
      → link_imports name_of resolvers is s ≡ ok u
      → Keeps s u
  unfolding link_imports
  link_imports-Keeps [] s u e = subst (Keeps s) (ok_injective s u e) (λ n q h. h)
  link_imports-Keeps (i ∷ is) s u e =
      after (λ t h. link_imports-Keeps is t u h) (link_import name_of resolvers i s) refl e
    where
      after :
          ((t : Symbols) → link_imports name_of resolvers is t ≡ ok u → Keeps t u)
          → (r : Result Symbols) → link_import name_of resolvers i s ≡ r
          → elim r [ ok t ↦ link_imports name_of resolvers is t | throw x ↦ throw x ] ≡ ok u
          → Keeps s u
      after later (ok t) h e = λ n q known. later t e n q (link_import-Keeps i s t h n q known)
      after later (throw x) h e = absurd (cc)

module _ (h : Host) where
  memory_symbols-Keeps :
      (types : List MemoryType) (refs : MemoryRefs) (s : Symbols)
      → Ensures (Keeps s) (memory_symbols h types refs s)
  memory_symbols-Keeps [] refs s = Ensures-return (Keeps s) s (λ n q k. k)
  memory_symbols-Keeps (type ∷ types) refs s =
      Ensures-after (Keeps s) (on_store (mem refs)) _
        λ a. Ensures-return (Keeps s) _ (emplace-Keeps base_memory_name (h.data_of a) s)

  table_symbols-Keeps :
      {A : Type 0} (types : List A) (refs : TableRefs) (s : Symbols)
      → Ensures (Keeps s) (table_symbols h types refs s)
  table_symbols-Keeps [] refs s = Ensures-return (Keeps s) s (λ n q k. k)
  table_symbols-Keeps (type ∷ types) refs s = Ensures-after (Keeps s) (on_tables (tab refs)) _ λ a.
      Ensures-return (Keeps s) _ λ n q k.
        emplace-Keeps table_types_name (h.types_of a) _ n q
          (emplace-Keeps table_ptrs_name (h.pointers_of a) s n q k)

  module _ ⦃L : Llvm⦄ (name_of : L.Value → List ℕ) where
    -- The imports of the module are there, and the symbols built in too.
    abbrev Linked : Module L → Context → Type 0
    Linked m c = All (IsProvided name_of h.resolvers) m.imports × Keeps h.builtins c.symbols

    new_context-Linked :
        (fresh_memory fresh_table : ℕ) (m : Module L)
        → Ensures (Linked m) (new_context h name_of fresh_memory fresh_table m)
    unfolding new_context
    new_context-Linked fresh_memory fresh_table m =
        Ensures-bind (Linked m) _ _ (Ensures-lift _) λ imported links.
          Ensures-after (Linked m) _ _ λ memory.
            Ensures-bind (Linked m) _ _ (memory_symbols-Keeps m.memory_types memory imported)
              λ with_memory named. Ensures-after (Linked m) _ _ λ table.
                Ensures-bind (Linked m) _ _ (table_symbols-Keeps m.tables table with_memory)
                  λ symbols complete. Ensures-after (Linked m) _ _ λ start.
                    Ensures-after (Linked m) _ _ λ a. Ensures-after (Linked m) _ _ λ b.
                      Ensures-return (Linked m) _ (
                        Binds-IsProvided name_of h.resolvers m.imports h.builtins imported links,
                        λ n q k. complete n q (
                            named n q (
                              link_imports-Keeps name_of h.resolvers m.imports h.builtins imported
                                links n q k)),
                      )

    get_pointer-known :
        (symbols : Symbols) (name : List ℕ) (p : ℕ)
        → find_symbol name symbols ≡ some p
        → get_pointer h.engine symbols name ≡ ok p
    unfolding get_pointer
    get_pointer-known symbols name p e = rw e refl

    -- Where the constructor gives a context, the program provides every import of the module, of the
    -- declared kind and type, and every symbol that was built in has its address still.
    pub new_context-IsProvided :
        (fresh_memory fresh_table : ℕ) (m : Module L) (w u : World) (c : Context) (name : List ℕ)
        (p : ℕ)
        → new_context h name_of fresh_memory fresh_table m w ≡ ok (c, u)
        → find_symbol name h.builtins ≡ some p
        → All (IsProvided name_of h.resolvers) m.imports
          × (get_pointer h.engine c.symbols name ≡ ok p)
    new_context-IsProvided fresh_memory fresh_table m w u c name p e known =
        let (provided, kept) = new_context-Linked fresh_memory fresh_table m w c u e in
        (provided, get_pointer-known c.symbols name p (kept name p known))
