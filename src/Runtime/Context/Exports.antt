-- ===== src/Runtime/Context/Exports.antt =====
-- What a program gets from a context by name, and what it gives to one.
use wembed.Base.{
  ok_injective, nonzero, ℕ, ◌≡◌, ◌≢◌, ◌↔◌, refl, sym, ◌∙◌, ap, arith, inl, inr, true, List, [], ◌∷◌,
  Option, none, some, ◌==◌, Result, ok, throw, ◌⊎◌,
}
use wembed.Lang.{ExternalKind, ek_function, ek_table, ek_memory, ek_global, ek_other}
use wembed.Lang.Types.{FnType}
use wembed.Utils.{hash_fn_type}
use wembed.Utils.Hash.{hash_fn_type-hash_fn_ctype}
use wembed.Llvm.{Llvm}
use wembed.Module.{Module, Symbol, Import}
use wembed.Module.Sections.Exports.{find_export}
use wembed.Runtime.Link.{
  ResolveResult, Resolver, Resolvers, Symbols, kind_number, link_import, bind_symbol, emplace,
}
use wembed.Runtime.Context.{
  Context, get_pointer, answered, first_pointer, pointer_of, get_export, get_fn, get_global,
  exported, checked_by, checked_fn, checked_global, expose_func,
}

module _ (engine : List ℕ → Result ℕ) ⦃L : Llvm⦄ (name_of : L.Value → List ℕ) (m : Module L)
    (c : Context) where
  -- An export of this name and kind with a first value, whose address is this one and not null.
  abbrev pub Exports : List ℕ → ℕ → ℕ → Type 0
  Exports name kind p =
      (s : Symbol L) × (v : L.Value) × (vs : List L.Value) × (find_export name m.exports ≡ some s)
      × (kind_number s.kind ≡ kind)
      × (s.values ≡ v ∷ vs)
      × (get_pointer engine c.symbols (name_of v) ≡ ok p)
      × (p ≢ 0)

  checked_fn-ok :
      (r : ResolveResult) (p : ℕ)
      → checked_fn engine name_of m c r ≡ ok p
      → (r.pointer ≡ p) × (p ≢ 0) × (kind_number r.kind ≡ 0)
  checked_fn-ok r p e = ground arith

  answered-ok :
      (k : ExternalKind) (h : ℕ) (x : Result ℕ) (r : ResolveResult)
      → answered engine name_of m c k h x ≡ ok r
      → (p : ℕ) × (x ≡ ok p) × (r.pointer ≡ p) × (r.kind ≡ k)
  answered-ok k h (ok p) r e = (
    p,
    refl,
    ap (λ (q : ResolveResult). q.pointer) (sym (ok_injective _ _ e)),
    ap (λ (q : ResolveResult). q.kind) (sym (ok_injective _ _ e)),
  )
  answered-ok k h (throw x) r e = absurd (cc)

  first_pointer-ok :
      (vs : List L.Value) (p : ℕ)
      → first_pointer engine name_of m c vs ≡ ok p
      → (v : L.Value) × (us : List L.Value) × (vs ≡ v ∷ us)
        × (get_pointer engine c.symbols (name_of v) ≡ ok p)
  first_pointer-ok [] p e = absurd (cc)
  first_pointer-ok (v ∷ vs) p e = (v, vs, refl, e)

  -- A function or a global is found by its name.
  pointer_of-ok :
      (k : ExternalKind) (vs : List L.Value) (p : ℕ)
      → (kind_number k ≡ 0) ⊎ (kind_number k ≡ 3)
      → pointer_of engine name_of m c k vs ≡ ok p
      → (v : L.Value) × (us : List L.Value) × (vs ≡ v ∷ us)
        × (get_pointer engine c.symbols (name_of v) ≡ ok p)
  pointer_of-ok ek_table vs p (inl h) e = absurd (omega (arith, h))
  pointer_of-ok ek_table vs p (inr h) e = absurd (omega (arith, h))
  pointer_of-ok ek_memory vs p (inl h) e = absurd (omega (arith, h))
  pointer_of-ok ek_memory vs p (inr h) e = absurd (omega (arith, h))
  pointer_of-ok ek_function vs p h e = first_pointer-ok vs p e
  pointer_of-ok ek_global vs p h e = first_pointer-ok vs p e
  pointer_of-ok (ek_other b) vs p h e = first_pointer-ok vs p e

  pointer_of-found :
      (k : ExternalKind) (v : L.Value) (vs : List L.Value) (p : ℕ)
      → (kind_number k ≡ 0) ⊎ (kind_number k ≡ 3)
      → get_pointer engine c.symbols (name_of v) ≡ ok p
      → pointer_of engine name_of m c k (v ∷ vs) ≡ ok p
  pointer_of-found ek_table v vs p (inl h) e = absurd (omega (arith, h))
  pointer_of-found ek_table v vs p (inr h) e = absurd (omega (arith, h))
  pointer_of-found ek_memory v vs p (inl h) e = absurd (omega (arith, h))
  pointer_of-found ek_memory v vs p (inr h) e = absurd (omega (arith, h))
  pointer_of-found ek_function v vs p h e = e
  pointer_of-found ek_global v vs p h e = e
  pointer_of-found (ek_other b) v vs p h e = e

  exported-Exports :
      (name : List ℕ) (o : Option (Symbol L)) (r : ResolveResult) (k p : ℕ)
      → find_export name m.exports ≡ o
      → (k ≡ 0) ⊎ (k ≡ 3)
      → exported engine name_of m c o ≡ ok r
      → r.pointer ≡ p
      → p ≢ 0
      → kind_number r.kind ≡ k
      → Exports name k p
  exported-Exports name none r k p found h e f n g =
      absurd (n (sym f ∙ ap (λ (q : ResolveResult). q.pointer) (sym (ok_injective _ _ e))))
  exported-Exports name (some s) r k p found h e f n g =
      let (q, there, same, kind) =
        answered-ok s.kind s.type_hash (pointer_of engine name_of m c s.kind s.values) r e in
      let numbered : kind_number s.kind ≡ k = ap kind_number (sym kind) ∙ g in
      let (v, vs, values, pointer) = pointer_of-ok s.kind s.values q (rw numbered h) there in
      (s, v, vs, found, numbered, values, pointer ∙ ap ok (sym same ∙ f), n)

  checked_global-ok :
      (r : ResolveResult) (p : ℕ)
      → checked_global engine name_of m c r ≡ ok p
      → (r.pointer ≡ p) × (p ≢ 0) × (kind_number r.kind ≡ 3)
  checked_global-ok r p e = ground arith

  -- A call of `get_export` that is checked.
  through :
      (f : ResolveResult → Result ℕ) (x : Result ResolveResult) (p : ℕ)
      → checked_by engine name_of m c f x ≡ ok p
      → (r : ResolveResult) × (x ≡ ok r) × (f r ≡ ok p)
  through f (ok r) p e = (r, refl, e)
  through f (throw x) p e = absurd (cc)

  get_export-found :
      (name : List ℕ) (s : Symbol L) (v : L.Value) (vs : List L.Value) (p : ℕ)
      → find_export name m.exports ≡ some s
      → (kind_number s.kind ≡ 0) ⊎ (kind_number s.kind ≡ 3)
      → s.values ≡ v ∷ vs
      → get_pointer engine c.symbols (name_of v) ≡ ok p
      → get_export engine name_of m c name
        ≡ ok (record { pointer = p; kind = s.kind; type_hash = s.type_hash })
  unfolding get_export
  get_export-found name s v vs p found kind values there =
      rw (found, values, pointer_of-found s.kind v vs p kind there) refl

  get_export-exported :
      (name : List ℕ)
      → get_export engine name_of m c name
        ≡ exported engine name_of m c (find_export name m.exports)
  unfolding get_export
  get_export-exported name = refl

  -- `get_fn` returns a function that calls an address exactly where the module exports a function
  -- by the name, and the address of its value is that one and not null. The types are not compared.
  pub get_fn-Exports :
      (name : List ℕ) (p : ℕ) → (get_fn engine name_of m c name ≡ ok p) ↔ Exports name 0 p
  unfolding get_fn
  get_fn-Exports name p = (
    λ e.
        let (r, there, good) =
          through (checked_fn engine name_of m c) (get_export engine name_of m c name) p e in
        let (same, n, kind) = checked_fn-ok r p good in
        exported-Exports name (find_export name m.exports) r 0 p refl (inl refl)
          (sym (get_export-exported name) ∙ there) same n kind,
    λ (s, v, vs, found, kind, values, there, n).
        ap (checked_by engine name_of m c (checked_fn engine name_of m c))
          (get_export-found name s v vs p found (inl kind) values there)
        ∙ rw (nonzero p n, kind) refl,
  )

  -- `get_global` likewise for a global.
  pub get_global-Exports :
      (name : List ℕ) (p : ℕ) → (get_global engine name_of m c name ≡ ok p) ↔ Exports name 3 p
  unfolding get_global
  get_global-Exports name p = (
    λ e.
        let (r, there, good) =
          through (checked_global engine name_of m c) (get_export engine name_of m c name) p e in
        let (same, n, kind) = checked_global-ok r p good in
        exported-Exports name (find_export name m.exports) r 3 p refl (inr refl)
          (sym (get_export-exported name) ∙ there) same n kind,
    λ (s, v, vs, found, kind, values, there, n).
        ap (checked_by engine name_of m c (checked_global engine name_of m c))
          (get_export-found name s v vs p found (inr kind) values there)
        ∙ rw (nonzero p n, kind) refl,
  )

self_equal : (n : ℕ) → (n == n) ≡ true
self_equal n = ground arith

module _ ⦃L : Llvm⦄ (name_of : L.Value → List ℕ) (resolvers : Resolvers) where
  -- What `expose_func` makes of a C++ function links with the import of a function of the same
  -- result and parameters, if its address is not null: the import's first value is bound to the
  -- address, unless it is already.
  pub link_import-expose_func :
      (i : Import L) (resolver : Resolver) (type : FnType) (v : L.Value) (vs : List L.Value) (p : ℕ)
      (symbols : Symbols)
      → resolvers i.name.module_name ≡ some resolver
      → i.symbol ≡ record { kind = ek_function; type_hash = hash_fn_type type; values = v ∷ vs }
      → resolver i.name.field_name ≡ expose_func p type.ret type.params
      → p ≢ 0
      → link_import name_of resolvers i symbols ≡ ok (emplace (name_of v) p symbols)
  unfolding link_import expose_func bind_symbol
  link_import-expose_func i resolver type v vs p symbols known made given there =
      let hashes = sym (hash_fn_type-hash_fn_ctype type.ret type.params) in
      rw (known, made, given, hashes, nonzero p there, self_equal (hash_fn_type type)) refl
