-- ===== src/Runtime/Link/Provided.antt =====
-- Which modules link: all the imports must be there, of the declared kind and type.
use wembed.Base.{
  ℕ, ◌≡◌, ◌≢◌, ◌↔◌, ◌⊎◌, inl, inr, refl, sym, ◌∙◌, arith, Bool-cases, true, false, List, [], ◌∷◌,
  Option-cases, none, some, All, Result, ok, throw, Exception, unlinkable,
}
use wembed.Lang.{ExternalKind, ek_function, ek_table, ek_memory, ek_global, ek_other}
use wembed.Llvm.{Llvm}
use wembed.Module.{Import, Symbol}
use wembed.Runtime.Link.{
  ResolveResult, Resolver, Resolvers, kind_number, Symbols, bind_symbol, refuses, link_import,
  link_imports,
}

module _ ⦃L : Llvm⦄ (name_of : L.Value → List ℕ) (resolvers : Resolvers) where
  -- The program resolves the import to something of the declared kind and type.
  abbrev pub IsProvided : Import L → Type 0
  IsProvided i =
      (resolver : Resolver) × (resolvers i.name.module_name ≡ some resolver)
      × ((resolver i.name.field_name).pointer ≢ 0)
      × (kind_number (resolver i.name.field_name).kind ≡ kind_number i.symbol.kind)
      × ((resolver i.name.field_name).type_hash ≡ i.symbol.type_hash)

  -- A symbol has a value, as the parser makes them.
  abbrev pub HasValue : Import L → Type 0
  HasValue i = (v : L.Value) × (vs : List L.Value) × (i.symbol.values ≡ v ∷ vs)

  abbrev pub Binds : Result Symbols → Type 0
  Binds r = (s : Symbols) × (r ≡ ok s)

  refuses_iff :
      (r : ResolveResult) (s : Symbol L)
      → (refuses name_of resolvers r s ≡ false) ↔ (
          (r.pointer ≢ 0) × (kind_number r.kind ≡ kind_number s.kind) × (r.type_hash ≡ s.type_hash))
  refuses_iff r s = ground arith

  bind_symbol-Binds :
      (k : ExternalKind) (v : L.Value) (vs : List L.Value) (p : ℕ) (s : Symbols)
      → Binds (bind_symbol name_of resolvers k (v ∷ vs) p s)
  unfolding bind_symbol
  bind_symbol-Binds ek_function v vs p s = (_, refl)
  bind_symbol-Binds ek_table v vs p s = (_, refl)
  bind_symbol-Binds ek_memory v vs p s = (_, refl)
  bind_symbol-Binds ek_global v vs p s = (_, refl)
  bind_symbol-Binds (ek_other b) v vs p s = (_, refl)

  link_import-Binds :
      (i : Import L) (s : Symbols)
      → HasValue i
      → IsProvided i
      → Binds (link_import name_of resolvers i s)
  unfolding link_import
  link_import-Binds i s (v, vs, e) (resolver, found, there, kind, type) =
      let accepted = (refuses_iff (resolver i.name.field_name) i.symbol).1 (there, kind, type) in
      rw (found, accepted, e) (bind_symbol-Binds _ v vs _ s)

  no_success : {e : Exception} {t : Symbols} (r : Result Symbols) → r ≡ throw e → r ≡ ok t → ⊥
  no_success r p q = cc

  unknown_module :
      (i : Import L) (s : Symbols)
      → resolvers i.name.module_name ≡ none
      → link_import name_of resolvers i s ≡ throw (unlinkable "import from unknown module")
  unfolding link_import
  unknown_module i s e = rw e refl

  refused_symbol :
      (i : Import L) (s : Symbols) (resolver : Resolver)
      → resolvers i.name.module_name ≡ some resolver
      → refuses name_of resolvers (resolver i.name.field_name) i.symbol ≡ true
      → link_import name_of resolvers i s ≡ throw (unlinkable "can't import symbol")
  unfolding link_import
  refused_symbol i s resolver found e = rw (found, e) refl

  IsProvided-link_import :
      (i : Import L) (s t : Symbols) → link_import name_of resolvers i s ≡ ok t → IsProvided i
  IsProvided-link_import i s t e = elim (Option-cases (resolvers i.name.module_name)) [
    | inl none_there ↦ absurd (no_success _ (unknown_module i s none_there) e)
    | inr (resolver, found) ↦
        elim (Bool-cases (refuses name_of resolvers (resolver i.name.field_name) i.symbol)) [
          | inl bad ↦ absurd (no_success _ (refused_symbol i s resolver found bad) e)
          | inr good ↦
              let (there, kind, type) =
                (refuses_iff (resolver i.name.field_name) i.symbol).0 good in
              (resolver, found, there, kind, type)
        ]
  ]

  first_fails :
      (i : Import L) (is : List (Import L)) (s : Symbols) (e : Exception)
      → link_import name_of resolvers i s ≡ throw e
      → link_imports name_of resolvers (i ∷ is) s ≡ throw e
  unfolding link_imports
  first_fails i is s e h = rw (h, link_imports) refl

  first_binds :
      (i : Import L) (is : List (Import L)) (s t : Symbols)
      → link_import name_of resolvers i s ≡ ok t
      → link_imports name_of resolvers (i ∷ is) s ≡ link_imports name_of resolvers is t
  unfolding link_imports
  first_binds i is s t h = rw (h, link_imports) refl

  IsProvided-Binds :
      (is : List (Import L)) (s : Symbols)
      → All HasValue is
      → All IsProvided is
      → Binds (link_imports name_of resolvers is s)
  unfolding link_imports
  IsProvided-Binds [] s vs ps = (s, refl)
  IsProvided-Binds (i ∷ is) s (v, vs) (p, ps) =
      let (t, e) = link_import-Binds i s v p in
      let (u, q) = IsProvided-Binds is t vs ps in (u, first_binds i is s t e ∙ q)

  Result-cases : (r : Result Symbols) → Binds r ⊎ ((e : Exception) × (r ≡ throw e))
  Result-cases (ok s) = inl (s, refl)
  Result-cases (throw e) = inr (e, refl)

  pub Binds-IsProvided :
      (is : List (Import L)) (s u : Symbols)
      → link_imports name_of resolvers is s ≡ ok u
      → All IsProvided is
  Binds-IsProvided [] s u e = tt
  Binds-IsProvided (i ∷ is) s u e = elim (Result-cases (link_import name_of resolvers i s)) [
    | inl (t, h) ↦
        (IsProvided-link_import i s t h, Binds-IsProvided is t u (sym (first_binds i is s t h) ∙ e))
    | inr (x, h) ↦ absurd (no_success _ (first_fails i is s x h) e)
  ]

  -- The imports link exactly where the program provides every one of them, of the declared kind and
  -- type, for imports that have a value each.
  pub link_imports-IsProvided :
      (is : List (Import L)) (s : Symbols)
      → All HasValue is
      → Binds (link_imports name_of resolvers is s) ↔ All IsProvided is
  link_imports-IsProvided is s vs =
      (λ (u, e). Binds-IsProvided is s u e, λ ps. IsProvided-Binds is s vs ps)
