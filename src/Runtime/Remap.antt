-- ===== src/Runtime/Remap.antt =====
-- How the constructor of `context` in src/context.cpp replaces the function indices in a table by the
-- functions' addresses, once the code is linked. `resolve` is `get_pointer` of a function's name.
use wembed.Base.{
  nonzero, ℕ, zero, suc, ◌-◌, ◌≤◌, ◌<◌, ◌≡◌, ◌≢◌, refl, sym, subst, arith, Bool, Bool-cases, true,
  false, ◌||◌, List, [], ◌∷◌, Option, none, some, ltb, ◌==◌, inl, inr, if◌then◌else◌, length,
  get_elem?, All, Result, ok, throw, unlinkable, overrun,
}
use wembed.Llvm.{Llvm}
use wembed.Module.{FuncDef}

module _ ⦃L : Llvm⦄ (functions : List (FuncDef L)) (resolve : L.Value → Result ℕ) where
  -- `(size_t)lIndice == 0 || (size_t)lIndice > pModule.mFunctions.size()`
  abbrev pub no_index : ℕ → Bool
  no_index entry = (entry == 0) || ltb (length functions) entry

  abbrev with_address : FuncDef L → Result ℕ → Result (ℕ × ℕ)
  with_address f (throw e) = throw e
  with_address f (ok address) =
      if address == 0
      then throw (unlinkable "func in table was opt out")
      else ok (address, f.type_hash)

  abbrev pub relocate : Option (FuncDef L) → Result (ℕ × ℕ)
  relocate none = throw overrun
  relocate (some f) = with_address f (resolve f.value)

  abbrev then_rest : ℕ × ℕ → Result (List ℕ × List ℕ) → Result (List ℕ × List ℕ)
  then_rest (p, t) (ok (ps, ts)) = ok (p ∷ ps, t ∷ ts)
  then_rest (p, t) (throw e) = throw e

  abbrev with_rest : Result (ℕ × ℕ) → Result (List ℕ × List ℕ) → Result (List ℕ × List ℕ)
  with_rest (ok entry) rest = then_rest entry rest
  with_rest (throw e) rest = throw e

  -- One turn of the loop for each of the first `count` entries. A list of the pointers and one of the
  -- type hashes stand for the vectors from `lIndex` on.
  unfoldable pub remap : ℕ → List ℕ → List ℕ → Result (List ℕ × List ℕ)
  remap zero ps ts = ok (ps, ts)
  remap (suc count) (p ∷ ps) (t ∷ ts) =
      let rest = remap count ps ts in
      if no_index p
      then then_rest (p, t) rest
      else with_rest (relocate (get_elem? functions (p - 1))) rest
  remap (suc count) _ _ = throw overrun

  -- Every function has an address, as it has unless LLVM has removed it.
  abbrev pub AllLinked : (L.Value → ℕ) → Type 0
  AllLinked address =
      All (λ f. (resolve f.value ≡ ok (address f.value)) × (address f.value ≢ 0)) functions

  -- What stands in an entry when the table is ready: the address and the type of the function that
  -- the entry numbers from 1, or what was there.
  abbrev found_or : (L.Value → ℕ) → ℕ × ℕ → Option (FuncDef L) → ℕ × ℕ
  found_or address entry none = entry
  found_or address entry (some f) = (address f.value, f.type_hash)

  abbrev pub ready : (L.Value → ℕ) → ℕ → ℕ → ℕ × ℕ
  ready address zero t = (0, t)
  ready address (suc i) t = found_or address (suc i, t) (get_elem? functions i)

  -- Entry by entry, the entries behind the first `count` as they were.
  abbrev pub AllReady : (L.Value → ℕ) → ℕ → List ℕ → List ℕ → List ℕ → List ℕ → Type 0
  AllReady address zero ps ts qs us = (qs ≡ ps) × (us ≡ ts)
  AllReady address (suc count) (p ∷ ps) (t ∷ ts) (q ∷ qs) (u ∷ us) =
      ((q, u) ≡ ready address p t) × AllReady address count ps ts qs us
  AllReady address (suc count) _ _ _ _ = ⊥

  linked_at :
      (address : L.Value → ℕ) (fs : List (FuncDef L)) (i : ℕ)
      → All (λ f. (resolve f.value ≡ ok (address f.value)) × (address f.value ≢ 0)) fs
      → i < length fs
      → (f : FuncDef L) × (get_elem? fs i ≡ some f)
        × (resolve f.value ≡ ok (address f.value))
        × (address f.value ≢ 0)
  linked_at address [] i all h = absurd (omega arith)
  linked_at address (f ∷ fs) zero ((e, n), all) h = (f, refl, e, n)
  linked_at address (f ∷ fs) (suc i) (here, all) h = linked_at address fs i all (omega arith)

  beyond : (fs : List (FuncDef L)) (i : ℕ) → length fs ≤ i → get_elem? fs i ≡ none
  beyond [] i h = refl
  beyond (f ∷ fs) zero h = absurd (omega arith)
  beyond (f ∷ fs) (suc i) h = beyond fs i (omega arith)

  -- An entry that the code takes for no index numbers no function.
  ready-no_index :
      (address : L.Value → ℕ) (p t : ℕ) → no_index p ≡ true → ready address p t ≡ (p, t)
  ready-no_index address zero t e = refl
  ready-no_index address (suc i) t e = rw (beyond functions i (ground arith)) refl

  ready-found :
      (address : L.Value → ℕ) (p t : ℕ) (f : FuncDef L)
      → no_index p ≡ false
      → get_elem? functions (p - 1) ≡ some f
      → ready address p t ≡ (address f.value, f.type_hash)
  ready-found address zero t f e found = absurd (ground arith)
  ready-found address (suc i) t f e found = rw (at_place i found) refl
    where
      at_place : (i : ℕ) → get_elem? functions (suc i - 1) ≡ some f → get_elem? functions i ≡ some f
      at_place i e = subst (λ k. get_elem? functions k ≡ some f) (omega arith) e

  in_range : (p : ℕ) → no_index p ≡ false → p - 1 < length functions
  in_range p e = ground arith

  -- Where every function has an address, replacing the indices in a table succeeds, and each of the
  -- first `count` entries is then the address and the type of its function, or is as it was where it
  -- numbers none.
  pub remap-AllReady :
      (address : L.Value → ℕ) (count : ℕ) (ps ts : List ℕ)
      → AllLinked address
      → count ≤ length ps
      → count ≤ length ts
      → (qs : List ℕ) × (us : List ℕ) × (remap count ps ts ≡ ok (qs, us))
        × AllReady address count ps ts qs us
  unfolding remap
  remap-AllReady address zero ps ts all h k = (ps, ts, refl, (refl, refl))
  remap-AllReady address (suc count) [] ts all h k = absurd (omega arith)
  remap-AllReady address (suc count) (p ∷ ps) [] all h k = absurd (omega arith)
  remap-AllReady address (suc count) (p ∷ ps) (t ∷ ts) all h k =
      let (qs, us, e, good) = remap-AllReady address count ps ts all (omega arith) (omega arith) in
      elim (Bool-cases (no_index p)) [
        | inl skip ↦
            (p ∷ qs, t ∷ us, rw (skip, e) refl, (sym (ready-no_index address p t skip), good))
        | inr index ↦
            let (f, found, linked, there) =
              linked_at address functions (p - 1) all (in_range p index) in
            (
              address f.value ∷ qs,
              f.type_hash ∷ us,
              rw (index, found, linked, nonzero (address f.value) there, e) refl,
              (sym (ready-found address p t f index found), good),
            )
      ]
