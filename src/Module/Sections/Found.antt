-- ===== src/Module/Sections/Found.antt =====
-- The exports of a module are found by their names.
use wembed.Base.{
  ℕ, zero, suc, ◌≡◌, ◌≢◌, Bool, ◌&&◌, ◌==◌, All, some_injective, refl, sym, ◌∙◌, arith, Bool-cases,
  true, false, List, [], ◌∷◌, ◌++◌, Option, Option-cases, none, some, inl, inr, get_elem?, Result,
  ok, throw, subst, throw_if, invalid, ◌>>=◌, ◌>>◌,
}
use wembed.Base.Runs.{Outcome, Outcome-then, Runs, Runs-bind}
use wembed.Reader.{Reader, Parser, parse, parse_uleb128, parse_str}
use wembed.Reader.Forward.{
  Forward, Advances, parse-Advances, parse_uleb128-Advances, parse_str-Advances,
}
use wembed.Lang.{ExternalKind, ek_function, ek_table, ek_memory, ek_global, ek_other, external_kind}
use wembed.Llvm.{Llvm}
use wembed.Module.{Module, M, Symbol, Export, reading}
use wembed.Module.Sections.{same_bytes}
use wembed.Module.Sections.Exports.{
  find_export, is_some, add_export, symbol_of, parse_export, parse_export_list, parse_exports,
}

same_bytes_self : (xs : List ℕ) → same_bytes xs xs ≡ true
same_bytes_self [] = refl
same_bytes_self (x ∷ xs) = rw (same_bytes_self xs) (ground arith)

All-snoc :
    {A : Type 0} (P : A → Type 0) (xs : List A) (y : A) → All P xs → P y → All P (xs ++ (y ∷ []))
All-snoc P [] y hs h = (h, tt)
All-snoc P (x ∷ xs) y (g, hs) h = (g, All-snoc P xs y hs h)

All-get_elem? :
    {A : Type 0} (P : A → Type 0) (xs : List A) (i : ℕ) (y : A)
    → All P xs
    → get_elem? xs i ≡ some y
    → P y
All-get_elem? P [] i y hs e = absurd (cc)
All-get_elem? P (x ∷ xs) zero y (h, hs) e = subst P (some_injective x y e) h
All-get_elem? P (x ∷ xs) (suc i) y (h, hs) e = All-get_elem? P xs i y hs e

both : (a b : Bool) → (a && b) ≡ true → (a ≡ true) × (b ≡ true)
both true b e = (refl, e)
both false b e = absurd (cc)

same_number : (x y : ℕ) → (x == y) ≡ true → x ≡ y
same_number x y e = ground arith

same_bytes-equal : (xs ys : List ℕ) → same_bytes xs ys ≡ true → xs ≡ ys
same_bytes-equal [] [] e = refl
same_bytes-equal (x ∷ xs) (y ∷ ys) e =
    let (head, tail) = both (x == y) (same_bytes xs ys) e in
    let first = same_number x y head in let rest = same_bytes-equal xs ys tail in cc
same_bytes-equal [] (y ∷ ys) e = absurd (cc)
same_bytes-equal (x ∷ xs) [] e = absurd (cc)

module _ ⦃L : Llvm⦄ where
  is_some-false : {A : Type 0} (o : Option A) → is_some o ≡ false → o ≡ none
  is_some-false none e = refl
  is_some-false (some a) e = absurd (cc)

  -- No two exports have the same name.
  abbrev pub AllDistinct : List (Export L) → Type 0
  AllDistinct [] = Unit {0}
  AllDistinct (e ∷ es) = All (λ f. f.name ≢ e.name) es × AllDistinct es

  -- Every export is the one that its name finds.
  abbrev pub AllFound : List (Export L) → Type 0
  AllFound es =
      (i : ℕ) (e : Export L) → get_elem? es i ≡ some e → find_export e.name es ≡ some e.symbol

  -- A name that finds nothing is the name of nothing.
  unfound :
      (name : List ℕ) (es : List (Export L))
      → find_export name es ≡ none
      → All (λ f. f.name ≢ name) es
  unfolding find_export
  unfound name [] e = tt
  unfound name (y ∷ es) e = elim (Bool-cases (same_bytes y.name name)) [
    | inl h ↦ absurd (let q = rw h at e in cc)
    | inr h ↦ (
      λ same.
          let self = subst (λ n. same_bytes y.name n ≡ true) same (same_bytes_self y.name) in cc,
      unfound name es (rw h at e),
    )
  ]

  AllDistinct-snoc :
      (es : List (Export L)) (x : Export L)
      → AllDistinct es
      → All (λ f. f.name ≢ x.name) es
      → AllDistinct (es ++ (x ∷ []))
  AllDistinct-snoc [] x all new = (tt, tt)
  AllDistinct-snoc (y ∷ es) x (others, all) (here, new) = (
    All-snoc (λ f. f.name ≢ y.name) es x others (λ e. here (sym e)),
    AllDistinct-snoc es x all new,
  )

  AllDistinct-AllFound : (es : List (Export L)) → AllDistinct es → AllFound es
  unfolding find_export
  AllDistinct-AllFound [] all i e here = absurd (cc)
  AllDistinct-AllFound (y ∷ es) (others, all) zero e here =
      subst (λ (x : Export L). find_export x.name (y ∷ es) ≡ some x.symbol)
        (some_injective y e here) (rw (same_bytes_self y.name) refl)
  AllDistinct-AllFound (y ∷ es) (others, all) (suc i) e here =
      let other = All-get_elem? (λ f. f.name ≢ y.name) es i e others here in
      elim (Bool-cases (same_bytes y.name e.name)) [
        | inl h ↦ absurd (other (sym (same_bytes-equal y.name e.name h)))
        | inr h ↦ rw h (AllDistinct-AllFound es all i e here)
      ]

  abbrev KeepsDistinct : Module L → Module L → Type 0
  KeepsDistinct m n = AllDistinct m.exports → AllDistinct n.exports

  abbrev Untouched : Module L → {A : Type 0} → Result (A × Module L) → Type 0
  Untouched m r = Outcome (λ (x n : Module L). n.exports ≡ m.exports) m r

  reading-Untouched :
      {A : Type 0} (p : Parser A) (m : Module L) → Advances p → Untouched m (reading p m)
  reading-Untouched {A} p m a = read (p m.reader) (a.at m.reader)
    where
      read :
          (r : Result (A × Reader))
          → Outcome Forward m.reader r
          → Untouched m (elim r [ ok (a, s) ↦ ok (a, record m { reader = s }) | throw e ↦ throw e ])
      read (ok (a, s)) h = refl
      read (throw e) h = h

  symbol_of-Untouched : (k : ExternalKind) (i : ℕ) (m : Module L) → Untouched m (symbol_of k i m)
  unfolding symbol_of ◌>>=◌
  symbol_of-Untouched ek_function i m = elim (Option-cases (get_elem? m.functions i)) [
    | inl e ↦ rw (e, ◌>>=◌) tt
    | inr (f, e) ↦ rw (e, ◌>>=◌) refl
  ]
  symbol_of-Untouched ek_global i m = elim (Option-cases (get_elem? m.globals i)) [
    | inl e ↦ rw (e, ◌>>=◌) tt
    | inr (g, e) ↦ rw (e, ◌>>=◌) refl
  ]
  symbol_of-Untouched ek_table i m = elim (Option-cases (get_elem? m.tables i)) [
    | inl e ↦ rw (e, ◌>>=◌) tt
    | inr (t, e) ↦
        rw (e, ◌>>=◌)
          (elim (Option-cases (get_elem? m.tables 0)) [
            | inl first ↦ rw (first, ◌>>=◌) tt
            | inr (u, first) ↦ rw (first, ◌>>=◌) refl
          ])
  ]
  symbol_of-Untouched ek_memory i m = elim (Option-cases (get_elem? m.memory_types i)) [
    | inl e ↦ rw (e, ◌>>=◌) tt
    | inr (t, e) ↦ rw (e, ◌>>=◌) refl
  ]
  symbol_of-Untouched (ek_other b) i m = tt

  abbrev SameExports : Module L → Module L → Type 0
  SameExports m n = n.exports ≡ m.exports

  added-KeepsDistinct :
      (m n : Module L) (name : List ℕ) (symbol : Symbol L)
      → find_export name m.exports ≡ none
      → n.exports ≡ m.exports
      → AllDistinct m.exports
      → AllDistinct (n.exports ++ (record { name = name; symbol = symbol } ∷ []))
  added-KeepsDistinct m n name symbol new same all =
      subst (λ es. AllDistinct (es ++ (record { name = name; symbol = symbol } ∷ []))) (sym same)
        (AllDistinct-snoc m.exports (record { name = name; symbol = symbol }) all
          (unfound name m.exports new))

  -- What comes behind the test that the name is new.
  rest_of_export-KeepsDistinct :
      (m o : Module L) (name : List ℕ)
      → find_export name m.exports ≡ none
      → o.exports ≡ m.exports
      → Outcome
          (λ x n. KeepsDistinct m n)
          o
          ((do
            kind ← reading (parse 1)
            index ← reading (parse_uleb128 32)
            symbol ← symbol_of (external_kind kind) index
            add_export name symbol)
            o)
  rest_of_export-KeepsDistinct m o name new same =
      Outcome-then (λ x n. KeepsDistinct m n) (SameExports o) _ _ o
        (reading-Untouched (parse 1) o (parse-Advances 1))
        λ kind p e.
          Outcome-then (λ x n. KeepsDistinct m n) (SameExports p) _ _ p
            (reading-Untouched (parse_uleb128 32) p (parse_uleb128-Advances 32))
            λ index q f.
              Outcome-then (λ x n. KeepsDistinct m n) (SameExports q) _ _ q
                (symbol_of-Untouched (external_kind kind) index q)
                λ symbol r g. added-KeepsDistinct m r name symbol new (g ∙ f ∙ e ∙ same)

  new_name-KeepsDistinct :
      (m o : Module L) (name : List ℕ)
      → o.exports ≡ m.exports
      → Outcome
          (λ x n. KeepsDistinct m n)
          o
          ((do
            λ p. throw_if (is_some (find_export name p.exports)) (invalid "duplicate export name") p
            kind ← reading (parse 1)
            index ← reading (parse_uleb128 32)
            symbol ← symbol_of (external_kind kind) index
            add_export name symbol)
            o)
  unfolding ◌>>=◌
  new_name-KeepsDistinct m o name e = elim (Bool-cases (is_some (find_export name o.exports))) [
    | inl h ↦ rw (h, ◌>>=◌) tt
    | inr h ↦
        let new =
          is_some-false (find_export name m.exports)
            (subst (λ es. is_some (find_export name es) ≡ false) e h) in
        rw (h, ◌>>=◌) (rest_of_export-KeepsDistinct m o name new e)
  ]

  parse_export-KeepsDistinct : Runs KeepsDistinct parse_export
  unfolding parse_export
  parse_export-KeepsDistinct = record {
    at = λ m.
        Outcome-then KeepsDistinct (SameExports m) _ _ m
          (reading-Untouched (parse_uleb128 32) m (parse_uleb128-Advances 32))
          λ size n e.
            Outcome-then (λ x p. KeepsDistinct m p) (SameExports n) _ _ n
              (reading-Untouched (parse_str size) n (parse_str-Advances size))
              λ name o f. new_name-KeepsDistinct m o name (f ∙ e);
  }

  then_ :
      {A B : Type 0} {p : M A} {g : A → M B}
      → Runs KeepsDistinct p
      → ((a : A) → Runs KeepsDistinct (g a))
      → Runs KeepsDistinct (p >>= g)
  then_ h k = Runs-bind (λ s t u p q h. q (p h)) h k

  parse_export_list-KeepsDistinct : (count : ℕ) → Runs KeepsDistinct (parse_export_list count)
  unfolding parse_export_list
  parse_export_list-KeepsDistinct zero = record { at = λ m h. h }
  parse_export_list-KeepsDistinct (suc count) =
      then_ parse_export-KeepsDistinct λ x. parse_export_list-KeepsDistinct count

  count-KeepsDistinct : Runs KeepsDistinct (reading (parse_uleb128 32))
  count-KeepsDistinct = record {
    at = λ m. unchanged m _ (reading-Untouched (parse_uleb128 32) m (parse_uleb128-Advances 32));
  }
    where
      unchanged :
          (m : Module L) (r : Result (ℕ × Module L)) → Untouched m r → Outcome KeepsDistinct m r
      unchanged m (ok (a, n)) e = λ h. subst AllDistinct (sym e) h
      unchanged m (throw e) h = h

  parse_exports-Runs : Runs KeepsDistinct parse_exports
  unfolding parse_exports
  parse_exports-Runs = then_ count-KeepsDistinct λ n. parse_export_list-KeepsDistinct n

  -- The export section is an exception, or adds its exports such that again no two exports of the
  -- module have the same name, if that was so before, and every export is the one that is found by its
  -- name.
  pub parse_exports-AllFound :
      (m : Module L)
      → AllDistinct m.exports
      → Outcome (λ before n. AllDistinct n.exports × AllFound n.exports) m (parse_exports m)
  parse_exports-AllFound m all = after (parse_exports m) (parse_exports-Runs.at m)
    where
      after :
          (r : Result (Unit {0} × Module L))
          → Outcome KeepsDistinct m r
          → Outcome (λ (before n : Module L). AllDistinct n.exports × AllFound n.exports) m r
      after (ok (a, n)) k = (k all, AllDistinct-AllFound n.exports (k all))
      after (throw e) k = k
