-- ===== src/Module/Sections/Hashed.antt =====
-- The functions of a module carry the hash of their own type, which `call_indirect` and linking
-- compare.
use wembed.Base.{
  ℕ, zero, suc, ◌≡◌, refl, sym, ap, Bool, List, [], ◌∷◌, ◌++◌, Option, none, some, All, get_elem?,
  Result, ok, throw, Exception, subst, throw_if, ◌>>=◌, return,
}
use wembed.Base.Runs.{IsRaised, Outcome, Runs, Runs-bind, Runs-fail, Runs-throw_if}
use wembed.Reader.{Reader, Parser}
use wembed.Reader.Forward.{
  Forward, Advances, parse-Advances, parse_uleb128-Advances, parse_str-Advances,
}
use wembed.Lang.{ExternalKind, ek_function, ek_table, ek_memory, ek_global, ek_other}
use wembed.Lang.Types.{FnType}
use wembed.Utils.{hash_fn_type}
use wembed.Llvm.{Llvm, TypeLaws}
use wembed.Llvm.Instructions.{Effect}
use wembed.Module.{Module, M, FuncDef, ExternSym, reading, emit}
use wembed.Module.Sections.{add_function, function_type_at, parse_function_list, parse_functions}
use wembed.Module.Sections.Imports.{
  type_at, import_function, import_global, import_table, import_memory, import_of_kind,
  parse_import, parse_import_list, set_import_offset, parse_imports,
}
use wembed.Module.Sound.Control.{parse_llvm_vtype-Advances}
use wembed.Module.Sound.Sections.{parse_resizable_limits-Advances, parse_table_type-Advances}

module _ ⦃L : Llvm⦄ (laws : TypeLaws L) where
  abbrev pub IsHashed : FuncDef L → Type 0
  IsHashed f = f.type_hash ≡ hash_fn_type (L.function_type f.value)

  All-snoc :
      (fs : List (FuncDef L)) (f : FuncDef L)
      → All IsHashed fs
      → IsHashed f
      → All IsHashed (fs ++ (f ∷ []))
  All-snoc [] f all h = (h, tt)
  All-snoc (g ∷ fs) f (k, all) h = (k, All-snoc fs f all h)

  abbrev KeepsHashed : Module L → Module L → Type 0
  KeepsHashed m n = All IsHashed m.functions → All IsHashed n.functions

  abbrev Hashing : {A : Type 0} → M A → Type 0
  Hashing c = Runs KeepsHashed c

  then_ :
      {A B : Type 0} {p : M A} {g : A → M B}
      → Hashing p
      → ((a : A) → Hashing (g a))
      → Hashing (p >>= g)
  then_ h k = Runs-bind (λ s t u p q h. q (p h)) h k

  -- Code that leaves the functions alone.
  aside :
      {A : Type 0} (c : M A)
      → ((m : Module L) → Outcome (λ (x n : Module L). n.functions ≡ m.functions) m (c m))
      → Hashing c
  aside {A} c h = record { at = λ m. kept m (c m) (h m) }
    where
      kept :
          (m : Module L) (r : Result (A × Module L))
          → Outcome (λ (x n : Module L). n.functions ≡ m.functions) m r
          → Outcome KeepsHashed m r
      kept m (ok (a, n)) e = λ all. subst (All IsHashed) (sym e) all
      kept m (throw e) h = h

  reading-Hashing : {A : Type 0} {p : Parser A} → Advances p → Hashing (reading p)
  reading-Hashing {A} {p} a = aside (reading p) (λ m. read m (p m.reader) (a.at m.reader))
    where
      read :
          (m : Module L) (r : Result (A × Reader))
          → Outcome Forward m.reader r
          → Outcome
              (λ (x n : Module L). n.functions ≡ m.functions)
              m
              (elim r [ ok (a, s) ↦ ok (a, record m { reader = s }) | throw e ↦ throw e ])
      read m (ok (a, s)) h = refl
      read m (throw e) h = h

  emit-Hashing : (e : Effect L.Value L.Block) → Hashing (emit e)
  unfolding emit
  emit-Hashing e = record { at = λ m h. h }

  return-Hashing : {A : Type 0} (a : A) → Hashing (return {S = Module L} a)
  return-Hashing a = record { at = λ m h. h }

  throw_if-Hashing : (b : Bool) (e : Exception) → IsRaised e → Hashing (throw_if b e)
  throw_if-Hashing b e h = Runs-throw_if (λ s k. k) b e h

  -- A function is added with the hash of its type, and LLVM gives it that type.
  add_function-Hashing : (t : FnType) → Hashing (add_function t)
  add_function-Hashing t = record {
    at = λ m all.
        All-snoc m.functions _ all
          (ap hash_fn_type (sym (laws.function_type-add_function t m.builder)));
  }

  function_type_at-Hashing : (o : Option FnType) → Hashing (function_type_at o)
  function_type_at-Hashing none = Runs-fail _ tt
  function_type_at-Hashing (some t) = return-Hashing t

  parse_function_list-Hashing : (n : ℕ) → Hashing (parse_function_list n)
  unfolding parse_function_list
  parse_function_list-Hashing zero = return-Hashing tt
  parse_function_list-Hashing (suc n) = then_ (reading-Hashing (parse_uleb128-Advances 32)) λ i.
      then_ (record { at = λ m. (function_type_at-Hashing (get_elem? m.types i)).at m })
        λ t. then_ (add_function-Hashing t) λ x. parse_function_list-Hashing n

  set_import_offset-Hashing : Hashing set_import_offset
  set_import_offset-Hashing = record { at = λ m h. h }

  parse_functions-Hashing : Hashing parse_functions
  unfolding parse_functions ◌>>=◌
  parse_functions-Hashing =
      then_ set_import_offset-Hashing
        λ x. then_ (reading-Hashing (parse_uleb128-Advances 32)) λ n. parse_function_list-Hashing n

  type_at-Hashing : (o : Option FnType) → Hashing (type_at o)
  type_at-Hashing none = Runs-fail _ tt
  type_at-Hashing (some t) = return-Hashing t

  import_function-Hashing : (n : ExternSym) → Hashing (import_function n)
  unfolding import_function
  import_function-Hashing n = then_ (reading-Hashing (parse_uleb128-Advances 32)) λ i.
      then_ (record { at = λ m. (type_at-Hashing (get_elem? m.types i)).at m })
        λ t.
          then_ (add_function-Hashing t) λ d. then_ (emit-Hashing _) λ x. record { at = λ m h. h }

  import_global-Hashing : (n : ExternSym) → Hashing (import_global n)
  unfolding import_global
  import_global-Hashing n = then_ (reading-Hashing parse_llvm_vtype-Advances) λ t.
      then_ (reading-Hashing (parse-Advances 1)) λ b.
        then_ (record { at = λ m h. h })
          λ g. then_ (emit-Hashing _) λ x.
            then_ (emit-Hashing _)
              λ y. then_ (record { at = λ m h. h }) λ z. record { at = λ m h. h }

  tested-Hashing :
      (g : Module L → Bool) (e : Exception) → IsRaised e → Hashing (λ m. throw_if (g m) e m)
  tested-Hashing g e h = record { at = λ m. (throw_if-Hashing (g m) e h).at m }

  import_table-Hashing : (unset : ℕ) (n : ExternSym) → Hashing (import_table unset n)
  unfolding import_table
  import_table-Hashing unset n =
      then_ (record { at = λ m h. h })
        λ a. then_ (tested-Hashing _ _ tt) λ b.
          then_ (reading-Hashing (parse_table_type-Advances unset)) λ t.
            then_ (record { at = λ m h. h })
              λ d. then_ (emit-Hashing _) λ x. then_ (emit-Hashing _) λ y. record { at = λ m h. h }

  import_memory-Hashing : (unset : ℕ) (n : ExternSym) → Hashing (import_memory unset n)
  unfolding import_memory
  import_memory-Hashing unset n = then_ (tested-Hashing _ _ tt) λ a.
      then_ (record { at = λ m h. h })
        λ b. then_ (reading-Hashing (parse_resizable_limits-Advances unset)) λ l.
          then_ (throw_if-Hashing _ _ tt) λ x.
            then_ (record { at = λ m h. h })
              λ y. then_ (record { at = λ m h. h }) λ z. record { at = λ m h. h }

  import_of_kind-Hashing :
      (unset : ℕ) (n : ExternSym) (k : ExternalKind) → Hashing (import_of_kind unset n k)
  unfolding import_of_kind
  import_of_kind-Hashing unset n ek_function = import_function-Hashing n
  import_of_kind-Hashing unset n ek_global = import_global-Hashing n
  import_of_kind-Hashing unset n ek_table = import_table-Hashing unset n
  import_of_kind-Hashing unset n ek_memory = import_memory-Hashing unset n
  import_of_kind-Hashing unset n (ek_other b) = Runs-fail _ tt

  parse_import-Hashing : (unset : ℕ) → Hashing (parse_import unset)
  unfolding parse_import
  parse_import-Hashing unset = then_ (reading-Hashing (parse_uleb128-Advances 32)) λ a.
      then_ (reading-Hashing (parse_str-Advances a)) λ b.
        then_ (reading-Hashing (parse_uleb128-Advances 32)) λ d.
          then_ (reading-Hashing (parse_str-Advances d))
            λ e. then_ (reading-Hashing (parse-Advances 1)) λ k. import_of_kind-Hashing unset _ _

  parse_import_list-Hashing : (unset n : ℕ) → Hashing (parse_import_list unset n)
  unfolding parse_import_list
  parse_import_list-Hashing unset zero = return-Hashing tt
  parse_import_list-Hashing unset (suc n) =
      then_ (parse_import-Hashing unset) λ x. parse_import_list-Hashing unset n

  parse_imports-Hashing : (unset : ℕ) → Hashing (parse_imports unset)
  unfolding parse_imports
  parse_imports-Hashing unset =
      then_ (reading-Hashing (parse_uleb128-Advances 32))
        λ n. then_ (parse_import_list-Hashing unset n) λ x. set_import_offset-Hashing

  -- The import section and the function section are exceptions, or leave every function of the module with
  -- the hash of the type that LLVM has for it, if that was so before, under the documented laws of
  -- LLVM's types.
  pub parse_functions-IsHashed :
      (unset : ℕ) (m : Module L)
      → All IsHashed m.functions
      → Outcome (λ before n. All IsHashed n.functions) m (parse_imports unset m)
        × Outcome (λ before n. All IsHashed n.functions) m (parse_functions m)
  parse_functions-IsHashed unset m all = (
    after (parse_imports unset m) ((parse_imports-Hashing unset).at m),
    after (parse_functions m) (parse_functions-Hashing.at m),
  )
    where
      after :
          (r : Result (Unit {0} × Module L))
          → Outcome KeepsHashed m r
          → Outcome (λ (before n : Module L). All IsHashed n.functions) m r
      after (ok (a, n)) k = k all
      after (throw e) k = k
