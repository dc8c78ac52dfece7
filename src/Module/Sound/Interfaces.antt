-- ===== src/Module/Sound/Interfaces.antt =====
-- The imports, the exports and the start function.
use wembed.Base.{ℕ, zero, suc, refl, get_elem?, Bool, List, Option, none, some}
use wembed.Reader.Forward.{parse-Advances, parse_uleb128-Advances, parse_str-Advances}
use wembed.Lang.{ExternalKind, ek_function, ek_table, ek_memory, ek_global, ek_other}
use wembed.Lang.Types.{FnType}
use wembed.Llvm.{Llvm}
use wembed.Module.{ExternSym, Symbol}
use wembed.Module.Sections.Imports.{
  add_import, type_at, import_function, import_global, import_table, import_memory, import_of_kind,
  parse_import, parse_import_list, parse_imports,
}
use wembed.Module.Sections.Exports.{
  add_export, symbol_of, parse_export, parse_export_list, parse_exports, parse_section_start,
}
use wembed.Module.Sound.{Sound, Steps-aside}
use wembed.Module.Sound.Rules.{
  then_, return-Sound, fail-Sound, throw_if-Sound, tested-Sound, look-Sound, or_throw-Sound,
  reading-Sound, build-Sound, emit-Sound,
}
use wembed.Module.Sound.Control.{parse_llvm_vtype-Advances}
use wembed.Module.Sound.Sections.{
  parse_resizable_limits-Advances, parse_table_type-Advances, add_function-Sound, new_global-Sound,
  keep_global-Sound, set_import_offset-Sound, add_table-Sound, add_memory-Sound,
}

module _ ⦃L : Llvm⦄ {c f : Bool} where
  add_import-Sound : (n : ExternSym) (s : Symbol L) → Sound c f (add_import n s)
  add_import-Sound n s = record { at = λ m. Steps-aside m _ refl refl refl refl }

  type_at-Sound : (o : Option FnType) → Sound c f (type_at o)
  type_at-Sound none = fail-Sound _ tt
  type_at-Sound (some t) = return-Sound t

  import_function-Sound : (n : ExternSym) → Sound c f (import_function n)
  unfolding import_function
  import_function-Sound n = then_ (reading-Sound (parse_uleb128-Advances 32)) λ i.
      then_ (record { at = λ m. (type_at-Sound (get_elem? m.types i)).at m })
        λ t. then_ (add_function-Sound t) λ d. then_ (emit-Sound _) λ x. add_import-Sound n _

  import_global-Sound : (n : ExternSym) → Sound c f (import_global n)
  unfolding import_global
  import_global-Sound n = then_ (reading-Sound parse_llvm_vtype-Advances) λ t.
      then_ (reading-Sound (parse-Advances 1)) λ b. then_ (new_global-Sound t) λ g.
        then_ (emit-Sound _)
          λ x. then_ (emit-Sound _) λ y. then_ (keep_global-Sound g) λ z. add_import-Sound n _

  import_table-Sound : (unset : ℕ) (n : ExternSym) → Sound c f (import_table unset n)
  unfolding import_table
  import_table-Sound unset n =
      then_ (record { at = λ m. Steps-aside m _ refl refl refl refl })
        λ a. then_ (tested-Sound _ _ tt) λ b.
          then_ (reading-Sound (parse_table_type-Advances unset)) λ t.
            then_ (add_table-Sound t)
              λ d. then_ (emit-Sound _) λ x. then_ (emit-Sound _) λ y. add_import-Sound n _

  import_memory-Sound : (unset : ℕ) (n : ExternSym) → Sound c f (import_memory unset n)
  unfolding import_memory
  import_memory-Sound unset n = then_ (tested-Sound _ _ tt) λ a.
      then_ (record { at = λ m. Steps-aside m _ refl refl refl refl })
        λ b. then_ (reading-Sound (parse_resizable_limits-Advances unset)) λ l.
          then_ (throw_if-Sound _ _ tt)
            λ x. then_ (add_memory-Sound l) λ y. then_ (look-Sound _) λ z. add_import-Sound n _

  import_of_kind-Sound :
      (unset : ℕ) (n : ExternSym) (k : ExternalKind) → Sound c f (import_of_kind unset n k)
  unfolding import_of_kind
  import_of_kind-Sound unset n ek_function = import_function-Sound n
  import_of_kind-Sound unset n ek_global = import_global-Sound n
  import_of_kind-Sound unset n ek_table = import_table-Sound unset n
  import_of_kind-Sound unset n ek_memory = import_memory-Sound unset n
  import_of_kind-Sound unset n (ek_other b) = fail-Sound _ tt

  parse_import_list-Sound : (unset n : ℕ) → Sound c f (parse_import_list unset n)
  unfolding parse_import_list parse_import
  parse_import_list-Sound unset zero = return-Sound tt
  parse_import_list-Sound unset (suc n) =
      then_
        (then_ (reading-Sound (parse_uleb128-Advances 32)) λ a.
          then_ (reading-Sound (parse_str-Advances a)) λ b.
            then_ (reading-Sound (parse_uleb128-Advances 32)) λ d.
              then_ (reading-Sound (parse_str-Advances d))
                λ e. then_ (reading-Sound (parse-Advances 1)) λ k. import_of_kind-Sound unset _ _)
        λ x. parse_import_list-Sound unset n

  pub parse_imports-Sound : (unset : ℕ) → Sound c f (parse_imports unset)
  unfolding parse_imports
  parse_imports-Sound unset =
      then_ (reading-Sound (parse_uleb128-Advances 32))
        λ n. then_ (parse_import_list-Sound unset n) λ x. set_import_offset-Sound

  symbol_of-Sound : (k : ExternalKind) (i : ℕ) → Sound c f (symbol_of k i)
  unfolding symbol_of
  symbol_of-Sound ek_function i = then_ (or_throw-Sound _ _ tt) λ d. return-Sound _
  symbol_of-Sound ek_global i = then_ (or_throw-Sound _ _ tt) λ g. look-Sound _
  symbol_of-Sound ek_table i =
      then_ (or_throw-Sound _ _ tt) λ a. then_ (or_throw-Sound _ _ tt) λ t. return-Sound _
  symbol_of-Sound ek_memory i = then_ (or_throw-Sound _ _ tt) λ a. look-Sound _
  symbol_of-Sound (ek_other b) i = fail-Sound _ tt

  add_export-Sound : (n : List ℕ) (s : Symbol L) → Sound c f (add_export n s)
  add_export-Sound n s = record { at = λ m. Steps-aside m _ refl refl refl refl }

  parse_export-Sound : Sound c f parse_export
  unfolding parse_export
  parse_export-Sound = then_ (reading-Sound (parse_uleb128-Advances 32)) λ a.
      then_ (reading-Sound (parse_str-Advances a)) λ n. then_ (tested-Sound _ _ tt) λ x.
        then_ (reading-Sound (parse-Advances 1)) λ k.
          then_ (reading-Sound (parse_uleb128-Advances 32))
            λ i. then_ (symbol_of-Sound _ i) λ s. add_export-Sound n s

  parse_export_list-Sound : (n : ℕ) → Sound c f (parse_export_list n)
  unfolding parse_export_list
  parse_export_list-Sound zero = return-Sound tt
  parse_export_list-Sound (suc n) = then_ parse_export-Sound λ x. parse_export_list-Sound n

  pub parse_exports-Sound : Sound c f parse_exports
  unfolding parse_exports
  parse_exports-Sound =
      then_ (reading-Sound (parse_uleb128-Advances 32)) λ n. parse_export_list-Sound n

  pub parse_section_start-Sound : Sound c f parse_section_start
  unfolding parse_section_start
  parse_section_start-Sound = then_ (look-Sound _) λ b. then_ (emit-Sound _) λ x.
      then_ (reading-Sound (parse_uleb128-Advances 32)) λ i. then_ (or_throw-Sound _ _ tt) λ d.
        then_ (throw_if-Sound _ _ tt)
          λ y. then_ (throw_if-Sound _ _ tt) λ z. then_ (build-Sound _) λ v. return-Sound tt
