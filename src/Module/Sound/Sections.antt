-- ===== src/Module/Sound/Sections.antt =====
-- The sections of types, functions, tables and memories, and the imports and exports.
use wembed.Base.{ℕ, zero, suc, refl, get_elem?, Bool, [], Option, none, some, ◌==◌, ◌>>=◌}
use wembed.Base.Runs.{Runs-if}
use wembed.Reader.Forward.{
  Advances, Forward-refl, return-Advances, throw_if-Advances, parse-Advances,
  parse_uleb128-Advances, parse_str-Advances,
}
use wembed.Reader.Forward
use wembed.Lang.{ResizableLimits, TableType, has_maximum}
use wembed.Lang.Types.{Ty, FnType, void}
use wembed.Llvm.{Llvm}
use wembed.Module.Sections.{
  parse_resizable_limits, parse_table_type, parse_vtypes, parse_type, parse_type_list, parse_types,
  add_function, function_type_at, parse_function_list, parse_functions, add_table, parse_table_list,
  parse_section_table, add_memory, parse_memory_list, parse_section_memory, new_global, keep_global,
}
use wembed.Module.Sections.Imports.{set_import_offset}
use wembed.Module.Sound.{Sound, Steps-aside}
use wembed.Module.Sound.Rules.{
  then_, return-Sound, fail-Sound, throw_if-Sound, tested-Sound, reading-Sound,
}
use wembed.Module.Sound.Control.{parse_llvm_vtype-Advances}

pub parse_resizable_limits-Advances : (unset : ℕ) → Advances (parse_resizable_limits unset)
unfolding parse_resizable_limits
parse_resizable_limits-Advances unset = Forward.then_ (parse-Advances 1) λ flags.
    Forward.then_ (parse_uleb128-Advances 32) λ initial.
      Runs-if (has_maximum (record { flags = flags; initial = initial; maximum = unset }))
        (Forward.then_ (parse_uleb128-Advances 32)
          λ maximum. Forward.then_ (throw_if-Advances _ _ tt) λ x. return-Advances _)
        (return-Advances _)

pub parse_table_type-Advances : (unset : ℕ) → Advances (parse_table_type unset)
unfolding parse_table_type
parse_table_type-Advances unset =
    Forward.then_ (parse-Advances 1)
      λ t. Forward.then_ (parse_resizable_limits-Advances unset) λ l. return-Advances _

parse_vtypes-Advances : (n : ℕ) → Advances (parse_vtypes n)
unfolding parse_vtypes
parse_vtypes-Advances zero = return-Advances []
parse_vtypes-Advances (suc n) =
    Forward.then_ parse_llvm_vtype-Advances
      λ t. Forward.then_ (parse_vtypes-Advances n) λ ts. return-Advances _

parse_type-Advances : Advances parse_type
unfolding parse_type
parse_type-Advances = Forward.then_ (parse-Advances 1) λ form.
    Forward.then_ (parse_uleb128-Advances 32) λ n. Forward.then_ (parse_vtypes-Advances n) λ ts.
      Forward.then_ (parse_uleb128-Advances 32) λ r. Forward.then_ (throw_if-Advances _ _ tt) λ x.
        Forward.then_ (Runs-if (r == 0) (return-Advances void) parse_llvm_vtype-Advances)
          λ t. return-Advances _

parse_type_list-Advances : (n : ℕ) → Advances (parse_type_list n)
unfolding parse_type_list
parse_type_list-Advances zero = return-Advances []
parse_type_list-Advances (suc n) =
    Forward.then_ parse_type-Advances
      λ t. Forward.then_ (parse_type_list-Advances n) λ ts. return-Advances _

module _ ⦃L : Llvm⦄ {c f : Bool} where
  pub parse_types-Sound : Sound c f parse_types
  unfolding parse_types
  parse_types-Sound = then_ (reading-Sound (parse_uleb128-Advances 32)) λ n.
      then_ (reading-Sound (parse_type_list-Advances n))
        λ ts. record { at = λ m. Steps-aside m _ refl refl refl refl }

  pub add_function-Sound : (t : FnType) → Sound c f (add_function t)
  add_function-Sound t = record { at = λ m. Steps-aside m _ refl refl refl refl }

  pub new_global-Sound : (t : Ty) → Sound c f (new_global t)
  new_global-Sound t = record { at = λ m. Steps-aside m _ refl refl refl refl }

  pub keep_global-Sound : (v : L.Value) → Sound c f (keep_global v)
  keep_global-Sound v = record { at = λ m. Steps-aside m _ refl refl refl refl }

  function_type_at-Sound : (o : Option FnType) → Sound c f (function_type_at o)
  function_type_at-Sound none = fail-Sound _ tt
  function_type_at-Sound (some t) = return-Sound t

  parse_function_list-Sound : (n : ℕ) → Sound c f (parse_function_list n)
  unfolding parse_function_list
  parse_function_list-Sound zero = return-Sound tt
  parse_function_list-Sound (suc n) = then_ (reading-Sound (parse_uleb128-Advances 32)) λ i.
      then_ (record { at = λ m. (function_type_at-Sound (get_elem? m.types i)).at m })
        λ t. then_ (add_function-Sound t) λ x. parse_function_list-Sound n

  pub set_import_offset-Sound : Sound c f set_import_offset
  set_import_offset-Sound = record { at = λ m. Steps-aside m _ refl refl refl refl }

  pub parse_functions-Sound : Sound c f parse_functions
  unfolding parse_functions ◌>>=◌
  parse_functions-Sound =
      then_ set_import_offset-Sound
        λ x. then_ (reading-Sound (parse_uleb128-Advances 32)) λ n. parse_function_list-Sound n

  pub add_table-Sound : (t : TableType) → Sound c f (add_table t)
  add_table-Sound t = record { at = λ m. Steps-aside m _ refl refl refl refl }

  parse_table_list-Sound : (unset n : ℕ) → Sound c f (parse_table_list unset n)
  unfolding parse_table_list
  parse_table_list-Sound unset zero = return-Sound tt
  parse_table_list-Sound unset (suc n) = then_ (tested-Sound _ _ tt) λ x.
      then_ (reading-Sound (parse_table_type-Advances unset))
        λ t. then_ (add_table-Sound t) λ y. parse_table_list-Sound unset n

  pub parse_section_table-Sound : (unset : ℕ) → Sound c f (parse_section_table unset)
  unfolding parse_section_table
  parse_section_table-Sound unset =
      then_ (reading-Sound (parse_uleb128-Advances 32)) λ n. parse_table_list-Sound unset n

  pub add_memory-Sound : (l : ResizableLimits) → Sound c f (add_memory l)
  add_memory-Sound l = record { at = λ m. Steps-aside m _ refl refl refl refl }

  parse_memory_list-Sound : (unset n : ℕ) → Sound c f (parse_memory_list unset n)
  unfolding parse_memory_list
  parse_memory_list-Sound unset zero = return-Sound tt
  parse_memory_list-Sound unset (suc n) =
      then_ (reading-Sound (parse_resizable_limits-Advances unset)) λ l.
        then_ (throw_if-Sound _ _ tt)
          λ x. then_ (add_memory-Sound l) λ y. parse_memory_list-Sound unset n

  pub parse_section_memory-Sound : (unset : ℕ) → Sound c f (parse_section_memory unset)
  unfolding parse_section_memory
  parse_section_memory-Sound unset = then_ (reading-Sound (parse_uleb128-Advances 32)) λ n.
      then_ (throw_if-Sound _ _ tt)
        λ x. then_ (tested-Sound _ _ tt) λ y. parse_memory_list-Sound unset n
