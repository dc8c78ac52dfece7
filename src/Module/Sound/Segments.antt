-- ===== src/Module/Sound/Segments.antt =====
-- The globals, and the element and data segments.
use wembed.Base.{ℕ, zero, suc, ◌+◌, refl, arith, Bool, true, false, ◌==◌, ltb, invalid}
use wembed.Base.Runs.{Runs-if}
use wembed.Reader.Forward.{Advances, parse-Advances, parse_uleb128-Advances, parse_sleb128-Advances}
use wembed.Lang.Opcodes.{o_const_i32, o_const_i64, o_const_f32, o_const_f64, o_get_global}
use wembed.Lang.{anyfunc}
use wembed.Lang.Types.{Ty, i32}
use wembed.Llvm.{Llvm}
use wembed.Module.{Table}
use wembed.Module.Emit.{trap_data_copy, trap_elem_copy}
use wembed.Module.Sections.{advance_by}
use wembed.Module.Sections.Init.{
  Init, constant, from_global, run_init, init_global, init_value, parse_llvm_init,
  add_init_function, call_from_start, initialise, parse_global, parse_global_list, parse_globals,
}
use wembed.Module.Sections.Segments.{
  element_offset, copy_element, parse_elements, elements_of, parse_element_segment,
  parse_element_list, finish_init, parse_section_element, copy_data, parse_data_segment,
  parse_data_list, parse_section_data,
}
use wembed.Module.Sound.{Sound, Steps-aside}
use wembed.Module.Sound.Rules.{
  then_, return-Sound, fail-Sound, throw_if-Sound, tested-Sound, look-Sound, or_throw-Sound,
  reading-Sound, build-Sound, emit-Sound, append_block-Sound,
}
use wembed.Module.Sound.Control.{parse_llvm_vtype-Advances, get_zero-Sound}
use wembed.Module.Sound.Emit.{get_string-Sound, trap_if-Sound}
use wembed.Module.Sound.Sections.{new_global-Sound, keep_global-Sound}

advance_by-Advances : (n : ℕ) → Advances (advance_by n)
advance_by-Advances n = record { at = λ r. record { same_input = refl; onward = omega arith } }

module _ ⦃L : Llvm⦄ {c f : Bool} where
  run_init-Sound : (i : Init L.Value) → Sound c f (run_init i)
  unfolding run_init
  run_init-Sound (constant v) = return-Sound v
  run_init-Sound (from_global i) = then_ (or_throw-Sound _ _ tt) λ g. build-Sound _

  init_global-Sound : (t : Ty) → Sound c f (init_global t)
  unfolding init_global
  init_global-Sound t =
      then_ (reading-Sound (parse_sleb128-Advances 32))
        λ i. then_ (or_throw-Sound _ _ tt) λ g. then_ (throw_if-Sound _ _ tt) λ x. return-Sound _

  init_value-Sound : (t : Ty) (instr : ℕ) → Sound c f (init_value t instr)
  unfolding init_value
  init_value-Sound t instr =
      Runs-if (instr == o_const_i32)
        (then_ (throw_if-Sound _ _ tt)
          λ x. then_ (reading-Sound (parse_sleb128-Advances 32)) λ n. return-Sound _)
        (Runs-if (instr == o_const_i64)
          (then_ (throw_if-Sound _ _ tt)
            λ x. then_ (reading-Sound (parse_sleb128-Advances 64)) λ n. return-Sound _)
          (Runs-if (instr == o_const_f32)
            (then_ (throw_if-Sound _ _ tt)
              λ x. then_ (reading-Sound (parse-Advances 4)) λ n. return-Sound _)
            (Runs-if (instr == o_const_f64)
              (then_ (throw_if-Sound _ _ tt)
                λ x. then_ (reading-Sound (parse-Advances 8)) λ n. return-Sound _)
              (Runs-if (instr == o_get_global) (init_global-Sound t)
                (fail-Sound (invalid "unsupported init expr instr") tt)))))

  parse_llvm_init-Sound : (t : Ty) → Sound c f (parse_llvm_init t)
  unfolding parse_llvm_init
  parse_llvm_init-Sound t = then_ (reading-Sound (parse-Advances 1)) λ instr.
      then_ (init_value-Sound t instr) λ i.
        then_ (reading-Sound (parse-Advances 1))
          λ e. then_ (throw_if-Sound _ _ tt) λ x. return-Sound i

  add_init_function-Sound : Sound c f add_init_function
  add_init_function-Sound = record { at = λ m. Steps-aside m _ refl refl refl refl }

  call_from_start-Sound : (v : L.Value) → Sound c f (call_from_start v)
  call_from_start-Sound v =
      then_ (look-Sound _) λ b. then_ (emit-Sound _) λ x. then_ (build-Sound _) λ y. return-Sound tt

  initialise-Sound : (t : Ty) (g v : L.Value) (b : Bool) → Sound c f (initialise t g v b)
  initialise-Sound t g v true = emit-Sound _
  initialise-Sound t g v false =
      then_ (get_zero-Sound t)
        λ z. then_ (emit-Sound _) λ x. then_ (build-Sound _) λ y. emit-Sound _

  parse_global-Sound : Sound c f parse_global
  unfolding parse_global
  parse_global-Sound = then_ (reading-Sound parse_llvm_vtype-Advances) λ t.
      then_ (reading-Sound (parse-Advances 1)) λ b. then_ (parse_llvm_init-Sound t) λ i.
        then_ (run_init-Sound i) λ v.
          then_ (new_global-Sound t)
            λ g. then_ (emit-Sound _) λ x. then_ (initialise-Sound t g v _) λ y. keep_global-Sound g

  parse_global_list-Sound : (n : ℕ) → Sound c f (parse_global_list n)
  unfolding parse_global_list
  parse_global_list-Sound zero = return-Sound tt
  parse_global_list-Sound (suc n) = then_ parse_global-Sound λ x. parse_global_list-Sound n

  pub parse_globals-Sound : Sound c f parse_globals
  unfolding parse_globals
  parse_globals-Sound = then_ add_init_function-Sound λ i. then_ (append_block-Sound i) λ b.
      then_ (emit-Sound _) λ x. then_ (reading-Sound (parse_uleb128-Advances 32)) λ n.
        then_ (parse_global_list-Sound n) λ y. then_ (emit-Sound _) λ z. call_from_start-Sound i

  element_offset-Sound : (i : Init L.Value) (k : ℕ) → Sound c f (element_offset i k)
  element_offset-Sound i k = then_ (run_init-Sound i) λ v. build-Sound _

  copy_element-Sound : (t : Table L) (i : Init L.Value) (k n : ℕ) → Sound c f (copy_element t i k n)
  copy_element-Sound t i k n = then_ (element_offset-Sound i k) λ v. then_ (build-Sound _) λ p.
      then_ (build-Sound _)
        λ q. then_ (build-Sound _) λ r. then_ (build-Sound _) λ s. return-Sound tt

  trap_elem_copy-Sound : (g v : L.Value) → Sound c f (trap_elem_copy g v)
  unfolding trap_elem_copy
  trap_elem_copy-Sound g v = then_ (look-Sound _) λ r.
      then_ (build-Sound _)
        λ n. then_ (build-Sound _) λ o. then_ (get_string-Sound _) λ s. trap_if-Sound g o _ _

  trap_data_copy-Sound : (g v : L.Value) (n : ℕ) → Sound c f (trap_data_copy g v n)
  unfolding trap_data_copy
  trap_data_copy-Sound g v n = then_ (look-Sound _) λ r. then_ (build-Sound _) λ p.
      then_ (build-Sound _) λ q. then_ (get_zero-Sound _) λ z. then_ (build-Sound _) λ u.
        then_ (build-Sound _) λ t.
          then_ (build-Sound _)
            λ o. then_ (build-Sound _) λ b. then_ (get_string-Sound _) λ s. trap_if-Sound g b _ _

  parse_elements-Sound :
      (g : L.Value) (t : Table L) (i : Init L.Value) (a b : L.Block) (k n : ℕ)
      → Sound c f (parse_elements g t i a b k n)
  unfolding parse_elements
  parse_elements-Sound g t i a b k zero = return-Sound a
  parse_elements-Sound g t i a b k (suc n) = then_ (reading-Sound (parse_uleb128-Advances 32)) λ j.
      then_ (or_throw-Sound _ _ tt) λ d. then_ (emit-Sound _) λ x.
        then_ (element_offset-Sound i k) λ v. then_ (trap_elem_copy-Sound g v) λ e.
          then_ (emit-Sound _)
            λ y. then_ (copy_element-Sound t i k j) λ z. parse_elements-Sound g t i e b (k + 1) n

  elements_of-Sound :
      (g : L.Value) (t : Table L) (i : Init L.Value) (a b : L.Block)
      → Sound c f (elements_of g t i a b)
  elements_of-Sound g t i a b =
      Runs-if (t.type.elem_type == anyfunc)
        (then_ (reading-Sound (parse_uleb128-Advances 32)) λ n. parse_elements-Sound g t i a b 0 n)
        (return-Sound a)

  parse_element_segment-Sound :
      (g : L.Value) (a b : L.Block) → Sound c f (parse_element_segment g a b)
  unfolding parse_element_segment
  parse_element_segment-Sound g a b = then_ (reading-Sound (parse_uleb128-Advances 32)) λ j.
      then_ (or_throw-Sound _ _ tt) λ t. then_ (emit-Sound _) λ x.
        then_ (parse_llvm_init-Sound i32) λ i. then_ (run_init-Sound i) λ v.
          then_ (look-Sound _) λ r. then_ (build-Sound _) λ n. then_ (build-Sound _) λ o.
            then_ (get_string-Sound _)
              λ s. then_ (trap_if-Sound g o _ _) λ e. elements_of-Sound g t i e b

  parse_element_list-Sound :
      (g : L.Value) (b : L.Block) (n : ℕ) (a : L.Block) → Sound c f (parse_element_list g b n a)
  unfolding parse_element_list
  parse_element_list-Sound g b zero a = return-Sound a
  parse_element_list-Sound g b (suc n) a =
      then_ (parse_element_segment-Sound g a b) λ e. parse_element_list-Sound g b n e

  finish_init-Sound : (g : L.Value) (a b : L.Block) → Sound c f (finish_init g a b)
  finish_init-Sound g a b = then_ (emit-Sound _) λ x.
      then_ (emit-Sound _)
        λ y. then_ (emit-Sound _) λ z. then_ (emit-Sound _) λ w. call_from_start-Sound g

  pub parse_section_element-Sound : Sound c f parse_section_element
  unfolding parse_section_element
  parse_section_element-Sound = then_ add_init_function-Sound λ g. then_ (append_block-Sound g) λ a.
      then_ (append_block-Sound g) λ b.
        then_ (reading-Sound (parse_uleb128-Advances 32))
          λ n. then_ (parse_element_list-Sound g b n a) λ e. finish_init-Sound g e b

  copy_data-Sound :
      (base : ℕ) (v : L.Value) (b : L.Block) (n : ℕ) → Sound c f (copy_data base v b n)
  copy_data-Sound base v b n = then_ (emit-Sound _) λ x. then_ (look-Sound _) λ m.
      then_ (build-Sound _) λ p. then_ (look-Sound _) λ a.
        then_ (build-Sound _) λ s. then_ (build-Sound _) λ r. reading-Sound (advance_by-Advances n)

  parse_data_segment-Sound :
      (base : ℕ) (g : L.Value) (a b : L.Block) → Sound c f (parse_data_segment base g a b)
  unfolding parse_data_segment
  parse_data_segment-Sound base g a b = then_ (reading-Sound (parse_uleb128-Advances 32)) λ j.
      then_ (throw_if-Sound _ _ tt) λ x. then_ (parse_llvm_init-Sound i32) λ i.
        then_ (run_init-Sound i) λ v. then_ (reading-Sound (parse_uleb128-Advances 32)) λ n.
          then_ (emit-Sound _) λ y. then_ (trap_data_copy-Sound g v n) λ e.
            then_ (Runs-if (ltb 0 n) (copy_data-Sound base v b n) (return-Sound tt))
              λ z. return-Sound e

  parse_data_list-Sound :
      (base : ℕ) (g : L.Value) (b : L.Block) (n : ℕ) (a : L.Block)
      → Sound c f (parse_data_list base g b n a)
  unfolding parse_data_list
  parse_data_list-Sound base g b zero a = return-Sound a
  parse_data_list-Sound base g b (suc n) a =
      then_ (parse_data_segment-Sound base g a b) λ e. parse_data_list-Sound base g b n e

  pub parse_section_data-Sound : (base : ℕ) → Sound c f (parse_section_data base)
  unfolding parse_section_data
  parse_section_data-Sound base = then_ (tested-Sound _ _ tt) λ x.
      then_ add_init_function-Sound λ g. then_ (append_block-Sound g) λ a.
        then_ (append_block-Sound g) λ b. then_ (emit-Sound _) λ y.
          then_ (reading-Sound (parse_uleb128-Advances 32))
            λ n. then_ (parse_data_list-Sound base g b n a) λ e. finish_init-Sound g e b
