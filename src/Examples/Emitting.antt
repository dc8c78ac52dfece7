-- ===== src/Examples/Emitting.antt =====
-- The code that src/module.cpp emits for rotations and divisions, on concrete operands.
use wembed.Base.{◌≡◌, refl}
use wembed.Lang.Types.{i32, i64, float, double}
use wembed.Llvm.Bits.{Yields}
use wembed.Llvm.Instructions.{binary, udiv, urem, sdiv}
use wembed.Module.Emit.{emit_rotl, emit_rotr, emit_udiv, emit_urem, emit_sdiv}
use wembed.Module.Emit.Rotate.{IntWidth-i32, IntWidth-i64, emit_rotl-rotates, emit_rotr-rotates}
use wembed.Module.Float.{clear_nan}
use wembed.Module.Float.Nan.{clear_nan-float, clear_nan-double}
use wembed.Module.Emit.Divide.{
  NoQuotient, NoSignedQuotient, TrapsWhen, Signed-i32, Signed-i64, emit_udiv-TrapsWhen,
  emit_urem-TrapsWhen, emit_sdiv-TrapsWhen,
}
use wembed.Examples.Machine.{
  word, bits, machine, blank, machine-TypeLaws, machine-BitLaws, machine_flow,
}

emit_rotl-rotates_example :
    Yields
      (λ v. bits v ≡ 0x23456781)
      (emit_rotl ⦃L = machine⦄ i32 (word i32 0x12345678) (word i32 36))
emit_rotl-rotates_example =
    emit_rotl-rotates ⦃L = machine⦄ machine-TypeLaws bits machine-BitLaws
      (IntWidth-i32 ⦃L = machine⦄) (word i32 0x12345678) (word i32 36) refl refl

emit_rotr-rotates_example :
    Yields
      (λ v. bits v ≡ 0x8000000000000000)
      (emit_rotr ⦃L = machine⦄ i64 (word i64 1) (word i64 1))
emit_rotr-rotates_example =
    emit_rotr-rotates ⦃L = machine⦄ machine-TypeLaws bits machine-BitLaws
      (IntWidth-i64 ⦃L = machine⦄) (word i64 1) (word i64 1) refl refl

emit_udiv-TrapsWhen_example :
    TrapsWhen ⦃L = machine⦄ machine-TypeLaws bits machine-BitLaws machine_flow
      (NoQuotient 7 0)
      (binary udiv (word i32 7) (word i32 0))
      (emit_udiv ⦃L = machine⦄ i32 (word i32 0) (word i32 7) (word i32 0))
      blank
unfolding machine_flow
emit_udiv-TrapsWhen_example =
    emit_udiv-TrapsWhen ⦃L = machine⦄ machine-TypeLaws bits machine-BitLaws machine_flow
      (Signed-i32 ⦃L = machine⦄ machine-TypeLaws bits machine-BitLaws machine_flow) (word i32 0)
      (word i32 7) (word i32 0) refl refl blank refl

emit_urem-TrapsWhen_example :
    TrapsWhen ⦃L = machine⦄ machine-TypeLaws bits machine-BitLaws machine_flow
      (NoQuotient 7 3)
      (binary urem (word i64 7) (word i64 3))
      (emit_urem ⦃L = machine⦄ i64 (word i32 0) (word i64 7) (word i64 3))
      blank
unfolding machine_flow
emit_urem-TrapsWhen_example =
    emit_urem-TrapsWhen ⦃L = machine⦄ machine-TypeLaws bits machine-BitLaws machine_flow
      (Signed-i64 ⦃L = machine⦄ machine-TypeLaws bits machine-BitLaws machine_flow) (word i32 0)
      (word i64 7) (word i64 3) refl refl blank refl

emit_sdiv-TrapsWhen_example :
    TrapsWhen ⦃L = machine⦄ machine-TypeLaws bits machine-BitLaws machine_flow
      (NoSignedQuotient 32 0x80000000 0xffffffff)
      (binary sdiv (word i32 0x80000000) (word i32 0xffffffff))
      (emit_sdiv ⦃L = machine⦄ i32 (word i32 0) (word i32 0x80000000) (word i32 0xffffffff))
      blank
unfolding machine_flow
emit_sdiv-TrapsWhen_example =
    emit_sdiv-TrapsWhen ⦃L = machine⦄ machine-TypeLaws bits machine-BitLaws machine_flow
      (Signed-i32 ⦃L = machine⦄ machine-TypeLaws bits machine-BitLaws machine_flow) (word i32 0)
      (word i32 0x80000000) (word i32 0xffffffff) refl refl blank refl

clear_nan-float_example :
    Yields (λ v. bits v ≡ 0x7fc00001) (clear_nan ⦃L = machine⦄ (word float 0x7f800001))
clear_nan-float_example =
    clear_nan-float ⦃L = machine⦄ machine-TypeLaws bits machine-BitLaws (word float 0x7f800001) refl

clear_nan-double_example :
    Yields
      (λ v. bits v ≡ 0x7ff0000000000000)
      (clear_nan ⦃L = machine⦄ (word double 0x7ff0000000000000))
clear_nan-double_example =
    clear_nan-double ⦃L = machine⦄ machine-TypeLaws bits machine-BitLaws
      (word double 0x7ff0000000000000) refl
