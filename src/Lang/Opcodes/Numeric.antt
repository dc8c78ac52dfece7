-- ===== src/Lang/Opcodes/Numeric.antt =====
-- The `enum opcode_numeric` of inc/wembed/lang.hpp: the instructions behind `o_prefix_numeric`.
use wembed.Base.{ℕ}

abbrev pub o_trunc_sat_f32_si32 : ℕ
o_trunc_sat_f32_si32 = 0x00

abbrev pub o_trunc_sat_f32_ui32 : ℕ
o_trunc_sat_f32_ui32 = 0x01

abbrev pub o_trunc_sat_f64_si32 : ℕ
o_trunc_sat_f64_si32 = 0x02

abbrev pub o_trunc_sat_f64_ui32 : ℕ
o_trunc_sat_f64_ui32 = 0x03

abbrev pub o_trunc_sat_f32_si64 : ℕ
o_trunc_sat_f32_si64 = 0x04

abbrev pub o_trunc_sat_f32_ui64 : ℕ
o_trunc_sat_f32_ui64 = 0x05

abbrev pub o_trunc_sat_f64_si64 : ℕ
o_trunc_sat_f64_si64 = 0x06

abbrev pub o_trunc_sat_f64_ui64 : ℕ
o_trunc_sat_f64_ui64 = 0x07
