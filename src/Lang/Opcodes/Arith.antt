-- ===== src/Lang/Opcodes/Arith.antt =====
-- The `enum opcode` of inc/wembed/lang.hpp: arithmetic.
use wembed.Base.{ℕ}

abbrev pub o_add_i32 : ℕ
o_add_i32 = 0x6a

abbrev pub o_add_i64 : ℕ
o_add_i64 = 0x7c

abbrev pub o_sub_i32 : ℕ
o_sub_i32 = 0x6b

abbrev pub o_sub_i64 : ℕ
o_sub_i64 = 0x7d

abbrev pub o_mul_i32 : ℕ
o_mul_i32 = 0x6c

abbrev pub o_mul_i64 : ℕ
o_mul_i64 = 0x7e

abbrev pub o_div_si32 : ℕ
o_div_si32 = 0x6d

abbrev pub o_div_si64 : ℕ
o_div_si64 = 0x7f

abbrev pub o_div_ui32 : ℕ
o_div_ui32 = 0x6e

abbrev pub o_div_ui64 : ℕ
o_div_ui64 = 0x80

abbrev pub o_rem_si32 : ℕ
o_rem_si32 = 0x6f

abbrev pub o_rem_si64 : ℕ
o_rem_si64 = 0x81

abbrev pub o_rem_ui32 : ℕ
o_rem_ui32 = 0x70

abbrev pub o_rem_ui64 : ℕ
o_rem_ui64 = 0x82

abbrev pub o_add_f32 : ℕ
o_add_f32 = 0x92

abbrev pub o_add_f64 : ℕ
o_add_f64 = 0xa0

abbrev pub o_sub_f32 : ℕ
o_sub_f32 = 0x93

abbrev pub o_sub_f64 : ℕ
o_sub_f64 = 0xa1

abbrev pub o_mul_f32 : ℕ
o_mul_f32 = 0x94

abbrev pub o_mul_f64 : ℕ
o_mul_f64 = 0xa2

abbrev pub o_div_f32 : ℕ
o_div_f32 = 0x95

abbrev pub o_div_f64 : ℕ
o_div_f64 = 0xa3

abbrev pub o_and_i32 : ℕ
o_and_i32 = 0x71

abbrev pub o_and_i64 : ℕ
o_and_i64 = 0x83

abbrev pub o_or_i32 : ℕ
o_or_i32 = 0x72

abbrev pub o_or_i64 : ℕ
o_or_i64 = 0x84

abbrev pub o_xor_i32 : ℕ
o_xor_i32 = 0x73

abbrev pub o_xor_i64 : ℕ
o_xor_i64 = 0x85

abbrev pub o_shl_i32 : ℕ
o_shl_i32 = 0x74

abbrev pub o_shl_i64 : ℕ
o_shl_i64 = 0x86

abbrev pub o_shr_si32 : ℕ
o_shr_si32 = 0x75

abbrev pub o_shr_si64 : ℕ
o_shr_si64 = 0x87

abbrev pub o_shr_ui32 : ℕ
o_shr_ui32 = 0x76

abbrev pub o_shr_ui64 : ℕ
o_shr_ui64 = 0x88

abbrev pub o_rotl_i32 : ℕ
o_rotl_i32 = 0x77

abbrev pub o_rotl_i64 : ℕ
o_rotl_i64 = 0x89

abbrev pub o_rotr_i32 : ℕ
o_rotr_i32 = 0x78

abbrev pub o_rotr_i64 : ℕ
o_rotr_i64 = 0x8a

abbrev pub o_clz_i32 : ℕ
o_clz_i32 = 0x67

abbrev pub o_clz_i64 : ℕ
o_clz_i64 = 0x79

abbrev pub o_ctz_i32 : ℕ
o_ctz_i32 = 0x68

abbrev pub o_ctz_i64 : ℕ
o_ctz_i64 = 0x7a

abbrev pub o_popcnt_i32 : ℕ
o_popcnt_i32 = 0x69

abbrev pub o_popcnt_i64 : ℕ
o_popcnt_i64 = 0x7b
