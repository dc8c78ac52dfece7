-- ===== src/Lang/Opcodes/Convert.antt =====
-- The `enum opcode` of inc/wembed/lang.hpp: unary operations, conversions and sign extension.
use wembed.Base.{ℕ}

abbrev pub o_sqrt_f32 : ℕ
o_sqrt_f32 = 0x91

abbrev pub o_sqrt_f64 : ℕ
o_sqrt_f64 = 0x9f

abbrev pub o_ceil_f32 : ℕ
o_ceil_f32 = 0x8d

abbrev pub o_ceil_f64 : ℕ
o_ceil_f64 = 0x9b

abbrev pub o_floor_f32 : ℕ
o_floor_f32 = 0x8e

abbrev pub o_floor_f64 : ℕ
o_floor_f64 = 0x9c

abbrev pub o_trunc_f32 : ℕ
o_trunc_f32 = 0x8f

abbrev pub o_trunc_f64 : ℕ
o_trunc_f64 = 0x9d

abbrev pub o_nearest_f32 : ℕ
o_nearest_f32 = 0x90

abbrev pub o_nearest_f64 : ℕ
o_nearest_f64 = 0x9e

abbrev pub o_abs_f32 : ℕ
o_abs_f32 = 0x8b

abbrev pub o_abs_f64 : ℕ
o_abs_f64 = 0x99

abbrev pub o_neg_f32 : ℕ
o_neg_f32 = 0x8c

abbrev pub o_neg_f64 : ℕ
o_neg_f64 = 0x9a

abbrev pub o_min_f32 : ℕ
o_min_f32 = 0x96

abbrev pub o_min_f64 : ℕ
o_min_f64 = 0xa4

abbrev pub o_max_f32 : ℕ
o_max_f32 = 0x97

abbrev pub o_max_f64 : ℕ
o_max_f64 = 0xa5

abbrev pub o_copysign_f32 : ℕ
o_copysign_f32 = 0x98

abbrev pub o_copysign_f64 : ℕ
o_copysign_f64 = 0xa6

abbrev pub o_trunc_f32_si32 : ℕ
o_trunc_f32_si32 = 0xa8

abbrev pub o_trunc_f64_si32 : ℕ
o_trunc_f64_si32 = 0xaa

abbrev pub o_trunc_f32_si64 : ℕ
o_trunc_f32_si64 = 0xae

abbrev pub o_trunc_f64_si64 : ℕ
o_trunc_f64_si64 = 0xb0

abbrev pub o_trunc_f32_ui32 : ℕ
o_trunc_f32_ui32 = 0xa9

abbrev pub o_trunc_f64_ui32 : ℕ
o_trunc_f64_ui32 = 0xab

abbrev pub o_trunc_f32_ui64 : ℕ
o_trunc_f32_ui64 = 0xaf

abbrev pub o_trunc_f64_ui64 : ℕ
o_trunc_f64_ui64 = 0xb1

abbrev pub o_wrap_i64 : ℕ
o_wrap_i64 = 0xa7

abbrev pub o_extend_si32 : ℕ
o_extend_si32 = 0xac

abbrev pub o_extend_ui32 : ℕ
o_extend_ui32 = 0xad

abbrev pub o_demote_f64 : ℕ
o_demote_f64 = 0xb6

abbrev pub o_promote_f32 : ℕ
o_promote_f32 = 0xbb

abbrev pub o_convert_f32_si32 : ℕ
o_convert_f32_si32 = 0xb2

abbrev pub o_convert_f32_si64 : ℕ
o_convert_f32_si64 = 0xb4

abbrev pub o_convert_f64_si32 : ℕ
o_convert_f64_si32 = 0xb7

abbrev pub o_convert_f64_si64 : ℕ
o_convert_f64_si64 = 0xb9

abbrev pub o_convert_f32_ui32 : ℕ
o_convert_f32_ui32 = 0xb3

abbrev pub o_convert_f32_ui64 : ℕ
o_convert_f32_ui64 = 0xb5

abbrev pub o_convert_f64_ui32 : ℕ
o_convert_f64_ui32 = 0xb8

abbrev pub o_convert_f64_ui64 : ℕ
o_convert_f64_ui64 = 0xba

abbrev pub o_reinterpret_i32_f32 : ℕ
o_reinterpret_i32_f32 = 0xbc

abbrev pub o_reinterpret_i64_f64 : ℕ
o_reinterpret_i64_f64 = 0xbd

abbrev pub o_reinterpret_f32_i32 : ℕ
o_reinterpret_f32_i32 = 0xbe

abbrev pub o_reinterpret_f64_i64 : ℕ
o_reinterpret_f64_i64 = 0xbf

abbrev pub o_memory_grow : ℕ
o_memory_grow = 0x40

abbrev pub o_memory_size : ℕ
o_memory_size = 0x3f

abbrev pub o_extend_i32_s8 : ℕ
o_extend_i32_s8 = 0xc0

abbrev pub o_extend_i32_s16 : ℕ
o_extend_i32_s16 = 0xc1

abbrev pub o_extend_i64_s8 : ℕ
o_extend_i64_s8 = 0xc2

abbrev pub o_extend_i64_s16 : ℕ
o_extend_i64_s16 = 0xc3

abbrev pub o_extend_i64_s32 : ℕ
o_extend_i64_s32 = 0xc4

abbrev pub o_prefix_numeric : ℕ
o_prefix_numeric = 0xfc
