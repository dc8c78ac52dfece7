-- ===== src/Lang/Opcodes/Compare.antt =====
-- The `enum opcode` of inc/wembed/lang.hpp: comparisons.
use wembed.Base.{ℕ}

abbrev pub o_eqz_i32 : ℕ
o_eqz_i32 = 0x45

abbrev pub o_eqz_i64 : ℕ
o_eqz_i64 = 0x50

abbrev pub o_eq_i32 : ℕ
o_eq_i32 = 0x46

abbrev pub o_eq_i64 : ℕ
o_eq_i64 = 0x51

abbrev pub o_ne_i32 : ℕ
o_ne_i32 = 0x47

abbrev pub o_ne_i64 : ℕ
o_ne_i64 = 0x52

abbrev pub o_lt_si32 : ℕ
o_lt_si32 = 0x48

abbrev pub o_lt_si64 : ℕ
o_lt_si64 = 0x53

abbrev pub o_lt_ui32 : ℕ
o_lt_ui32 = 0x49

abbrev pub o_lt_ui64 : ℕ
o_lt_ui64 = 0x54

abbrev pub o_le_si32 : ℕ
o_le_si32 = 0x4c

abbrev pub o_le_si64 : ℕ
o_le_si64 = 0x57

abbrev pub o_le_ui32 : ℕ
o_le_ui32 = 0x4d

abbrev pub o_le_ui64 : ℕ
o_le_ui64 = 0x58

abbrev pub o_gt_si32 : ℕ
o_gt_si32 = 0x4a

abbrev pub o_gt_si64 : ℕ
o_gt_si64 = 0x55

abbrev pub o_gt_ui32 : ℕ
o_gt_ui32 = 0x4b

abbrev pub o_gt_ui64 : ℕ
o_gt_ui64 = 0x56

abbrev pub o_ge_si32 : ℕ
o_ge_si32 = 0x4e

abbrev pub o_ge_si64 : ℕ
o_ge_si64 = 0x59

abbrev pub o_ge_ui32 : ℕ
o_ge_ui32 = 0x4f

abbrev pub o_ge_ui64 : ℕ
o_ge_ui64 = 0x5a

abbrev pub o_eq_f32 : ℕ
o_eq_f32 = 0x5b

abbrev pub o_eq_f64 : ℕ
o_eq_f64 = 0x61

abbrev pub o_ne_f32 : ℕ
o_ne_f32 = 0x5c

abbrev pub o_ne_f64 : ℕ
o_ne_f64 = 0x62

abbrev pub o_lt_f32 : ℕ
o_lt_f32 = 0x5d

abbrev pub o_lt_f64 : ℕ
o_lt_f64 = 0x63

abbrev pub o_le_f32 : ℕ
o_le_f32 = 0x5f

abbrev pub o_le_f64 : ℕ
o_le_f64 = 0x65

abbrev pub o_gt_f32 : ℕ
o_gt_f32 = 0x5e

abbrev pub o_gt_f64 : ℕ
o_gt_f64 = 0x64

abbrev pub o_ge_f32 : ℕ
o_ge_f32 = 0x60

abbrev pub o_ge_f64 : ℕ
o_ge_f64 = 0x66
