-- ===== src/Lang/Opcodes/Access.antt =====
-- The `enum opcode` of inc/wembed/lang.hpp: loads, stores and constants.
use wembed.Base.{ℕ}

abbrev pub o_load_i32 : ℕ
o_load_i32 = 0x28

abbrev pub o_load_i64 : ℕ
o_load_i64 = 0x29

abbrev pub o_load_f32 : ℕ
o_load_f32 = 0x2a

abbrev pub o_load_f64 : ℕ
o_load_f64 = 0x2b

abbrev pub o_store_i32 : ℕ
o_store_i32 = 0x36

abbrev pub o_store_i64 : ℕ
o_store_i64 = 0x37

abbrev pub o_store_f32 : ℕ
o_store_f32 = 0x38

abbrev pub o_store_f64 : ℕ
o_store_f64 = 0x39

abbrev pub o_const_i32 : ℕ
o_const_i32 = 0x41

abbrev pub o_const_i64 : ℕ
o_const_i64 = 0x42

abbrev pub o_const_f32 : ℕ
o_const_f32 = 0x43

abbrev pub o_const_f64 : ℕ
o_const_f64 = 0x44

abbrev pub o_load8_si32 : ℕ
o_load8_si32 = 0x2c

abbrev pub o_load16_si32 : ℕ
o_load16_si32 = 0x2e

abbrev pub o_load8_si64 : ℕ
o_load8_si64 = 0x30

abbrev pub o_load16_si64 : ℕ
o_load16_si64 = 0x32

abbrev pub o_load32_si64 : ℕ
o_load32_si64 = 0x34

abbrev pub o_load8_ui32 : ℕ
o_load8_ui32 = 0x2d

abbrev pub o_load16_ui32 : ℕ
o_load16_ui32 = 0x2f

abbrev pub o_load8_ui64 : ℕ
o_load8_ui64 = 0x31

abbrev pub o_load16_ui64 : ℕ
o_load16_ui64 = 0x33

abbrev pub o_load32_ui64 : ℕ
o_load32_ui64 = 0x35

abbrev pub o_store8_i32 : ℕ
o_store8_i32 = 0x3a

abbrev pub o_store16_i32 : ℕ
o_store16_i32 = 0x3b

abbrev pub o_store8_i64 : ℕ
o_store8_i64 = 0x3c

abbrev pub o_store16_i64 : ℕ
o_store16_i64 = 0x3d

abbrev pub o_store32_i64 : ℕ
o_store32_i64 = 0x3e
