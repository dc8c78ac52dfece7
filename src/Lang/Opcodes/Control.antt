-- ===== src/Lang/Opcodes/Control.antt =====
-- The `enum opcode` of inc/wembed/lang.hpp: control and variables.
use wembed.Base.{ℕ}

abbrev pub o_unreachable : ℕ
o_unreachable = 0x0

abbrev pub o_nop : ℕ
o_nop = 0x1

abbrev pub o_block : ℕ
o_block = 0x2

abbrev pub o_loop : ℕ
o_loop = 0x3

abbrev pub o_if : ℕ
o_if = 0x4

abbrev pub o_else : ℕ
o_else = 0x5

abbrev pub o_end : ℕ
o_end = 0xb

abbrev pub o_br : ℕ
o_br = 0xc

abbrev pub o_br_if : ℕ
o_br_if = 0xd

abbrev pub o_br_table : ℕ
o_br_table = 0xe

abbrev pub o_return : ℕ
o_return = 0xf

abbrev pub o_call : ℕ
o_call = 0x10

abbrev pub o_call_indirect : ℕ
o_call_indirect = 0x11

abbrev pub o_drop : ℕ
o_drop = 0x1a

abbrev pub o_select : ℕ
o_select = 0x1b

abbrev pub o_get_local : ℕ
o_get_local = 0x20

abbrev pub o_set_local : ℕ
o_set_local = 0x21

abbrev pub o_tee_local : ℕ
o_tee_local = 0x22

abbrev pub o_get_global : ℕ
o_get_global = 0x23

abbrev pub o_set_global : ℕ
o_set_global = 0x24
