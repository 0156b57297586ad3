-- ===== src/Asm.antt =====
-- assembly.h: a 32-bit instruction packs an opcode (bits 24 to 31), a flag (16 to 23) and a
-- parameter (0 to 15); a call splits the parameter into four bits of results and twelve of method.
pub mod Fields
pub mod Opcodes
mod Tests
use ymd.Common.{ℕ, ◌+◌, ◌*◌, ◌/◌, ◌%◌, ◌^◌, bit_and, bit_or}

-- (uint_t)op << 24 | (uint_t)flag << 16 | param
unfoldable pub asm_build : ℕ → ℕ → ℕ → ℕ
asm_build op flag param = bit_or (bit_or (op * 2 ^ 24 % 2 ^ 32) (flag * 2 ^ 16 % 2 ^ 32)) param

-- The third argument of `asm_build` is an unsigned short.
unfoldable pub asm_call : ℕ → ℕ → ℕ → ℕ → ℕ
unfolding asm_build
asm_call op aret argc method =
    asm_build op argc (bit_or (bit_and aret 0x0f * 2 ^ 12) (bit_and method 0x0fff) % 2 ^ 16)

unfoldable pub asm_op : ℕ → ℕ
asm_op inst = bit_and inst 0xff000000 / 2 ^ 24 % 2 ^ 8

unfoldable pub asm_flag : ℕ → ℕ
asm_flag inst = bit_and inst 0x00ff0000 / 2 ^ 16 % 2 ^ 8

unfoldable pub asm_param : ℕ → ℕ
asm_param inst = bit_and inst 0x0000ffff % 2 ^ 16

unfoldable pub asm_aret : ℕ → ℕ
unfolding asm_param
asm_aret inst = bit_and (asm_param inst) 0xf000 / 2 ^ 12 % 2 ^ 8

unfoldable pub asm_method : ℕ → ℕ
unfolding asm_param
asm_method inst = bit_and (asm_param inst) 0x0fff % 2 ^ 16

unfoldable pub asm_argc : ℕ → ℕ
unfolding asm_flag
asm_argc inst = asm_flag inst
