-- ===== src/Asm/Tests.antt =====
-- Instructions built and read back, and the theorems at concrete fields.
use ymd.Common.{◌≡◌, refl, arith}
use ymd.Asm.{asm_build, asm_op, asm_flag, asm_param}
use ymd.Asm.Fields.{asm_build-fields}

push_local : asm_build 40 2 7 ≡ 0x28020007
unfolding asm_build
push_local = refl

asm_build-fields_example :
    (asm_op (asm_build 40 2 7) ≡ 40)
    × (asm_flag (asm_build 40 2 7) ≡ 2)
    × (asm_param (asm_build 40 2 7) ≡ 7)
asm_build-fields_example = asm_build-fields 40 2 7 (omega arith) (omega arith) (omega arith)
