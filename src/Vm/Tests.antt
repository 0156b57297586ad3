-- ===== src/Vm/Tests.antt =====
-- The theorems on the machine at concrete inputs.
use ymd.Common.{◌≡◌, refl, arith, [], ◌∷◌, replicate, length-replicate}
use ymd.Common.Int.{pos}
use ymd.Asm.{asm_build}
use ymd.Asm.Opcodes.{Op, op_code}
use ymd.Chunk.{Variable, nil, int}
use ymd.Vm.State.{panic, Context}
use ymd.Vm.Ops.{Arith}
use ymd.Vm.Run.{step}
use ymd.Vm.Operands.{Operands}
use ymd.Vm.Fixture.{services}
use ymd.Vm.Errors.{Fails, step-Fails}

-- nil, 7 and 0 on the stack.
abbrev context : Context (Unit {0})
context = record {
  pc = 0;
  stack = record { stk = nil ∷ int (pos 7) ∷ int (pos 0) ∷ replicate 125 nil; top = 3 };
  loc = [];
  bind = [];
  core = record { inst = []; line = []; kval = []; kkval = 0; lz = []; klz = 0; kargs = 0 };
  tick = 0;
  heap = tt;
}

context-Operands : Operands context.stack (nil ∷ int (pos 7) ∷ int (pos 0) ∷ [])
context-Operands = record {
  valid = record {
    whole = omega (arith, length-replicate {A = Variable} 125 nil);
    fits = omega arith;
  };
  holds = refl;
}

step-Fails_example : step services (asm_build (op_code Op.div) 0 0) context ≡ panic
step-Fails_example =
    step-Fails services Arith.div context (nil ∷ []) (int (pos 7)) (int (pos 0)) context-Operands
      Fails.zero_divisor
