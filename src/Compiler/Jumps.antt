-- ===== src/Compiler/Jumps.antt =====
-- The jumps of `and` and `or`: over the second operand, with the first one kept, or on to it, with the
-- first one popped.
use ymd.Common.{ℕ, ◌+◌, ◌^◌, ◌<◌, ◌≡◌, ◌∙◌, ap, arith, Bool, true, false, not, List, [], ◌∷◌, ◌++◌}
use ymd.Asm.{asm_build}
use ymd.Asm.Fields.{asm_build-fields}
use ymd.Asm.Opcodes.{Op, op_code, f_forward}
use ymd.Chunk.{Variable}
use ymd.Vm.State.{done, Context, Services, jump, vm_bool}
use ymd.Vm.Transfers.{run_branch}
use ymd.Vm.Run.{going, dispatch}
use ymd.Vm.Operands.{Operands, peek_lem, pop_lem}
use ymd.Vm.Steps.{Leaves}
use ymd.Vm.Exec.{At, Arrives, one, here, more, step_built}

-- I_JNT and I_JNN, by the truth at which they fall through.
abbrev pub jump_op : Bool → Op
jump_op true = Op.jnt
jump_op false = Op.jnn

module _ {H : Type 0} (s : Services H) where
  -- The branch of a jump that pops only where it falls through.
  fall_lem :
      (stay : Bool) (param : ℕ) (l : Context H) (vs : List Variable) (a : Variable)
      → Operands l.stack (vs ++ a ∷ [])
      → vm_bool a ≡ stay
      → Leaves l (run_branch s stay false f_forward param l) l.heap vs
  unfolding run_branch
  fall_lem true param l vs a o e =
      let (st, popped, ops) = pop_lem l vs (a ∷ []) o in
      record { stack = st; result = rw (peek_lem l vs [] a o, e, popped); operands = ops }
  fall_lem false param l vs a o e =
      let (st, popped, ops) = pop_lem l vs (a ∷ []) o in
      record { stack = st; result = rw (peek_lem l vs [] a o, e, popped); operands = ops }

  taken_lem :
      (stay : Bool) (param : ℕ) (l : Context H) (vs : List Variable) (a : Variable)
      → Operands l.stack (vs ++ a ∷ [])
      → vm_bool a ≡ not stay
      → run_branch s stay false f_forward param l ≡ done (record l { pc = l.pc + param })
  unfolding run_branch jump
  taken_lem true param l vs a o e = rw (peek_lem l vs [] a o, e)
  taken_lem false param l vs a o e = rw (peek_lem l vs [] a o, e)

  dispatch_jump :
      (stay : Bool) (param : ℕ) (l : Context H)
      → param < 2 ^ 16
      → dispatch s (jump_op stay) (asm_build (op_code (jump_op stay)) f_forward param) l
        ≡ going (run_branch s stay false f_forward param l)
  unfolding dispatch op_code
  dispatch_jump true param l small =
      let fields = asm_build-fields 50 0 param (omega arith) (omega arith) (omega arith) in
      rw (fields.1, fields.2)
  dispatch_jump false param l small =
      let fields = asm_build-fields 55 0 param (omega arith) (omega arith) (omega arith) in
      rw (fields.1, fields.2)

  module _ (stay : Bool) (param : ℕ) (l : Context H) (vs : List Variable) (a : Variable)
      (o : Operands l.stack (vs ++ a ∷ [])) (small : param < 2 ^ 16)
      (placed : At l.core.inst l.pc (asm_build (op_code (jump_op stay)) f_forward param ∷ [])) where
    -- At the truth `stay` the value is popped, and the run goes on behind the jump.
    pub falls : vm_bool a ≡ stay → Arrives s l (l.pc + 1) l.heap vs
    falls e =
        one s (jump_op stay) f_forward param l _ l.heap vs (omega arith) small placed
          (dispatch_jump stay param (record l { tick = l.tick + 1 }) small)
          (fall_lem stay param (record l { tick = l.tick + 1 }) vs a o e)

    -- At the other truth the value stays, and the run goes on at the target.
    pub jumps : vm_bool a ≡ not stay → Arrives s l (l.pc + param) l.heap (vs ++ a ∷ [])
    jumps e = record {
      stack = l.stack;
      tick = l.tick + 1;
      steps =
          more placed.0
            (step_built s (jump_op stay) f_forward param l (omega arith) small
              ∙ dispatch_jump stay param (record l { tick = l.tick + 1 }) small
              ∙ ap going (taken_lem stay param (record l { tick = l.tick + 1 }) vs a o e))
            here;
      operands = o;
    }
