-- ===== src/Compiler/Operators.antt =====
-- The machine runs the instruction of an operator as the operator is applied to values.
use ymd.Common.{ℕ, ◌+◌, ◌<◌, ◌≡◌, refl, ap, subst, arith, List, [], ◌∷◌, ◌++◌}
use ymd.Asm.{asm_build}
use ymd.Asm.Fields.{asm_build-fields}
use ymd.Asm.Opcodes.{Op, op_code, f_eq, f_ne, f_match, f_lt, f_le, f_gt, f_ge}
use ymd.Chunk.{Variable}
use ymd.Vm.State.{Result, done, panic, fault, Context, Services}
use ymd.Vm.Ops.{Arith, arith_op, on_ints, binary, unary, inv_op, not_op, test_op}
use ymd.Vm.Run.{going, dispatch}
use ymd.Vm.Operands.{Operands}
use ymd.Vm.Steps.{Leaves, binary_lem, unary_lem, run_add_lem, run_typeof_lem}
use ymd.Vm.Exec.{At, Arrives, one}
use ymd.Compiler.Syntax.{BinaryOp, UnaryOp}
use ymd.Compiler.Tree.{unary_code, instruction, IsStrict, with_state, apply_unary, apply_binary}

pub with_state-done :
    {H : Type 0} (s : Services H) (h h' : H) (r : Result Variable) (v : Variable)
    → with_state s h r ≡ done (h', v)
    → (r ≡ done v) × (h ≡ h')
with_state-done s h h' (done w) v e = (cc, cc)
with_state-done s h h' panic v e = absurd (cc)
with_state-done s h h' fault v e = absurd (cc)

module _ {H : Type 0} (s : Services H) (l : Context H) where
  module _ (vs : List Variable) (a b v : Variable) (h : H)
      (o : Operands l.stack (vs ++ a ∷ b ∷ [])) where
    -- An instruction that applies `f` to two values.
    by_binary :
        (op : Op) (flag : ℕ) (f : Variable → Variable → Result Variable)
        → flag < 256
        → At l.core.inst l.pc (asm_build (op_code op) flag 0 ∷ [])
        → dispatch s op (asm_build (op_code op) flag 0) (record l { tick = l.tick + 1 })
          ≡ going (binary f (record l { tick = l.tick + 1 }))
        → with_state s l.heap (f a b) ≡ done (h, v)
        → Arrives s l (l.pc + 1) h (vs ++ v ∷ [])
    by_binary op flag f small placed e applied =
        let (value, same) = with_state-done s l.heap h (f a b) v applied in
        one s op flag 0 l _ h (vs ++ v ∷ []) small (omega arith) placed e (
          subst
            (λ k.
              Leaves (record l { tick = l.tick + 1 }) (binary f (record l { tick = l.tick + 1 })) k
                (vs ++ v ∷ []))
            same (binary_lem (record l { tick = l.tick + 1 }) vs a b o f v value))

    by_test :
        (flag : ℕ)
        → flag < 256
        → At l.core.inst l.pc (asm_build (op_code Op.test) flag 0 ∷ [])
        → with_state s l.heap (test_op s l.heap flag a b) ≡ done (h, v)
        → Arrives s l (l.pc + 1) h (vs ++ v ∷ [])
    unfolding dispatch op_code
    by_test flag small placed = by_binary Op.test flag (test_op s l.heap flag) small placed (
        ap (λ (n : ℕ). going (binary (test_op s l.heap n) (record l { tick = l.tick + 1 })))
          (asm_build-fields 45 flag 0 (omega arith) small (omega arith)).1)

    by_arith :
        (op : Op) (o' : Arith)
        → dispatch s op (asm_build (op_code op) 0 0) (record l { tick = l.tick + 1 })
          ≡ going (binary (on_ints (arith_op o')) (record l { tick = l.tick + 1 }))
        → At l.core.inst l.pc (asm_build (op_code op) 0 0 ∷ [])
        → with_state s l.heap (on_ints (arith_op o') a b) ≡ done (h, v)
        → Arrives s l (l.pc + 1) h (vs ++ v ∷ [])
    by_arith op o' e placed = by_binary op 0 (on_ints (arith_op o')) (omega arith) placed e

    by_add :
        At l.core.inst l.pc (asm_build (op_code Op.add) 0 0 ∷ [])
        → apply_binary s l.heap BinaryOp.add a b ≡ done (h, v)
        → Arrives s l (l.pc + 1) h (vs ++ v ∷ [])
    unfolding dispatch
    by_add placed applied =
        one s Op.add 0 0 l _ h (vs ++ v ∷ []) (omega arith) (omega arith) placed refl
          (run_add_lem s (record l { tick = l.tick + 1 }) vs a b v h o applied)

    -- The instruction of a binary operator puts the result in place of its operands.
    pub binary-Arrives :
        (op : BinaryOp)
        → IsStrict op
        → At l.core.inst l.pc (instruction op ∷ [])
        → apply_binary s l.heap op a b ≡ done (h, v)
        → Arrives s l (l.pc + 1) h (vs ++ v ∷ [])
    unfolding dispatch
    binary-Arrives BinaryOp.add q placed e = by_add placed e
    binary-Arrives BinaryOp.sub q placed e = by_arith Op.sub Arith.sub refl placed e
    binary-Arrives BinaryOp.mul q placed e = by_arith Op.mul Arith.mul refl placed e
    binary-Arrives BinaryOp.div q placed e = by_arith Op.div Arith.div refl placed e
    binary-Arrives BinaryOp.mod_ q placed e = by_arith Op.mod_ Arith.mod_ refl placed e
    binary-Arrives BinaryOp.eq q placed e = by_test f_eq (omega arith) placed e
    binary-Arrives BinaryOp.ne q placed e = by_test f_ne (omega arith) placed e
    binary-Arrives BinaryOp.match q placed e = by_test f_match (omega arith) placed e
    binary-Arrives BinaryOp.lt q placed e = by_test f_lt (omega arith) placed e
    binary-Arrives BinaryOp.le q placed e = by_test f_le (omega arith) placed e
    binary-Arrives BinaryOp.gt q placed e = by_test f_gt (omega arith) placed e
    binary-Arrives BinaryOp.ge q placed e = by_test f_ge (omega arith) placed e
    binary-Arrives BinaryOp.and_ q placed e = absurd q
    binary-Arrives BinaryOp.or_ q placed e = absurd q

  module _ (vs : List Variable) (a v : Variable) (h : H) (o : Operands l.stack (vs ++ a ∷ [])) where
    by_unary :
        (op : Op) (f : Variable → Result Variable)
        → dispatch s op (asm_build (op_code op) 0 0) (record l { tick = l.tick + 1 })
          ≡ going (unary f (record l { tick = l.tick + 1 }))
        → At l.core.inst l.pc (asm_build (op_code op) 0 0 ∷ [])
        → with_state s l.heap (f a) ≡ done (h, v)
        → Arrives s l (l.pc + 1) h (vs ++ v ∷ [])
    by_unary op f e placed applied =
        let (value, same) = with_state-done s l.heap h (f a) v applied in
        one s op 0 0 l _ h (vs ++ v ∷ []) (omega arith) (omega arith) placed e (
          subst
            (λ k.
              Leaves (record l { tick = l.tick + 1 }) (unary f (record l { tick = l.tick + 1 })) k
                (vs ++ v ∷ []))
            same (unary_lem (record l { tick = l.tick + 1 }) vs a o f v value))

    by_typeof :
        At l.core.inst l.pc (asm_build (op_code Op.typeof) 0 0 ∷ [])
        → apply_unary s l.heap UnaryOp.typeof a ≡ done (h, v)
        → Arrives s l (l.pc + 1) h (vs ++ v ∷ [])
    unfolding dispatch
    by_typeof placed applied =
        subst (λ (r : H × Variable). Arrives s l (l.pc + 1) r.0 (vs ++ r.1 ∷ [])) (done_inj applied)
          (one s Op.typeof 0 0 l _ _ _ (omega arith) (omega arith) placed refl
            (run_typeof_lem s (record l { tick = l.tick + 1 }) vs a o))
      where
        done_inj : {p q : H × Variable} → done p ≡ done q → p ≡ q
        done_inj e = cc

    -- The instruction of a unary operator puts the result in place of its operand.
    pub unary-Arrives :
        (op : UnaryOp)
        → At l.core.inst l.pc (asm_build (op_code (unary_code op)) 0 0 ∷ [])
        → apply_unary s l.heap op a ≡ done (h, v)
        → Arrives s l (l.pc + 1) h (vs ++ v ∷ [])
    unfolding dispatch
    unary-Arrives UnaryOp.mins placed e = by_unary Op.inv inv_op refl placed e
    unary-Arrives UnaryOp.not_ placed e = by_unary Op.not not_op refl placed e
    unary-Arrives UnaryOp.not_nil placed e = by_unary Op.not not_op refl placed e
    unary-Arrives UnaryOp.typeof placed e = by_typeof placed e
