-- ===== src/Compiler/Execute.antt =====
-- The code of an expression, run by the machine, pushes the value of the expression.
use ymd.Common.{ℕ, ◌+◌, ◌^◌, ◌≤◌, ◌<◌, ◌≡◌, subst, arith, true, false, List, [], ◌∷◌, ◌++◌, length}
use ymd.Asm.{asm_build}
use ymd.Asm.Fields.{asm_build-fields}
use ymd.Asm.Opcodes.{Op, op_code, f_kval, f_local, f_bool, f_nil, f_off}
use ymd.Chunk.{Variable}
use ymd.Stack.{Stack, max_stack}
use ymd.Vm.State.{done, Context, Services, get_local}
use ymd.Vm.Transfers.{run_push, push_value}
use ymd.Vm.Run.{dispatch}
use ymd.Vm.Operands.{Operands}
use ymd.Vm.Steps.{run_push_lem}
use ymd.Vm.Exec.{At, Arrives, one}
use ymd.Compiler.Syntax.{BinaryOp}
use ymd.Compiler.Tree.{
  Tree, nil_, truth, number, local_, global_, unary, binary, code, Fits, depth, with_state, eval,
}
use ymd.Compiler.Operators.{with_state-done}
use ymd.Compiler.Computes.{state, Computes}
use ymd.Compiler.Computes.Strict.{unary-Computes, by_strict}
use ymd.Compiler.Computes.Logic.{by_logic}

module _ {H : Type 0} (s : Services H) where
  push-Arrives :
      (flag param : ℕ) (l : Context H) (vs : List Variable) (h : H) (v : Variable)
      → flag < 256
      → param < 2 ^ 16
      → At l.core.inst l.pc (asm_build (op_code Op.push) flag param ∷ [])
      → Operands l.stack vs
      → length vs < max_stack
      → with_state s l.heap (push_value s flag param l) ≡ done (h, v)
      → Arrives s l (l.pc + 1) h (vs ++ v ∷ [])
  unfolding dispatch op_code push_value get_local
  push-Arrives flag param l vs h v f p placed o room e =
      let (value, same) = with_state-done s l.heap h (push_value s flag param l) v e in
      let fields = asm_build-fields 40 flag param (omega arith) f (omega arith) in
      subst (λ k. Arrives s l (l.pc + 1) k (vs ++ v ∷ [])) same
        (one s Op.push flag param l (run_push s flag param (record l { tick = l.tick + 1 })) l.heap
          _ f p placed (rw (fields.1, fields.2))
          (run_push_lem s (record l { tick = l.tick + 1 }) flag param vs v o room value))

  module _ (base : Context H) where
    binary-Computes :
        (op : BinaryOp) (t u : Tree)
        → Fits (binary op t u)
        → Computes s base t
        → Computes s base u
        → Computes s base (binary op t u)
    unfolding code eval
    binary-Computes BinaryOp.add t u f ct cu = by_strict s base BinaryOp.add t u ct cu tt
    binary-Computes BinaryOp.sub t u f ct cu = by_strict s base BinaryOp.sub t u ct cu tt
    binary-Computes BinaryOp.mul t u f ct cu = by_strict s base BinaryOp.mul t u ct cu tt
    binary-Computes BinaryOp.div t u f ct cu = by_strict s base BinaryOp.div t u ct cu tt
    binary-Computes BinaryOp.mod_ t u f ct cu = by_strict s base BinaryOp.mod_ t u ct cu tt
    binary-Computes BinaryOp.eq t u f ct cu = by_strict s base BinaryOp.eq t u ct cu tt
    binary-Computes BinaryOp.ne t u f ct cu = by_strict s base BinaryOp.ne t u ct cu tt
    binary-Computes BinaryOp.match t u f ct cu = by_strict s base BinaryOp.match t u ct cu tt
    binary-Computes BinaryOp.lt t u f ct cu = by_strict s base BinaryOp.lt t u ct cu tt
    binary-Computes BinaryOp.le t u f ct cu = by_strict s base BinaryOp.le t u ct cu tt
    binary-Computes BinaryOp.gt t u f ct cu = by_strict s base BinaryOp.gt t u ct cu tt
    binary-Computes BinaryOp.ge t u f ct cu = by_strict s base BinaryOp.ge t u ct cu tt
    binary-Computes BinaryOp.and_ t u f ct cu = by_logic s base true t u ct cu f.2
    binary-Computes BinaryOp.or_ t u f ct cu = by_logic s base false t u ct cu f.2

    -- A leaf is one push.
    leaf :
        (flag param : ℕ)
        → flag < 256
        → param < 2 ^ 16
        → (pc : ℕ) (st : Stack Variable) (tk : ℕ) (h h' : H) (vs : List Variable) (v : Variable)
        → At base.core.inst pc (asm_build (op_code Op.push) flag param ∷ [])
        → Operands st vs
        → length vs + 1 ≤ max_stack
        → with_state s h (push_value s flag param (state s base pc st tk h)) ≡ done (h', v)
        → Arrives s (state s base pc st tk h) (pc + 1) h' (vs ++ v ∷ [])
    leaf flag param f p pc st tk h h' vs v placed o room e =
        push-Arrives flag param (state s base pc st tk h) vs h' v f p placed o (omega arith) e

    tree-Computes : (t : Tree) → Fits t → Computes s base t
    unfolding code eval push_value get_local
    tree-Computes nil_ f = leaf f_nil 0 (omega arith) (omega arith)
    tree-Computes (truth b) f = leaf f_bool b (omega arith) f
    tree-Computes (number i) f = leaf f_kval i (omega arith) f
    tree-Computes (local_ i) f = leaf f_local i (omega arith) f
    tree-Computes (global_ i) f = leaf f_off i (omega arith) f
    tree-Computes (unary op t) f = unary-Computes s base op t (tree-Computes t f)
    tree-Computes (binary op t u) f =
        binary-Computes op t u f (tree-Computes t f.0) (tree-Computes u f.1)

  -- Where the code of an expression stands at the counter, with room on the stack, and the expression
  -- has a value, the machine reaches the end of the code with that value pushed on what the stack held,
  -- and with the state that evaluation leaves.
  pub code-eval :
      (l : Context H) (t : Tree) (vs : List Variable) (h : H) (v : Variable)
      → Fits t
      → At l.core.inst l.pc (code t)
      → Operands l.stack vs
      → length vs + depth t ≤ max_stack
      → eval s l l.heap t ≡ done (h, v)
      → Arrives s l (l.pc + length (code t)) h (vs ++ v ∷ [])
  code-eval l t vs h v f placed o room e =
      tree-Computes l t f l.pc l.stack l.tick l.heap h vs v placed o room e
