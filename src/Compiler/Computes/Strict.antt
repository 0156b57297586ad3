-- ===== src/Compiler/Computes/Strict.antt =====
-- The operators that take all of their operands.
use Prim.Native.Nat.{max}
use mathlib.Core.List.{append_assoc}
use ymd.Common.{ℕ, ◌+◌, ◌≤◌, ◌≡◌, ◌∙◌, subst, arith, List, [], ◌∷◌, ◌++◌, length, length-append}
use ymd.Asm.{asm_build}
use ymd.Asm.Opcodes.{op_code}
use ymd.Chunk.{Variable}
use ymd.Stack.{Stack, max_stack}
use ymd.Vm.State.{done, ◌>>=◌, Context, Services}
use ymd.Vm.Operands.{Operands}
use ymd.Vm.Exec.{At, At-append, Arrives, Arrives-append}
use ymd.Compiler.Syntax.{BinaryOp, UnaryOp}
use ymd.Compiler.Tree.{
  Tree, unary, unary_code, instruction, IsStrict, code, depth, apply_binary, eval,
}
use ymd.Compiler.Operators.{binary-Arrives, unary-Arrives}
use ymd.Compiler.Computes.{bind_inv, state, Computes, move_pc}

module _ {H : Type 0} (s : Services H) (base : Context H) where
  pub unary-Computes : (op : UnaryOp) (t : Tree) → Computes s base t → Computes s base (unary op t)
  unfolding code eval
  unary-Computes op t computes pc st tk h h' vs v placed o room e =
      let (front, back) = At-append base.core.inst pc (code t) _ placed in
      let ((h₁, a), first, applied) = bind_inv (eval s base h t) _ e in
      let run = computes pc st tk h h₁ vs a front o room first in
      move_pc s base _ _
        (omega (arith, length-append (code t) (asm_build (op_code (unary_code op)) 0 0 ∷ [])))
        (Arrives-append s run (
          unary-Arrives s (state s base (pc + length (code t)) run.stack run.tick h₁) vs a v h'
            run.operands op back applied))

  strict-Computes :
      (op : BinaryOp) (t u : Tree)
      → Computes s base t
      → Computes s base u
      → IsStrict op
      → (pc : ℕ) (st : Stack Variable) (tk : ℕ) (h h₁ h₂ h' : H) (vs : List Variable)
        (a b v : Variable)
      → At base.core.inst pc ((code t ++ code u) ++ instruction op ∷ [])
      → Operands st vs
      → length vs + max (depth t) (depth u + 1) ≤ max_stack
      → eval s base h t ≡ done (h₁, a)
      → eval s base h₁ u ≡ done (h₂, b)
      → apply_binary s h₂ op a b ≡ done (h', v)
      → Arrives s
          (state s base pc st tk h)
          (pc + length ((code t ++ code u) ++ instruction op ∷ []))
          h'
          (vs ++ v ∷ [])
  strict-Computes op t u ct cu q pc st tk h h₁ h₂ h' vs a b v placed o room e₁ e₂ e₃ =
      let (front, back) = At-append base.core.inst pc (code t ++ code u) _ placed in
      let (left, right) = At-append base.core.inst pc (code t) (code u) front in
      let run = ct pc st tk h h₁ vs a left o (omega arith) e₁ in
      let size = length-append vs (a ∷ []) in
      let run' =
        cu (pc + length (code t)) run.stack run.tick h₁ h₂ (vs ++ a ∷ []) b right run.operands
          (omega (arith, size)) e₂ in
      let both : Operands run'.stack (vs ++ a ∷ b ∷ []) = record {
        valid = run'.operands.valid;
        holds = run'.operands.holds ∙ append_assoc vs (a ∷ []) (b ∷ []);
      } in
      let there : pc + length (code t ++ code u) ≡ pc + length (code t) + length (code u) =
        omega (arith, length-append (code t) (code u)) in
      move_pc s base _ _
        (omega (
          arith,
          length-append (code t ++ code u) (instruction op ∷ []),
          length-append (code t) (code u),
        ))
        (Arrives-append s run (
          Arrives-append s run' (
            binary-Arrives s
              (state s base (pc + length (code t) + length (code u)) run'.stack run'.tick h₂) vs a b
              v h' both op q
              (subst (λ (n : ℕ). At base.core.inst n (instruction op ∷ [])) there back) e₃)))

  -- The value of the operands, for an operator that takes both.
  pub by_strict :
      (op : BinaryOp) (t u : Tree)
      → Computes s base t
      → Computes s base u
      → IsStrict op
      → (pc : ℕ) (st : Stack Variable) (tk : ℕ) (h h' : H) (vs : List Variable) (v : Variable)
      → At base.core.inst pc ((code t ++ code u) ++ instruction op ∷ [])
      → Operands st vs
      → length vs + max (depth t) (depth u + 1) ≤ max_stack
      → (eval s base h t >>= λ (r : H × Variable).
          eval s base r.0 u >>= λ (r' : H × Variable). apply_binary s r'.0 op r.1 r'.1)
        ≡ done (h', v)
      → Arrives s
          (state s base pc st tk h)
          (pc + length ((code t ++ code u) ++ instruction op ∷ []))
          h'
          (vs ++ v ∷ [])
  by_strict op t u ct cu q pc st tk h h' vs v placed o room e =
      let ((h₁, a), e₁, e') = bind_inv (eval s base h t) _ e in
      let ((h₂, b), e₂, e₃) = bind_inv (eval s base h₁ u) _ e' in
      strict-Computes op t u ct cu q pc st tk h h₁ h₂ h' vs a b v placed o room e₁ e₂ e₃
