-- ===== src/Compiler/Computes.antt =====
-- What it means that the code of an expression computes its value on the machine.
pub mod Strict
pub mod Logic
use Prim.Native.Nat.{max}
use mathlib.Core.List.{append_assoc}
use ymd.Common.{
  ℕ, ◌+◌, ◌^◌, ◌≤◌, ◌<◌, ◌≡◌, ◌∙◌, refl, sym, ap, subst, arith, Bool, true, false, List, [], ◌∷◌,
  ◌++◌, length, length-append, Bool-cases, inl, inr, ◌⊎◌, not, if◌then◌else◌,
}
use ymd.Asm.{asm_build}
use ymd.Asm.Fields.{asm_build-fields}
use ymd.Asm.Opcodes.{Op, op_code, f_kval, f_local, f_bool, f_nil, f_off, f_forward}
use ymd.Chunk.{Variable}
use ymd.Stack.{Stack, max_stack}
use ymd.Vm.State.{Result, done, panic, fault, ◌>>=◌, Context, Services, get_local, vm_bool}
use ymd.Vm.Transfers.{run_push, push_value}
use ymd.Vm.Run.{dispatch}
use ymd.Vm.Operands.{Operands}
use ymd.Vm.Steps.{run_push_lem}
use ymd.Vm.Exec.{At, At-append, Arrives, Arrives-append, one}
use ymd.Compiler.Syntax.{BinaryOp, UnaryOp}
use ymd.Compiler.Tree.{
  Tree, nil_, truth, number, local_, global_, unary, binary, unary_code, instruction, IsStrict,
  code, Fits, depth, with_state, apply_binary, eval,
}
use ymd.Compiler.Operators.{with_state-done, binary-Arrives, unary-Arrives}
use ymd.Compiler.Jumps.{falls, jumps, jump_op}

pub bind_inv :
    {A B : Type 0} (m : Result A) (f : A → Result B) {b : B}
    → (m >>= f) ≡ done b
    → (a : A) × (m ≡ done a) × (f a ≡ done b)
bind_inv (done a) f e = (a, refl, e)
bind_inv panic f e = absurd (cc)
bind_inv fault f e = absurd (cc)

pub done_inj : {A : Type 0} {p q : A} → done p ≡ done q → p ≡ q
done_inj e = cc

-- The context that a run of the expression passes through.
module _ {H : Type 0} (s : Services H) (base : Context H) where
  abbrev pub state : ℕ → Stack Variable → ℕ → H → Context H
  state pc st tk h = record base { pc = pc; stack = st; tick = tk; heap = h }

  -- From each state, the code of `t` at the counter takes the run to its end, with the value pushed.
  abbrev pub Computes : Tree → Type 0
  Computes t =
      (pc : ℕ) (st : Stack Variable) (tk : ℕ) (h h' : H) (vs : List Variable) (v : Variable)
      → At base.core.inst pc (code t)
      → Operands st vs
      → length vs + depth t ≤ max_stack
      → eval s base h t ≡ done (h', v)
      → Arrives s (state pc st tk h) (pc + length (code t)) h' (vs ++ v ∷ [])

  pub move_pc :
      {l : Context H} {h : H} {vs : List Variable} (pc pc' : ℕ)
      → pc ≡ pc'
      → Arrives s l pc h vs
      → Arrives s l pc' h vs
  move_pc {l} {h} {vs} pc pc' e a = subst (λ (n : ℕ). Arrives s l n h vs) e a
