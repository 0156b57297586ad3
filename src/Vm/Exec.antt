-- ===== src/Vm/Exec.antt =====
-- Runs of several instructions, for code that stands at a place of the chunk.
use ymd.Common.{
  ℕ, suc, ◌+◌, ◌^◌, ◌<◌, ◌≡◌, ◌∙◌, ap, subst, arith, some, List, [], ◌∷◌, ◌++◌, length, get_elem?,
}
use ymd.Asm.{asm_build, asm_op}
use ymd.Asm.Fields.{asm_build-fields}
use ymd.Asm.Opcodes.{Op, op_code, op_of, op_of-op_code, op_code_lt}
use ymd.Chunk.{Variable}
use ymd.Stack.{Stack}
use ymd.Vm.State.{Result, done, Context, Services}
use ymd.Vm.Run.{goes, going, dispatch, step, vm_run}
use ymd.Vm.Operands.{Operands}
use ymd.Vm.Steps.{Leaves}

-- The instructions `code` stand from index `pc` on.
abbrev pub At : List ℕ → ℕ → List ℕ → Type 0
At inst pc [] = Unit
At inst pc (x ∷ code) = (get_elem? inst pc ≡ some x) × At inst (pc + 1) code

pub At-append :
    (inst : List ℕ) (pc : ℕ) (c d : List ℕ)
    → At inst pc (c ++ d)
    → At inst pc c × At inst (pc + length c) d
At-append inst pc [] d h = (tt, subst (λ (n : ℕ). At inst n d) (omega arith) h)
At-append inst pc (x ∷ c) d (here, rest) =
    let (front, back) = At-append inst (pc + 1) c d rest in
    ((here, front), subst (λ (n : ℕ). At inst n d) (omega arith) back)

module _ {H : Type 0} (s : Services H) where
  -- Any number of rounds of the loop of vm_run.
  pub data Steps : Context H → Context H → Type 0 where
    here : {l : Context H} → Steps l l
    more :
        {l m n : Context H} {inst : ℕ}
        → get_elem? l.core.inst l.pc ≡ some inst
        → step s inst l ≡ done (goes m)
        → Steps m n
        → Steps l n

  Steps-append : {l m n : Context H} → Steps l m → Steps m n → Steps l n
  Steps-append here r = r
  Steps-append (more fetched e rest) r = more fetched e (Steps-append rest r)

  -- The run reaches the counter `pc` with this heap and these values; locals, bound values and the
  -- chunk are as before.
  pub record Arrives (l : Context H) (pc : ℕ) (h : H) (vs : List Variable) : Type 0 where
    pub stack : Stack Variable
    pub tick : ℕ
    pub steps : Steps l (record l { pc = pc; stack = stack; tick = tick; heap = h })
    pub operands : Operands stack vs

  -- The context in which a run arrives.
  abbrev pub arrival :
      {l : Context H} {pc : ℕ} {h : H} {vs : List Variable} → Arrives l pc h vs → Context H
  arrival {l} {pc} {h} a = record l { pc = pc; stack = a.stack; tick = a.tick; heap = h }

  pub Arrives-append :
      {l : Context H} {pc pc' : ℕ} {h h' : H} {vs vs' : List Variable}
      → (a : Arrives l pc h vs) → Arrives (arrival a) pc' h' vs'
      → Arrives l pc' h' vs'
  Arrives-append a b = record {
    stack = b.stack;
    tick = b.tick;
    steps = Steps-append a.steps b.steps;
    operands = b.operands;
  }

  step_of :
      (inst : ℕ) (o : Op) (l : Context H)
      → op_of (asm_op inst) ≡ some o
      → step s inst l ≡ dispatch s o inst (record l { tick = l.tick + 1 })
  unfolding step
  step_of inst o l e = rw (e, step)

  -- What a built instruction does is what the case of its operation does.
  pub step_built :
      (o : Op) (flag param : ℕ) (l : Context H)
      → flag < 256
      → param < 2 ^ 16
      → step s (asm_build (op_code o) flag param) l
        ≡ dispatch s o (asm_build (op_code o) flag param) (record l { tick = l.tick + 1 })
  step_built o flag param l f p = step_of (asm_build (op_code o) flag param) o l (
      ap op_of (asm_build-fields (op_code o) flag param (op_code_lt o) f (omega arith)).0
      ∙ op_of-op_code o)

  pub one :
      (o : Op) (flag param : ℕ) (l : Context H) (r : Result (Context H)) (h : H)
      (vs : List Variable)
      → flag < 256
      → param < 2 ^ 16
      → At l.core.inst l.pc (asm_build (op_code o) flag param ∷ [])
      → dispatch s o (asm_build (op_code o) flag param) (record l { tick = l.tick + 1 }) ≡ going r
      → Leaves (record l { tick = l.tick + 1 }) r h vs
      → Arrives l (l.pc + 1) h vs
  one o flag param l r h vs f p (fetched, _) e leaves = record {
    stack = leaves.stack;
    tick = l.tick + 1;
    steps = more fetched (step_built o flag param l f p ∙ e ∙ ap going leaves.result) here;
    operands = leaves.operands;
  }

  -- The loop of vm_run goes through the rounds, and runs on with the fuel that is left.
  pub vm_run-Steps :
      {l m : Context H}
      → Steps l m
      → (n : ℕ) × ((fuel : ℕ) → vm_run s (n + fuel) l ≡ vm_run s fuel m)
  unfolding vm_run
  vm_run-Steps here =
      (0, λ fuel. ap (λ (k : ℕ). vm_run s k _) {x = 0 + fuel} {y = fuel} (omega arith))
  vm_run-Steps {l = l} {m = m} (more {m = next} {inst = inst} fetched e rest) =
      let (n, runs) = vm_run-Steps rest in
      (
        n + 1,
        λ fuel.
            ap (λ (k : ℕ). vm_run s k l) {x = n + 1 + fuel} {y = suc (n + fuel)} (omega arith)
            ∙ one_round (n + fuel) l next inst fetched e
            ∙ runs fuel,
      )
    where
      one_round :
          (fuel : ℕ) (l next : Context H) (inst : ℕ)
          → get_elem? l.core.inst l.pc ≡ some inst
          → step s inst l ≡ done (goes next)
          → vm_run s (suc fuel) l ≡ vm_run s fuel next
      one_round fuel l next inst fetched e = rw (fetched, e, vm_run)
