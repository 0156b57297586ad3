-- ===== src/Compiler/Computes/Logic.antt =====
-- The operators `and` and `or`, whose first operand may decide.
use Prim.Native.Nat.{max}
use ymd.Common.{
  ℕ, ◌+◌, ◌^◌, ◌≤◌, ◌<◌, ◌≡◌, ◌∙◌, sym, ap, subst, arith, Bool, true, false, List, [], ◌∷◌, ◌++◌,
  length, length-append, Bool-cases, inl, inr, ◌⊎◌, not, if◌then◌else◌,
}
use ymd.Asm.{asm_build}
use ymd.Asm.Opcodes.{op_code, f_forward}
use ymd.Chunk.{Variable}
use ymd.Stack.{Stack, max_stack}
use ymd.Vm.State.{Result, done, ◌>>=◌, Context, Services, vm_bool}
use ymd.Vm.Operands.{Operands}
use ymd.Vm.Exec.{At, At-append, Arrives, Arrives-append}
use ymd.Compiler.Tree.{Tree, code, depth, eval}
use ymd.Compiler.Jumps.{falls, jumps, jump_op}
use ymd.Compiler.Computes.{bind_inv, done_inj, state, Computes, move_pc}

-- Whether `and` (at true) or `or` keeps the first value.
abbrev keeps : Bool → Variable → Bool
keeps true a = if vm_bool a then false else true
keeps false a = vm_bool a

keeps-cases :
    (stay : Bool) (a : Variable)
    → ((vm_bool a ≡ stay) × (keeps stay a ≡ false))
      ⊎ ((vm_bool a ≡ not stay) × (keeps stay a ≡ true))
keeps-cases true a = elim (Bool-cases (vm_bool a)) [ inl t ↦ inl (t, rw t) | inr f ↦ inr (f, rw f) ]
keeps-cases false a = elim (Bool-cases (vm_bool a)) [ inl t ↦ inr (t, t) | inr f ↦ inl (f, f) ]

module _ {H : Type 0} (s : Services H) (base : Context H) where
  -- What `and` (at true) and `or` make of the first value.
  abbrev pub second : Bool → Tree → H × Variable → Result (H × Variable)
  second stay u r = elim (keeps stay r.1) [
    | true ↦ done (r.0, r.1)
    | false ↦ ◌>>=◌ {B = H × Variable} (eval s base r.0 u) (λ r'. done (r'.0, r'.1))
  ]

  second_goes :
      (stay : Bool) (u : Tree) (r : H × Variable)
      → keeps stay r.1 ≡ false
      → second stay u r ≡ ◌>>=◌ {B = H × Variable} (eval s base r.0 u) (λ r'. done (r'.0, r'.1))
  second_goes stay u r e =
      ap {B = Result (H × Variable)}
        (λ (b : Bool). elim b [
          | true ↦ done (r.0, r.1)
          | false ↦ ◌>>=◌ {B = H × Variable} (eval s base r.0 u) (λ r'. done (r'.0, r'.1))
        ])
        e

  second_kept :
      (stay : Bool) (u : Tree) (r : H × Variable)
      → keeps stay r.1 ≡ true
      → second stay u r ≡ done (r.0, r.1)
  second_kept stay u r e =
      ap {B = Result (H × Variable)}
        (λ (b : Bool). elim b [
          | true ↦ done (r.0, r.1)
          | false ↦ ◌>>=◌ {B = H × Variable} (eval s base r.0 u) (λ r'. done (r'.0, r'.1))
        ])
        e

  -- The operators that may keep the first value: the one that stays at a true value is `and`.
  pub by_logic :
      (stay : Bool) (t u : Tree)
      → Computes s base t
      → Computes s base u
      → length (code u) + 1 < 2 ^ 16
      → (pc : ℕ) (st : Stack Variable) (tk : ℕ) (h h' : H) (vs : List Variable) (v : Variable)
      → At base.core.inst pc
          (code t ++ asm_build (op_code (jump_op stay)) f_forward (length (code u) + 1) ∷ code u)
      → Operands st vs
      → length vs + max (depth t) (depth u + 1) ≤ max_stack
      → (eval s base h t >>= second stay u) ≡ done (h', v)
      → Arrives s
          (state s base pc st tk h)
          (pc
            + length (
                code t
                ++ asm_build (op_code (jump_op stay)) f_forward (length (code u) + 1) ∷ code u))
          h'
          (vs ++ v ∷ [])
  by_logic stay t u ct cu small pc st tk h h' vs v placed o room e =
      let ((h₁, a), e₁, e') = bind_inv (eval s base h t) _ e in
      let (left, (fetched, right)) = At-append base.core.inst pc (code t) _ placed in
      let run = ct pc st tk h h₁ vs a left o (omega arith) e₁ in
      let size =
        length-append (code t)
          (asm_build (op_code (jump_op stay)) f_forward (length (code u) + 1) ∷ code u) in
      let past : ℕ =
        pc
        + length (
            code t
            ++ asm_build (op_code (jump_op stay)) f_forward (length (code u) + 1) ∷ code u) in
      let l = state s base (pc + length (code t)) run.stack run.tick h₁ in
      elim (keeps-cases stay a) [
        | inl (valued, goes_on) ↦
            let (r, e₂, same) =
              bind_inv (eval s base h₁ u) _ (sym (second_goes stay u (h₁, a) goes_on) ∙ e') in
            let fall =
              falls s stay (length (code u) + 1) l vs a run.operands small (fetched, tt) valued in
            subst
              (λ (x : H × Variable). Arrives s (state s base pc st tk h) past x.0 (vs ++ x.1 ∷ []))
              (done_inj same)
              (move_pc s base _ past (omega (arith, size)) (
                Arrives-append s run (
                  Arrives-append s fall (
                    cu (pc + length (code t) + 1) fall.stack fall.tick h₁ r.0 vs r.1 right
                      fall.operands (omega arith) e₂))))
        | inr (valued, kept) ↦
            subst
              (λ (x : H × Variable). Arrives s (state s base pc st tk h) past x.0 (vs ++ x.1 ∷ []))
              (done_inj (sym (second_kept stay u (h₁, a) kept) ∙ e'))
              (move_pc s base _ past (omega (arith, size)) (
                Arrives-append s run (
                  jumps s stay (length (code u) + 1) l vs a run.operands small (fetched, tt)
                    valued)))
      ]
