-- ===== src/Vm/Errors.antt =====
-- call.c: the panics of the instructions on integers.
use ymd.Common.{ℕ, zero, ◌+◌, ◌≡◌, ◌∙◌, refl, ap, arith, List, [], ◌∷◌, ◌++◌}
use ymd.Common.Int.{ℤ, pos, negsuc}
use ymd.Asm.{asm_build}
use ymd.Asm.Opcodes.{Op, op_code}
use ymd.Chunk.{Variable, int}
use ymd.Vm.State.{Result, done, panic, ◌>>=◌, Context, Services}
use ymd.Vm.Ops.{Arith, arith_op, on_ints, binary}
use ymd.Vm.Run.{going, dispatch, step}
use ymd.Vm.Operands.{Operands}
use ymd.Vm.Steps.{binary_panic}
use ymd.Vm.Exec.{step_built}

abbrev pub IsInt : Variable → Type 0
IsInt (int n) = Unit
IsInt _ = ⊥

abbrev pub arith_code : Arith → Op
arith_code Arith.mul = Op.mul
arith_code Arith.div = Op.div
arith_code Arith.sub = Op.sub
arith_code Arith.mod_ = Op.mod_
arith_code Arith.pow = Op.pow
arith_code Arith.andb = Op.andb
arith_code Arith.orb = Op.orb
arith_code Arith.xorb = Op.xorb

-- Why an instruction has no result: an operand of another type, a divisor zero, an exponent below it.
pub data Fails : Arith → Variable → Variable → Type 0 where
  not_int_left : {o : Arith} {a b : Variable} → (IsInt a → ⊥) → Fails o a b
  not_int_right : {o : Arith} {a b : Variable} → (IsInt b → ⊥) → Fails o a b
  zero_divisor : {a : Variable} → Fails Arith.div a (int (pos zero))
  zero_modulus : {a : Variable} → Fails Arith.mod_ a (int (pos zero))
  negative_exponent : {a : Variable} {n : ℕ} → Fails Arith.pow a (int (negsuc n))

not_left : (f : ℤ → ℤ → Result ℤ) (a b : Variable) → (IsInt a → ⊥) → on_ints f a b ≡ panic
not_left f (int n) b h = absurd (h tt)
not_left f _ b h = refl

not_right : (f : ℤ → ℤ → Result ℤ) (a b : Variable) → (IsInt b → ⊥) → on_ints f a b ≡ panic
not_right f a (int n) h = absurd (h tt)
not_right f (int m) _ h = refl
not_right f _ _ h = refl

panics-right :
    (f : ℤ → ℤ → Result ℤ) (n : ℤ) (a : Variable)
    → ((m : ℤ) → f m n ≡ panic)
    → on_ints f a (int n) ≡ panic
panics-right f n (int m) h =
    ap {B = Result Variable} (λ (r : Result ℤ). r >>= λ c. done (int c)) (h m)
panics-right f n _ h = refl

on_ints-Fails : {o : Arith} {a b : Variable} → Fails o a b → on_ints (arith_op o) a b ≡ panic
unfolding arith_op
on_ints-Fails (Fails.not_int_left {o = o} {a = a} {b = b} h) = not_left (arith_op o) a b h
on_ints-Fails (Fails.not_int_right {o = o} {a = a} {b = b} h) = not_right (arith_op o) a b h
on_ints-Fails (Fails.zero_divisor {a = a}) =
    panics-right (arith_op Arith.div) (pos zero) a (λ m. refl)
on_ints-Fails (Fails.zero_modulus {a = a}) =
    panics-right (arith_op Arith.mod_) (pos zero) a (λ m. refl)
on_ints-Fails (Fails.negative_exponent {a = a} {n = n}) =
    panics-right (arith_op Arith.pow) (negsuc n) a (λ m. refl)

module _ {H : Type 0} (s : Services H) where
  dispatch_arith :
      (o : Arith) (inst : ℕ) (l : Context H)
      → dispatch s (arith_code o) inst l ≡ going (binary (on_ints (arith_op o)) l)
  unfolding dispatch
  dispatch_arith Arith.mul inst l = refl
  dispatch_arith _ inst l = refl

  -- An instruction on two integers panics, whatever is below its operands on the stack, where one of
  -- them is of another type, where a division or a remainder has the divisor 0, and where a power has
  -- a negative exponent.
  pub step-Fails :
      (o : Arith) (l : Context H) (vs : List Variable) (a b : Variable)
      → Operands l.stack (vs ++ a ∷ b ∷ [])
      → Fails o a b
      → step s (asm_build (op_code (arith_code o)) 0 0) l ≡ panic
  step-Fails o l vs a b operands f =
      step_built s (arith_code o) 0 0 l (omega arith) (omega arith)
      ∙ dispatch_arith o _ _
      ∙ ap going (
          binary_panic (record l { tick = l.tick + 1 }) vs a b operands (on_ints (arith_op o))
            (on_ints-Fails f))
