-- ===== src/Compiler/Tree.antt =====
-- The expressions of the language as trees, what they evaluate to, and the code that compiler.c emits
-- for them. The leaves are what parse_simple pushes: constants and globals by their index in the
-- table of constants, locals by their number.
use ymd.Common.{ℕ, ◌+◌, ◌^◌, ◌<◌, if◌then◌else◌, Bool, true, false, List, [], ◌∷◌, ◌++◌, length}
use Prim.Native.Nat.{max}
use ymd.Common.Int.{pos}
use ymd.Asm.{asm_build}
use ymd.Asm.Opcodes.{
  Op, op_code, f_forward, f_kval, f_local, f_bool, f_nil, f_off, f_eq, f_ne, f_gt, f_ge, f_lt, f_le,
  f_match,
}
use ymd.Chunk.{Variable, nil, bool, kstr}
use ymd.Vm.State.{Result, done, panic, fault, ◌>>=◌, Context, get_local, vm_bool, Services}
use ymd.Vm.Ops.{Arith, arith_op, on_ints, inv_op, not_op, add_op, test_op, constant, do_keyz}
use ymd.Compiler.Syntax.{BinaryOp, UnaryOp}

pub data Tree : Type 0 where
  nil_ : Tree
  truth : ℕ → Tree
  number : ℕ → Tree
  local_ : ℕ → Tree
  global_ : ℕ → Tree
  unary : UnaryOp → Tree → Tree
  binary : BinaryOp → Tree → Tree → Tree

-- An instruction that stands behind its operands, with its flag.
abbrev pub unary_code : UnaryOp → Op
unary_code UnaryOp.mins = Op.inv
unary_code UnaryOp.not_ = Op.not
unary_code UnaryOp.not_nil = Op.not
unary_code UnaryOp.typeof = Op.typeof

-- The instruction behind the operands of a binary operator; `and` and `or` have none.
abbrev pub instruction : BinaryOp → ℕ
instruction BinaryOp.add = asm_build (op_code Op.add) 0 0
instruction BinaryOp.sub = asm_build (op_code Op.sub) 0 0
instruction BinaryOp.mul = asm_build (op_code Op.mul) 0 0
instruction BinaryOp.div = asm_build (op_code Op.div) 0 0
instruction BinaryOp.mod_ = asm_build (op_code Op.mod_) 0 0
instruction BinaryOp.eq = asm_build (op_code Op.test) f_eq 0
instruction BinaryOp.ne = asm_build (op_code Op.test) f_ne 0
instruction BinaryOp.match = asm_build (op_code Op.test) f_match 0
instruction BinaryOp.lt = asm_build (op_code Op.test) f_lt 0
instruction BinaryOp.le = asm_build (op_code Op.test) f_le 0
instruction BinaryOp.gt = asm_build (op_code Op.test) f_gt 0
instruction BinaryOp.ge = asm_build (op_code Op.test) f_ge 0
instruction _ = 0

-- The code of a binary operator, from the codes of its operands: `and` and `or` jump over the second
-- one.
abbrev pub binary_code : BinaryOp → List ℕ → List ℕ → List ℕ
binary_code BinaryOp.and_ c d = c ++ asm_build (op_code Op.jnt) f_forward (length d + 1) ∷ d
binary_code BinaryOp.or_ c d = c ++ asm_build (op_code Op.jnn) f_forward (length d + 1) ∷ d
binary_code op c d = (c ++ d) ++ instruction op ∷ []

abbrev pub IsStrict : BinaryOp → Type 0
IsStrict BinaryOp.and_ = ⊥
IsStrict BinaryOp.or_ = ⊥
IsStrict _ = Unit

unfoldable pub code : Tree → List ℕ
code nil_ = asm_build (op_code Op.push) f_nil 0 ∷ []
code (truth b) = asm_build (op_code Op.push) f_bool b ∷ []
code (number i) = asm_build (op_code Op.push) f_kval i ∷ []
code (local_ i) = asm_build (op_code Op.push) f_local i ∷ []
code (global_ i) = asm_build (op_code Op.push) f_off i ∷ []
code (unary op t) = code t ++ asm_build (op_code (unary_code op)) 0 0 ∷ []
code (binary op t u) = binary_code op (code t) (code u)

-- Each parameter fits an unsigned short.
abbrev pub Fits : Tree → Type 0
Fits nil_ = Unit
Fits (truth b) = b < 2 ^ 16
Fits (number i) = i < 2 ^ 16
Fits (local_ i) = i < 2 ^ 16
Fits (global_ i) = i < 2 ^ 16
Fits (unary op t) = Fits t
Fits (binary op t u) = Fits t × Fits u × (length (code u) + 1 < 2 ^ 16)

-- The slots of the stack that the evaluation takes.
abbrev pub depth : Tree → ℕ
depth (unary op t) = depth t
depth (binary op t u) = max (depth t) (depth u + 1)
depth _ = 1

module _ {H : Type 0} (s : Services H) where
  -- The operators on values, with the state that other files keep.
  abbrev pub with_state : H → Result Variable → Result (H × Variable)
  with_state h (done v) = done (h, v)
  with_state h panic = panic
  with_state h fault = fault

  abbrev pub apply_unary : H → UnaryOp → Variable → Result (H × Variable)
  apply_unary h UnaryOp.mins a = with_state h (inv_op a)
  apply_unary h UnaryOp.not_ a = with_state h (not_op a)
  apply_unary h UnaryOp.not_nil a = with_state h (not_op a)
  apply_unary h UnaryOp.typeof a = let (h', kz) = s.typeof_kstr h a in done (h', kstr kz)

  -- An operator that has both values; `and` and `or` give the second one.
  abbrev pub apply_binary : H → BinaryOp → Variable → Variable → Result (H × Variable)
  apply_binary h BinaryOp.add a b = add_op s h a b
  apply_binary h BinaryOp.sub a b = with_state h (on_ints (arith_op Arith.sub) a b)
  apply_binary h BinaryOp.mul a b = with_state h (on_ints (arith_op Arith.mul) a b)
  apply_binary h BinaryOp.div a b = with_state h (on_ints (arith_op Arith.div) a b)
  apply_binary h BinaryOp.mod_ a b = with_state h (on_ints (arith_op Arith.mod_) a b)
  apply_binary h BinaryOp.eq a b = with_state h (test_op s h f_eq a b)
  apply_binary h BinaryOp.ne a b = with_state h (test_op s h f_ne a b)
  apply_binary h BinaryOp.match a b = with_state h (test_op s h f_match a b)
  apply_binary h BinaryOp.lt a b = with_state h (test_op s h f_lt a b)
  apply_binary h BinaryOp.le a b = with_state h (test_op s h f_le a b)
  apply_binary h BinaryOp.gt a b = with_state h (test_op s h f_gt a b)
  apply_binary h BinaryOp.ge a b = with_state h (test_op s h f_ge a b)
  apply_binary h BinaryOp.and_ a b = done (h, b)
  apply_binary h BinaryOp.or_ a b = done (h, b)

  -- Whether the value of the first operand decides: a false one for `and`, a true one for `or`.
  abbrev pub decides : BinaryOp → Variable → Bool
  decides BinaryOp.and_ a = if vm_bool a then false else true
  decides BinaryOp.or_ a = vm_bool a
  decides _ a = false

  -- The value of an expression in the context `l`, with the state `h`: the operands from left to
  -- right, the second one only if the first does not decide.
  unfoldable pub eval : Context H → H → Tree → Result (H × Variable)
  eval l h nil_ = done (h, nil)
  eval l h (truth b) = done (h, bool (pos b))
  eval l h (number i) = with_state h (constant l.core i)
  eval l h (local_ i) = with_state h (get_local l i)
  eval l h (global_ i) = with_state h (do_keyz l.core i >>= s.getg h)
  eval l h (unary op t) = do (h', a) ← eval l h t; apply_unary h' op a
  eval l h (binary op t u) = do
    (h', a) ← eval l h t
    elim (decides op a) [
      | true ↦ done (h', a)
      | false ↦ (do (h'', b) ← eval l h' u; apply_binary h'' op a b)
    ]
