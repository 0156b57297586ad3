-- ===== src/Vm/Ops.antt =====
-- call.c: the instructions of vm_run on values. An instruction leaves the counter behind itself (++info->pc) or
-- at the target of its jump.
use ymd.Common.{
  ℕ, zero, suc, ltb, ◌==◌, if◌then◌else◌, Bool, true, false, not, Option, some, get_elem?,
}
use ymd.Common.Int.{ℤ, pos, negsuc}
use ymd.Asm.Opcodes.{f_eq, f_ne, f_gt, f_ge, f_lt, f_le, f_match, f_left, f_right_l, f_right_a}
use ymd.Chunk.{Chunk, Variable, nil, int, bool, kstr}
use ymd.Vm.Arith.{
  add64, sub64, mul64, neg64, div64, mod64, pow_loop, and64, or64, xor64, not64, shift_left,
  shift_right_logical, shift_right_arithmetic,
}
use ymd.Vm.State.{
  Result, done, panic, fault, ◌>>=◌, or_fault, Context, peek, poke, pop, next, int_of, kstr_of,
  vm_bool, from_test, Services,
}

-- do_keyz: a constant that must be a string.
unfoldable pub do_keyz : Chunk → ℕ → Result Variable
do_keyz core i =
    if ltb i core.kkval
    then elim (get_elem? core.kval i) [ some (kstr kz) ↦ done (kstr kz) | _ ↦ fault ]
    else fault

-- &core->kval[param], which is not checked.
unfoldable pub constant : Chunk → ℕ → Result Variable
constant core i = or_fault (get_elem? core.kval i)

is_positive : ℤ → Bool
is_positive (pos (suc n)) = true
is_positive _ = false

is_negative : ℤ → Bool
is_negative (negsuc n) = true
is_negative _ = false

-- The operands of the instructions of two integers: `rhs` is below `lhs`.
pub data Arith : Type 0 where
  mul : Arith
  div : Arith
  sub : Arith
  mod_ : Arith
  pow : Arith
  andb : Arith
  orb : Arith
  xorb : Arith

pow64 : ℤ → ℤ → Result ℤ
pow64 opd0 (negsuc n) = panic
pow64 opd0 (pos zero) = done (pos 1)
pow64 (pos zero) (pos (suc n)) = done (pos 0)
pow64 (pos (suc zero)) (pos (suc n)) = done (pos 1)
pow64 opd0 (pos (suc n)) = done (pow_loop n opd0 opd0)

div_or_panic : (ℤ → ℤ → Option ℤ) → ℤ → ℤ → Result ℤ
div_or_panic f a (pos zero) = panic
div_or_panic f a b = or_fault (f a b)

unfoldable pub arith_op : Arith → ℤ → ℤ → Result ℤ
unfolding pow64 div_or_panic
arith_op mul a b = done (mul64 a b)
arith_op div a b = div_or_panic div64 a b
arith_op sub a b = done (sub64 a b)
arith_op mod_ a b = div_or_panic mod64 a b
arith_op pow a b = pow64 a b
arith_op andb a b = done (and64 a b)
arith_op orb a b = done (or64 a b)
arith_op xorb a b = done (xor64 a b)

-- A shift panics at a negative count.
unfoldable pub shift_op : ℕ → ℤ → ℤ → Result ℤ
shift_op flag a (negsuc k) = panic
shift_op flag a (pos k) =
    if flag == f_left
    then or_fault (shift_left a k)
    else if flag == f_right_l
    then or_fault (shift_right_logical a k)
    else if flag == f_right_a
    then or_fault (shift_right_arithmetic a k)
    else fault

module _ {H : Type 0} where
  -- rhs = ymd_top(l, 1), lhs = ymd_top(l, 0); the result is put in place of rhs, and lhs popped.
  unfoldable pub binary : (Variable → Variable → Result Variable) → Context H → Result (Context H)
  binary f l = do
    (p, rhs) ← peek l 1
    (q, lhs) ← peek l 0
    v ← f rhs lhs
    r ← pop (poke l p v) 1
    done (next r)

  -- The operand ymd_top(l, 0) is changed in place.
  unfoldable pub unary : (Variable → Result Variable) → Context H → Result (Context H)
  unary f l = do (p, opd) ← peek l 0; v ← f opd; done (next (poke l p v))

abbrev pub on_ints : (ℤ → ℤ → Result ℤ) → Variable → Variable → Result Variable
on_ints f rhs lhs = do a ← int_of rhs; b ← int_of lhs; c ← f a b; done (int c)

-- I_INV; I_INVB does not ask for an integer, and spoils a reference.
unfoldable pub inv_op : Variable → Result Variable
inv_op opd = do n ← int_of opd; done (int (neg64 n))

unfoldable pub invb_op : Variable → Result Variable
invb_op (int n) = done (int (not64 n))
invb_op (bool n) = done (bool (not64 n))
invb_op nil = done nil
invb_op _ = fault

unfoldable pub not_op : Variable → Result Variable
not_op opd = done (from_test (not (vm_bool opd)))

module _ {H : Type 0} (s : Services H) where
  unfoldable pub add_op : H → Variable → Variable → Result (H × Variable)
  add_op h (int a) lhs = do b ← int_of lhs; done (h, int (add64 a b))
  add_op h (kstr a) lhs = do b ← kstr_of lhs; let (h', kz) = s.vm_strcat h a b in done (h', kstr kz)
  add_op h _ lhs = panic

  -- I_ADD, which may make a string.
  unfoldable pub run_add : Context H → Result (Context H)
  unfolding add_op
  run_add l = do
    (p, rhs) ← peek l 1
    (q, lhs) ← peek l 0
    (h, v) ← add_op l.heap rhs lhs
    r ← pop (poke (record l { heap = h }) p v) 1
    done (next r)

  unfoldable pub test_op : H → ℕ → Variable → Variable → Result Variable
  unfolding is_positive is_negative
  test_op h flag rhs lhs =
      if flag == f_eq
      then (s.equals h rhs lhs >>= λ b. done (from_test b))
      else if flag == f_ne
      then (s.equals h rhs lhs >>= λ b. done (from_test (not b)))
      else if flag == f_gt
      then (s.compare h rhs lhs >>= λ c. done (from_test (is_positive c)))
      else if flag == f_ge
      then (s.compare h rhs lhs >>= λ c. done (from_test (not (is_negative c))))
      else if flag == f_lt
      then (s.compare h rhs lhs >>= λ c. done (from_test (is_negative c)))
      else if flag == f_le
      then (s.compare h rhs lhs >>= λ c. done (from_test (not (is_positive c))))
      else if flag == f_match
      then (do a ← kstr_of rhs; b ← kstr_of lhs; m ← s.vm_match h a b; done (from_test m))
      else fault
