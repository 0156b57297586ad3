-- ===== src/Vm/Arith.antt =====
-- call.c, the arithmetic instructions: 64-bit signed integers, whose overflow wraps in two's
-- complement. A division of the least integer by -1 and a shift by 64 or more are undefined in C, and
-- are `none` here.
use ymd.Common.{
  ℕ, zero, suc, ◌+◌, ◌-◌, ◌*◌, ◌/◌, ◌%◌, ◌^◌, bit_and, bit_or, bit_xor, ltb, ◌==◌, if◌then◌else◌,
  Option, none, some, Bool, false,
}
use ymd.Common.Int.{ℤ, pos, negsuc, neg}

-- The bit pattern of an integer, and the integer of a bit pattern.
unfoldable pub word : ℤ → ℕ
word (pos n) = n % 2 ^ 64
word (negsuc n) = 2 ^ 64 - 1 - n % 2 ^ 64

unfoldable pub signed : ℕ → ℤ
signed w = if ltb w (2 ^ 63) then pos w else negsuc (2 ^ 64 - 1 - w)

unfoldable pub add64 : ℤ → ℤ → ℤ
unfolding word signed
add64 a b = signed ((word a + word b) % 2 ^ 64)

unfoldable pub sub64 : ℤ → ℤ → ℤ
unfolding word signed
sub64 a b = signed ((word a + 2 ^ 64 - word b) % 2 ^ 64)

unfoldable pub mul64 : ℤ → ℤ → ℤ
unfolding word signed
mul64 a b = signed (word a * word b % 2 ^ 64)

unfoldable pub neg64 : ℤ → ℤ
unfolding word signed
neg64 a = signed ((2 ^ 64 - word a) % 2 ^ 64)

-- The quotient is truncated, and the remainder has the sign of the dividend; neither is asked for at
-- a divisor 0.
quotient : ℤ → ℤ → ℤ
quotient (pos m) (pos n) = pos (m / n)
quotient (pos m) (negsuc n) = neg (m / suc n)
quotient (negsuc m) (pos n) = neg (suc m / n)
quotient (negsuc m) (negsuc n) = pos (suc m / suc n)

remainder : ℤ → ℤ → ℤ
remainder (pos m) (pos n) = pos (m % n)
remainder (pos m) (negsuc n) = pos (m % suc n)
remainder (negsuc m) (pos n) = neg (suc m % n)
remainder (negsuc m) (negsuc n) = neg (suc m % suc n)

-- The least integer divided by -1.
traps : ℤ → ℤ → Bool
traps (negsuc m) (negsuc zero) = m == 2 ^ 63 - 1
traps _ _ = false

unfoldable pub div64 : ℤ → ℤ → Option ℤ
unfolding quotient traps
div64 a b = if traps a b then none else some (quotient a b)

unfoldable pub mod64 : ℤ → ℤ → Option ℤ
unfolding remainder traps
mod64 a b = if traps a b then none else some (remainder a b)

-- while (opd1--) rhs->value.i *= opd0
unfoldable pub pow_loop : ℕ → ℤ → ℤ → ℤ
unfolding mul64
pow_loop zero opd0 acc = acc
pow_loop (suc n) opd0 acc = pow_loop n opd0 (mul64 acc opd0)

unfoldable pub and64 : ℤ → ℤ → ℤ
unfolding word signed
and64 a b = signed (bit_and (word a) (word b))

unfoldable pub or64 : ℤ → ℤ → ℤ
unfolding word signed
or64 a b = signed (bit_or (word a) (word b))

unfoldable pub xor64 : ℤ → ℤ → ℤ
unfolding word signed
xor64 a b = signed (bit_xor (word a) (word b))

unfoldable pub not64 : ℤ → ℤ
not64 (pos n) = negsuc n
not64 (negsuc n) = pos n

-- A shift by `k`, which is not negative.
unfoldable pub shift_left : ℤ → ℕ → Option ℤ
unfolding word signed
shift_left a k = if ltb k 64 then some (signed (word a * 2 ^ k % 2 ^ 64)) else none

unfoldable pub shift_right_logical : ℤ → ℕ → Option ℤ
unfolding word signed
shift_right_logical a k = if ltb k 64 then some (signed (word a / 2 ^ k)) else none

-- The sign bit is copied: the quotient is rounded down.
unfoldable pub shift_right_arithmetic : ℤ → ℕ → Option ℤ
shift_right_arithmetic (pos n) k = if ltb k 64 then some (pos (n / 2 ^ k)) else none
shift_right_arithmetic (negsuc n) k = if ltb k 64 then some (negsuc (n / 2 ^ k)) else none
