-- ===== src/Encoding/Zigzag.antt =====
-- Signed integers: the zigzag map, and the signed encodings built on it.
use ymd.Common.{
  ℕ, suc, ◌+◌, ◌*◌, ◌%◌, ◌^◌, ◌<◌, ◌≡◌, ap, bit_and, bit_or, arith, List, ◌++◌, length, some,
}
use ymd.Common.Int.{ℤ, pos, negsuc}
use ymd.Common.Bits.{bit_and-field, bit_or-disjoint}
use native.Mathlib.Nat.{mod-eq_of_lt}
use ymd.Encoding.{
  uint32encode, zigzag64encode, zigzag64decode, zigzag32encode, zigzag32decode, sint64encode,
  sint64decode, sint32encode, sint32decode, uint64encode,
}
use ymd.Encoding.RoundTrip.{uint64decode-uint64encode, uint32decode-uint32encode}

-- The magnitude fits the word's bits but the sign's: of the 64-bit integers all but the least.
abbrev pub Fits : ℕ → ℤ → Type 0
Fits half (pos n) = n < half
Fits half (negsuc n) = suc n < half

-- A magnitude shifted left, with the sign in bit 0, in plain arithmetic.
module _ (n : ℕ) where
  sign_bit : bit_or (n * 2) 1 ≡ n * 2 + 1
  sign_bit = bit_or-disjoint 1 n 1 (omega arith)

  parity : bit_and n 1 ≡ n % 2
  parity = omega (arith, bit_and-field 1 0 n)

no_wrap : (n w : ℕ) → n * 2 < w → n * 2 % w ≡ n * 2
no_wrap n w h = mod-eq_of_lt h

zigzag64encode-lt : (i : ℤ) → Fits (2 ^ 63) i → zigzag64encode i < 2 ^ 64
unfolding zigzag64encode
zigzag64encode-lt (pos n) h = omega arith
zigzag64encode-lt (negsuc n) h = rw (no_wrap (suc n) (2 ^ 64) (omega arith), sign_bit) (omega arith)

-- The zigzag map has an inverse on every signed 64-bit integer but the least.
pub zigzag64decode-zigzag64encode :
    (i : ℤ) → Fits (2 ^ 63) i → zigzag64decode (zigzag64encode i) ≡ i
unfolding zigzag64encode zigzag64decode
zigzag64decode-zigzag64encode (pos n) h =
    rw (no_wrap n (2 ^ 64) (omega arith)) (ground (arith, parity (n * 2)))
zigzag64decode-zigzag64encode (negsuc n) h =
    rw (no_wrap (suc n) (2 ^ 64) (omega arith), sign_bit) (ground (arith, parity (suc n * 2 + 1)))

-- sint64decode reads back every signed 64-bit integer but the least from the bytes that
-- sint64encode wrote, whatever follows them.
pub sint64decode-sint64encode :
    (i : ℤ) (rest : List ℕ)
    → Fits (2 ^ 63) i
    → sint64decode (sint64encode i ++ rest) ≡ some (i, length (sint64encode i))
unfolding sint64encode sint64decode
sint64decode-sint64encode i rest h =
    rw (uint64decode-uint64encode (zigzag64encode i) rest (zigzag64encode-lt i h)) (
      ap (λ (t : ℤ). some (t, length (uint64encode (zigzag64encode i))))
        (zigzag64decode-zigzag64encode i h))

zigzag32encode-lt : (i : ℤ) → Fits (2 ^ 31) i → zigzag32encode i < 2 ^ 32
unfolding zigzag32encode
zigzag32encode-lt (pos n) h = omega arith
zigzag32encode-lt (negsuc n) h = rw (no_wrap (suc n) (2 ^ 32) (omega arith), sign_bit) (omega arith)

pub zigzag32decode-zigzag32encode :
    (i : ℤ) → Fits (2 ^ 31) i → zigzag32decode (zigzag32encode i) ≡ i
unfolding zigzag32encode zigzag32decode
zigzag32decode-zigzag32encode (pos n) h =
    rw (no_wrap n (2 ^ 32) (omega arith)) (ground (arith, parity (n * 2)))
zigzag32decode-zigzag32encode (negsuc n) h =
    rw (no_wrap (suc n) (2 ^ 32) (omega arith), sign_bit) (ground (arith, parity (suc n * 2 + 1)))

-- Likewise for the 32-bit pair.
pub sint32decode-sint32encode :
    (i : ℤ) (rest : List ℕ)
    → Fits (2 ^ 31) i
    → sint32decode (sint32encode i ++ rest) ≡ some (i, length (sint32encode i))
unfolding sint32encode sint32decode
sint32decode-sint32encode i rest h =
    rw (uint32decode-uint32encode (zigzag32encode i) rest (zigzag32encode-lt i h)) (
      ap (λ (t : ℤ). some (t, length (uint32encode (zigzag32encode i))))
        (zigzag32decode-zigzag32encode i h))
