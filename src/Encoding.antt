-- ===== src/Encoding.antt =====
-- encoding.c and encoding.h: variable-length integers, written with the highest group of seven
-- bits first, and the zigzag map of signed integers. Words are numbers with their wrap written out;
-- an `ymd_int_t` is an integer.
pub mod Varint
pub mod RoundTrip
pub mod Zigzag
pub mod Literal
mod Tests
use ymd.Common.{
  ℕ, zero, suc, ◌+◌, ◌*◌, ◌/◌, ◌%◌, ◌^◌, bit_and, bit_or, ltb, ◌==◌, if◌then◌else◌, Bool, Option,
  none, some, List, [], ◌∷◌, length, ◌>>=◌,
}
use ymd.Common.Int.{ℤ, pos, negsuc, neg}

-- TEST_OR_SET(c): (x & 0x7fULL << (c*7)) >> (c*7), stored in a byte.
unfoldable pub group : ℕ → ℕ → ℕ
group x c = bit_and x (0x7f * 2 ^ (c * 7)) / 2 ^ (c * 7) % 256

-- The labels bit_63_k0 to bit_07_k8 fall through: with `c` groups left behind the byte `by`, write
-- `by | 0x80`, and go on with group c - 1; the last byte is written as it is.
unfoldable pub fill : ℕ → ℕ → ℕ → List ℕ
fill zero x by = by ∷ []
fill (suc c) x by = bit_or by 0x80 ∷ fill c x (group x c)

-- if ((by = TEST_OR_SET(c)) != 0) goto the label of `c`; otherwise go on.
unfoldable pub try_group : ℕ → ℕ → List ℕ → List ℕ
unfolding group fill
try_group c x next = if group x c == 0 then next else fill c x (group x c)

-- if (x & mask) { the tests of three groups, the highest first }
unfoldable pub three_groups : ℕ → ℕ → ℕ → ℕ → ℕ → List ℕ → List ℕ
three_groups mask a b c x next =
    if bit_and x mask == 0 then next else try_group a x (try_group b x (try_group c x next))

-- uint64encode: the bytes written to `rv`; their number is the result.
unfoldable pub uint64encode : ℕ → List ℕ
uint64encode x =
    let top = bit_and x (2 ^ 63) / 2 ^ 63 % 256 in
    let low = three_groups 0xFFFFF80 3 2 1 x (fill 0 x (group x 0)) in
    let middle = three_groups 0x1FFFFF0000000 6 5 4 x low in
    if bit_and x 0xFFFE000000000000 == 0
    then middle
    else if top == 0
    then try_group 8 x (try_group 7 x middle)
    else fill 9 x top

-- uint32encode; its top group has the four bits 28 to 31.
unfoldable pub uint32encode : ℕ → List ℕ
uint32encode x =
    let top = bit_and x (0xF * 2 ^ 28) / 2 ^ 28 % 256 in
    if top == 0
    then try_group 3 x (try_group 2 x (try_group 1 x (fill 0 x (group x 0))))
    else fill 4 x top

-- uint64decode: `x` so far, `i` bytes taken. `none` stands for a read past the end of the buffer.
unfoldable pub uint64decode_loop : List ℕ → ℕ → ℕ → Option (ℕ × ℕ)
uint64decode_loop [] i x = none
uint64decode_loop (by ∷ rest) i x =
    let more = uint64decode_loop rest (i + 1) (bit_or x (bit_and by 0x7f) * 2 ^ 7 % 2 ^ 64) in
    if ltb by 0x80 then some (bit_or x by, i + 1) else more

-- The value, and the number of bytes taken, *k.
unfoldable pub uint64decode : List ℕ → Option (ℕ × ℕ)
unfolding uint64decode_loop
uint64decode bytes = uint64decode_loop bytes 0 0

unfoldable pub uint32decode : List ℕ → Option (ℕ × ℕ)
uint32decode bytes = do (x, k) ← uint64decode bytes; some (x % 2 ^ 32, k)

-- zigzag64encode: the magnitude shifted left, with the sign in bit 0.
unfoldable pub zigzag64encode : ℤ → ℕ
zigzag64encode (pos n) = n * 2 % 2 ^ 64
zigzag64encode (negsuc n) = bit_or (suc n * 2 % 2 ^ 64) 1

unfoldable pub zigzag64decode : ℕ → ℤ
zigzag64decode u = if bit_and u 1 == 0 then pos (u / 2) else neg (u / 2)

unfoldable pub zigzag32encode : ℤ → ℕ
zigzag32encode (pos n) = n * 2 % 2 ^ 32
zigzag32encode (negsuc n) = bit_or (suc n * 2 % 2 ^ 32) 1

unfoldable pub zigzag32decode : ℕ → ℤ
zigzag32decode u = if bit_and u 1 == 0 then pos (u / 2) else neg (u / 2)

unfoldable pub sint64encode : ℤ → List ℕ
sint64encode x = uint64encode (zigzag64encode x)

unfoldable pub sint64decode : List ℕ → Option (ℤ × ℕ)
sint64decode bytes = do (u, k) ← uint64decode bytes; some (zigzag64decode u, k)

unfoldable pub sint32encode : ℤ → List ℕ
sint32encode x = uint32encode (zigzag32encode x)

unfoldable pub sint32decode : List ℕ → Option (ℤ × ℕ)
sint32decode bytes = do (u, k) ← uint32decode bytes; some (zigzag32decode u, k)
