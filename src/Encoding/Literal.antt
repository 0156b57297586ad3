-- ===== src/Encoding/Literal.antt =====
-- encoding.c: numbers and string literals from their spelling. A C string is the list of its
-- characters without the closing NUL; an `ymd_int_t` is its 64-bit pattern.
pub mod Numbers
pub mod Escapes
use ymd.Common.{
  ℕ, zero, suc, ◌+◌, ◌-◌, ◌*◌, ◌%◌, ◌^◌, bit_or, ltb, leb, ◌==◌, if◌then◌else◌, Bool, ◌&&◌, Option,
  none, some, List, [], ◌∷◌, ◌++◌, length, drop, reverse, ◌>>=◌,
}

abbrev pub between : ℕ → ℕ → ℕ → Bool
between lo hi c = leb lo c && leb c hi

-- xtol and dtol: the value of a digit; `none` is `*ok = 0`.
unfoldable pub xtol : ℕ → Option ℕ
xtol x =
    if between b'0' b'9' x
    then some (x - b'0')
    else if between b'a' b'f' x
    then some (10 + x - b'a')
    else if between b'A' b'F' x
    then some (10 + x - b'A')
    else none

unfoldable pub dtol : ℕ → Option ℕ
dtol x = if between b'0' b'9' x then some (x - b'0') else none

-- The loop of xtoll, from the last character down: `shift` is (k - i - 1) * 4. A shift by 64 or
-- more, which C leaves open, drops the digit here.
unfoldable pub xtoll_loop : List ℕ → ℕ → ℕ → Option ℕ
xtoll_loop [] shift rv = some rv
xtoll_loop (c ∷ cs) shift rv = do
  d ← xtol c
  xtoll_loop cs (shift + 4) (bit_or rv (d * 2 ^ shift % 2 ^ 64))

-- The characters from index 2 on, and the assertions on the first two, which end the program.
pub data Checked {ℓ} (A : Type ℓ) : Type ℓ where
  returns : A → Checked A
  aborts : Checked A

unfoldable pub xtoll : List ℕ → Checked (Option ℕ)
unfolding xtoll_loop
xtoll (a ∷ b ∷ c ∷ cs) =
    if a == b'0' && b == b'x' then returns (xtoll_loop (reverse (c ∷ cs)) 0 0) else aborts
xtoll _ = aborts

unfoldable pub dtoll_loop : List ℕ → ℕ → ℕ → Option ℕ
dtoll_loop [] pow rv = some rv
dtoll_loop (c ∷ cs) pow rv = do
  d ← dtol c
  dtoll_loop cs (pow * 10 % 2 ^ 64) ((rv + d * pow) % 2 ^ 64)

-- A leading '-' counts as a sign if a character follows it.
unfoldable pub dtoll : List ℕ → Option ℕ
unfolding dtoll_loop
dtoll (a ∷ b ∷ cs) =
    if a == b'-'
    then (do rv ← dtoll_loop (reverse (b ∷ cs)) 1 0; some ((2 ^ 64 - rv) % 2 ^ 64))
    else dtoll_loop (reverse (a ∷ b ∷ cs)) 1 0
dtoll raw = dtoll_loop (reverse raw) 1 0

-- ESC_CHAR: the character behind a backslash that stands for one byte.
unfoldable pub escape_char : ℕ → Option ℕ
escape_char c =
    if c == b'a'
    then some 7
    else if c == b'b'
    then some 8
    else if c == b'f'
    then some 12
    else if c == b'n'
    then some 10
    else if c == b'r'
    then some 13
    else if c == b't'
    then some 9
    else if c == b'v'
    then some 11
    else if c == b'0'
    then some 0
    else if c == b'\\'
    then some b'\\'
    else if c == b'"'
    then some b'"'
    else none

-- Where stresc stands: between characters, behind a backslash, or before the high or the low digit
-- of a byte, with `n` more bytes to come after it.
pub data Place : Type 0 where
  plain escaped : Place
  high : ℕ → Place
  low : ℕ → ℕ → Place

-- The place behind a byte.
unfoldable pub after_byte : ℕ → Place
after_byte zero = plain
after_byte (suc n) = high n

-- The end of the list is the closing NUL, which is no digit and no escape: ESC_BYTE and the default
-- case give up on it.
unfoldable pub stresc_from : Place → List ℕ → Option (List ℕ)
unfolding escape_char xtol after_byte
stresc_from plain [] = some []
stresc_from _ [] = none
stresc_from plain (c ∷ cs) =
    let escape = stresc_from escaped cs in
    let copy : Option (List ℕ) = (do t ← stresc_from plain cs; some (c ∷ t)) in
    if c == b'\\' then escape else copy
stresc_from escaped (c ∷ cs) =
    let byte = stresc_from (high 0) cs in
    let two_bytes = stresc_from (high 1) cs in
    let char : Option (List ℕ) = (do b ← escape_char c; t ← stresc_from plain cs; some (b ∷ t)) in
    if c == b'x' then byte else if c == b'u' then two_bytes else char
stresc_from (high n) (c ∷ cs) = do h ← xtol c; stresc_from (low h n) cs
stresc_from (low h n) (c ∷ cs) = do
  l ← xtol c
  t ← stresc_from (after_byte n) cs
  some (bit_or (h * 2 ^ 4 % 256) l % 256 ∷ t)

-- stresc: the bytes that the literal stands for; `none` is the result -1.
unfoldable pub stresc : List ℕ → Option (List ℕ)
unfolding stresc_from
stresc cs = stresc_from plain cs
