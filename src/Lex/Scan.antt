-- ===== src/Lex/Scan.antt =====
-- lex.c: the cursor of the lexer, and the functions that scan one token.
use ymd.Common.{
  ℕ, zero, suc, ◌+◌, ◌-◌, ◌==◌, if◌then◌else◌, Bool, false, Option, none, some, List, [], ◌∷◌, take,
  drop,
}
use ymd.Common.Int.{ℤ, pos, sub_ℕ}
use ymd.Lex.Chars.{
  Token, eos, tok, error, string_token, hex_token, dec_token, lex_token, is_digit, is_xdigit,
  is_word, lex_term,
}

-- struct ymd_lex, without the file's name; `lah` is not used. `off` indexes `buf`, whose end is the
-- closing NUL.
pub record Lex : Type 0 where
  pub buf : List ℕ
  pub off : ℕ
  pub i_line : ℕ
  pub i_column : ℕ

-- struct ytoken; its pointer `off` is an index of `buf`, which may stand before the buffer.
pub record Ytoken : Type 0 where
  pub token : Token
  pub off : ℤ
  pub len : ℕ

-- What a call comes to: the lexer, the token and the result; a read past the closing NUL; or no end
-- within the fuel.
pub data Outcome {ℓ} (A : Type ℓ) : Type ℓ where
  done : A → Outcome A
  overrun : Outcome A
  out_of_fuel : Outcome A

abbrev pub Scanned : Type 0
Scanned = Lex × Ytoken × Token

-- lex_init
abbrev pub lex_init : List ℕ → Lex
lex_init buf = record { buf = buf; off = 0; i_line = 1; i_column = 0 }

-- The characters from the cursor on; none are left at the closing NUL.
abbrev pub chars : Lex → List ℕ
chars l = drop l.off l.buf

abbrev head : List ℕ → Option ℕ
head [] = none
head (c ∷ _) = some c

-- lex_peek, with `none` for EOS.
abbrev pub lex_peek : Lex → Option ℕ
lex_peek l = head (chars l)

-- What lex_read and lex_move do to the cursor; lex_move stays where it is at the closing NUL.
abbrev pub lex_read : Lex → Lex
lex_read l = record l { off = l.off + 1; i_column = l.i_column + 1 }

abbrev move : Option ℕ → Lex → Lex
move none l = l
move (some _) l = lex_read l

abbrev pub lex_move : Lex → Lex
lex_move l = move (lex_peek l) l

abbrev pub lex_back : Lex → Lex
lex_back l = record l { off = l.off - 1; i_column = l.i_column - 1 }

abbrev pub is_char : ℕ → Option ℕ → Bool
is_char m none = false
is_char m (some c) = c == m

abbrev char_token : Option ℕ → Token
char_token none = eos
char_token (some c) = tok c

unfoldable pub lex_token_c : Lex → Scanned
lex_token_c l =
    let t = char_token (lex_peek l) in
    (lex_read l, record { token = t; off = pos l.off; len = 1 }, t)

-- A token of two characters, the second of which is `m`.
unfoldable pub lex_token_l : Lex → ℕ → Token → Scanned
unfolding lex_token_c
lex_token_l l m tk =
    let l' = lex_move l in
    if is_char m (lex_peek l')
    then (lex_move l', record { token = tk; off = sub_ℕ l'.off 1; len = 2 }, tk)
    else lex_token_c (lex_back l')

-- lex_read_dec, on the characters from the cursor on; `len` counts digits.
unfoldable pub dec_end : Lex → ℕ → ℤ → ℕ → Scanned
dec_end l neg off len =
    let t = if len == 0 then error else dec_token in
    (lex_back l, record { token = t; off = off; len = len + neg }, t)

unfoldable pub dec_loop : List ℕ → Lex → ℕ → ℤ → ℕ → Scanned
unfolding dec_end is_digit lex_term
dec_loop [] l neg off len = dec_end (lex_read l) neg off len
dec_loop (c ∷ cs) l neg off len =
    let more = dec_loop cs (lex_read l) neg off (len + 1) in
    if lex_term c
    then dec_end (lex_read l) neg off len
    else if is_digit c
    then more
    else (lex_read l, record { token = error; off = off; len = len }, error)

unfoldable pub lex_read_dec : Lex → ℕ → Scanned
unfolding dec_loop
lex_read_dec l neg = dec_loop (chars l) l neg (sub_ℕ l.off neg) 0

-- lex_read_hex: `len` starts at 2, so the test for no digits never holds.
unfoldable pub hex_end : Lex → ℤ → ℕ → Scanned
hex_end l off len =
    let t = if len == 0 then error else hex_token in
    (lex_back l, record { token = t; off = off; len = len }, t)

unfoldable pub hex_loop : List ℕ → Lex → ℤ → ℕ → Scanned
unfolding hex_end is_xdigit lex_term
hex_loop [] l off len = hex_end (lex_read l) off len
hex_loop (c ∷ cs) l off len =
    let more = hex_loop cs (lex_read l) off (len + 1) in
    if lex_term c
    then hex_end (lex_read l) off len
    else if is_xdigit c
    then more
    else (lex_read l, record { token = error; off = off; len = len }, error)

unfoldable pub lex_read_hex : Lex → Scanned
unfolding hex_loop
lex_read_hex l = let l' = lex_move l in hex_loop (chars l') l' (sub_ℕ l'.off 2) 2

-- lex_read_sym: the names and keywords. `start` is the cursor at the first character.
unfoldable pub sym_end : Lex → ℕ → ℕ → Scanned
sym_end l start len =
    let t = lex_token (take len (drop start l.buf)) in
    (l, record { token = t; off = pos start; len = len }, t)

unfoldable pub sym_loop : List ℕ → Lex → ℕ → ℕ → Scanned
unfolding sym_end is_word lex_term
sym_loop [] l start len = sym_end l start len
sym_loop (c ∷ cs) l start len =
    let more = sym_loop cs (lex_read l) start (len + 1) in
    if is_word c
    then more
    else if lex_term c
    then sym_end l start len
    else (l, record { token = error; off = pos start; len = len }, error)

unfoldable pub lex_read_sym : Lex → Scanned
unfolding sym_loop
lex_read_sym l = sym_loop (chars l) l l.off 0

-- lex_read_raw, from behind the quote on. At the closing NUL lex_move stays where it is, and the loop
-- goes on.
unfoldable pub raw_loop : ℕ → Lex → ℤ → ℕ → Outcome Scanned
raw_loop zero l off len = out_of_fuel
raw_loop (suc fuel) l off len =
    let skip = raw_loop fuel (lex_move (lex_move l)) off (len + 2) in
    let more = raw_loop fuel (lex_move l) off (len + 1) in
    if is_char b'"' (lex_peek l)
    then done (lex_move l, record { token = string_token; off = off; len = len }, string_token)
    else if is_char b'\\' (lex_peek l)
    then skip
    else if is_char b'\n' (lex_peek l)
    then done (l, record { token = error; off = off; len = len }, error)
    else more

unfoldable pub lex_read_raw : ℕ → Lex → Outcome Scanned
unfolding raw_loop
lex_read_raw fuel l = let l' = lex_move l in raw_loop fuel l' (pos l'.off) 0

-- lex_skip_line, on the characters from the cursor on: past the closing NUL it reads on.
unfoldable pub skip_loop : List ℕ → Lex → Outcome Lex
skip_loop [] l = overrun
skip_loop (c ∷ cs) l =
    let more = skip_loop cs (lex_read l) in
    if c == b'\n'
    then done (record l { off = l.off + 1; i_line = l.i_line + 1; i_column = 0 })
    else more

unfoldable pub lex_skip_line : Lex → Outcome Lex
unfolding skip_loop
lex_skip_line l = skip_loop (chars l) l
