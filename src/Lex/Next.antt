-- ===== src/Lex/Next.antt =====
-- lex.c: lex_next and lex_line.
use ymd.Common.{
  ℕ, zero, suc, ◌+◌, ◌-◌, ◌==◌, ltb, if◌then◌else◌, Bool, false, Option, none, some, List, [], ◌∷◌,
  length, take, drop,
}
use ymd.Common.Int.{pos, sub_ℕ}
use ymd.Lex.Chars.{
  tok, error, term_char, is_space, is_digit, is_alpha, le_token, ge_token, ne_token, match_token,
  eq_token, skls_token, lshift_token, rshift_a_token, rshift_l_token, dict_token,
}
use ymd.Lex.Scan.{
  Lex, Outcome, done, overrun, out_of_fuel, Scanned, chars, lex_peek, lex_read, lex_move, lex_back,
  is_char, lex_token_c, lex_token_l, lex_read_dec, lex_read_hex, lex_read_sym, lex_read_raw,
  lex_skip_line,
}

-- lex_token_lt and lex_token_gt: the character behind `<` or `>` chooses.
unfoldable pub lex_token_lt : Lex → Scanned
lex_token_lt l =
    let next = lex_peek (lex_read l) in
    if is_char b'=' next
    then lex_token_l l b'=' le_token
    else if is_char b'<' next
    then lex_token_l l b'<' lshift_token
    else lex_token_c l

unfoldable pub lex_token_gt : Lex → Scanned
lex_token_gt l =
    let next = lex_peek (lex_read l) in
    if is_char b'=' next
    then lex_token_l l b'=' ge_token
    else if is_char b'>' next
    then lex_token_l l b'>' rshift_a_token
    else lex_token_c l

is_digit_next : Option ℕ → Bool
is_digit_next none = false
is_digit_next (some c) = is_digit c

-- case '-': a negative number, `->`, or the minus sign. The pointer of `->` is set from the cursor
-- at its second character.
unfoldable pub lex_minus : Lex → Scanned
unfolding is_digit_next
lex_minus l =
    let l' = lex_move l in
    if is_digit_next (lex_peek l')
    then lex_read_dec l' 1
    else if is_char b'>' (lex_peek l')
    then (lex_move l', record { token = dict_token; off = sub_ℕ l'.off 2; len = 2 }, dict_token)
    else lex_token_c (lex_back l')

-- case '@'; the token of the error keeps the 0 of its memset.
unfoldable pub lex_at : Lex → Scanned
lex_at l =
    let l' = lex_move l in
    if is_char b'{' (lex_peek l')
    then (lex_move l', record { token = skls_token; off = pos l.off; len = 2 }, skls_token)
    else (l', record { token = tok 0; off = pos l.off; len = 0 }, error)

-- case '0'
unfoldable pub lex_zero : Lex → Scanned
lex_zero l =
    let l' = lex_move l in
    if is_char b'x' (lex_peek l')
    then lex_read_hex l'
    else if is_char b'X' (lex_peek l')
    then lex_read_hex l'
    else lex_read_dec (lex_back l') 0

-- What one round of the loop of lex_next comes to: a result, or another round.
pub data Round : Type 0 where
  token : Outcome Scanned → Round
  again : Outcome Lex → Round

-- One round at the character `c`. The fuel is that of the string loop.
unfoldable pub round : ℕ → ℕ → Lex → Round
round fuel c l =
    if term_char c
    then token (done (lex_token_c l))
    else if c == b'<'
    then token (done (lex_token_lt l))
    else if c == b'>'
    then token (done (lex_token_gt l))
    else if c == b'|'
    then token (done (lex_token_l l b'>' rshift_l_token))
    else if c == b'!'
    then token (done (lex_token_l l b'=' ne_token))
    else if c == b'~'
    then token (done (lex_token_l l b'=' match_token))
    else if c == b'='
    then token (done (lex_token_l l b'=' eq_token))
    else if c == b'_'
    then token (done (lex_read_sym l))
    else if c == b'"'
    then token (lex_read_raw fuel l)
    else if c == b'-'
    then token (done (lex_minus l))
    else if c == b'/'
    then (if is_char b'/' (lex_peek (lex_move l))
        then again (lex_skip_line (lex_move l))
        else token (done (lex_token_c (lex_back (lex_move l)))))
    else if c == b'#'
    then again (lex_skip_line l)
    else if c == b'@'
    then token (done (lex_at l))
    else if c == b'0'
    then token (done (lex_zero l))
    else if c == b'\n'
    then again (done (record l { off = l.off + 1; i_line = l.i_line + 1; i_column = 0 }))
    else if is_space c
    then again (done (lex_read l))
    else if is_digit c
    then token (done (lex_read_dec l 0))
    else if is_alpha c
    then token (done (lex_read_sym l))
    else token (done (l, record { token = tok 0; off = pos 0; len = 0 }, error))

-- lex_next: rounds until one gives a token, at most `rounds` of them.
unfoldable pub lex_next : ℕ → ℕ → Lex → Outcome Scanned
lex_next zero fuel l = out_of_fuel
lex_next (suc rounds) fuel l = elim (lex_peek l) [
  | none ↦ done (lex_token_c l)
  | some c ↦ elim (round fuel c l) [
    | token r ↦ r
    | again (done l') ↦ lex_next rounds fuel l'
    | again overrun ↦ overrun
    | again out_of_fuel ↦ out_of_fuel
  ]
]

-- The characters up to the end of the line.
unfoldable pub to_line_end : List ℕ → List ℕ
to_line_end [] = []
to_line_end (c ∷ cs) = let more = to_line_end cs in if c == b'\n' then [] else c ∷ more

-- lex_line: the text of the current line that fits `n` characters, without the closing NUL.
unfoldable pub lex_line : Lex → ℕ → List ℕ
unfolding to_line_end
lex_line l n =
    let line = l.off - l.i_column in
    let len = l.off + length (to_line_end (chars l)) - line in
    take (if ltb len n then len else n) (drop line l.buf)
