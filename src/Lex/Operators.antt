-- ===== src/Lex/Operators.antt =====
-- Operators of two characters.
use ymd.Common.{ℕ, suc, ◌+◌, ◌≡◌, ◌∙◌, refl, ap, arith, List, ◌∷◌}
use ymd.Common.Int.{pos, sub_ℕ}
use ymd.Lex.Chars.{
  Token, term_char, is_digit, le_token, ge_token, ne_token, match_token, eq_token, lshift_token,
  rshift_a_token, rshift_l_token, dict_token,
}
use ymd.Lex.Scan.{Lex, done, chars, lex_token_l}
use ymd.Lex.Next.{lex_token_lt, lex_token_gt, lex_minus, token, round, lex_next}
use ymd.Lex.Words.{advance, lex_next-token}
use ymd.Lex.Numbers.{chars_read, round_minus}

-- The operators of two characters that lex_token_l reads, with their codes.
pub data Operator : ℕ → ℕ → Token → Type 0 where
  le : Operator b'<' b'=' le_token
  lshift : Operator b'<' b'<' lshift_token
  ge : Operator b'>' b'=' ge_token
  rshift_a : Operator b'>' b'>' rshift_a_token
  rshift_l : Operator b'|' b'>' rshift_l_token
  ne : Operator b'!' b'=' ne_token
  matches : Operator b'~' b'=' match_token
  eq : Operator b'=' b'=' eq_token

-- Both characters are taken, and the token starts at the first.
lex_token_l_lem :
    (l : Lex) (c m : ℕ) (rest : List ℕ) (tk : Token)
    → chars l ≡ c ∷ m ∷ rest
    → lex_token_l l m tk ≡ (advance 2 l, record { token = tk; off = pos l.off; len = 2 }, tk)
unfolding lex_token_l
lex_token_l_lem l c m rest tk at = rw at (rw (chars_read l c (m ∷ rest) at) (ground arith))

round-Operator :
    {c m : ℕ} {tk : Token} (fuel : ℕ) (l : Lex) (rest : List ℕ)
    → Operator c m tk
    → chars l ≡ c ∷ m ∷ rest
    → round fuel c l ≡ token (done (lex_token_l l m tk))
unfolding round term_char lex_token_lt lex_token_gt
round-Operator fuel l rest le at = rw (chars_read l b'<' _ at) refl
round-Operator fuel l rest lshift at = rw (chars_read l b'<' _ at) refl
round-Operator fuel l rest ge at = rw (chars_read l b'>' _ at) refl
round-Operator fuel l rest rshift_a at = rw (chars_read l b'>' _ at) refl
round-Operator fuel l rest rshift_l at = refl
round-Operator fuel l rest ne at = refl
round-Operator fuel l rest matches at = refl
round-Operator fuel l rest eq at = refl

-- Each operator of two characters is one token of length two, which starts at the cursor.
pub lex_next-Operator :
    {c m : ℕ} {tk : Token} (rounds fuel : ℕ) (rest : List ℕ) (l : Lex)
    → Operator c m tk
    → chars l ≡ c ∷ m ∷ rest
    → lex_next (suc rounds) fuel l
      ≡ done (advance 2 l, record { token = tk; off = pos l.off; len = 2 }, tk)
lex_next-Operator {c} {m} {tk} rounds fuel rest l op at =
    lex_next-token rounds fuel c (m ∷ rest) l at _ (round-Operator fuel l rest op at)
    ∙ ap done (lex_token_l_lem l c m rest tk at)

minus_arrow :
    (l : Lex) (rest : List ℕ)
    → chars l ≡ b'-' ∷ b'>' ∷ rest
    → lex_minus l
      ≡ (advance 2 l, record { token = dict_token; off = sub_ℕ (l.off + 1) 2; len = 2 }, dict_token)
unfolding lex_minus is_digit
minus_arrow l rest at = rw at (rw (chars_read l b'-' (b'>' ∷ rest) at) (ground arith))

-- The token of an arrow spans two characters as well, but it starts one character before the cursor.
pub lex_next_arrow :
    (rounds fuel : ℕ) (rest : List ℕ) (l : Lex)
    → chars l ≡ b'-' ∷ b'>' ∷ rest
    → lex_next (suc rounds) fuel l
      ≡ done (
        advance 2 l,
        record { token = dict_token; off = sub_ℕ (l.off + 1) 2; len = 2 },
        dict_token,
      )
lex_next_arrow rounds fuel rest l at =
    lex_next-token rounds fuel b'-' (b'>' ∷ rest) l at _ (round_minus fuel l)
    ∙ ap done (minus_arrow l rest at)
