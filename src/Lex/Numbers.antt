-- ===== src/Lex/Numbers.antt =====
-- lex_next reads decimal numbers, with or without a minus sign, out of any text around them.
use ymd.Common.{
  ℕ, suc, ◌+◌, ◌==◌, ◌≡◌, ◌≢◌, ◌∙◌, refl, ap, arith, if◌then◌else◌, true, false, List, [], ◌∷◌,
  ◌++◌, length, drop-suc, All,
}
use ymd.Common.Int.{ℤ, pos, sub_ℕ}
use ymd.Lex.Chars.{error, term_char, is_space, is_digit, is_alpha, lex_term, dec_token}
use ymd.Lex.Scan.{Lex, done, Scanned, chars, lex_read, lex_back, dec_end, dec_loop, lex_read_dec}
use ymd.Lex.Next.{lex_minus, token, round, lex_next}
use ymd.Lex.Words.{Ends, advance, advance-advance, advance_zero, lex_next-token}

lex_term-is_digit : (c : ℕ) → is_digit c ≡ true → lex_term c ≡ false
unfolding lex_term is_digit
lex_term-is_digit c h = ground arith

back_read : (l : Lex) → lex_back (lex_read l) ≡ l
back_read l = ground arith

module _ (neg : ℕ) (off : ℤ) where
  -- The token of `len` digits, with the cursor at `l`.
  abbrev number : Lex → ℕ → Scanned
  number l len =
      let t = if len == 0 then error else dec_token in
      (l, record { token = t; off = off; len = len + neg }, t)

  dec_loop-digits :
      (ds rest : List ℕ) (l : Lex) (len : ℕ)
      → All (λ c. is_digit c ≡ true) ds
      → Ends rest
      → dec_loop (ds ++ rest) l neg off len ≡ number (advance (length ds) l) (len + length ds)
  unfolding dec_loop dec_end
  dec_loop-digits [] [] l len h e = ground (arith, advance_zero l, back_read l)
  dec_loop-digits [] (c ∷ rest) l len h e = ground (arith, advance_zero l, back_read l)
  dec_loop-digits (c ∷ ds) rest l len (hc, h) e = ground (
    arith,
    lex_term-is_digit c,
    dec_loop-digits ds rest (lex_read l) (len + 1) h e,
    advance-advance (length ds) l,
  )

round_digit :
    (fuel c : ℕ) (l : Lex)
    → is_digit c ≡ true
    → c ≢ b'0'
    → round fuel c l ≡ token (done (lex_read_dec l 0))
unfolding round is_digit is_alpha term_char is_space
round_digit fuel c l h nz = ground arith

lex_read_dec-digits :
    (neg c : ℕ) (ds rest : List ℕ) (l : Lex)
    → chars l ≡ c ∷ (ds ++ rest)
    → All (λ d. is_digit d ≡ true) (c ∷ ds)
    → Ends rest
    → lex_read_dec l neg ≡ (
      advance (suc (length ds)) l,
      record { token = dec_token; off = sub_ℕ l.off neg; len = suc (length ds) + neg },
      dec_token,
    )
unfolding lex_read_dec
lex_read_dec-digits neg c ds rest l at digits ends =
    ap (λ (t : List ℕ). dec_loop t l neg (sub_ℕ l.off neg) 0) at
    ∙ dec_loop-digits neg (sub_ℕ l.off neg) (c ∷ ds) rest l 0 digits ends
    ∙ ground arith

-- A decimal number that does not start with 0 is one token, up to a character that ends it.
pub lex_next_number :
    (rounds fuel c : ℕ) (ds rest : List ℕ) (l : Lex)
    → chars l ≡ c ∷ (ds ++ rest)
    → c ≢ b'0'
    → All (λ d. is_digit d ≡ true) (c ∷ ds)
    → Ends rest
    → lex_next (suc rounds) fuel l
      ≡ done (
        advance (suc (length ds)) l,
        record { token = dec_token; off = pos l.off; len = suc (length ds) },
        dec_token,
      )
lex_next_number rounds fuel c ds rest l at nz digits ends =
    lex_next-token rounds fuel c (ds ++ rest) l at _ (round_digit fuel c l digits.0 nz)
    ∙ ap done (lex_read_dec-digits 0 c ds rest l at digits ends ∙ ground arith)

pub round_minus : (fuel : ℕ) (l : Lex) → round fuel b'-' l ≡ token (done (lex_minus l))
unfolding round term_char
round_minus fuel l = refl

-- The cursor behind the character at which it stands.
pub chars_read : (l : Lex) (c : ℕ) (cs : List ℕ) → chars l ≡ c ∷ cs → chars (lex_read l) ≡ cs
chars_read l c cs at = drop-suc l.off l.buf at

minus_digit :
    (l : Lex) (c : ℕ) (cs : List ℕ)
    → chars l ≡ b'-' ∷ c ∷ cs
    → is_digit c ≡ true
    → lex_minus l ≡ lex_read_dec (lex_read l) 1
unfolding lex_minus
minus_digit l c cs at h = rw at (rw (chars_read l b'-' (c ∷ cs) at) (rw h))

-- A minus sign and digits are one number, which starts at the sign.
pub lex_next_negative :
    (rounds fuel c : ℕ) (ds rest : List ℕ) (l : Lex)
    → chars l ≡ b'-' ∷ c ∷ (ds ++ rest)
    → All (λ d. is_digit d ≡ true) (c ∷ ds)
    → Ends rest
    → lex_next (suc rounds) fuel l
      ≡ done (
        advance (suc (suc (length ds))) l,
        record { token = dec_token; off = pos l.off; len = suc (suc (length ds)) },
        dec_token,
      )
lex_next_negative rounds fuel c ds rest l at digits ends =
    lex_next-token rounds fuel b'-' (c ∷ (ds ++ rest)) l at _ (round_minus fuel l)
    ∙ ap done (
        minus_digit l c (ds ++ rest) at digits.0
        ∙ lex_read_dec-digits 1 c ds rest (lex_read l) (chars_read l b'-' _ at) digits ends
        ∙ ground arith)
