-- ===== src/Lex/Words.antt =====
-- lex_next reads names and keywords out of any text around them; rounds of its loop.
use ymd.Common.{
  ℕ, suc, ◌+◌, ◌≡◌, ◌∙◌, ap, arith, ◌⊎◌, true, false, List, [], ◌∷◌, ◌++◌, length, take, drop,
  take_all, All,
}
use ymd.Common.Int.{pos}
use ymd.Lex.Keywords.{Names, starts, lex_token-Names}
use ymd.Lex.Chars.{Token, term_char, is_space, is_digit, is_alpha, is_word, lex_term, lex_token}
use ymd.Lex.Scan.{
  Lex, Outcome, done, overrun, Scanned, chars, lex_read, sym_loop, sym_end, lex_read_sym,
}
use ymd.Lex.Next.{token, again, round, lex_next}

-- The text goes on with a character that ends a name, or with nothing.
abbrev pub Ends : List ℕ → Type 0
Ends [] = Unit
Ends (c ∷ _) = lex_term c ≡ true

-- The cursor moved on by `n` characters of the same line.
abbrev pub advance : ℕ → Lex → Lex
advance n l = record l { off = l.off + n; i_column = l.i_column + n }

lex_term-is_word : (c : ℕ) → lex_term c ≡ true → is_word c ≡ false
unfolding lex_term is_word
lex_term-is_word c h = ground arith

pub advance-advance : (n : ℕ) (l : Lex) → advance n (lex_read l) ≡ advance (suc n) l
advance-advance n l = ground arith

pub advance_zero : (l : Lex) → advance 0 l ≡ l
advance_zero l = ground arith

sym_loop-word :
    (w rest : List ℕ) (l : Lex) (start len : ℕ)
    → All (λ c. is_word c ≡ true) w
    → Ends rest
    → sym_loop (w ++ rest) l start len ≡ sym_end (advance (length w) l) start (len + length w)
unfolding sym_loop
sym_loop-word [] [] l start len h e = ground (arith, advance_zero l)
sym_loop-word [] (c ∷ rest) l start len h e = ground (arith, advance_zero l, lex_term-is_word c)
sym_loop-word (c ∷ w) rest l start len (hc, h) e =
    ground
      (arith, sym_loop-word w rest (lex_read l) start (len + 1) h e, advance-advance (length w) l)

-- One round of lex_next at a character, by what `round` comes to.
module _ (rounds fuel c : ℕ) (cs : List ℕ) (l : Lex) (at : chars l ≡ c ∷ cs) where
  pub lex_next-token :
      (r : Outcome Scanned) → round fuel c l ≡ token r → lex_next (suc rounds) fuel l ≡ r
  unfolding lex_next
  lex_next-token r e = rw (at, lex_next) (rw e)

  pub lex_next-again :
      (l' : Lex)
      → round fuel c l ≡ again (done l')
      → lex_next (suc rounds) fuel l ≡ lex_next rounds fuel l'
  unfolding lex_next
  lex_next-again l' e = rw (at, lex_next) (rw e)

  pub lex_next-overrun : round fuel c l ≡ again overrun → lex_next (suc rounds) fuel l ≡ overrun
  unfolding lex_next
  lex_next-overrun e = rw (at, lex_next) (rw e)

-- What a name begins with.
abbrev pub StartsName : ℕ → Type 0
StartsName c = (is_alpha c ≡ true) ⊎ (c ≡ b'_')

round_name : (fuel c : ℕ) (l : Lex) → StartsName c → round fuel c l ≡ token (done (lex_read_sym l))
unfolding round is_alpha term_char is_space is_digit
round_name fuel c l h = ground arith

StartsName-is_word : (c : ℕ) → StartsName c → is_word c ≡ true
unfolding is_word
StartsName-is_word c h = ground arith

take-chars :
    (w rest : List ℕ) (l : Lex) → chars l ≡ w ++ rest → take (length w) (drop l.off l.buf) ≡ w
take-chars w rest l at = ap (take (length w)) at ∙ take_all w rest

lex_read_sym-word :
    (w rest : List ℕ) (l : Lex)
    → chars l ≡ w ++ rest
    → All (λ c. is_word c ≡ true) w
    → Ends rest
    → lex_read_sym l ≡ (
      advance (length w) l,
      record { token = lex_token w; off = pos l.off; len = length w },
      lex_token w,
    )
unfolding lex_read_sym sym_end
lex_read_sym-word w rest l at word ends =
    ap (λ (t : List ℕ). sym_loop t l l.off 0) at
    ∙ sym_loop-word w rest l l.off 0 word ends
    ∙ ground (arith, take-chars w rest l at)

lex_next-lex_token :
    (rounds fuel c : ℕ) (w rest : List ℕ) (l : Lex)
    → chars l ≡ c ∷ (w ++ rest)
    → StartsName c
    → All (λ d. is_word d ≡ true) w
    → Ends rest
    → lex_next (suc rounds) fuel l
      ≡ done (
        advance (suc (length w)) l,
        record { token = lex_token (c ∷ w); off = pos l.off; len = suc (length w) },
        lex_token (c ∷ w),
      )
lex_next-lex_token rounds fuel c w rest l at starts word ends =
    lex_next-token rounds fuel c (w ++ rest) l at (done (lex_read_sym l))
      (round_name fuel c l starts)
    ∙ ap done (lex_read_sym-word (c ∷ w) rest l at (StartsName-is_word c starts, word) ends)

StartsName-starts : (c : ℕ) (w : List ℕ) → StartsName c → starts (c ∷ w) ≡ true
StartsName-starts c w h = ground arith

-- A name that starts with a letter or an underscore and goes up to a character that ends names, or to
-- the end of the text, is one token: the code of the keyword that is spelled so, and that of a symbol
-- where no keyword is. The token spans the name, and the cursor stands behind it.
pub lex_next_name :
    (rounds fuel c : ℕ) (w rest : List ℕ) (l : Lex)
    → chars l ≡ c ∷ (w ++ rest)
    → StartsName c
    → All (λ d. is_word d ≡ true) w
    → Ends rest
    → (t : Token) × Names (c ∷ w) t
      × (lex_next (suc rounds) fuel l
          ≡ done (
            advance (suc (length w)) l,
            record { token = t; off = pos l.off; len = suc (length w) },
            t,
          ))
lex_next_name rounds fuel c w rest l at starts word ends = (
  lex_token (c ∷ w),
  lex_token-Names c w (StartsName-starts c w starts),
  lex_next-lex_token rounds fuel c w rest l at starts word ends,
)
