-- ===== src/Lex/Strings.antt =====
-- String literals: lex_next reads one that is closed, and does not come back from one that is not.
use ymd.Common.{ℕ, zero, suc, ◌+◌, ◌≡◌, ◌≢◌, ◌<◌, ◌∙◌, refl, arith, List, [], ◌∷◌, ◌++◌, length}
use ymd.Common.Int.{ℤ, pos}
use ymd.Lex.Chars.{string_token, term_char}
use ymd.Lex.Scan.{Lex, done, out_of_fuel, chars, lex_read, lex_move, raw_loop, lex_read_raw}
use ymd.Lex.Next.{token, round, lex_next}
use ymd.Lex.Words.{advance, lex_next-token}
use ymd.Lex.Numbers.{chars_read}

-- The inside of a literal: characters of a line but the quote, and pairs behind a backslash.
pub data RawBody : List ℕ → Type 0 where
  nil : RawBody []
  char : {cs : List ℕ} (c : ℕ) → c ≢ b'"' → c ≢ b'\\' → c ≢ b'\n' → RawBody cs → RawBody (c ∷ cs)
  pair : {cs : List ℕ} (c : ℕ) → RawBody cs → RawBody (b'\\' ∷ c ∷ cs)

move_read : (l : Lex) (c : ℕ) (cs : List ℕ) → chars l ≡ c ∷ cs → lex_move l ≡ lex_read l
move_read l c cs at = rw at

-- One round of the loop at each kind of character.
module _ (fuel : ℕ) (l : Lex) (off : ℤ) (len : ℕ) (cs : List ℕ) where
  raw_quote :
      chars l ≡ b'"' ∷ cs
      → raw_loop (suc fuel) l off len
        ≡ done (lex_read l, record { token = string_token; off = off; len = len }, string_token)
  unfolding raw_loop
  raw_quote at = rw at

  raw_char :
      (c : ℕ)
      → chars l ≡ c ∷ cs
      → c ≢ b'"'
      → c ≢ b'\\'
      → c ≢ b'\n'
      → raw_loop (suc fuel) l off len ≡ raw_loop fuel (lex_read l) off (len + 1)
  unfolding raw_loop
  raw_char c at h1 h2 h3 = rw at (ground arith)

  raw_pair :
      (c : ℕ)
      → chars l ≡ b'\\' ∷ c ∷ cs
      → raw_loop (suc fuel) l off len ≡ raw_loop fuel (lex_read (lex_read l)) off (len + 2)
  unfolding raw_loop
  raw_pair c at = rw at (rw (chars_read l b'\\' (c ∷ cs) at))

  raw_end : chars l ≡ [] → raw_loop (suc fuel) l off len ≡ raw_loop fuel l off (len + 1)
  unfolding raw_loop
  raw_end at = rw at

raw_loop-RawBody :
    {s : List ℕ} (rest : List ℕ) (fuel : ℕ) (l : Lex) (off : ℤ) (len : ℕ)
    → RawBody s
    → chars l ≡ s ++ (b'"' ∷ rest)
    → length s < fuel
    → raw_loop fuel l off len
      ≡ done (
        advance (suc (length s)) l,
        record { token = string_token; off = off; len = len + length s },
        string_token,
      )
raw_loop-RawBody rest zero l off len body at h = absurd (omega arith)
raw_loop-RawBody rest (suc fuel) l off len nil at h =
    raw_quote fuel l off len rest at ∙ ground arith
raw_loop-RawBody rest (suc fuel) l off len (char {cs} c h1 h2 h3 body) at h =
    raw_char fuel l off len (cs ++ (b'"' ∷ rest)) c at h1 h2 h3
    ∙ raw_loop-RawBody rest fuel (lex_read l) off (len + 1) body (chars_read l c _ at) (omega arith)
    ∙ ground arith
raw_loop-RawBody rest (suc fuel) l off len (pair {cs} c body) at h =
    raw_pair fuel l off len (cs ++ (b'"' ∷ rest)) c at
    ∙ raw_loop-RawBody rest fuel (lex_read (lex_read l)) off (len + 2) body
        (chars_read (lex_read l) c _ (chars_read l b'\\' _ at)) (omega arith)
    ∙ ground arith

-- A literal that is not closed on its line nor later: no quote, backslash or line end follows.
abbrev pub Unclosed : List ℕ → Type 0
Unclosed [] = Unit
Unclosed (c ∷ cs) = (c ≢ b'"') × (c ≢ b'\\') × (c ≢ b'\n') × Unclosed cs

raw_loop-Unclosed :
    (fuel : ℕ) (s : List ℕ) (l : Lex) (off : ℤ) (len : ℕ)
    → Unclosed s
    → chars l ≡ s
    → raw_loop fuel l off len ≡ out_of_fuel
raw_loop-Unclosed zero s l off len u at = unfold raw_loop in refl
raw_loop-Unclosed (suc fuel) [] l off len u at =
    raw_end fuel l off len [] at ∙ raw_loop-Unclosed fuel [] l off (len + 1) tt at
raw_loop-Unclosed (suc fuel) (c ∷ s) l off len (h1, h2, h3, u) at =
    raw_char fuel l off len s c at h1 h2 h3
    ∙ raw_loop-Unclosed fuel s (lex_read l) off (len + 1) u (chars_read l c s at)

round_quote : (fuel : ℕ) (l : Lex) → round fuel b'"' l ≡ token (lex_read_raw fuel l)
unfolding round term_char
round_quote fuel l = refl

-- A closed literal is one token, which spans what stands between the quotes; the cursor stands behind
-- the second one. Fuel for its characters and one round is enough.
pub lex_next_string :
    {s : List ℕ} (rounds fuel : ℕ) (rest : List ℕ) (l : Lex)
    → RawBody s
    → chars l ≡ b'"' ∷ (s ++ (b'"' ∷ rest))
    → length s < fuel
    → lex_next (suc rounds) fuel l
      ≡ done (
        advance (suc (suc (length s))) l,
        record { token = string_token; off = pos (l.off + 1); len = length s },
        string_token,
      )
unfolding lex_read_raw
lex_next_string {s} rounds fuel rest l body at h =
    lex_next-token rounds fuel b'"' _ l at _ (round_quote fuel l)
    ∙ rw (move_read l b'"' _ at) (
        raw_loop-RawBody rest fuel (lex_read l) (pos (l.off + 1)) 0 body (chars_read l b'"' _ at) h
        ∙ ground arith)

-- On a literal with no closing quote, backslash or line end up to the end of the text lex_next does
-- not return, whatever the fuel.
pub lex_next-Unclosed :
    (rounds fuel : ℕ) (s : List ℕ) (l : Lex)
    → chars l ≡ b'"' ∷ s
    → Unclosed s
    → lex_next rounds fuel l ≡ out_of_fuel
unfolding lex_read_raw
lex_next-Unclosed zero fuel s l at u = unfold lex_next in refl
lex_next-Unclosed (suc rounds) fuel s l at u =
    lex_next-token rounds fuel b'"' s l at _ (round_quote fuel l)
    ∙ rw (move_read l b'"' s at)
        (raw_loop-Unclosed fuel s (lex_read l) (pos (l.off + 1)) 0 u (chars_read l b'"' s at))
