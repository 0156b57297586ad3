-- ===== src/Lex/Skips.antt =====
-- What lex_next passes over: blanks, line ends and comments.
use ymd.Common.{ℕ, suc, ◌+◌, ◌≡◌, ◌≢◌, ◌∙◌, refl, ap, arith, List, [], ◌∷◌, ◌++◌, length, All}
use ymd.Lex.Chars.{is_space, term_char}
use ymd.Lex.Scan.{Lex, done, overrun, chars, lex_read, skip_loop, lex_skip_line}
use ymd.Lex.Next.{again, round, lex_next}
use ymd.Lex.Words.{lex_next-again, lex_next-overrun}
use ymd.Lex.Numbers.{chars_read}

-- The cursor at the start of the next line, `n` characters on.
abbrev pub next_line : ℕ → Lex → Lex
next_line n l = record l { off = l.off + n; i_line = l.i_line + 1; i_column = 0 }

abbrev pub InLine : List ℕ → Type 0
InLine = All (λ c. c ≢ b'\n')

skip_loop-InLine :
    (s rest : List ℕ) (l : Lex)
    → InLine s
    → skip_loop (s ++ (b'\n' ∷ rest)) l ≡ done (next_line (suc (length s)) l)
unfolding skip_loop
skip_loop-InLine [] rest l h = ground arith
skip_loop-InLine (c ∷ s) rest l (hc, h) = ground (arith, skip_loop-InLine s rest (lex_read l) h)

skip_loop-overrun : (s : List ℕ) (l : Lex) → InLine s → skip_loop s l ≡ overrun
unfolding skip_loop
skip_loop-overrun [] l h = refl
skip_loop-overrun (c ∷ s) l (hc, h) = ground (arith, skip_loop-overrun s (lex_read l) h)

-- A comment: a hash, or two slashes.
pub data Opens : List ℕ → Type 0 where
  hash : (s : List ℕ) → Opens (b'#' ∷ s)
  slashes : (s : List ℕ) → Opens (b'/' ∷ b'/' ∷ s)

round_hash : (fuel : ℕ) (l : Lex) → round fuel b'#' l ≡ again (lex_skip_line l)
unfolding round term_char is_space
round_hash fuel l = refl

round_slashes :
    (fuel : ℕ) (l : Lex) (s : List ℕ)
    → chars l ≡ b'/' ∷ b'/' ∷ s
    → round fuel b'/' l ≡ again (lex_skip_line (lex_read l))
unfolding round term_char is_space
round_slashes fuel l s at = rw at (rw (chars_read l b'/' (b'/' ∷ s) at))

-- A hash comment is passed over up to the start of the next line, which is counted.
pub lex_next_comment :
    (rounds fuel : ℕ) (s rest : List ℕ) (l : Lex)
    → chars l ≡ b'#' ∷ (s ++ (b'\n' ∷ rest))
    → InLine s
    → lex_next (suc rounds) fuel l ≡ lex_next rounds fuel (next_line (suc (suc (length s))) l)
unfolding lex_skip_line
lex_next_comment rounds fuel s rest l at h = lex_next-again rounds fuel b'#' _ l at _ (
    round_hash fuel l
    ∙ ap again (
        ap (λ (t : List ℕ). skip_loop t l) at
        ∙ skip_loop-InLine (b'#' ∷ s) rest l ((λ e. omega arith), h)))

pub lex_next_slashes :
    (rounds fuel : ℕ) (s rest : List ℕ) (l : Lex)
    → chars l ≡ b'/' ∷ b'/' ∷ (s ++ (b'\n' ∷ rest))
    → InLine s
    → lex_next (suc rounds) fuel l ≡ lex_next rounds fuel (next_line (suc (suc (suc (length s)))) l)
unfolding lex_skip_line
lex_next_slashes rounds fuel s rest l at h = lex_next-again rounds fuel b'/' _ l at _ (
    round_slashes fuel l _ at
    ∙ ap again (
        ap (λ (t : List ℕ). skip_loop t (lex_read l)) (chars_read l b'/' _ at)
        ∙ skip_loop-InLine (b'/' ∷ s) rest (lex_read l) ((λ e. omega arith), h)
        ∙ ground arith))

-- A hash comment on a last line with no line end makes lex_next read past the end of the text.
pub lex_next_comment_overrun :
    (rounds fuel : ℕ) (s : List ℕ) (l : Lex)
    → chars l ≡ b'#' ∷ s
    → InLine s
    → lex_next (suc rounds) fuel l ≡ overrun
unfolding lex_skip_line
lex_next_comment_overrun rounds fuel s l at h = lex_next-overrun rounds fuel b'#' _ l at (
    round_hash fuel l
    ∙ ap again (
        ap (λ (t : List ℕ). skip_loop t l) at
        ∙ skip_loop-overrun (b'#' ∷ s) l ((λ e. omega arith), h)))
