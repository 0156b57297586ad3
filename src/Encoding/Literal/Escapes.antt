-- ===== src/Encoding/Literal/Escapes.antt =====
-- The bytes that stresc reads from string literals.
use ymd.Common.{
  ℕ, ◌*◌, ◌/◌, ◌%◌, ◌^◌, ◌<◌, ◌≡◌, ◌≢◌, ◌⊎◌, ◌∙◌, refl, ap, arith, bit_or, Bool, some, List, [],
  ◌∷◌, ◌++◌, All, ◌>>=◌,
}
use ymd.Common.Bits.{bit_or-disjoint}
use ymd.Encoding.Literal.{plain, high, after_byte, escape_char, stresc_from, stresc}
use ymd.Encoding.Literal.Numbers.{hex_char, xtol-hex_char}

-- A piece of a literal: a character that stands for itself, a letter behind a backslash, one byte
-- behind \x, or two behind \u, with each digit in either case.
pub data Piece : Type 0 where
  char : ℕ → Piece
  letter : ℕ → ℕ → Piece
  hex : Bool × Bool → ℕ → Piece
  unit : Bool × Bool → Bool × Bool → ℕ → ℕ → Piece

-- The two digits of a byte, each in upper case or not.
abbrev digits_of : Bool × Bool → ℕ → List ℕ
digits_of (upper, upper') b = hex_char upper (b / 16) ∷ hex_char upper' (b % 16) ∷ []

-- How a piece is spelled, what it stands for, and which pieces there are.
abbrev spelling : Piece → List ℕ
spelling (char c) = c ∷ []
spelling (letter c b) = b'\\' ∷ c ∷ []
spelling (hex upper b) = b'\\' ∷ b'x' ∷ digits_of upper b
spelling (unit upper upper' a b) = b'\\' ∷ b'u' ∷ (digits_of upper a ++ digits_of upper' b)

abbrev meaning : Piece → List ℕ
meaning (char c) = c ∷ []
meaning (letter c b) = b ∷ []
meaning (hex upper b) = b ∷ []
meaning (unit upper upper' a b) = a ∷ b ∷ []

-- The letters of the language: a b f n r t v 0, the backslash and the quote.
abbrev letters : List (ℕ × ℕ)
letters =
    (b'a', 7)
    ∷ (b'b', 8)
    ∷ (b'f', 12)
    ∷ (b'n', 10)
    ∷ (b'r', 13)
    ∷ (b't', 9)
    ∷ (b'v', 11)
    ∷ (b'0', 0)
    ∷ (b'\\', b'\\')
    ∷ (b'"', b'"')
    ∷ []

abbrev IsOneOf : ℕ → ℕ → List (ℕ × ℕ) → Type 0
IsOneOf c b [] = ⊥
IsOneOf c b ((d, v) ∷ rest) = ((c ≡ d) × (b ≡ v)) ⊎ IsOneOf c b rest

abbrev pub IsPiece : Piece → Type 0
IsPiece (char c) = c ≢ b'\\'
IsPiece (letter c b) = IsOneOf c b letters
IsPiece (hex upper b) = b < 256
IsPiece (unit upper upper' a b) = (a < 256) × (b < 256)

abbrev pub spell : List Piece → List ℕ
spell [] = []
spell (p ∷ ps) = spelling p ++ spell ps

abbrev pub mean : List Piece → List ℕ
mean [] = []
mean (p ∷ ps) = meaning p ++ mean ps

two_digits : (b : ℕ) → b < 256 → bit_or (b / 16 * 2 ^ 4 % 256) (b % 16) % 256 ≡ b
two_digits b h =
    ap (λ (t : ℕ). bit_or t (b % 16) % 256) (omega arith)
    ∙ ap (λ (t : ℕ). t % 256) (bit_or-disjoint 4 (b / 16) (b % 16) (omega arith))
    ∙ omega arith

stresc_from_byte :
    (upper : Bool × Bool) (n b : ℕ) (cs : List ℕ)
    → b < 256
    → stresc_from (high n) (digits_of upper b ++ cs)
      ≡ (do t ← stresc_from (after_byte n) cs; some (b ∷ t))
unfolding stresc_from
stresc_from_byte (upper, upper') n b cs h =
    rw (xtol-hex_char upper (b / 16) (omega arith), xtol-hex_char upper' (b % 16) (omega arith))
      (rw (two_digits b h))

escape_char-letters : (c b : ℕ) → IsOneOf c b letters → escape_char c ≡ some b
unfolding escape_char
escape_char-letters c b h = ground arith

letters_ne : (c b : ℕ) → IsOneOf c b letters → (c ≢ b'x') × (c ≢ b'u')
letters_ne c b h = omega arith

stresc_from_piece :
    (p : Piece) (cs t : List ℕ)
    → IsPiece p
    → stresc_from plain cs ≡ some t
    → stresc_from plain (spelling p ++ cs) ≡ some (meaning p ++ t)
unfolding stresc_from
stresc_from_piece (char c) cs t h e = ground arith
stresc_from_piece (letter c b) cs t h e =
    ground (arith, letters_ne c b h, escape_char-letters c b h)
stresc_from_piece (hex upper b) cs t h e = stresc_from_byte upper 0 b cs h ∙ rw e
stresc_from_piece (unit upper upper' a b) cs t (ha, hb) e =
    stresc_from_byte upper 1 a (digits_of upper' b ++ cs) ha
    ∙ rw (stresc_from_byte upper' 0 b cs hb) (rw e)

-- stresc reads a literal spelled by any pieces, with upper and lower case digits mixed in any way, as the
-- bytes that they stand for.
pub stresc-spell : (ps : List Piece) → All IsPiece ps → stresc (spell ps) ≡ some (mean ps)
unfolding stresc
stresc-spell [] h = unfold stresc_from in refl
stresc-spell (p ∷ ps) (hp, hs) = stresc_from_piece p (spell ps) (mean ps) hp (stresc-spell ps hs)
