-- ===== src/Lex/Chars.antt =====
-- lex.h and lex.c: token codes, keyword table, classes of characters. The classes of <ctype.h> are
-- those of ASCII. A text is the list of its characters without the closing NUL.
use ymd.Common.{ℕ, ◌+◌, leb, ◌==◌, if◌then◌else◌, Bool, true, false, ◌&&◌, ◌||◌, List, [], ◌∷◌}
use Prim.Native.Char.{code}
use Prim.Native.String.{String}

-- enum ymd_token: EOS, or a code; a character is its own code.
pub data Token : Type 0 where
  eos : Token
  tok : ℕ → Token

abbrev pub error : Token
error = tok 127

abbrev pub string_token : Token
string_token = tok 131

abbrev pub hex_token : Token
hex_token = tok 132

abbrev pub dec_token : Token
dec_token = tok 133

abbrev pub le_token : Token
le_token = tok 134

abbrev pub ge_token : Token
ge_token = tok 135

abbrev pub ne_token : Token
ne_token = tok 136

abbrev pub match_token : Token
match_token = tok 137

abbrev pub eq_token : Token
eq_token = tok 138

abbrev pub symbol_token : Token
symbol_token = tok 139

abbrev pub skls_token : Token
skls_token = tok 140

abbrev pub lshift_token : Token
lshift_token = tok 141

abbrev pub rshift_a_token : Token
rshift_a_token = tok 142

abbrev pub rshift_l_token : Token
rshift_l_token = tok 143

abbrev pub dict_token : Token
dict_token = tok 144

-- The code points of a text; every literal below is ASCII.
abbrev pub codes : String → List ℕ
codes String.[] = []
codes (String.◌∷◌ c s) = code c ∷ codes s

-- tok_literal: the spellings of DECL_TOKEN, in its order; the first stands for NIL, 128.
unfoldable pub tok_literal : List (List ℕ)
tok_literal =
    codes "nil"
    ∷ codes "true"
    ∷ codes "false"
    ∷ codes "<raw>"
    ∷ codes "<hex>"
    ∷ codes "<dec>"
    ∷ codes "<"
    ∷ codes "<="
    ∷ codes "!="
    ∷ codes "~="
    ∷ codes "=="
    ∷ codes "<id>"
    ∷ codes "@{"
    ∷ codes "<<"
    ∷ codes ">>"
    ∷ codes "|>"
    ∷ codes "->"
    ∷ codes "var"
    ∷ codes "func"
    ∷ codes "and"
    ∷ codes "or"
    ∷ codes "not"
    ∷ codes "if"
    ∷ codes "else"
    ∷ codes "elif"
    ∷ codes "with"
    ∷ codes "for"
    ∷ codes "return"
    ∷ codes "break"
    ∷ codes "continue"
    ∷ codes "typeof"
    ∷ codes "in"
    ∷ []

unfoldable pub equal : List ℕ → List ℕ → Bool
equal [] [] = true
equal (x ∷ xs) (y ∷ ys) = x == y && equal xs ys
equal _ _ = false

-- The loop of lex_token, from the entry of code `i` on; SYMBOL if no entry fits.
unfoldable pub find_literal : List (List ℕ) → ℕ → List ℕ → Token
unfolding equal
find_literal [] i text = symbol_token
find_literal (kz ∷ rest) i text =
    let later = find_literal rest (i + 1) text in if equal text kz then tok i else later

-- lex_token, on the characters of the token.
unfoldable pub lex_token : List ℕ → Token
unfolding find_literal tok_literal
lex_token [] = error
lex_token text = find_literal tok_literal 128 text

abbrev between : ℕ → ℕ → ℕ → Bool
between lo hi c = leb lo c && leb c hi

unfoldable pub is_space : ℕ → Bool
is_space c = c == b' ' || between 9 13 c

unfoldable pub is_digit : ℕ → Bool
is_digit c = between b'0' b'9' c

unfoldable pub is_alpha : ℕ → Bool
is_alpha c = between b'a' b'z' c || between b'A' b'Z' c

unfoldable pub is_xdigit : ℕ → Bool
is_xdigit c = between b'0' b'9' c || between b'a' b'f' c || between b'A' b'F' c

abbrev one_of : List ℕ → ℕ → Bool
one_of [] c = false
one_of (x ∷ xs) c = c == x || one_of xs c

-- TERM_CHAR and PREX_CHAR.
unfoldable pub term_char : ℕ → Bool
term_char c = one_of (codes "+*%^,;()[]{}:.&") c

unfoldable pub prex_char : ℕ → Bool
prex_char c = one_of (codes "-<>=!~@|/\"#") c

-- lex_term on a character; it also holds at EOS.
unfoldable pub lex_term : ℕ → Bool
unfolding term_char prex_char is_space
lex_term c = term_char c || prex_char c || is_space c

-- A character of a name.
unfoldable pub is_word : ℕ → Bool
unfolding is_alpha is_digit
is_word c = is_alpha c || is_digit c || c == b'_'
