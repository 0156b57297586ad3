-- ===== src/Lex/Tests.antt =====
-- Runs of the lexer, and its theorems at concrete texts.
use ymd.Common.{◌≡◌, refl, arith, inl, []}
use ymd.Common.Int.{pos, negsuc}
use ymd.Lex.Keywords.{Names}
use ymd.Lex.Chars.{
  Token, tok, codes, is_alpha, is_digit, is_word, lex_term, dec_token, string_token, ge_token,
  dict_token, symbol_token, lex_token,
}
use ymd.Lex.Scan.{done, overrun, out_of_fuel, lex_init, sym_end, lex_read_sym}
use ymd.Lex.Next.{round, lex_next}
use ymd.Lex.Words.{advance, lex_next_name}
use ymd.Lex.Numbers.{lex_next_negative}
use ymd.Lex.Strings.{RawBody, nil, char, pair, lex_next_string, lex_next-Unclosed}
use ymd.Lex.Operators.{lex_next-Operator, lex_next_arrow, ge}
use ymd.Lex.Skips.{next_line, lex_next_comment, lex_next_comment_overrun}

-- A keyword and a symbol.
keyword : lex_token (codes "elif") ≡ tok 152
unfolding lex_token
keyword = refl

symbol : lex_token (codes "elifs") ≡ symbol_token
unfolding lex_token
symbol = refl

name_at_end :
    lex_next 1 0 (lex_init (codes "if"))
    ≡ done (
      advance 2 (lex_init (codes "if")),
      record { token = tok 150; off = pos 0; len = 2 },
      tok 150,
    )
unfolding lex_next round lex_read_sym sym_end lex_token
name_at_end = refl

lex_next_name_example :
    (t : Token) × Names (codes "elif") t
    × (lex_next 1 0 (lex_init (codes "elif+y"))
        ≡ done
            (advance 4 (lex_init (codes "elif+y")), record { token = t; off = pos 0; len = 4 }, t))
unfolding is_alpha is_word lex_term
lex_next_name_example =
    lex_next_name 0 0 b'e' (codes "lif") (codes "+y") (lex_init (codes "elif+y")) refl (inl refl)
      (refl, (refl, (refl, tt))) refl

lex_next_negative_example :
    lex_next 1 0 (lex_init (codes "-42 "))
    ≡ done (
      advance 3 (lex_init (codes "-42 ")),
      record { token = dec_token; off = pos 0; len = 3 },
      dec_token,
    )
unfolding is_digit lex_term
lex_next_negative_example =
    lex_next_negative 0 0 b'4' (codes "2") (codes " ") (lex_init (codes "-42 ")) refl
      (refl, (refl, tt)) refl

body : RawBody (codes "a\\\"b")
body =
    char b'a' (λ e. omega arith) (λ e. omega arith) (λ e. omega arith)
      (pair b'"' (char b'b' (λ e. omega arith) (λ e. omega arith) (λ e. omega arith) nil))

lex_next_string_example :
    lex_next 1 5 (lex_init (codes "\"a\\\"b\";"))
    ≡ done (
      advance 6 (lex_init (codes "\"a\\\"b\";")),
      record { token = string_token; off = pos 1; len = 4 },
      string_token,
    )
lex_next_string_example =
    lex_next_string 0 5 (codes ";") (lex_init (codes "\"a\\\"b\";")) body refl (omega arith)

lex_next-Unclosed_example : lex_next 7 1000 (lex_init (codes "\"ab")) ≡ out_of_fuel
lex_next-Unclosed_example =
    lex_next-Unclosed 7 1000 (codes "ab") (lex_init (codes "\"ab")) refl (omega arith)

lex_next_comment_example :
    lex_next 2 0 (lex_init (codes "# a\nx"))
    ≡ lex_next 1 0 (next_line 4 (lex_init (codes "# a\nx")))
lex_next_comment_example =
    lex_next_comment 1 0 (codes " a") (codes "x") (lex_init (codes "# a\nx")) refl (omega arith)

lex_next_comment_overrun_example : lex_next 1 0 (lex_init (codes "# a")) ≡ overrun
lex_next_comment_overrun_example =
    lex_next_comment_overrun 0 0 (codes " a") (lex_init (codes "# a")) refl (omega arith)

lex_next-Operator_example :
    lex_next 1 0 (lex_init (codes ">=1"))
    ≡ done (
      advance 2 (lex_init (codes ">=1")),
      record { token = ge_token; off = pos 0; len = 2 },
      ge_token,
    )
lex_next-Operator_example = lex_next-Operator 0 0 (codes "1") (lex_init (codes ">=1")) ge refl

-- At the start of a text the token of an arrow points in front of the text.
lex_next_arrow_example :
    lex_next 1 0 (lex_init (codes "->"))
    ≡ done (
      advance 2 (lex_init (codes "->")),
      record { token = dict_token; off = negsuc 0; len = 2 },
      dict_token,
    )
lex_next_arrow_example = lex_next_arrow 0 0 [] (lex_init (codes "->")) refl
