-- ===== src/Compiler/Grammar.antt =====
-- compiler.c: the expressions that the parser reads, as they are spelled, with the tokens of each, and
-- the trees that they denote for a table of constants.
use ymd.Common.{ℕ, ◌+◌, ◌-◌, ◌^◌, ◌<◌, ◌≤◌, ◌≡◌, Option, none, some, List, ◌∷◌, get_elem?, false}
use ymd.Common.Int.{pos}
use ymd.Encoding.Literal.{dtoll}
use ymd.Lex.Chars.{
  Token, tok, string_token, dec_token, symbol_token, le_token, ge_token, ne_token, match_token,
  eq_token,
}
use ymd.Chunk.{Chunk, Variable, int, blk_find_lz}
use ymd.Vm.Arith.{signed}
use ymd.Compiler.Emit.{Lexeme, same_token}
use ymd.Compiler.Syntax.{
  BinaryOp, UnaryOp, prio, prio_unary, binary_op, and_token, or_token, not_token, typeof_token,
}
use ymd.Compiler.Tree.{Tree}

-- The characters and the line of a token.
pub record Word : Type 0 where
  pub literal : List ℕ
  pub line : ℕ

abbrev pub lexeme : Token → Word → Lexeme
lexeme t w = record { token = t; literal = w.literal; line = w.line }

-- An expression of constants, locals, parentheses and operators. `literal` has the 64-bit word of its
-- digits, `local_` the number of the local, `parens` the words of both parentheses.
pub data Src : Type 0 where
  nil_ : Word → Src
  true_ : Word → Src
  false_ : Word → Src
  literal : Word → ℕ → Src
  local_ : Word → ℕ → Src
  parens : Word → Src → Word → Src
  unary : UnaryOp → Word → Src → Src
  binary : BinaryOp → Word → Src → Src → Src

unfoldable pub unary_token : UnaryOp → Token
unary_token UnaryOp.mins = tok b'-'
unary_token UnaryOp.not_ = not_token
unary_token UnaryOp.not_nil = tok b'!'
unary_token UnaryOp.typeof = typeof_token

unfoldable pub binary_token : BinaryOp → Token
binary_token BinaryOp.add = tok b'+'
binary_token BinaryOp.sub = tok b'-'
binary_token BinaryOp.mul = tok b'*'
binary_token BinaryOp.div = tok b'/'
binary_token BinaryOp.mod_ = tok b'%'
binary_token BinaryOp.eq = eq_token
binary_token BinaryOp.ne = ne_token
binary_token BinaryOp.match = match_token
binary_token BinaryOp.lt = tok b'<'
binary_token BinaryOp.le = le_token
binary_token BinaryOp.gt = tok b'>'
binary_token BinaryOp.ge = ge_token
binary_token BinaryOp.and_ = and_token
binary_token BinaryOp.or_ = or_token

-- The tokens of an expression, in front of those that follow.
unfoldable pub spell : Src → List Lexeme → List Lexeme
spell (nil_ w) rest = lexeme (tok 128) w ∷ rest
spell (true_ w) rest = lexeme (tok 129) w ∷ rest
spell (false_ w) rest = lexeme (tok 130) w ∷ rest
spell (literal w n) rest = lexeme dec_token w ∷ rest
spell (local_ w i) rest = lexeme symbol_token w ∷ rest
spell (parens w a w') rest = lexeme (tok b'(') w ∷ spell a (lexeme (tok b')') w' ∷ rest)
spell (unary op w a) rest = lexeme (unary_token op) w ∷ spell a rest
spell (binary op w a b) rest = spell a (lexeme (binary_token op) w ∷ spell b rest)

-- Every operator outside parentheses binds stronger than `m`, operators of the same priority group to
-- the left, a literal is read as its word, and a local is found under its name in `scope`.
unfoldable pub Level : Chunk → ℕ → Src → Type 0
Level scope m (literal w n) = dtoll w.literal ≡ some n
Level scope m (local_ w i) = (blk_find_lz scope w.literal ≡ pos i) × (i < 2 ^ 16)
Level scope m (parens w a w') = Level scope 0 a
Level scope m (unary op w a) = Level scope prio_unary a
Level scope m (binary op w a b) =
    (m < prio op) × Level scope (prio op - 1) a × Level scope (prio op) b
Level scope m _ = Unit

-- The depth of the parser's recursion, the instructions and the constants that an expression takes.
unfoldable pub size : Src → ℕ
size (parens w a w') = size a + 1
size (unary op w a) = size a + 1
size (binary op w a b) = size a + size b + 1
size _ = 1

unfoldable pub width : Src → ℕ
width (parens w a w') = width a
width (unary op w a) = width a + 1
width (binary op w a b) = width a + width b + 1
width _ = 1

unfoldable pub literals : Src → ℕ
literals (literal w n) = 1
literals (parens w a w') = literals a
literals (unary op w a) = literals a
literals (binary op w a b) = literals a + literals b
literals _ = 0

-- The tokens that follow go on with no suffix, and with no operator that binds stronger than `m`.
abbrev pub Weak : ℕ → Option BinaryOp → Type 0
Weak m none = Unit
Weak m (some op) = prio op ≤ m

pub record Follows (m : ℕ) (t : Token) : Type 0 where
  pub not_dot : same_token t (tok b'.') ≡ false
  pub not_bracket : same_token t (tok b'[') ≡ false
  pub not_colon : same_token t (tok b':') ≡ false
  pub not_paren : same_token t (tok b'(') ≡ false
  pub not_string : same_token t string_token ≡ false
  pub weak : Weak m (binary_op t)

-- The tree of an expression, whose numbers are the indices of the constants.
pub data Denotes (kval : List Variable) : Src → Tree → Type 0 where
  nil_ : {w : Word} → Denotes kval (Src.nil_ w) Tree.nil_
  true_ : {w : Word} → Denotes kval (Src.true_ w) (Tree.truth 1)
  false_ : {w : Word} → Denotes kval (Src.false_ w) (Tree.truth 0)
  literal :
      {w : Word} {n i : ℕ}
      → get_elem? kval i ≡ some (int (signed n))
      → Denotes kval (Src.literal w n) (Tree.number i)
  local_ : {w : Word} {i : ℕ} → Denotes kval (Src.local_ w i) (Tree.local_ i)
  parens :
      {w w' : Word} {a : Src} {t : Tree} → Denotes kval a t → Denotes kval (Src.parens w a w') t
  unary :
      {op : UnaryOp} {w : Word} {a : Src} {t : Tree}
      → Denotes kval a t
      → Denotes kval (Src.unary op w a) (Tree.unary op t)
  binary :
      {op : BinaryOp} {w : Word} {a b : Src} {t u : Tree}
      → Denotes kval a t
      → Denotes kval b u
      → Denotes kval (Src.binary op w a b) (Tree.binary op t u)
