-- ===== src/Compiler/ParseExpr/Whole.antt =====
-- compiler.c: parse_expr on every expression.
use ymd.Common.{ℕ, suc, ◌≤◌, ◌≡◌, true, false, List}
use ymd.Chunk.{Chunk}
use ymd.Compiler.Emit.{Parse, ok, Lexeme, Parser}
use ymd.Compiler.Syntax.{BinaryOp, binary_op}
use ymd.Compiler.Expr.{parse_expr}
use ymd.Compiler.Grammar.{Word, Src, spell, Level, size, width, literals, Follows}
use ymd.Compiler.Emission.{reading}
use ymd.Compiler.Outcome.{HasSpace, Outcome}
use ymd.Compiler.ParseExpr.{following, Reads, Reads-parse_expr}
use ymd.Compiler.ParseExpr.Simple.{nil-Reads, true-Reads, false-Reads, literal-Reads, local-Reads}
use ymd.Compiler.ParseExpr.Nested.{parens-Reads, unary-Reads}
use ymd.Compiler.ParseExpr.Binary.{strict-Reads}
use ymd.Compiler.ParseExpr.Logic.{logic-Reads}

module _ (closure : Parser → Parse Parser) (scope : Chunk) where
  binary-Reads :
      (op : BinaryOp) (w : Word) (a b : Src)
      → Reads closure scope a
      → Reads closure scope b
      → Reads closure scope (Src.binary op w a b)
  binary-Reads BinaryOp.and_ w a b left right = logic-Reads closure scope true w a b left right
  binary-Reads BinaryOp.or_ w a b left right = logic-Reads closure scope false w a b left right
  binary-Reads BinaryOp.add w a b left right =
      strict-Reads closure scope BinaryOp.add w a b tt left right
  binary-Reads BinaryOp.sub w a b left right =
      strict-Reads closure scope BinaryOp.sub w a b tt left right
  binary-Reads BinaryOp.mul w a b left right =
      strict-Reads closure scope BinaryOp.mul w a b tt left right
  binary-Reads BinaryOp.div w a b left right =
      strict-Reads closure scope BinaryOp.div w a b tt left right
  binary-Reads BinaryOp.mod_ w a b left right =
      strict-Reads closure scope BinaryOp.mod_ w a b tt left right
  binary-Reads BinaryOp.eq w a b left right =
      strict-Reads closure scope BinaryOp.eq w a b tt left right
  binary-Reads BinaryOp.ne w a b left right =
      strict-Reads closure scope BinaryOp.ne w a b tt left right
  binary-Reads BinaryOp.match w a b left right =
      strict-Reads closure scope BinaryOp.match w a b tt left right
  binary-Reads BinaryOp.lt w a b left right =
      strict-Reads closure scope BinaryOp.lt w a b tt left right
  binary-Reads BinaryOp.le w a b left right =
      strict-Reads closure scope BinaryOp.le w a b tt left right
  binary-Reads BinaryOp.gt w a b left right =
      strict-Reads closure scope BinaryOp.gt w a b tt left right
  binary-Reads BinaryOp.ge w a b left right =
      strict-Reads closure scope BinaryOp.ge w a b tt left right

  src-Reads : (a : Src) → Reads closure scope a
  src-Reads (Src.nil_ w) = nil-Reads closure scope w
  src-Reads (Src.true_ w) = true-Reads closure scope w
  src-Reads (Src.false_ w) = false-Reads closure scope w
  src-Reads (Src.literal w v) = literal-Reads closure scope w v
  src-Reads (Src.local_ w i) = local-Reads closure scope w i
  src-Reads (Src.parens w a w') = parens-Reads closure scope w a w' (src-Reads a)
  src-Reads (Src.unary op w a) = unary-Reads closure scope op w a (src-Reads a)
  src-Reads (Src.binary op w a b) = binary-Reads op w a b (src-Reads a) (src-Reads b)

  -- On the tokens of an expression, followed by a token that does not go on with it, with room in
  -- the chunk and with a depth of recursion of at least its size, parse_expr reads these tokens
  -- and no more, and adds to the chunk the code of a tree that the expression denotes, with the
  -- constants that it needs; the constants and names that were there stay.
  pub parse_expr_lem :
      (a : Src) (m fuel : ℕ) (p : Parser) (rest : List Lexeme)
      → Level scope m a
      → size a ≤ fuel
      → Follows m (following rest p)
      → HasSpace scope (width a) (literals a) p.blk
      → (q : Parser) × Outcome a p.blk q.blk
        × (parse_expr closure (suc fuel) m (reading p (spell a rest))
            ≡ ok (binary_op (following rest p), reading q rest))
  parse_expr_lem a = Reads-parse_expr closure scope a (src-Reads a)
