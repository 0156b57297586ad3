-- ===== src/Compiler/ParseExpr/Nested.antt =====
-- compiler.c: parentheses and unary operators, which hold another expression.
use ymd.Common.{ℕ, zero, suc, ◌≡◌, ◌∙◌, refl, arith, Option, List, ◌∷◌}
use ymd.Lex.Chars.{tok}
use ymd.Chunk.{Chunk}
use ymd.Asm.{asm_build}
use ymd.Asm.Opcodes.{Op, op_code}
use ymd.Compiler.Emit.{Parse, ok, Lexeme, Parser}
use ymd.Compiler.Syntax.{BinaryOp, UnaryOp, prio_unary, unary_op, binary_op, ymk_unary}
use ymd.Compiler.Expr.{
  Expression, parse_operand, parse_simple, suffix_loop, parse_suffixed, parse_expr,
}
use ymd.Compiler.Tree.{unary_code}
use ymd.Compiler.Grammar.{
  Word, Src, lexeme, spell, unary_token, Level, size, width, literals, Follows,
}
use ymd.Compiler.Emission.{reading, emitted, emit_ofp_lem}
use ymd.Compiler.Outcome.{unary_outcome, parens_outcome}
use ymd.Compiler.ParseExpr.{spine, Follows-unary, space_mono, Reads, Reads-parse_expr}
use ymd.Compiler.ParseExpr.Simple.{onward, suffix_stops}

module _ (closure : Parser → Parse Parser) (scope : Chunk) where
  parens_operand :
      (expr : Expression) (fuel : ℕ) (p q : Parser) (w w' : Word) (ts rest : List Lexeme)
      (o : Option BinaryOp)
      → expr 0 (reading p ts) ≡ ok (o, reading q (lexeme (tok b')') w' ∷ rest))
      → parse_operand closure expr fuel (reading p (lexeme (tok b'(') w ∷ ts))
        ≡ suffix_loop expr fuel (reading q rest)
  unfolding parse_operand parse_simple unary_op parse_suffixed
  parens_operand expr fuel p q w w' ts rest o e = rw (e, parse_operand)

  closing : Follows 0 (tok b')')
  unfolding binary_op
  closing = record {
    not_dot = refl;
    not_bracket = refl;
    not_colon = refl;
    not_paren = refl;
    not_string = refl;
    weak = tt;
  }

  pub parens-Reads :
      (w : Word) (a : Src) (w' : Word)
      → Reads closure scope a
      → Reads closure scope (Src.parens w a w')
  unfolding spell spine size width literals Level
  parens-Reads w a w' reads k m zero n p rest level le enough follows space = absurd (omega arith)
  parens-Reads w a w' reads k m (suc fuel) n p rest level le enough follows space =
      let ts = lexeme (tok b')') w' ∷ rest in
      let (q, o, e) =
        Reads-parse_expr closure scope a reads 0 fuel p ts level (omega arith) closing space in
      (
        q,
        parens_outcome w w' a p.blk q.blk o,
        onward closure scope (suc fuel) n m (reading p (lexeme (tok b'(') w ∷ spell a ts))
            (reading q rest)
            (parens_operand (parse_expr closure (suc fuel)) (suc fuel) p q w w' (spell a ts) rest _
                e
              ∙ suffix_stops closure scope (parse_expr closure (suc fuel)) fuel (suc k)
                  (reading q rest) follows),
      )

  unary_operand :
      (op : UnaryOp) (expr : Expression) (fuel : ℕ) (p q : Parser) (w : Word) (ts : List Lexeme)
      (o : Option BinaryOp)
      → expr prio_unary (reading p ts) ≡ ok (o, q)
      → parse_operand closure expr fuel (reading p (lexeme (unary_token op) w ∷ ts))
        ≡ ymk_unary op q
  unfolding parse_operand unary_op unary_token
  unary_operand UnaryOp.mins expr fuel p q w ts o e = rw (e, parse_operand)
  unary_operand UnaryOp.not_ expr fuel p q w ts o e = rw (e, parse_operand)
  unary_operand UnaryOp.not_nil expr fuel p q w ts o e = rw (e, parse_operand)
  unary_operand UnaryOp.typeof expr fuel p q w ts o e = rw (e, parse_operand)

  ymk_unary_lem :
      (op : UnaryOp) (p : Parser)
      → ymk_unary op p ≡ ok (emitted p (asm_build (op_code (unary_code op)) 0 0))
  unfolding ymk_unary
  ymk_unary_lem UnaryOp.mins p = emit_ofp_lem p Op.inv 0 0 (omega arith) (omega arith)
  ymk_unary_lem UnaryOp.not_ p = emit_ofp_lem p Op.not 0 0 (omega arith) (omega arith)
  ymk_unary_lem UnaryOp.not_nil p = emit_ofp_lem p Op.not 0 0 (omega arith) (omega arith)
  ymk_unary_lem UnaryOp.typeof p = emit_ofp_lem p Op.typeof 0 0 (omega arith) (omega arith)

  pub unary-Reads :
      (op : UnaryOp) (w : Word) (a : Src)
      → Reads closure scope a
      → Reads closure scope (Src.unary op w a)
  unfolding spell spine size width literals Level
  unary-Reads op w a reads k m zero n p rest level le enough follows space = absurd (omega arith)
  unary-Reads op w a reads k m (suc fuel) n p rest level le enough follows space =
      let (q, o, e) =
        Reads-parse_expr closure scope a reads prio_unary fuel p rest level (omega arith)
          (Follows-unary follows) (space_mono (omega arith) (omega arith) space) in
      (
        emitted (reading q rest) (asm_build (op_code (unary_code op)) 0 0),
        unary_outcome op w a p.blk q.blk _ o,
        onward closure scope (suc fuel) n m (reading p (lexeme (unary_token op) w ∷ spell a rest)) _
            (unary_operand op (parse_expr closure (suc fuel)) (suc fuel) p (reading q rest) w
                (spell a rest) _ e
              ∙ ymk_unary_lem op (reading q rest)),
      )
