-- ===== src/Compiler/ParseExpr.antt =====
-- compiler.c: parse_expr on the tokens of an expression. It reads all of them and no more, and emits
-- the code of the expression.
pub mod Simple
pub mod Nested
pub mod Binary
pub mod Logic
pub mod Whole
use ymd.Common.{
  ℕ, zero, suc, ◌+◌, ◌-◌, ◌^◌, ◌<◌, ◌≤◌, ◌≡◌, ◌∙◌, refl, sym, ap, arith, ltb, Bool, true, false,
  Option, none, some, List, [], ◌∷◌, ◌++◌, length,
}
use ymd.Lex.Chars.{Token, tok, dec_token}
use ymd.Chunk.{Chunk}
use ymd.Asm.{asm_build}
use ymd.Asm.Opcodes.{Op, op_code, f_nil, f_bool, f_kval}
use ymd.Compiler.Emit.{Parse, ok, ◌>>=◌, Lexeme, Parser, ymc_peek, ymc_next, emit_ofp}
use ymd.Compiler.Syntax.{BinaryOp, UnaryOp, prio, prio_unary, unary_op, binary_op, ymk_unary}
use ymd.Compiler.Expr.{Expression, parse_operand, parse_simple, binary_loop, parse_expr}
use ymd.Compiler.Tree.{unary_code}
use ymd.Compiler.Grammar.{
  Word, Src, lexeme, spell, unary_token, binary_token, Level, size, width, literals, Weak, Follows,
}
use ymd.Compiler.Emission.{reading, emitted, emit_ofp_lem}
use ymd.Compiler.Outcome.{HasSpace, Outcome, leaf_outcome, unary_outcome}

-- The rounds of the loop that the operators on the left of an expression take.
unfoldable pub spine : Src → ℕ
spine (Src.binary op w a b) = spine a + 1
spine _ = 0

pub spine_lt : (a : Src) → spine a < size a
unfolding spine size
spine_lt (Src.binary op w a b) = omega (arith, spine_lt a)
spine_lt (Src.parens w a w') = omega arith
spine_lt (Src.unary op w a) = omega arith
spine_lt _ = omega arith

abbrev pub following : List Lexeme → Parser → Token
following ts p = ymc_peek (reading p ts)

pub prio_lt : (op : BinaryOp) → (0 < prio op) × (prio op < 8)
unfolding prio
prio_lt BinaryOp.add = (omega arith, omega arith)
prio_lt _ = (omega arith, omega arith)

weaken : {m n : ℕ} (o : Option BinaryOp) → m ≤ n → Weak m o → Weak n o
weaken none h w = tt
weaken (some op) h w = omega (arith, h, w)

pub Follows-mono : {m n : ℕ} {t : Token} → m ≤ n → Follows m t → Follows n t
Follows-mono {t = t} h f = record {
  not_dot = f.not_dot;
  not_bracket = f.not_bracket;
  not_colon = f.not_colon;
  not_paren = f.not_paren;
  not_string = f.not_string;
  weak = weaken (binary_op t) h f.weak;
}

Weak-unary : (o : Option BinaryOp) → Weak prio_unary o
Weak-unary none = tt
Weak-unary (some op) = omega (arith, (prio_lt op).1)

pub Follows-unary : {m : ℕ} {t : Token} → Follows m t → Follows prio_unary t
Follows-unary {t = t} f = record {
  not_dot = f.not_dot;
  not_bracket = f.not_bracket;
  not_colon = f.not_colon;
  not_paren = f.not_paren;
  not_string = f.not_string;
  weak = Weak-unary (binary_op t);
}

pub space_mono :
    {n k n' k' : ℕ} {scope core : Chunk}
    → n' ≤ n
    → k' ≤ k
    → HasSpace scope n k core
    → HasSpace scope n' k' core
space_mono hn hk s = record {
  counted = s.counted;
  constants = omega (arith, s.constants, hk);
  instructions = omega (arith, s.instructions, hn);
  in_scope = s.in_scope;
}

module _ (closure : Parser → Parse Parser) (scope : Chunk) where
  abbrev pub loop : ℕ → ℕ → Option BinaryOp → ℕ → Parser → Parse (Option BinaryOp × Parser)
  loop fuel = binary_loop closure (parse_expr closure fuel)

  -- An operand, and `n` rounds of the loop behind it.
  abbrev pub run : ℕ → ℕ → ℕ → Parser → Parse (Option BinaryOp × Parser)
  run fuel n m p = parse_operand closure (parse_expr closure fuel) fuel p >>= λ (q : Parser).
      loop fuel n (binary_op (ymc_peek q)) m q

  -- The parser reads the expression up to the operators that follow it.
  abbrev pub Reads : Src → Type 0
  Reads a =
      (k m fuel n : ℕ) (p : Parser) (rest : List Lexeme)
      → Level scope k a
      → m ≤ k
      → size a ≤ fuel
      → Follows (suc k) (following rest p)
      → HasSpace scope (width a) (literals a) p.blk
      → (q : Parser) × Outcome a p.blk q.blk
        × (run fuel (spine a + suc n) m (reading p (spell a rest))
            ≡ loop fuel (suc n) (binary_op (following rest p)) m (reading q rest))

  loop_stops :
      (fuel n m : ℕ) (o : Option BinaryOp) (p : Parser)
      → Weak m o
      → loop fuel (suc n) o m p ≡ ok (o, p)
  unfolding binary_loop
  loop_stops fuel n m none p w = refl
  loop_stops fuel n m (some op) p w = ground (arith, w)

  -- The whole of parse_expr.
  pub Reads-parse_expr :
      (a : Src)
      → Reads a
      → (m fuel : ℕ) (p : Parser) (rest : List Lexeme) → Level scope m a
      → size a ≤ fuel
      → Follows m (following rest p)
      → HasSpace scope (width a) (literals a) p.blk
      → (q : Parser) × Outcome a p.blk q.blk
        × (parse_expr closure (suc fuel) m (reading p (spell a rest))
            ≡ ok (binary_op (following rest p), reading q rest))
  unfolding parse_expr
  Reads-parse_expr a reads m fuel p rest level enough follows space =
      let n : ℕ = fuel - spine a - 1 in
      let (q, o, e) =
        reads m m fuel n p rest level (omega arith) enough (Follows-mono (omega arith) follows)
          space in
      (
        q,
        o,
        ap (λ (i : ℕ). run fuel i m (reading p (spell a rest))) {x = fuel} {y = spine a + suc n}
              (omega (arith, spine_lt a))
            ∙ e
            ∙ loop_stops fuel n m (binary_op (following rest p)) (reading q rest) follows.weak,
      )
