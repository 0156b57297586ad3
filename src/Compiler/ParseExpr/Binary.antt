-- ===== src/Compiler/ParseExpr/Binary.antt =====
-- compiler.c: the loop of parse_expr on a binary operator.
use ymd.Common.{
  ℕ, zero, suc, ◌+◌, ◌-◌, ◌<◌, ◌≤◌, ◌≡◌, ◌∙◌, refl, sym, ap, arith, lt→ltb, Option, some, List, [],
  ◌∷◌, ◌++◌,
}
use mathlib.Core.List.{append_assoc}
use ymd.Chunk.{Chunk}
use ymd.Asm.Opcodes.{Op, f_eq, f_ne, f_gt, f_ge, f_lt, f_le, f_match}
use ymd.Compiler.Emit.{Parse, ok, Lexeme, Parser}
use ymd.Compiler.Syntax.{BinaryOp, prio, binary_op, ymk_hold_logc, ymk_binary}
use ymd.Compiler.Expr.{binary_loop, parse_expr}
use ymd.Compiler.Tree.{instruction, IsStrict, code}
use ymd.Compiler.Grammar.{
  Word, Src, lexeme, spell, binary_token, Level, size, width, literals, Follows,
}
use ymd.Compiler.Emission.{reading, emitted, emit_ofp_lem}
use ymd.Compiler.Outcome.{HasSpace, Outcome, space_left, strict_code, binary_outcome}
use ymd.Compiler.ParseExpr.{spine, Follows-mono, space_mono, loop, run, Reads, Reads-parse_expr}

binary_op-binary_token : (op : BinaryOp) → binary_op (binary_token op) ≡ some op
unfolding binary_op binary_token
binary_op-binary_token BinaryOp.add = refl
binary_op-binary_token _ = refl

-- An operator token goes on with no suffix.
operator-Follows : (op : BinaryOp) (m : ℕ) → prio op ≤ m → Follows m (binary_token op)
unfolding binary_op binary_token
operator-Follows BinaryOp.add m h = record {
  not_dot = refl;
  not_bracket = refl;
  not_colon = refl;
  not_paren = refl;
  not_string = refl;
  weak = h;
}
operator-Follows _ m h = record {
  not_dot = refl;
  not_bracket = refl;
  not_colon = refl;
  not_paren = refl;
  not_string = refl;
  weak = h;
}

Level-mono : (scope : Chunk) (a : Src) (k m : ℕ) → m ≤ k → Level scope k a → Level scope m a
unfolding Level
Level-mono scope (Src.binary op w a b) k m h (l, left, right) = (omega arith, left, right)
Level-mono scope (Src.literal w n) k m h l = l
Level-mono scope (Src.local_ w i) k m h l = l
Level-mono scope (Src.parens w a w') k m h l = l
Level-mono scope (Src.unary op w a) k m h l = l
Level-mono scope _ k m h l = tt

ymk_binary_lem :
    (op : BinaryOp) (i : ℕ) (p : Parser)
    → IsStrict op
    → ymk_binary op i p ≡ ok (emitted p (instruction op))
unfolding ymk_binary
ymk_binary_lem BinaryOp.add i p h = emit_ofp_lem p Op.add 0 0 (omega arith) (omega arith)
ymk_binary_lem BinaryOp.sub i p h = emit_ofp_lem p Op.sub 0 0 (omega arith) (omega arith)
ymk_binary_lem BinaryOp.mul i p h = emit_ofp_lem p Op.mul 0 0 (omega arith) (omega arith)
ymk_binary_lem BinaryOp.div i p h = emit_ofp_lem p Op.div 0 0 (omega arith) (omega arith)
ymk_binary_lem BinaryOp.mod_ i p h = emit_ofp_lem p Op.mod_ 0 0 (omega arith) (omega arith)
ymk_binary_lem BinaryOp.eq i p h = emit_ofp_lem p Op.test f_eq 0 (omega arith) (omega arith)
ymk_binary_lem BinaryOp.ne i p h = emit_ofp_lem p Op.test f_ne 0 (omega arith) (omega arith)
ymk_binary_lem BinaryOp.match i p h = emit_ofp_lem p Op.test f_match 0 (omega arith) (omega arith)
ymk_binary_lem BinaryOp.lt i p h = emit_ofp_lem p Op.test f_lt 0 (omega arith) (omega arith)
ymk_binary_lem BinaryOp.le i p h = emit_ofp_lem p Op.test f_le 0 (omega arith) (omega arith)
ymk_binary_lem BinaryOp.gt i p h = emit_ofp_lem p Op.test f_gt 0 (omega arith) (omega arith)
ymk_binary_lem BinaryOp.ge i p h = emit_ofp_lem p Op.test f_ge 0 (omega arith) (omega arith)
ymk_binary_lem BinaryOp.and_ i p h = absurd h
ymk_binary_lem BinaryOp.or_ i p h = absurd h

hold_strict : (op : BinaryOp) (p : Parser) → IsStrict op → ymk_hold_logc op p ≡ ok (0, p)
unfolding ymk_hold_logc
hold_strict BinaryOp.and_ p h = absurd h
hold_strict BinaryOp.or_ p h = absurd h
hold_strict _ p h = refl

module _ (closure : Parser → Parse Parser) (scope : Chunk) where
  -- A round of the loop: what is held in front of the second operand, the operand, and what is emitted
  -- behind it.
  pub round :
      (op : BinaryOp) (fuel n m i : ℕ) (p h r q : Parser) (w : Word) (ts : List Lexeme)
      (o : Option BinaryOp)
      → m < prio op
      → ymk_hold_logc op (reading p ts) ≡ ok (i, h)
      → parse_expr closure fuel (prio op) h ≡ ok (o, r)
      → ymk_binary op i r ≡ ok q
      → loop closure scope fuel (suc n) (some op) m (reading p (lexeme (binary_token op) w ∷ ts))
        ≡ loop closure scope fuel n o m q
  unfolding binary_loop
  round op fuel n m i p h r q w ts o above held parsed made =
      rw (lt→ltb m (prio op) above, held, parsed, made, binary_loop)

  -- The first operand, up to the operator behind it.
  pub upto :
      (op : BinaryOp) (w : Word) (a b : Src)
      → Reads closure scope a
      → (k m fuel n : ℕ) (p : Parser) (rest : List Lexeme) → Level scope k (Src.binary op w a b)
      → m ≤ k
      → size a ≤ fuel
      → HasSpace scope (width a) (literals a) p.blk
      → (q : Parser) × Outcome a p.blk q.blk
        × (run closure scope fuel
              (spine (Src.binary op w a b) + suc n)
              m
              (reading p (spell (Src.binary op w a b) rest))
            ≡ loop closure scope fuel
                (suc (suc n))
                (some op)
                m
                (reading q (lexeme (binary_token op) w ∷ spell b rest)))
  unfolding spine Level spell
  upto op w a b reads k m fuel n p rest (above, left, right) le enough space =
      let ts : List Lexeme = lexeme (binary_token op) w ∷ spell b rest in
      let (q, o, e) =
        reads (prio op - 1) m fuel (suc n) p ts left (omega arith) enough
          (operator-Follows op (suc (prio op - 1)) (omega arith)) space in
      (
        q,
        o,
        ap (λ (i : ℕ). run closure scope fuel i m (reading p (spell a ts)))
              {x = spine a + 1 + suc n} {y = spine a + suc (suc n)} (omega arith)
            ∙ e
            ∙ ap (λ (r : Option BinaryOp). loop closure scope fuel (suc (suc n)) r m (reading q ts))
                (binary_op-binary_token op),
      )

  pub strict-Reads :
      (op : BinaryOp) (w : Word) (a b : Src)
      → IsStrict op
      → Reads closure scope a
      → Reads closure scope b
      → Reads closure scope (Src.binary op w a b)
  unfolding size width literals Level
  strict-Reads op w a b strict left right k m zero n p rest level le enough follows space =
      absurd (omega arith)
  strict-Reads op w a b strict left right k m (suc fuel) n p rest level le enough follows space =
      let (q₁, o₁, e₁) =
        upto op w a b left k m (suc fuel) n p rest level le (omega arith)
          (space_mono (omega arith) (omega arith) space) in
      let space₁ =
        space_left (width b) (literals b) (space_mono (omega arith) (omega arith) space) o₁ in
      let (q₂, o₂, e₂) =
        Reads-parse_expr closure scope b right (prio op) fuel q₁ rest level.2 (omega arith)
          (Follows-mono (omega (arith, level.0)) follows) space₁ in
      let q : Parser = emitted (reading q₂ rest) (instruction op) in
      (
        q,
        binary_outcome op w a b p.blk q₁.blk q₁.blk q₂.blk q.blk o₁ refl o₂ refl
            (omega (arith, space.instructions))
            (ap (λ (c : List ℕ). c ++ instruction op ∷ [])
                (o₂.inst
                  ∙ ap (λ (c : List ℕ). c ++ code o₂.tree) o₁.inst
                  ∙ append_assoc p.blk.inst (code o₁.tree) (code o₂.tree))
              ∙ append_assoc p.blk.inst (code o₁.tree ++ code o₂.tree) (instruction op ∷ [])
              ∙ ap (λ (c : List ℕ). p.blk.inst ++ c)
                  (sym (strict_code op (code o₁.tree) (code o₂.tree) strict))),
        e₁
            ∙ round op (suc fuel) (suc n) m 0 q₁ (reading q₁ (spell b rest)) (reading q₂ rest) q w
                (spell b rest) _ (omega (arith, level.0))
                (hold_strict op (reading q₁ (spell b rest)) strict) e₂
                (ymk_binary_lem op 0 (reading q₂ rest) strict),
      )
