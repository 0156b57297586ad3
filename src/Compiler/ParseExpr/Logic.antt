-- ===== src/Compiler/ParseExpr/Logic.antt =====
-- compiler.c: the loop of parse_expr on `and` and `or`, whose jump is held in front of the second
-- operand.
use ymd.Common.{
  ℕ, zero, suc, ◌+◌, ◌^◌, ◌<◌, ◌≡◌, ◌∙◌, refl, sym, ap, arith, Bool, true, false, List, [], ◌∷◌,
  ◌++◌, length, length-append,
}
use mathlib.Core.List.{append_assoc}
use ymd.Chunk.{Chunk}
use ymd.Asm.{asm_build}
use ymd.Asm.Opcodes.{Op, op_code}
use ymd.Compiler.Emit.{Parse, ok, Parser}
use ymd.Compiler.Syntax.{BinaryOp, prio, ymk_hold_logc, ymk_binary}
use ymd.Compiler.Tree.{binary_code, code}
use ymd.Compiler.Jumps.{jump_op}
use ymd.Compiler.Grammar.{Word, Src, spell, Level, size, width, literals}
use ymd.Compiler.Emission.{reading, emitted, hacked, ymk_hold_lem, ymk_hack_jmp_lem}
use ymd.Compiler.Outcome.{space_left, binary_outcome}
use ymd.Compiler.ParseExpr.{Follows-mono, space_mono, Reads, Reads-parse_expr}
use ymd.Compiler.ParseExpr.Binary.{round, upto}

module _ (closure : Parser → Parse Parser) (scope : Chunk) where
  -- `and` is the operator that stays at a true value, `or` the one that stays at a false one.
  abbrev pub logic_op : Bool → BinaryOp
  logic_op true = BinaryOp.and_
  logic_op false = BinaryOp.or_

  hold_logic :
      (stay : Bool) (p : Parser)
      → length p.blk.inst < 2 ^ 16
      → ymk_hold_logc (logic_op stay) p
        ≡ ok (length p.blk.inst, emitted p (asm_build (op_code Op.panic) 0 0))
  unfolding ymk_hold_logc
  hold_logic true p h = ymk_hold_lem p h
  hold_logic false p h = ymk_hold_lem p h

  hack_logic :
      (stay : Bool) (p : Parser) (c d : List ℕ) (x : ℕ)
      → p.blk.inst ≡ c ++ x ∷ d
      → length d + 1 < 2 ^ 16
      → ymk_binary (logic_op stay) (length c) p
        ≡ ok (hacked p (c ++ asm_build (op_code (jump_op stay)) 0 (length d + 1) ∷ d))
  unfolding ymk_binary
  hack_logic true p c d x e h = ymk_hack_jmp_lem p Op.jnt c d x e h
  hack_logic false p c d x e h = ymk_hack_jmp_lem p Op.jnn c d x e h

  logic_code :
      (stay : Bool) (c d : List ℕ)
      → binary_code (logic_op stay) c d
        ≡ c ++ asm_build (op_code (jump_op stay)) 0 (length d + 1) ∷ d
  logic_code true c d = refl
  logic_code false c d = refl

  pub logic-Reads :
      (stay : Bool) (w : Word) (a b : Src)
      → Reads closure scope a
      → Reads closure scope b
      → Reads closure scope (Src.binary (logic_op stay) w a b)
  unfolding size width literals Level
  logic-Reads stay w a b left right k m zero n p rest level le enough follows space =
      absurd (omega arith)
  logic-Reads stay w a b left right k m (suc fuel) n p rest level le enough follows space =
      let op : BinaryOp = logic_op stay in
      let (q₁, o₁, e₁) =
        upto closure scope op w a b left k m (suc fuel) n p rest level le (omega arith)
          (space_mono (omega arith) (omega arith) space) in
      let space₁ =
        space_left {a = a} (width b + 1) (literals b) (space_mono (omega arith) (omega arith) space)
          o₁ in
      let panic : ℕ = asm_build (op_code Op.panic) 0 0 in
      let held : Parser = emitted (reading q₁ (spell b rest)) panic in
      let (q₂, o₂, e₂) =
        Reads-parse_expr closure scope b right (prio op) fuel held rest level.2 (omega arith)
          (Follows-mono (omega (arith, level.0)) follows)
          (record {
            counted = space₁.counted;
            constants = space₁.constants;
            instructions =
                omega (arith, space₁.instructions, length-append q₁.blk.inst (panic ∷ []));
            in_scope = space₁.in_scope;
          }) in
      let jump : ℕ = asm_build (op_code (jump_op stay)) 0 (length (code o₂.tree) + 1) in
      let q : Parser = hacked (reading q₂ rest) (q₁.blk.inst ++ jump ∷ code o₂.tree) in
      (
        q,
        binary_outcome op w a b p.blk q₁.blk held.blk q₂.blk q.blk o₁ refl o₂ refl
            (omega (arith, space.instructions))
            (ap (λ (c : List ℕ). c ++ jump ∷ code o₂.tree) o₁.inst
              ∙ append_assoc p.blk.inst (code o₁.tree) (jump ∷ code o₂.tree)
              ∙ ap (λ (c : List ℕ). p.blk.inst ++ c)
                  (sym (logic_code stay (code o₁.tree) (code o₂.tree)))),
        e₁
            ∙ round closure scope op (suc fuel) (suc n) m (length q₁.blk.inst) q₁ held
                (reading q₂ rest) q w (spell b rest) _ (omega (arith, level.0))
                (hold_logic stay (reading q₁ (spell b rest)) (omega (arith, space₁.instructions)))
                e₂
                (hack_logic stay (reading q₂ rest) q₁.blk.inst (code o₂.tree) panic
                  (o₂.inst ∙ append_assoc q₁.blk.inst (panic ∷ []) (code o₂.tree))
                  (omega (arith, o₂.size, space.instructions))),
      )
