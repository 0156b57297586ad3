-- ===== src/Compiler/Lval.antt =====
-- compiler.c: the targets of assignments, and the statements that are an assignment or a call.
use ymd.Common.{ℕ, zero, suc, if◌then◌else◌, Bool, true, false, Option, none, some, List}
use ymd.Asm.Opcodes.{Op, f_stack}
use ymd.Lex.Chars.{tok, string_token}
use ymd.Compiler.Emit.{
  Parse, ok, failed, out_of_fuel, ◌>>=◌, Parser, ymc_peek, ymc_next, ymc_match, same_token,
  ymk_symbol, emit_ofp, ymk_emit_push, ymk_emit_getf, ymk_emit_setf, ymk_emit_store,
}
use ymd.Compiler.Expr.{Expression, drop_op, parse_callargs}

-- struct lval_desc: the last name goes with VSYMBOL and VDOT.
pub data Lval : Type 0 where
  symbol : List ℕ → Lval
  dot : List ℕ → Lval
  index : Lval
  call : Lval

unfoldable pub ymk_lval_partial : Parser → Lval → Parse Parser
unfolding ymk_emit_push emit_ofp ymk_emit_getf
ymk_lval_partial p (symbol last) = ymk_emit_push p last
ymk_lval_partial p (dot last) = ymk_emit_getf p last
ymk_lval_partial p index = emit_ofp p Op.getf f_stack 1
ymk_lval_partial p call = ok p

unfoldable pub ymk_lval_finish : Parser → Lval → Parse Parser
unfolding ymk_emit_store emit_ofp ymk_emit_setf
ymk_lval_finish p (symbol last) = ymk_emit_store p last
ymk_lval_finish p (dot last) = ymk_emit_setf p last
ymk_lval_finish p index = emit_ofp p Op.setf f_stack 1
ymk_lval_finish p call = failed

module _ (expr : Expression) where
  -- One suffix of a target; `none` where there is none.
  unfoldable pub lval_suffix : ℕ → Lval → Parser → Option (Parse (Lval × Parser))
  unfolding ymk_lval_partial ymc_match ymk_symbol parse_callargs same_token
  lval_suffix fuel desc p =
      if same_token (ymc_peek p) (tok b'.')
      then some (do q ← ymk_lval_partial p desc; (z, r) ← ymk_symbol (ymc_next q); ok (dot z, r))
      else if same_token (ymc_peek p) (tok b'[')
      then some (do
        q ← ymk_lval_partial p desc
        r ← drop_op (expr 0 (ymc_next q))
        r' ← ymc_match r (tok b']')
        ok (index, r'))
      else if same_token (ymc_peek p) (tok b':')
      then some (do
        q ← ymk_lval_partial p desc
        (z, r) ← ymk_symbol (ymc_next q)
        r' ← parse_callargs expr fuel 0 (some z) r
        ok (call, r'))
      else if same_token (ymc_peek p) (tok b'(')
      then some
          (do q ← ymk_lval_partial p desc; r ← parse_callargs expr fuel 0 none q; ok (call, r))
      else if same_token (ymc_peek p) string_token
      then some
          (do q ← ymk_lval_partial p desc; r ← parse_callargs expr fuel 0 none q; ok (call, r))
      else none

  unfoldable pub lval_loop : ℕ → Lval → Parser → Parse (Lval × Parser)
  unfolding lval_suffix
  lval_loop zero desc p = out_of_fuel
  lval_loop (suc fuel) desc p = elim (lval_suffix fuel desc p) [
    | none ↦ ok (desc, p)
    | some r ↦ r >>= λ (x : Lval × Parser). lval_loop fuel x.0 x.1
  ]

  unfoldable pub parse_lval : ℕ → Parser → Parse (Lval × Parser)
  unfolding lval_loop ymk_symbol
  parse_lval fuel p = do (z, q) ← ymk_symbol p; lval_loop fuel (symbol z) q

  abbrev is_call : Lval → Bool
  is_call call = true
  is_call _ = false

  unfoldable pub parse_expr_stat : ℕ → Parser → Parse Parser
  unfolding parse_lval ymk_lval_finish same_token
  parse_expr_stat fuel p = do
    (desc, q) ← parse_lval fuel p
    if same_token (ymc_peek q) (tok b'=')
        then (do r ← drop_op (expr 0 (ymc_next q)); ymk_lval_finish r desc)
        else if is_call desc
        then ok q
        else failed
