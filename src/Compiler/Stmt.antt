-- ===== src/Compiler/Stmt.antt =====
-- compiler.c: blocks, branches, loops and declarations. `stmt` stands for parse_stmt, `expr` for
-- parse_expr, and `decimal` for what snprintf writes for %d.
use ymd.Common.{ℕ, zero, suc, ◌+◌, ltb, if◌then◌else◌, true, false, List, [], ◌∷◌, ◌++◌, length}
use ymd.Asm.Opcodes.{Op, f_local}
use ymd.Lex.Chars.{Token, tok, symbol_token, codes}
use ymd.Compiler.Emit.{
  Parse, ok, failed, aborts, out_of_fuel, ◌>>=◌, Parser, ymc_peek, ymc_next, ymc_match, ymc_test,
  same_token, ymk_symbol, ymk_ipos, emit_ofp, ymk_emit_call, ymk_hold, ymk_hack_jmp, ymk_emit_push,
  ymk_emit_store, ymk_new_locvar,
}
use ymd.Compiler.Expr.{Expression, drop_op}
use ymd.Compiler.Loops.{ymk_loop_enter, ymk_loop_leave, set_loop}

abbrev pub var_token : Token
var_token = tok 145

abbrev pub else_token : Token
else_token = tok 151

abbrev pub elif_token : Token
elif_token = tok 152

abbrev pub in_token : Token
in_token = tok 159

module _ (stmt : Parser → Parse Parser) where
  -- while (ymc_peek(p) != '}') of parse_block.
  unfoldable pub block_loop : ℕ → Parser → Parse Parser
  unfolding same_token
  block_loop zero p = out_of_fuel
  block_loop (suc fuel) p =
      let more = (stmt p >>= block_loop fuel) in
      if same_token (ymc_peek p) (tok b'}') then ok p else more

  unfoldable pub parse_block : ℕ → Parser → Parse Parser
  unfolding block_loop ymc_match
  parse_block fuel p = do q ← ymc_match p (tok b'{'); r ← block_loop fuel q; ok (ymc_next r)

module _ (expr : Expression) where
  unfoldable pub parse_return : Parser → Parse Parser
  unfolding emit_ofp
  parse_return p = do q ← drop_op (expr 0 (ymc_next p)); emit_ofp q Op.ret 0 1

  unfoldable pub parse_decl : Parser → Parse Parser
  unfolding ymk_symbol ymk_new_locvar emit_ofp same_token
  parse_decl p = do
    (z, q) ← ymk_symbol p
    (i, r) ← ymk_new_locvar q z
    if same_token (ymc_peek r) (tok b'=')
        then (do r' ← drop_op (expr 0 (ymc_next r)); emit_ofp r' Op.store f_local i)
        else ok r

  -- while (ymc_test(p, ',')) parse_decl(p)
  unfoldable pub decl_loop : ℕ → Parser → Parse Parser
  unfolding parse_decl ymc_test
  decl_loop zero p = out_of_fuel
  decl_loop (suc fuel) p =
      let (again, q) = ymc_test p (tok b',') in
      elim again [ true ↦ parse_decl q >>= decl_loop fuel | false ↦ ok q ]

-- jout and nsub of parse_if, the latest entry first, and jnxt; jout has room for 128 entries.
pub record Branches : Type 0 where
  pub jnxt : ℕ
  pub jout : List ℕ
  pub nsub : ℕ

-- The end of a branch, with a jump out, and the condition before it, which goes on here.
unfoldable pub close_branch : Branches → Parser → Parse (Branches × Parser)
unfolding ymk_hold ymk_hack_jmp
close_branch b p =
    if ltb (length b.jout) 128
    then (do
      (i, q) ← ymk_hold (ymc_next p)
      r ← ymk_hack_jmp q b.jnxt Op.jne false
      ok (record b { jout = i ∷ b.jout; nsub = b.nsub + 1 }, r))
    else aborts

-- while (i--) ymk_hack_jmp(p, jout[i], I_JMP, 0)
unfoldable pub hack_out : List ℕ → Parser → Parse Parser
unfolding ymk_hack_jmp
hack_out [] p = ok p
hack_out (i ∷ jout) p = ymk_hack_jmp p i Op.jmp false >>= hack_out jout

module _ (stmt : Parser → Parse Parser) (expr : Expression) where
  -- A condition, held, and its block.
  unfoldable pub condition : ℕ → Parser → Parse (ℕ × Parser)
  unfolding parse_block ymk_hold
  condition fuel p = do
    q ← drop_op (expr 0 p)
    (jnxt, r) ← ymk_hold q
    r' ← parse_block stmt fuel r
    ok (jnxt, r')

  unfoldable pub elif_loop : ℕ → Branches → Parser → Parse (Branches × Parser)
  unfolding condition close_branch same_token
  elif_loop zero b p = out_of_fuel
  elif_loop (suc fuel) b p =
      let more = (do
        (b', q) ← close_branch b p
        (jnxt, r) ← condition fuel q
        elif_loop fuel (record b' { jnxt = jnxt }) r) in
      if same_token (ymc_peek p) elif_token then more else ok (b, p)

  -- The condition that is left is closed only where no branch came behind it.
  unfoldable pub parse_if : ℕ → Parser → Parse Parser
  unfolding condition elif_loop close_branch parse_block hack_out same_token ymk_hack_jmp
  parse_if fuel p = do
    (jnxt, q) ← condition fuel (ymc_next p)
    (b, r) ← elif_loop fuel (record { jnxt = jnxt; jout = []; nsub = 0 }) q
    (b', r') ←
        (if same_token (ymc_peek r) else_token
          then (do (c, s) ← close_branch b r; s' ← parse_block stmt fuel s; ok (c, s'))
          else ok (b, r))
    t ← hack_out b'.jout r'
    elim b'.nsub [ zero ↦ ymk_hack_jmp t b'.jnxt Op.jne false | suc n ↦ ok t ]

  module _ (decimal : ℕ → List ℕ) where
    -- The name of the hidden local that keeps the iterator.
    abbrev iter_name : ℕ → List ℕ
    iter_name n = codes "__loop_iter_" ++ decimal n ++ codes "__"

    -- From the name of the variable on, `in` and what follows up to the block.
    unfoldable pub for_head : List ℕ → Parser → Parse Parser
    unfolding ymc_match ymk_new_locvar emit_ofp ymk_emit_push ymk_emit_call ymk_hold ymk_emit_store
    for_head tmp p = do
      q ← ymc_match p in_token
      r ← drop_op (expr 0 q)
      let iter = iter_name r.for_id in
          do
            (n, r₁) ← ymk_new_locvar (record r { for_id = r.for_id + 1 }) iter
            r₂ ← emit_ofp r₁ Op.store f_local n
            r₃ ← set_loop r₂ (λ l. record l { i_retry = ymk_ipos r₂ })
            r₄ ← ymk_emit_push r₃ iter
            r₅ ← ymk_emit_call r₄ Op.call 1 0 0
            (j, r₆) ← ymk_hold r₅
            r₇ ← set_loop r₆ (λ l. record l { i_jcond = j })
            ymk_emit_store r₇ tmp

    unfoldable pub for_start : Parser → Parse Parser
    unfolding for_head ymk_symbol ymk_new_locvar same_token
    for_start p =
        if same_token (ymc_peek p) (tok b'{')
        then set_loop p (λ l. record l { death = true; i_retry = ymk_ipos p })
        else if same_token (ymc_peek p) var_token
        then (do (z, q) ← ymk_symbol (ymc_next p); (n, r) ← ymk_new_locvar q z; for_head z r)
        else if same_token (ymc_peek p) symbol_token
        then (do (z, q) ← ymk_symbol p; for_head z q)
        else failed

    unfoldable pub parse_for : ℕ → Parser → Parse Parser
    unfolding for_start parse_block ymk_loop_enter ymk_loop_leave
    parse_for fuel p = do
      q ← for_start (ymk_loop_enter (ymc_next p))
      r ← parse_block stmt fuel q
      ymk_loop_leave p.loop r
