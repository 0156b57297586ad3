-- ===== src/Compiler/Program.antt =====
-- compiler.c: parse_stmt, which ties the parsers together, and ymc_compile.
use ymd.Common.{ℕ, zero, suc, if◌then◌else◌, true, false, List}
use ymd.Lex.Chars.{Token, eos, tok}
use ymd.Compiler.Emit.{Parse, ok, out_of_fuel, ◌>>=◌, Parser, ymc_peek, ymc_next, same_token}
use ymd.Compiler.Syntax.{func_token}
use ymd.Compiler.Expr.{parse_expr}
use ymd.Compiler.Lval.{parse_expr_stat}
use ymd.Compiler.Loops.{parse_break, parse_continue, ymk_emit_end}
use ymd.Compiler.Stmt.{var_token, parse_return, parse_decl, decl_loop, parse_if, parse_for}
use ymd.Compiler.Function.{ymk_chunk_reserved, parse_func, parse_closure}

abbrev pub if_token : Token
if_token = tok 150

abbrev pub with_token : Token
with_token = tok 153

abbrev pub for_token : Token
for_token = tok 154

abbrev pub return_token : Token
return_token = tok 155

abbrev pub break_token : Token
break_token = tok 156

abbrev pub continue_token : Token
continue_token = tok 157

module _ (stmt : Parser → Parse Parser) where
  unfoldable pub parse_local : ℕ → Parser → (ℕ → Parser → Parse Parser) → Parse Parser
  unfolding parse_func same_token
  parse_local fuel p decls =
      let q = ymc_next p in
      if same_token (ymc_peek q) func_token then parse_func stmt fuel true q else decls fuel q

module _ (decimal : ℕ → List ℕ) where
  -- The switch of parse_stmt. `with` has no parser, and is not passed over.
  unfoldable pub parse_stmt : ℕ → Parser → Parse Parser
  unfolding parse_if parse_for parse_func parse_local parse_return parse_decl decl_loop parse_break
      parse_continue parse_expr_stat parse_expr parse_closure same_token
  parse_stmt zero p = out_of_fuel
  parse_stmt (suc fuel) p =
      let stmt = parse_stmt fuel in
      let expr = parse_expr (parse_closure stmt decimal fuel) fuel in
      let t = ymc_peek p in
      if same_token t (tok b';')
      then ok (ymc_next p)
      else if same_token t if_token
      then parse_if stmt expr fuel p
      else if same_token t with_token
      then ok p
      else if same_token t for_token
      then parse_for stmt expr decimal fuel p
      else if same_token t func_token
      then parse_func stmt fuel false p
      else if same_token t var_token
      then parse_local stmt fuel p (λ n q. parse_decl expr q >>= decl_loop expr n)
      else if same_token t return_token
      then parse_return expr p
      else if same_token t break_token
      then (parse_break p >>= λ q. ok (ymc_next q))
      else if same_token t continue_token
      then (parse_continue p >>= λ q. ok (ymc_next q))
      else parse_expr_stat expr fuel p

  -- while (ymc_peek(p) != EOS)
  unfoldable pub program_loop : ℕ → Parser → Parse Parser
  unfolding parse_stmt
  program_loop zero p = out_of_fuel
  program_loop (suc fuel) p =
      let more = (parse_stmt (suc fuel) p >>= program_loop fuel) in
      if same_token (ymc_peek p) eos then ok p else more

  -- ymc_compile, whose result -1 is a failure.
  unfoldable pub ymc_compile : ℕ → Parser → Parse Parser
  unfolding ymk_chunk_reserved program_loop ymk_emit_end
  ymc_compile fuel p = program_loop fuel (ymk_chunk_reserved p) >>= ymk_emit_end
