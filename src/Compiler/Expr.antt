-- ===== src/Compiler/Expr.antt =====
-- compiler.c: the parser of expressions, which emits code as it reads. `expr` stands for parse_expr
-- and `closure` for parse_closure in the functions that call them; the loops and the recursion of
-- parse_expr take fuel.
use ymd.Common.{ℕ, zero, suc, ◌+◌, ltb, if◌then◌else◌, Bool, true, false, Option, none, some, List}
use ymd.Asm.Opcodes.{Op, f_bool, f_nil, f_stack}
use ymd.Encoding.Literal.{Checked, returns, aborts, dtoll, xtoll}
use ymd.Lex.Chars.{tok, string_token, hex_token, dec_token, symbol_token, skls_token}
use ymd.Vm.Arith.{signed}
use ymd.Compiler.Emit.{
  Parse, ok, failed, out_of_fuel, ◌>>=◌, or_abort, Parser, ymc_peek, ymc_next, ymc_test, ymc_match,
  same_token, ymk_literal, ymk_symbol, emit_ofp, ymk_emit_call, ymk_emit_int, ymk_emit_kz,
  ymk_emit_push, ymk_emit_pushz, ymk_emit_getf, ymk_emit_selfcall,
}
use ymd.Compiler.Syntax.{
  func_token, BinaryOp, prio, prio_unary, unary_op, binary_op, ymk_unary, ymk_hold_logc, ymk_binary,
}

-- parse_expr with its operator, which the other functions do not read.
abbrev pub Expression : Type 0
Expression = ℕ → Parser → Parse (Option BinaryOp × Parser)

abbrev pub drop_op : Parse (Option BinaryOp × Parser) → Parse Parser
drop_op r = r >>= λ (o : Option BinaryOp × Parser). ok o.1

module _ (expr : Expression) where
  -- do ... while (ymc_test(p, ',')) of parse_array, with the elements counted so far.
  unfoldable pub array_loop : ℕ → ℕ → Parser → Parse (ℕ × Parser)
  unfolding same_token ymc_test
  array_loop zero count p = out_of_fuel
  array_loop (suc fuel) count p =
      let more = (do
        p' ← drop_op (expr 0 p)
        let (again, q) = ymc_test p' (tok b',') in
            elim again [ true ↦ array_loop fuel (count + 1) q | false ↦ ok (count + 1, q) ]) in
      if same_token (ymc_peek p) (tok b']') then ok (count, p) else more

  unfoldable pub parse_array : ℕ → Parser → Parse Parser
  unfolding array_loop ymc_match emit_ofp
  parse_array fuel p = do
    p' ← ymc_match p (tok b'[')
    (count, q) ← array_loop fuel 0 p'
    emit_ofp q Op.newdya 0 count

  -- The key and the value of an entry of a map.
  unfoldable pub parse_entry : Parser → Parse Parser
  unfolding same_token ymc_match ymk_symbol ymk_emit_pushz ymk_emit_kz
  parse_entry p =
      if same_token (ymc_peek p) symbol_token
      then (do
        (z, p') ← ymk_symbol p
        q ← ymk_emit_pushz p' z
        r ← ymc_match q (tok b':')
        drop_op (expr 0 r))
      else if same_token (ymc_peek p) string_token
      then (do
        q ← ymk_emit_kz p (ymk_literal p)
        r ← ymc_match (ymc_next q) (tok b':')
        drop_op (expr 0 r))
      else (do
        p' ← ymc_match p (tok b'[')
        q ← drop_op (expr 0 p')
        r ← ymc_match q (tok b']')
        r' ← ymc_match r (tok b'=')
        drop_op (expr 0 r'))

  unfoldable pub map_loop : ℕ → ℕ → Parser → Parse (ℕ × Parser)
  unfolding parse_entry ymc_test
  map_loop zero count p = out_of_fuel
  map_loop (suc fuel) count p =
      let more = (do
        p' ← parse_entry p
        let (again, q) = ymc_test p' (tok b',') in
            elim again [ true ↦ map_loop fuel (count + 1) q | false ↦ ok (count + 1, q) ]) in
      if same_token (ymc_peek p) (tok b'}') then ok (count, p) else more

  unfoldable pub parse_map : ℕ → Bool → Parser → Parse Parser
  unfolding map_loop ymc_match emit_ofp
  parse_map fuel ord p = do
    p' ← ymc_match p (if ord then skls_token else tok b'{')
    (count, q) ← map_loop fuel 0 p'
    emit_ofp q (if ord then Op.newskl else Op.newmap) 0 count

  -- while (ymc_test(p, ',')) of parse_args.
  unfoldable pub args_loop : ℕ → ℕ → Parser → Parse (ℕ × Parser)
  unfolding ymc_test
  args_loop zero nargs p = out_of_fuel
  args_loop (suc fuel) nargs p =
      let (again, q) = ymc_test p (tok b',') in
      elim again [
        | true ↦ drop_op (expr 0 q) >>= args_loop fuel (nargs + 1)
        | false ↦ ok (nargs, q)
      ]

  unfoldable pub parse_args : ℕ → Parser → Parse (ℕ × Parser)
  unfolding args_loop
  parse_args fuel p = do p' ← drop_op (expr 0 p); args_loop fuel 1 p'

  -- parse_callargs up to the label `out`: the number of arguments.
  unfoldable pub call_args : ℕ → Parser → Parse (ℕ × Parser)
  unfolding parse_args ymc_match ymk_emit_kz same_token
  call_args fuel p =
      if same_token (ymc_peek p) (tok b'(')
      then (let q = ymc_next p in
          if same_token (ymc_peek q) (tok b')')
          then ok (0, ymc_next q)
          else (do (n, r) ← parse_args fuel q; r' ← ymc_match r (tok b')'); ok (n, r')))
      else if same_token (ymc_peek p) string_token
      then (do q ← ymk_emit_kz p (ymk_literal p); ok (1, ymc_next q))
      else failed

  -- `method` is none for NULL.
  unfoldable pub parse_callargs : ℕ → ℕ → Option (List ℕ) → Parser → Parse Parser
  unfolding call_args ymk_emit_call ymk_emit_selfcall
  parse_callargs fuel adjust method p = do
    (nargs, q) ← call_args fuel p
    elim method [
      | none ↦ ymk_emit_call q Op.call adjust nargs 0
      | some name ↦ ymk_emit_selfcall q adjust nargs name
    ]

  unfoldable pub parse_primary : Parser → Parse Parser
  unfolding ymc_match ymk_symbol ymk_emit_push same_token
  parse_primary p =
      if same_token (ymc_peek p) (tok b'(')
      then (do q ← drop_op (expr 0 (ymc_next p)); ymc_match q (tok b')'))
      else if same_token (ymc_peek p) symbol_token
      then (do (z, q) ← ymk_symbol p; ymk_emit_push q z)
      else failed

  -- One suffix; `none` where there is none.
  unfoldable pub parse_suffix : ℕ → Parser → Option (Parse Parser)
  unfolding ymc_match ymk_symbol ymk_emit_getf emit_ofp parse_callargs same_token
  parse_suffix fuel p =
      if same_token (ymc_peek p) (tok b'.')
      then some (do (z, q) ← ymk_symbol (ymc_next p); ymk_emit_getf q z)
      else if same_token (ymc_peek p) (tok b'[')
      then some (do
        q ← drop_op (expr 0 (ymc_next p))
        r ← ymc_match q (tok b']')
        emit_ofp r Op.getf f_stack 1)
      else if same_token (ymc_peek p) (tok b':')
      then some (do (z, q) ← ymk_symbol (ymc_next p); parse_callargs fuel 1 (some z) q)
      else if same_token (ymc_peek p) (tok b'(')
      then some (parse_callargs fuel 1 none p)
      else if same_token (ymc_peek p) string_token
      then some (parse_callargs fuel 1 none p)
      else none

  unfoldable pub suffix_loop : ℕ → Parser → Parse Parser
  unfolding parse_suffix
  suffix_loop zero p = out_of_fuel
  suffix_loop (suc fuel) p = elim (parse_suffix fuel p) [
    | none ↦ ok p
    | some r ↦ r >>= suffix_loop fuel
  ]

  unfoldable pub parse_suffixed : ℕ → Parser → Parse Parser
  unfolding parse_primary suffix_loop
  parse_suffixed fuel p = parse_primary p >>= suffix_loop fuel

abbrev of_checked : Checked (Option ℕ) → Parse ℕ
of_checked (returns r) = or_abort r
of_checked aborts = Parse.aborts

module _ (closure : Parser → Parse Parser) (expr : Expression) where
  unfoldable pub parse_simple : ℕ → Parser → Parse Parser
  unfolding emit_ofp ymk_emit_int ymk_emit_kz parse_map parse_array parse_suffixed same_token
  parse_simple fuel p =
      let next : Parse Parser → Parse Parser = λ r. r >>= λ q. ok (ymc_next q) in
      let t = ymc_peek p in
      if same_token t (tok 128)
      then next (emit_ofp p Op.push f_nil 0)
      else if same_token t (tok 129)
      then next (emit_ofp p Op.push f_bool 1)
      else if same_token t (tok 130)
      then next (emit_ofp p Op.push f_bool 0)
      else if same_token t dec_token
      then next (or_abort (dtoll (ymk_literal p)) >>= λ w. ymk_emit_int p (signed w))
      else if same_token t hex_token
      then next (of_checked (xtoll (ymk_literal p)) >>= λ w. ymk_emit_int p (signed w))
      else if same_token t string_token
      then next (ymk_emit_kz p (ymk_literal p))
      else if same_token t (tok b'{')
      then next (parse_map expr fuel false p)
      else if same_token t skls_token
      then next (parse_map expr fuel true p)
      else if same_token t (tok b'[')
      then next (parse_array expr fuel p)
      else if same_token t func_token
      then closure p
      else parse_suffixed expr fuel p

  -- The first operand of parse_expr.
  unfoldable pub parse_operand : ℕ → Parser → Parse Parser
  unfolding ymk_unary parse_simple
  parse_operand fuel p = elim (unary_op (ymc_peek p)) [
    | some op ↦ drop_op (expr prio_unary (ymc_next p)) >>= ymk_unary op
    | none ↦ parse_simple fuel p
  ]

  -- The loop over the binary operators of a priority above `limit`.
  unfoldable pub binary_loop : ℕ → Option BinaryOp → ℕ → Parser → Parse (Option BinaryOp × Parser)
  unfolding ymk_binary ymk_hold_logc prio
  binary_loop zero op limit p = out_of_fuel
  binary_loop (suc fuel) none limit p = ok (none, p)
  binary_loop (suc fuel) (some op) limit p =
      let more = (do
        (i, q) ← ymk_hold_logc op (ymc_next p)
        (next_op, r) ← expr (prio op) q
        r' ← ymk_binary op i r
        binary_loop fuel next_op limit r') in
      if ltb limit (prio op) then more else ok (some op, p)

module _ (closure : Parser → Parse Parser) where
  unfoldable pub parse_expr : ℕ → Expression
  unfolding parse_operand binary_loop binary_op
  parse_expr zero limit p = out_of_fuel
  parse_expr (suc fuel) limit p = do
    q ← parse_operand closure (parse_expr fuel) fuel p
    binary_loop closure (parse_expr fuel) fuel (binary_op (ymc_peek q)) limit q
