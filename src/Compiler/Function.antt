-- ===== src/Compiler/Function.antt =====
-- compiler.c: functions and closures. A function is compiled into a chunk of its own, while the chunk
-- around it waits. The strings of the file and of the function's own name are left out of the pool,
-- and so is the limit of 260 characters for that name.
use ymd.Common.{
  ℕ, zero, suc, ◌+◌, ◌%◌, ◌^◌, ◌==◌, if◌then◌else◌, Bool, true, false, Option, none, some, List, [],
  ◌∷◌, ◌++◌,
}
use ymd.Asm.{asm_build}
use ymd.Asm.Opcodes.{Op, op_code, f_kval}
use ymd.Lex.Chars.{tok, codes}
use ymd.Chunk.{Chunk, blk_add_lz, blk_kf}
use ymd.Compiler.Emit.{
  Parse, ok, failed, out_of_fuel, ◌>>=◌, Parser, Func, i_line, ymc_peek, ymc_next, ymc_match,
  ymc_test, same_token, ymk_symbol, emit_ofp, ymk_hold, ymk_hack, ymk_emit_push, ymk_emit_getf,
  ymk_emit_setf, ymk_emit_store, ymk_new_locvar,
}
use ymd.Compiler.Loops.{ymk_emit_end, ymk_emit_bind}
use ymd.Compiler.Stmt.{parse_block}

-- struct func_decl_desc
pub record Decl : Type 0 where
  pub method : Bool
  pub name : List ℕ
  pub load_p : ℕ
  pub n_bind : ℕ

abbrev empty_chunk : Chunk
empty_chunk = record { inst = []; line = []; kval = []; kkval = 0; lz = []; klz = 0; kargs = 0 }

-- do ... while (ymc_test(p, ',')) of parse_bind.
unfoldable pub bind_names : ℕ → ℕ → Chunk → Parser → Parse (ℕ × Chunk × Parser)
unfolding same_token ymk_symbol ymk_emit_bind ymc_test
bind_names zero n core p = out_of_fuel
bind_names (suc fuel) n core p =
    let more = (do
      (z, q) ← ymk_symbol p
      (core', r) ← ymk_emit_bind q z core
      let (again, r') = ymc_test r (tok b',') in
          elim again [ true ↦ bind_names fuel (n + 1) core' r' | false ↦ ok (n + 1, core', r') ]) in
    if same_token (ymc_peek p) (tok b']') then ok (n, core, p) else more

unfoldable pub parse_bind : ℕ → Chunk → Parser → Parse (ℕ × Chunk × Parser)
unfolding bind_names ymc_match emit_ofp
parse_bind fuel core p = do
  (n, core', q) ← bind_names fuel 0 core (ymc_next p)
  r ← ymc_match q (tok b']')
  if n == 0 then failed else (do r' ← emit_ofp r Op.bind 0 n; ok (n, core', r'))

-- do ... while (ymc_test(p, ',')) of parse_params.
unfoldable pub params_loop : ℕ → ℕ → Parser → Parse (ℕ × Parser)
unfolding same_token ymk_symbol ymk_new_locvar ymc_test
params_loop zero n p = out_of_fuel
params_loop (suc fuel) n p =
    let more = (do
      (z, q) ← ymk_symbol p
      (i, r) ← ymk_new_locvar q z
      let (again, r') = ymc_test r (tok b',') in
          elim again [ true ↦ params_loop fuel (n + 1) r' | false ↦ ok (n + 1, r') ]) in
    if same_token (ymc_peek p) (tok b')') then ok (n, p) else more

unfoldable pub parse_params : ℕ → Bool → Parser → Parse Parser
unfolding params_loop ymc_match ymk_new_locvar
parse_params fuel method p = do
  q ← ymc_match p (tok b'(')
  (n, r) ←
      (if method
        then (do (i, s) ← ymk_new_locvar q (codes "self"); params_loop fuel 1 s)
        else params_loop fuel 0 q)
  r' ← ymc_match r (tok b')')
  let blk = r'.blk in ok (record r' { blk = record blk { kargs = n % 2 ^ 16 } })

-- ymk_chunk_reserved; that the name is there already does not matter.
unfoldable pub ymk_chunk_reserved : Parser → Parser
ymk_chunk_reserved p =
    let (kpool, blk, i) = blk_add_lz p.fresh p.blk p.kpool (codes "argv") in
    record p { kpool = kpool; blk = blk; fresh = p.fresh + 1 }

-- ymk_emit_func: the held instruction becomes the push of the function, whose object is at `address`.
unfoldable pub ymk_emit_func : Parser → Decl → ℕ → Parse Parser
unfolding ymk_hack
ymk_emit_func p desc address =
    let (blk, i) = blk_kf p.blk address in
    ymk_hack (record p { blk = blk }) desc.load_p (asm_build (op_code Op.push) f_kval (i % 2 ^ 16))

module _ (stmt : Parser → Parse Parser) where
  -- From ymk_enter to ymk_leave, in the chunk `core`, and the function that comes of it.
  unfoldable pub parse_body : ℕ → Decl → Chunk → ℕ → Parser → Parse Parser
  unfolding parse_params ymk_chunk_reserved parse_block ymk_emit_end ymk_emit_func
  parse_body fuel desc core address p = do
    q ← parse_params fuel desc.method (record p { blk = core })
    r ← parse_block stmt fuel (ymk_chunk_reserved q)
    r' ← ymk_emit_end r
    let fn : Func = record {
      address = address;
      n_bind = desc.n_bind;
      name = desc.name;
      core = r'.blk;
    } in
        ymk_emit_func (record r' { blk = p.blk; funcs = r'.funcs ++ fn ∷ [] }) desc address

  -- do ... while (ymc_peek(p) != '(') of parse_func_decl.
  unfoldable pub dotted_name :
      ℕ → Option (List ℕ) → List ℕ → Parser → Parse (List ℕ × List ℕ × Parser)
  unfolding ymk_emit_getf ymc_match ymk_symbol same_token
  dotted_name zero prefix name p = out_of_fuel
  dotted_name (suc fuel) prefix name p = do
    q ← elim prefix [ none ↦ ok p | some z ↦ ymk_emit_getf p z ]
    r ← ymc_match q (tok b'.')
    (z, s) ← ymk_symbol r
    let rest = dotted_name fuel (some z) (name ++ b'.' ∷ z) s in
        if same_token (ymc_peek s) (tok b'(') then ok (z, name ++ b'.' ∷ z, s) else rest

  unfoldable pub parse_func_decl : ℕ → List ℕ → Bool → Parser → Parse (Decl × Parser)
  unfolding dotted_name ymk_emit_push ymk_hold ymk_emit_setf ymk_new_locvar ymk_emit_store
      same_token
  parse_func_decl fuel prefix local p =
      if same_token (ymc_peek p) (tok b'.')
      then (do
        q ← ymk_emit_push p prefix
        (last, name, r) ← dotted_name fuel none prefix q
        (i, s) ← ymk_hold r
        s' ← ymk_emit_setf s last
        ok (record { method = true; name = name; load_p = i; n_bind = 0 }, s'))
      else (do
        (i, q) ← ymk_hold p
        r ← if local then (do (n, s) ← ymk_new_locvar q prefix; ok s) else ok q
        s ← ymk_emit_store r prefix
        ok (record { method = false; name = prefix; load_p = i; n_bind = 0 }, s))

  unfoldable pub parse_func : ℕ → Bool → Parser → Parse Parser
  unfolding ymk_symbol parse_func_decl parse_body
  parse_func fuel local p = do
    (z, q) ← ymk_symbol (ymc_next p)
    (desc, r) ← parse_func_decl fuel z local q
    parse_body fuel desc empty_chunk r.fresh (record r { fresh = r.fresh + 1 })

  module _ (decimal : ℕ → List ℕ) where
    unfoldable pub parse_closure : ℕ → Parser → Parse Parser
    unfolding ymk_hold parse_bind parse_body same_token
    parse_closure fuel p = do
      (i, q) ← ymk_hold (ymc_next p)
      let name = codes "__blk_xl" ++ decimal (i_line q) ++ codes "__" in
          let r : Parser = record q { fresh = q.fresh + 1 } in
          do
            (n, core, s) ←
                (if same_token (ymc_peek r) (tok b'[')
                  then parse_bind fuel empty_chunk r
                  else ok (0, empty_chunk, r))
            parse_body fuel (record { method = false; name = name; load_p = i; n_bind = n }) core
                q.fresh s
