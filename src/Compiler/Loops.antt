-- ===== src/Compiler/Loops.antt =====
-- compiler.c: the ends of functions and the frames of loops. The table of breaks has room for 128
-- entries; a write behind it, and a use of the loop where there is none, end the run as `aborts`.
pub mod Jumps
pub mod Run
use ymd.Common.{
  ℕ, ◌+◌, ◌-◌, leb, ltb, ◌==◌, if◌then◌else◌, true, false, Option, none, some, List, [], ◌∷◌,
  length, get_elem?,
}
use ymd.Common.Int.{pos, negsuc}
use ymd.Asm.{asm_op}
use ymd.Asm.Opcodes.{Op, op_code}
use ymd.Chunk.{Chunk, blk_add_lz}
use ymd.Compiler.Emit.{
  Parse, ok, failed, aborts, ◌>>=◌, or_abort, Parser, Loop, emit_ofp, ymk_hold, ymk_hack_jmp,
  ymk_emit_jmp, ymk_emit_push,
}

unfoldable pub ymk_emit_end : Parser → Parse Parser
unfolding emit_ofp
ymk_emit_end p =
    let ret = emit_ofp p Op.ret 0 0 in
    elim (get_elem? p.blk.inst (length p.blk.inst - 1)) [
      | none ↦ ret
      | some inst ↦ if asm_op inst == op_code Op.ret then ok p else ret
    ]

-- A name that is bound: a local of the new function, whose value is pushed here.
unfoldable pub ymk_emit_bind : Parser → List ℕ → Chunk → Parse (Chunk × Parser)
unfolding ymk_emit_push
ymk_emit_bind p symbol core =
    let (kpool, core', i) = blk_add_lz p.fresh core p.kpool symbol in
    elim i [
      | pos n ↦ (do
        q ← ymk_emit_push (record p { kpool = kpool; fresh = p.fresh + 1 }) symbol
        ok (core', q))
      | negsuc n ↦ failed
    ]

unfoldable pub ymk_loop_enter : Parser → Parser
ymk_loop_enter p = record p {
  loop = some (record { i_retry = 0; i_jcond = 0; jmt = []; death = false });
}

abbrev pub set_loop : Parser → (Loop → Loop) → Parse Parser
set_loop p f = or_abort p.loop >>= λ l. ok (record p { loop = some (f l) })

-- The instructions that hold breaks become jumps to the end; `limit` is i_curr.
unfoldable pub hack_breaks : ℕ → List ℕ → Parser → Parse Parser
unfolding ymk_hack_jmp
hack_breaks limit [] p = ok p
hack_breaks limit (i ∷ jmt) p =
    let rest = (ymk_hack_jmp p i Op.jmp false >>= hack_breaks limit jmt) in
    if leb i limit then rest else aborts

-- `outer` is the loop around, p->loop->chain.
unfoldable pub ymk_loop_leave : Option Loop → Parser → Parse Parser
unfolding hack_breaks ymk_emit_jmp ymk_hack_jmp
ymk_loop_leave outer p = do
  l ← or_abort p.loop
  q ← ymk_emit_jmp p l.i_retry true
  r ← hack_breaks (length p.blk.inst) l.jmt q
  r' ← if l.death then ok r else ymk_hack_jmp r l.i_jcond Op.foreach false
  ok (record r' { loop = outer })

-- parse_goto, on `break` and on `continue`.
unfoldable pub parse_break : Parser → Parse Parser
unfolding ymk_hold
parse_break p = do
  l ← or_abort p.loop
  (i, q) ← ymk_hold p
  if ltb (length l.jmt) 128 then set_loop q (λ l'. record l' { jmt = i ∷ l'.jmt }) else aborts

unfoldable pub parse_continue : Parser → Parse Parser
unfolding ymk_emit_jmp
parse_continue p = do l ← or_abort p.loop; ymk_emit_jmp p l.i_retry true
