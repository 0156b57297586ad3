-- ===== src/Compiler/Emit.antt =====
-- compiler.c: the state of the parser, its look-ahead, and the generation of code. The lexer is the
-- list of the lexemes that lex_next gives one after another, the look-ahead first; a text ends with
-- EOS. ymc_fail is a failure, whose message is left out, and a failed assertion aborts.
use ymd.Common.{
  ℕ, ◌+◌, ◌-◌, ◌%◌, ◌^◌, leb, ltb, ◌==◌, if◌then◌else◌, Bool, true, false, Option, none, some, List,
  [], ◌∷◌, length, set,
}
use ymd.Common.Int.{ℤ, pos, negsuc}
use ymd.Asm.{asm_build, asm_call}
use ymd.Asm.Opcodes.{Op, op_code, f_forward, f_backward, f_kval, f_local, f_off, f_fast}
use ymd.Encoding.Literal.{stresc}
use ymd.Kstr.{Kpool}
use ymd.Lex.Chars.{Token, eos, tok, symbol_token}
use ymd.Chunk.{Chunk, blk_emit, blk_ki, blk_kz, blk_find_lz, blk_add_lz}

-- The outcome of parsing: a failure is longjmp(p->jpt, 1).
pub data Parse {ℓ} (A : Type ℓ) : Type ℓ where
  ok : A → Parse A
  failed : Parse A
  aborts : Parse A
  out_of_fuel : Parse A

infixl 5 ◌>>=◌ ◌>>◌
abbrev pub ◌>>=◌ {ℓ κ} : {A : Type ℓ} {B : Type κ} → Parse A → (A → Parse B) → Parse B
ok a >>= f = f a
failed >>= f = failed
aborts >>= f = aborts
out_of_fuel >>= f = out_of_fuel

abbrev pub ◌>>◌ {ℓ κ} : {A : Type ℓ} {B : Type κ} → Parse A → Parse B → Parse B
m >> k = m >>= λ _. k

abbrev pub or_fail {ℓ} : {A : Type ℓ} → Option A → Parse A
or_fail none = failed
or_fail (some a) = ok a

abbrev pub or_abort {ℓ} : {A : Type ℓ} → Option A → Parse A
or_abort none = aborts
or_abort (some a) = ok a

-- A token, the characters that it spans, and the line that the lexer has reached behind it.
pub record Lexeme : Type 0 where
  pub token : Token
  pub literal : List ℕ
  pub line : ℕ

-- struct loop_info: where a loop goes on, the instruction that holds its condition, the instructions
-- that hold its breaks, the latest first, and whether it has no condition.
pub record Loop : Type 0 where
  pub i_retry : ℕ
  pub i_jcond : ℕ
  pub jmt : List ℕ
  pub death : Bool

-- A function that was compiled: struct func, with its name.
pub record Func : Type 0 where
  pub address : ℕ
  pub n_bind : ℕ
  pub name : List ℕ
  pub core : Chunk

-- struct ymd_parser; `loop` is the top of the chain of loops, `funcs` are the functions made so far,
-- and `fresh` is the address of the next object that the allocator hands out.
pub record Parser : Type 0 where
  pub toks : List Lexeme
  pub blk : Chunk
  pub kpool : Kpool
  pub fresh : ℕ
  pub loop : Option Loop
  pub for_id : ℕ
  pub funcs : List Func

abbrev eof : Lexeme
eof = record { token = eos; literal = []; line = 0 }

abbrev first : List Lexeme → Lexeme
first [] = eof
first (x ∷ xs) = x

abbrev rest_of : List Lexeme → List Lexeme
rest_of [] = []
rest_of (x ∷ xs) = xs

abbrev pub ymc_peek : Parser → Token
ymc_peek p = (first p.toks).token

abbrev pub i_line : Parser → ℕ
i_line p = (first p.toks).line

abbrev pub ymc_next : Parser → Parser
ymc_next p = record p { toks = rest_of p.toks }

unfoldable pub same_token : Token → Token → Bool
same_token eos eos = true
same_token (tok a) (tok b) = a == b
same_token eos (tok b) = false
same_token (tok a) eos = false

unfoldable pub ymc_test : Parser → Token → Bool × Parser
unfolding same_token
ymc_test p token = if same_token (ymc_peek p) token then (true, ymc_next p) else (false, p)

unfoldable pub ymc_match : Parser → Token → Parse Parser
unfolding same_token
ymc_match p need = if same_token need (ymc_peek p) then ok (ymc_next p) else failed

-- ymk_literal
abbrev pub ymk_literal : Parser → List ℕ
ymk_literal p = (first p.toks).literal

unfoldable pub ymk_symbol : Parser → Parse (List ℕ × Parser)
unfolding same_token
ymk_symbol p =
    if same_token (ymc_peek p) symbol_token then ok (ymk_literal p, ymc_next p) else failed

-- blk_emit of an instruction, at the line of the lexer.
unfoldable pub emit : Parser → ℕ → Parse Parser
emit p inst = do
  (blk, kinst) ← or_abort (blk_emit p.blk inst (i_line p))
  ok (record p { blk = blk })

-- ymk_emitOfP; the parameter is an unsigned short.
unfoldable pub emit_ofp : Parser → Op → ℕ → ℕ → Parse Parser
unfolding emit
emit_ofp p o f param = emit p (asm_build (op_code o) f (param % 2 ^ 16))

abbrev pub emit_o : Parser → Op → Parse Parser
emit_o p o = emit_ofp p o 0 0

unfoldable pub ymk_emit_call : Parser → Op → ℕ → ℕ → ℕ → Parse Parser
unfolding emit
ymk_emit_call p o aret argc method =
    emit p (asm_call (op_code o) (aret % 2 ^ 8) (argc % 2 ^ 8) (method % 2 ^ 16))

-- ymk_ipos
abbrev pub ymk_ipos : Parser → ℕ
ymk_ipos p = length p.blk.inst % 2 ^ 16

unfoldable pub ymk_hold : Parser → Parse (ℕ × Parser)
unfolding emit_ofp
ymk_hold p = do p' ← emit_o p Op.panic; ok (ymk_ipos p, p')

-- An integer, or a string, in the table of constants.
unfoldable pub ymk_emit_int : Parser → ℤ → Parse Parser
unfolding emit_ofp
ymk_emit_int p imm =
    let (blk, i) = blk_ki p.blk imm in emit_ofp (record p { blk = blk }) Op.push f_kval i

unfoldable pub add_kz : Parser → Bool → List ℕ → Parser × ℕ
add_kz p counted z =
    let (kpool, blk, i) = blk_kz p.fresh counted p.blk p.kpool z in
    (record p { kpool = kpool; blk = blk; fresh = p.fresh + 1 }, i)

unfoldable pub ymk_emit_kz : Parser → List ℕ → Parse Parser
unfolding emit_ofp add_kz
ymk_emit_kz p raw = do
  z ← or_fail (stresc raw)
  let (p', i) = add_kz p true z in emit_ofp p' Op.push f_kval i

-- A local by its number, or a global by its name.
unfoldable pub symbol_access : Op → Parser → List ℕ → Parse Parser
symbol_access o p symbol = elim (blk_find_lz p.blk symbol) [
  | pos i ↦ emit_ofp p o f_local i
  | negsuc n ↦ let (p', i) = add_kz p false symbol in emit_ofp p' o f_off i
]

unfoldable pub ymk_emit_store : Parser → List ℕ → Parse Parser
unfolding symbol_access emit_ofp add_kz
ymk_emit_store = symbol_access Op.store

unfoldable pub ymk_emit_push : Parser → List ℕ → Parse Parser
unfolding symbol_access emit_ofp add_kz
ymk_emit_push = symbol_access Op.push

unfoldable pub ymk_emit_pushz : Parser → List ℕ → Parse Parser
unfolding emit_ofp add_kz
ymk_emit_pushz p symbol = let (p', i) = add_kz p false symbol in emit_ofp p' Op.push f_kval i

unfoldable pub ymk_emit_setf : Parser → List ℕ → Parse Parser
unfolding emit_ofp add_kz
ymk_emit_setf p symbol = let (p', i) = add_kz p false symbol in emit_ofp p' Op.setf f_fast i

unfoldable pub ymk_emit_getf : Parser → List ℕ → Parse Parser
unfolding emit_ofp add_kz
ymk_emit_getf p symbol = let (p', i) = add_kz p false symbol in emit_ofp p' Op.getf f_fast i

unfoldable pub ymk_emit_selfcall : Parser → ℕ → ℕ → List ℕ → Parse Parser
unfolding ymk_emit_call add_kz
ymk_emit_selfcall p adjust argc method =
    let (p', i) = add_kz p false method in ymk_emit_call p' Op.selfcall adjust argc i

-- ymk_new_locvar: the number of the new local.
unfoldable pub ymk_new_locvar : Parser → List ℕ → Parse (ℕ × Parser)
ymk_new_locvar p symbol =
    let (kpool, blk, i) = blk_add_lz p.fresh p.blk p.kpool symbol in
    elim i [
      | pos n ↦ ok (n, record p { kpool = kpool; blk = blk; fresh = p.fresh + 1 })
      | negsuc n ↦ failed
    ]

-- ymk_hack: the assertion is that the instruction is there.
unfoldable pub ymk_hack : Parser → ℕ → ℕ → Parse Parser
ymk_hack p i inst =
    if ltb i (length p.blk.inst)
    then (let blk = p.blk in ok (record p { blk = record blk { inst = set blk.inst i inst } }))
    else aborts

unfoldable pub ymk_hack_jmp : Parser → ℕ → Op → Bool → Parse Parser
unfolding ymk_hack
ymk_hack_jmp p i op bwd =
    let off = (length p.blk.inst - i) % 2 ^ 16 in
    if leb i (length p.blk.inst)
    then ymk_hack p i (asm_build (op_code op) (if bwd then f_backward else f_forward) off)
    else aborts

-- ymk_emit_jmp: back to `target`, or on to it.
unfoldable pub ymk_emit_jmp : Parser → ℕ → Bool → Parse Parser
unfolding emit_ofp
ymk_emit_jmp p target bwd =
    let i_curr = length p.blk.inst in
    if bwd
    then (if leb target i_curr then emit_ofp p Op.jmp f_backward (i_curr - target) else aborts)
    else (if leb i_curr target then emit_ofp p Op.jmp f_forward (target - i_curr) else aborts)
