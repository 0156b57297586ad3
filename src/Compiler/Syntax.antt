-- ===== src/Compiler/Syntax.antt =====
-- compiler.c: the operators of expressions, their tokens, their priorities and the code of each.
use ymd.Common.{ℕ, if◌then◌else◌, false, Option, none, some, List, [], ◌∷◌}
use ymd.Asm.Opcodes.{Op, f_eq, f_ne, f_gt, f_ge, f_lt, f_le, f_match}
use ymd.Lex.Chars.{Token, tok, le_token, ge_token, ne_token, match_token, eq_token}
use ymd.Compiler.Emit.{Parse, ok, Parser, same_token, emit_ofp, emit_o, ymk_hold, ymk_hack_jmp}

-- The keywords, whose codes follow their places in DECL_TOKEN.
abbrev pub func_token : Token
func_token = tok 146

abbrev pub and_token : Token
and_token = tok 147

abbrev pub or_token : Token
or_token = tok 148

abbrev pub not_token : Token
not_token = tok 149

abbrev pub typeof_token : Token
typeof_token = tok 158

-- enum ymd_op, in its two parts.
pub data BinaryOp : Type 0 where
  add : BinaryOp
  sub : BinaryOp
  mul : BinaryOp
  div : BinaryOp
  mod_ : BinaryOp
  eq : BinaryOp
  ne : BinaryOp
  match : BinaryOp
  lt : BinaryOp
  le : BinaryOp
  gt : BinaryOp
  ge : BinaryOp
  and_ : BinaryOp
  or_ : BinaryOp

pub data UnaryOp : Type 0 where
  mins : UnaryOp
  not_ : UnaryOp
  not_nil : UnaryOp
  typeof : UnaryOp

-- prio: the left and the right priority of an operator are equal.
unfoldable pub prio : BinaryOp → ℕ
prio add = 6
prio sub = 6
prio mul = 7
prio div = 7
prio mod_ = 7
prio and_ = 2
prio or_ = 1
prio eq = 3
prio ne = 3
prio match = 3
prio lt = 3
prio le = 3
prio gt = 3
prio ge = 3

abbrev pub prio_unary : ℕ
prio_unary = 8

-- ymc_unary_op and ymc_binary_op; `none` for OP_NOT_UNARY and OP_NOT_BINARY.
unfoldable pub unary_op : Token → Option UnaryOp
unfolding same_token
unary_op t =
    if same_token t (tok b'-')
    then some mins
    else if same_token t not_token
    then some not_
    else if same_token t (tok b'!')
    then some not_nil
    else if same_token t typeof_token
    then some typeof
    else none

abbrev operators : List (Token × BinaryOp)
operators =
    (tok b'+', add)
    ∷ (tok b'-', sub)
    ∷ (tok b'*', mul)
    ∷ (tok b'/', div)
    ∷ (tok b'%', mod_)
    ∷ (eq_token, eq)
    ∷ (ne_token, ne)
    ∷ (match_token, match)
    ∷ (tok b'<', lt)
    ∷ (le_token, le)
    ∷ (tok b'>', gt)
    ∷ (ge_token, ge)
    ∷ (and_token, and_)
    ∷ (or_token, or_)
    ∷ []

case_of : Token → List (Token × BinaryOp) → Option BinaryOp
case_of t [] = none
case_of t ((c, op) ∷ cases) = let rest = case_of t cases in if same_token t c then some op else rest

unfoldable pub binary_op : Token → Option BinaryOp
unfolding case_of same_token
binary_op t = case_of t operators

unfoldable pub ymk_unary : UnaryOp → Parser → Parse Parser
unfolding emit_ofp
ymk_unary mins p = emit_o p Op.inv
ymk_unary not_ p = emit_o p Op.not
ymk_unary not_nil p = emit_o p Op.not
ymk_unary typeof p = emit_o p Op.typeof

-- ymk_hold_logc: 0 where no instruction is held.
unfoldable pub ymk_hold_logc : BinaryOp → Parser → Parse (ℕ × Parser)
ymk_hold_logc and_ p = ymk_hold p
ymk_hold_logc or_ p = ymk_hold p
ymk_hold_logc _ p = ok (0, p)

unfoldable pub ymk_binary : BinaryOp → ℕ → Parser → Parse Parser
unfolding emit_ofp ymk_hack_jmp
ymk_binary add ipos p = emit_o p Op.add
ymk_binary sub ipos p = emit_o p Op.sub
ymk_binary mul ipos p = emit_o p Op.mul
ymk_binary div ipos p = emit_o p Op.div
ymk_binary mod_ ipos p = emit_o p Op.mod_
ymk_binary eq ipos p = emit_ofp p Op.test f_eq 0
ymk_binary ne ipos p = emit_ofp p Op.test f_ne 0
ymk_binary match ipos p = emit_ofp p Op.test f_match 0
ymk_binary lt ipos p = emit_ofp p Op.test f_lt 0
ymk_binary le ipos p = emit_ofp p Op.test f_le 0
ymk_binary gt ipos p = emit_ofp p Op.test f_gt 0
ymk_binary ge ipos p = emit_ofp p Op.test f_ge 0
ymk_binary and_ ipos p = ymk_hack_jmp p ipos Op.jnt false
ymk_binary or_ ipos p = ymk_hack_jmp p ipos Op.jnn false
