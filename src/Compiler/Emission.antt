-- ===== src/Compiler/Emission.antt =====
-- compiler.c: what the functions that emit code add to the chunk.
use ymd.Common.{
  ℕ, ◌+◌, ◌-◌, ◌%◌, ◌^◌, ◌<◌, ◌≡◌, ◌∙◌, refl, ap, arith, ◌==◌, true, false, List, [], ◌∷◌, ◌++◌,
  length, length-append, set,
}
use ymd.Common.Int.{pos}
use ymd.Asm.{asm_build, asm_op}
use ymd.Asm.Fields.{asm_build-fields}
use ymd.Asm.Opcodes.{Op, op_code, f_local, op_code_lt, op_code-mod}
use ymd.Chunk.{blk_emit, blk_find_lz}
use ymd.Compiler.Emit.{
  Parse, ok, ◌>>=◌, Lexeme, Parser, i_line, emit, emit_ofp, symbol_access, ymk_emit_push, ymk_hold,
  ymk_hack, ymk_hack_jmp,
}

-- The parser in front of the tokens `ts`.
abbrev pub reading : Parser → List Lexeme → Parser
reading p ts = record p { toks = ts }

-- The parser behind the instruction `x`.
abbrev pub emitted : Parser → ℕ → Parser
emitted p x =
    let blk = p.blk in
    record p { blk = record blk { inst = blk.inst ++ x ∷ []; line = blk.line ++ i_line p ∷ [] } }

emit_lem :
    (p : Parser) (inst : ℕ) → (asm_op inst % 5 == 0) ≡ true → emit p inst ≡ ok (emitted p inst)
unfolding emit blk_emit
emit_lem p inst e = rw (e, emit, blk_emit)

pub emit_ofp_lem :
    (p : Parser) (o : Op) (f param : ℕ)
    → f < 256
    → param < 2 ^ 16
    → emit_ofp p o f param ≡ ok (emitted p (asm_build (op_code o) f param))
unfolding emit_ofp
emit_ofp_lem p o f param hf hp =
    ap (λ (n : ℕ). emit p (asm_build (op_code o) f n)) {x = param % 2 ^ 16} {y = param}
      (omega arith)
    ∙ emit_lem p (asm_build (op_code o) f param) (
        ap (λ (n : ℕ). n % 5 == 0)
          (asm_build-fields (op_code o) f param (op_code_lt o) hf (omega arith)).0
        ∙ ap (λ (n : ℕ). n == 0) (op_code-mod o))

-- A name that is a local is pushed by its number.
pub ymk_emit_push_lem :
    (p : Parser) (z : List ℕ) (i : ℕ)
    → blk_find_lz p.blk z ≡ pos i
    → i < 2 ^ 16
    → ymk_emit_push p z ≡ ok (emitted p (asm_build (op_code Op.push) f_local i))
unfolding ymk_emit_push symbol_access
ymk_emit_push_lem p z i e small =
    rw (e, symbol_access) (emit_ofp_lem p Op.push f_local i (omega arith) small)

-- The instruction at `i`, `length d + 1` in front of the end, put in place of another one.
set-middle : (c d : List ℕ) (x y : ℕ) → set (c ++ x ∷ d) (length c) y ≡ c ++ y ∷ d
set-middle [] d x y = refl
set-middle (z ∷ c) d x y = ap (◌∷◌ z) (set-middle c d x y)

abbrev pub hacked : Parser → List ℕ → Parser
hacked p inst = let blk = p.blk in record p { blk = record blk { inst = inst } }

pub ymk_hold_lem :
    (p : Parser)
    → length p.blk.inst < 2 ^ 16
    → ymk_hold p ≡ ok (length p.blk.inst, emitted p (asm_build (op_code Op.panic) 0 0))
unfolding ymk_hold
ymk_hold_lem p h =
    ap {B = Parse (ℕ × Parser)}
      (λ (r : Parse Parser). r >>= λ p'. ok (length p.blk.inst % 2 ^ 16, p'))
      (emit_ofp_lem p Op.panic 0 0 (omega arith) (omega arith))
    ∙ ap {B = Parse (ℕ × Parser)} (λ (n : ℕ). ok (n, emitted p (asm_build (op_code Op.panic) 0 0)))
        {x = length p.blk.inst % 2 ^ 16} {y = length p.blk.inst} (omega arith)

pub ymk_hack_lem :
    (p : Parser) (i inst : ℕ)
    → i < length p.blk.inst
    → ymk_hack p i inst ≡ ok (hacked p (set p.blk.inst i inst))
unfolding ymk_hack
ymk_hack_lem p i inst h = ground arith

pub hack_jmp_lem :
    (p : Parser) (i : ℕ) (o : Op)
    → i < length p.blk.inst
    → ymk_hack_jmp p i o false
      ≡ ymk_hack p i (asm_build (op_code o) 0 ((length p.blk.inst - i) % 2 ^ 16))
unfolding ymk_hack_jmp
hack_jmp_lem p i o h = ground arith

-- A jump that was held in front of the code `d` goes past it.
pub ymk_hack_jmp_lem :
    (p : Parser) (o : Op) (c d : List ℕ) (x : ℕ)
    → p.blk.inst ≡ c ++ x ∷ d
    → length d + 1 < 2 ^ 16
    → ymk_hack_jmp p (length c) o false
      ≡ ok (hacked p (c ++ asm_build (op_code o) 0 (length d + 1) ∷ d))
ymk_hack_jmp_lem p o c d x e h =
    hack_jmp_lem p (length c) o below
    ∙ ymk_hack_lem p (length c) _ below
    ∙ ap (λ (n : ℕ). ok (hacked p (set p.blk.inst (length c) (asm_build (op_code o) 0 n))))
        {x = (length p.blk.inst - length c) % 2 ^ 16} {y = length d + 1} (omega (arith, size))
    ∙ ap
        (λ (xs : List ℕ).
          ok (hacked p (set xs (length c) (asm_build (op_code o) 0 (length d + 1)))))
        e
    ∙ ap (λ (xs : List ℕ). ok (hacked p xs)) (set-middle c d x _)
  where
    size : length p.blk.inst ≡ length c + (length d + 1)
    size = ap length e ∙ length-append c (x ∷ d) ∙ omega arith

    below : length c < length p.blk.inst
    below = omega (arith, size)
