-- ===== src/Compiler/Tests.antt =====
-- Runs of the compiler and of the machine, and the theorems at concrete inputs.
use ymd.Common.{ℕ, ◌+◌, ◌≡◌, refl, arith, List, [], ◌∷◌, length, replicate, length-replicate, none}
use ymd.Common.Int.{pos, negsuc}
use ymd.Kstr.{same_bytes, kpool_init}
use ymd.Lex.Chars.{Token, eos, tok, dec_token}
use ymd.Chunk.{Chunk, Variable, nil, int, blk_emit, blk_ki, blk_find_lz}
use ymd.Stack.{Stack}
use ymd.Vm.State.{done, Context, vm_bool, get_local}
use ymd.Vm.Arith.{add64, neg64, mul64, signed}
use ymd.Vm.Ops.{arith_op, constant, add_op, inv_op}
use ymd.Vm.Fixture.{services}
use ymd.Vm.Exec.{At, Arrives}
use ymd.Vm.Operands.{Operands}
use ymd.Compiler.Emit.{Parse, ok, failed, ◌>>=◌, Lexeme, Parser}
use ymd.Compiler.Syntax.{BinaryOp, UnaryOp, unary_op, binary_op, prio}
use ymd.Encoding.Literal.{dtol, dtoll}
use ymd.Asm.{asm_op, asm_build}
use ymd.Asm.Opcodes.{op_code}
use ymd.Compiler.Expr.{parse_expr}
use ymd.Compiler.Tree.{Tree, truth, number, unary, binary, code, Fits, eval}
use ymd.Compiler.Execute.{code-eval}
use ymd.Compiler.Grammar.{Word, Src, spell, Level, size, width, literals, Follows}
use ymd.Compiler.Emission.{reading}
use ymd.Compiler.Outcome.{HasSpace, Outcome}
use ymd.Compiler.ParseExpr.Whole.{parse_expr_lem}
use ymd.Compiler.Meaning.{value, slots}
use ymd.Compiler.Correct.{Returns, compile_run}

abbrev empty_chunk : Chunk
empty_chunk = record { inst = []; line = []; kval = []; kkval = 0; lz = []; klz = 0; kargs = 0 }

abbrev lexeme : Token → List ℕ → Lexeme
lexeme t z = record { token = t; literal = z; line = 1 }

-- 1 + 2 * 3, up to the end of the text.
abbrev product : Parser
product = record {
  toks =
      lexeme dec_token (b'1' ∷ [])
      ∷ lexeme (tok b'+') (b'+' ∷ [])
      ∷ lexeme dec_token (b'2' ∷ [])
      ∷ lexeme (tok b'*') (b'*' ∷ [])
      ∷ lexeme dec_token (b'3' ∷ [])
      ∷ lexeme eos []
      ∷ [];
  blk = empty_chunk;
  kpool = kpool_init;
  fresh = 64;
  loop = none;
  for_id = 0;
  funcs = [];
}

abbrev inst_of : Parse (Parser) → List ℕ
inst_of (ok p) = p.blk.inst
inst_of _ = []

product-code :
    inst_of (parse_expr (λ q. failed) 10 0 product >>= λ r. ok r.1)
    ≡ code (binary BinaryOp.add (number 0) (binary BinaryOp.mul (number 1) (number 2)))
unfolding parse_expr blk_emit blk_ki code unary_op dtoll dtol asm_op asm_build op_code signed
product-code = refl

-- true and 7 + - 2
abbrev tree : Tree
tree =
    binary BinaryOp.and_ (truth 1) (binary BinaryOp.add (number 0) (unary UnaryOp.mins (number 1)))

abbrev empty_stack : Stack Variable
empty_stack = record { stk = replicate 128 nil; top = 0 }

abbrev context : Context (Unit {0})
context = record {
  pc = 0;
  stack = empty_stack;
  loc = [];
  bind = [];
  core = record {
    inst = code tree;
    line = [];
    kval = int (pos 7) ∷ int (pos 2) ∷ [];
    kkval = 2;
    lz = [];
    klz = 0;
    kargs = 0;
  };
  tick = 0;
  heap = tt;
}

empty-Operands : Operands empty_stack []
empty-Operands = record {
  valid = record {
    whole = omega (arith, length-replicate {A = Variable} 128 nil);
    fits = omega arith;
  };
  holds = refl;
}

tree-At : At (code tree) 0 (code tree)
unfolding code
tree-At = (refl, (refl, (refl, (refl, (refl, (refl, tt))))))

tree-Fits : Fits tree
unfolding code
tree-Fits = omega arith

tree_value : eval services context tt tree ≡ done (tt, int (pos 5))
unfolding eval constant add_op inv_op vm_bool add64 neg64
tree_value = refl

code-eval_example : Arrives services context (0 + length (code tree)) tt (int (pos 5) ∷ [])
code-eval_example =
    code-eval services context tree [] tt (int (pos 5)) tree-Fits tree-At empty-Operands
      (omega arith) tree_value

-- x * (1 + - 2), where x is the local 0, which is 7.
abbrev word_of : List ℕ → Word
word_of z = record { literal = z; line = 1 }

abbrev source : Src
source = Src.binary BinaryOp.mul (word_of (b'*' ∷ [])) (Src.local_ (word_of (b'x' ∷ [])) 0) (
    Src.parens (word_of (b'(' ∷ []))
      (Src.binary BinaryOp.add (word_of (b'+' ∷ [])) (Src.literal (word_of (b'1' ∷ [])) 1)
        (Src.unary UnaryOp.mins (word_of (b'-' ∷ [])) (Src.literal (word_of (b'2' ∷ [])) 2)))
      (word_of (b')' ∷ [])))

abbrev parser : Parser
parser = record {
  toks = [];
  blk = record {
    inst = [];
    line = [];
    kval = [];
    kkval = 0;
    lz = record { address = 0; hash = 0; land = b'x' ∷ [] } ∷ [];
    klz = 1;
    kargs = 0;
  };
  kpool = kpool_init;
  fresh = 64;
  loop = none;
  for_id = 0;
  funcs = [];
}

abbrev caller : Context (Unit {0})
caller = record {
  pc = 0;
  stack = empty_stack;
  loc = int (pos 7) ∷ [];
  bind = [];
  core = empty_chunk;
  tick = 0;
  heap = tt;
}

source-Level : Level parser.blk 0 source
unfolding Level prio dtoll dtol blk_find_lz same_bytes
source-Level = (omega arith, (refl, omega arith), (omega arith, refl, refl))

eof-Follows : Follows 0 eos
unfolding binary_op
eof-Follows = record {
  not_dot = refl;
  not_bracket = refl;
  not_colon = refl;
  not_paren = refl;
  not_string = refl;
  weak = tt;
}

source-HasSpace : HasSpace parser.blk (width source) (literals source) parser.blk
unfolding width literals
source-HasSpace = record {
  counted = refl;
  constants = omega arith;
  instructions = omega arith;
  in_scope = refl;
}

source-value : value services caller tt source ≡ done (tt, int (negsuc 6))
unfolding value get_local signed neg64 add64 mul64 add_op inv_op arith_op
source-value = refl

parse_expr_lem_example :
    (q : Parser) × Outcome source parser.blk q.blk
    × (parse_expr (λ r. failed) 8 0 (reading parser (spell source [])) ≡ ok (none, reading q []))
unfolding size binary_op
parse_expr_lem_example =
    parse_expr_lem (λ r. failed) parser.blk source 0 7 parser [] source-Level (omega arith)
      eof-Follows source-HasSpace

compile_run_example :
    (q : Parser) × (parse_expr (λ r. failed) 8 0 (reading parser (spell source []))
      ≡ ok (none, reading q []))
    × Returns services (record caller { pc = 0; core = q.blk }) tt (int (negsuc 6) ∷ [])
unfolding size binary_op slots
compile_run_example =
    compile_run services (λ r. failed) source 0 7 parser [] caller [] tt (int (negsuc 6))
      source-Level (omega arith) eof-Follows source-HasSpace empty-Operands (omega arith)
      source-value
