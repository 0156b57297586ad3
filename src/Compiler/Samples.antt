-- ===== src/Compiler/Samples.antt =====
-- Statements through the compiler: their instructions on concrete texts.
use ymd.Common.{true, ℕ, ◌≡◌, refl, none, List, [], ◌∷◌, map}
use ymd.Kstr.{kpool_init}
use ymd.Lex.Chars.{Token, eos, tok}
use ymd.Asm.{asm_op, asm_build}
use ymd.Asm.Opcodes.{op_code}
use ymd.Chunk.{blk_emit, blk_add_lz}
use ymd.Compiler.Syntax.{unary_op}
use ymd.Compiler.Emit.{Loop, Parse, ok, out_of_fuel, Lexeme, Parser}
use ymd.Vm.State.{Context}
use ymd.Compiler.Endless.{ymc_compile-with}
use ymd.Compiler.Program.{ymc_compile}

abbrev lexeme : Token → List ℕ → Lexeme
lexeme t z = record { token = t; literal = z; line = 1 }

abbrev reading : List Lexeme → Parser
reading ts = record {
  toks = ts;
  blk = record { inst = []; line = []; kval = []; kkval = 0; lz = []; klz = 0; kargs = 0 };
  kpool = kpool_init;
  fresh = 64;
  loop = none;
  for_id = 0;
  funcs = [];
}

abbrev code_of : Parse Parser → List ℕ
code_of (ok p) = map asm_op p.blk.inst
code_of _ = []

-- if true { } elif true { }
abbrev two_branches : List Lexeme
two_branches =
    lexeme (tok 150) []
    ∷ lexeme (tok 129) []
    ∷ lexeme (tok b'{') []
    ∷ lexeme (tok b'}') []
    ∷ lexeme (tok 152) []
    ∷ lexeme (tok 129) []
    ∷ lexeme (tok b'{') []
    ∷ lexeme (tok b'}') []
    ∷ lexeme eos []
    ∷ []

-- push, jne, jmp, push, panic, ret: the second condition still holds I_PANIC.
two_branches-code :
    code_of (ymc_compile (λ n. []) 4 (reading two_branches)) ≡ 40 ∷ 20 ∷ 25 ∷ 40 ∷ 0 ∷ 15 ∷ []
unfolding ymc_compile unary_op blk_emit asm_op asm_build op_code blk_add_lz
two_branches-code = refl

-- A loop that starts at 1, with a break at 2, at the end of three instructions.
abbrev in_loop : Parser
in_loop = record {
  toks = [];
  blk = record {
    inst = 0 ∷ 0 ∷ 0 ∷ [];
    line = [];
    kval = [];
    kkval = 0;
    lz = [];
    klz = 0;
    kargs = 0;
  };
  kpool = kpool_init;
  fresh = 64;
  loop = none;
  for_id = 0;
  funcs = [];
}

abbrev endless : Loop
endless = record { i_retry = 1; i_jcond = 0; jmt = 2 ∷ []; death = true }

abbrev context : Context (Unit {0})
context = record {
  pc = 0;
  stack = record { stk = []; top = 0 };
  loc = [];
  bind = [];
  core = in_loop.blk;
  tick = 0;
  heap = tt;
}

ymc_compile-with_example :
    ymc_compile (λ n. []) 9 (reading (lexeme (tok 153) [] ∷ lexeme eos [] ∷ [])) ≡ out_of_fuel
ymc_compile-with_example =
    ymc_compile-with (λ n. []) 9 (reading (lexeme (tok 153) [] ∷ lexeme eos [] ∷ [])) refl
