-- ===== src/Compiler/Outcome.antt =====
-- compiler.c: what the parser leaves behind an expression: the chunk has its code at the end, and its
-- constants.
use ymd.Common.{
  ℕ, suc, ◌+◌, ◌^◌, ◌<◌, ◌≡◌, ◌∙◌, refl, sym, ap, subst, arith, some, List, [], ◌∷◌, ◌++◌, length,
  length-append, get_elem?,
}
use mathlib.Core.List.{append_assoc}
use ymd.Asm.{asm_build}
use ymd.Asm.Opcodes.{Op, op_code}
use ymd.Chunk.{Chunk, Variable}
use ymd.Kstr.{Kstr}
use ymd.Chunk.Growth.{names, tables, Grows, Grows-trans, Grows-same}
use ymd.Compiler.Syntax.{BinaryOp, UnaryOp}
use ymd.Compiler.Tree.{Tree, unary_code, instruction, binary_code, IsStrict, code, Fits}
use ymd.Compiler.Grammar.{Word, Src, Denotes, width, literals}

-- Room in the chunk for `n` instructions and `k` constants; its locals are those of `scope`.
pub record HasSpace (scope : Chunk) (n k : ℕ) (core : Chunk) : Type 0 where
  pub counted : length core.kval ≡ core.kkval
  pub constants : core.kkval + k + 1 < 2 ^ 16
  pub instructions : length core.inst + n < 2 ^ 16
  pub in_scope : names core ≡ names scope

pub record Outcome (a : Src) (core core' : Chunk) : Type 0 where
  pub tree : Tree
  pub denotes : Denotes core'.kval a tree
  pub fits : Fits tree
  pub inst : core'.inst ≡ core.inst ++ code tree
  pub size : length (code tree) ≡ width a
  pub grows : Grows (literals a) core core'

-- A tree keeps its meaning when constants are added.
pub Denotes-Grows :
    {n : ℕ} {core core' : Chunk} {a : Src} {t : Tree}
    → length core.kval ≡ core.kkval
    → Grows n core core'
    → Denotes core.kval a t
    → Denotes core'.kval a t
Denotes-Grows h g Denotes.nil_ = Denotes.nil_
Denotes-Grows h g Denotes.true_ = Denotes.true_
Denotes-Grows h g Denotes.false_ = Denotes.false_
Denotes-Grows {core = core} h g (Denotes.literal {i = i} e) =
    Denotes.literal (g.kept i (omega (arith, h, get_elem?-below core.kval i _ e)) ∙ e)
  where
    get_elem?-below :
        (xs : List Variable) (i : ℕ) (v : Variable) → get_elem? xs i ≡ some v → i < length xs
    get_elem?-below [] i v e = absurd (cc)
    get_elem?-below (x ∷ xs) ℕ.zero v e = omega arith
    get_elem?-below (x ∷ xs) (suc i) v e = omega (arith, get_elem?-below xs i v e)
Denotes-Grows h g Denotes.local_ = Denotes.local_
Denotes-Grows h g (Denotes.parens d) = Denotes.parens (Denotes-Grows h g d)
Denotes-Grows h g (Denotes.unary d) = Denotes.unary (Denotes-Grows h g d)
Denotes-Grows h g (Denotes.binary d e) = Denotes.binary (Denotes-Grows h g d) (Denotes-Grows h g e)

-- The room that is left behind the first of two expressions.
pub space_left :
    {a : Src} {scope core core' : Chunk} (m k : ℕ)
    → HasSpace scope (width a + m) (literals a + k) core
    → Outcome a core core'
    → HasSpace scope m k core'
space_left {core = core} m k s o = record {
  counted = o.grows.counted;
  constants = omega (arith, s.constants, o.grows.to);
  instructions =
      omega
        (arith, s.instructions, ap length o.inst, length-append core.inst (code o.tree), o.size);
  in_scope = o.grows.same_names ∙ s.in_scope;
}

-- The code of a pushed leaf.
pub leaf_outcome :
    (a : Src) (t : Tree) (core core' : Chunk) (f i : ℕ)
    → width a ≡ 1
    → code t ≡ asm_build (op_code Op.push) f i ∷ []
    → Fits t
    → Denotes core'.kval a t
    → core'.inst ≡ core.inst
    → Grows (literals a) core core'
    → (line : List ℕ)
    → Outcome a core
        (record core' { inst = core'.inst ++ asm_build (op_code Op.push) f i ∷ []; line = line })
leaf_outcome a t core core' f i w e fits d same g line = record {
  tree = t;
  denotes = d;
  fits = fits;
  inst =
      ap (λ (c : List ℕ). c ++ asm_build (op_code Op.push) f i ∷ []) same
      ∙ ap (λ (c : List ℕ). core.inst ++ c) (sym e);
  size = ap length e ∙ sym w;
  grows = Grows-same refl g;
}

pub unary_outcome :
    (op : UnaryOp) (w : Word) (a : Src) (core core' : Chunk) (line : List ℕ)
    → Outcome a core core'
    → Outcome (Src.unary op w a) core (record core' {
      inst = core'.inst ++ asm_build (op_code (unary_code op)) 0 0 ∷ [];
      line = line;
    })
unfolding code width literals
unary_outcome op w a core core' line o = record {
  tree = Tree.unary op o.tree;
  denotes = Denotes.unary o.denotes;
  fits = o.fits;
  inst =
      ap (λ (c : List ℕ). c ++ asm_build (op_code (unary_code op)) 0 0 ∷ []) o.inst
      ∙ append_assoc core.inst (code o.tree) _;
  size = length-append (code o.tree) _ ∙ omega (arith, o.size);
  grows = Grows-same refl o.grows;
}

pub parens_outcome :
    (w w' : Word) (a : Src) (core core' : Chunk)
    → Outcome a core core'
    → Outcome (Src.parens w a w') core core'
unfolding width literals
parens_outcome w w' a core core' o = record {
  tree = o.tree;
  denotes = Denotes.parens o.denotes;
  fits = o.fits;
  inst = o.inst;
  size = o.size;
  grows = o.grows;
}

pub strict_code :
    (op : BinaryOp) (c d : List ℕ)
    → IsStrict op
    → binary_code op c d ≡ (c ++ d) ++ instruction op ∷ []
strict_code BinaryOp.and_ c d h = absurd h
strict_code BinaryOp.or_ c d h = absurd h
strict_code _ c d h = refl

length-binary_code :
    (op : BinaryOp) (c d : List ℕ) → length (binary_code op c d) ≡ length c + length d + 1
length-binary_code BinaryOp.and_ c d = length-append c _ ∙ omega arith
length-binary_code BinaryOp.or_ c d = length-append c _ ∙ omega arith
length-binary_code op c d =
    length-append (c ++ d) (instruction op ∷ []) ∙ omega (arith, length-append c d)

-- Behind both operands: the instruction of an operator that takes both, or the jump of `and` and `or`,
-- which stands where one instruction was held in between.
pub binary_outcome :
    (op : BinaryOp) (w : Word) (a b : Src) (core core₁ held core₂ core' : Chunk)
    (o : Outcome a core core₁) (held_same : tables held ≡ tables core₁) (u : Outcome b held core₂)
    → tables core' ≡ tables core₂
    → width b + 1 < 2 ^ 16
    → core'.inst ≡ core.inst ++ binary_code op (code o.tree) (code u.tree)
    → Outcome (Src.binary op w a b) core core'
unfolding code width literals
binary_outcome op w a b core core₁ held core₂ core' o hs u es small e = record {
  tree = Tree.binary op o.tree u.tree;
  denotes =
      subst
        (λ (xs : List Variable). Denotes xs (Src.binary op w a b) (Tree.binary op o.tree u.tree))
        (ap (λ (x : (List Variable × ℕ) × (List Kstr × ℕ)). x.0.0) (sym es))
        (Denotes.binary
          (Denotes-Grows front.counted u.grows (
            subst (λ (xs : List Variable). Denotes xs a o.tree)
              (ap (λ (x : (List Variable × ℕ) × (List Kstr × ℕ)). x.0.0) (sym hs)) o.denotes))
          u.denotes);
  fits = (o.fits, u.fits, omega (arith, small, u.size));
  inst = e;
  size = length-binary_code op (code o.tree) (code u.tree) ∙ omega (arith, o.size, u.size);
  grows = Grows-same es (Grows-trans front u.grows);
}
  where
    front : Grows (literals a) core held
    front = Grows-same hs o.grows
