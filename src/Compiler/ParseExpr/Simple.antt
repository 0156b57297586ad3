-- ===== src/Compiler/ParseExpr/Simple.antt =====
-- compiler.c: the first operand of parse_expr, where it is a constant or a local.
use ymd.Common.{
  ℕ, zero, suc, ◌+◌, ◌^◌, ◌<◌, ◌≡◌, ◌∙◌, refl, sym, ap, subst, arith, leb, take, if◌then◌else◌,
  Option, none, some, List, [], ◌∷◌,
}
use ymd.Common.Int.{pos, negsuc}
use ymd.Encoding.Literal.{dtoll}
use ymd.Lex.Chars.{tok, dec_token, symbol_token}
use ymd.Kstr.{Kstr}
use ymd.Chunk.{Chunk, blk_ki, blk_find_lz, kz_find}
use ymd.Chunk.Growth.{names, Grows, Grows-refl, blk_ki-Holds}
use ymd.Asm.{asm_build}
use ymd.Asm.Opcodes.{Op, op_code, f_nil, f_bool, f_kval, f_local}
use ymd.Vm.Arith.{signed}
use ymd.Compiler.Emit.{
  Parse, ok, ◌>>=◌, or_abort, Lexeme, Parser, ymc_peek, ymc_next, emit_ofp, ymk_emit_int,
  ymk_symbol,
}
use ymd.Compiler.Syntax.{BinaryOp, unary_op, binary_op}
use ymd.Compiler.Expr.{
  Expression, parse_operand, parse_simple, parse_suffix, suffix_loop, parse_suffixed, parse_primary,
  parse_expr,
}
use ymd.Compiler.Tree.{Tree, code, Fits}
use ymd.Compiler.Grammar.{Word, Src, Denotes, lexeme, spell, Level, size, width, literals, Follows}
use ymd.Compiler.Emission.{reading, emitted, emit_ofp_lem, ymk_emit_push_lem}
use ymd.Compiler.Outcome.{leaf_outcome}
use ymd.Compiler.ParseExpr.{spine, loop, run, Reads}

module _ (closure : Parser → Parse Parser) (scope : Chunk) where
  -- What follows the first operand, when it ends well.
  pub onward :
      (fuel n m : ℕ) (p q : Parser)
      → parse_operand closure (parse_expr closure fuel) fuel p ≡ ok q
      → run closure scope fuel (0 + suc n) m p
        ≡ loop closure scope fuel (suc n) (binary_op (ymc_peek q)) m q
  onward fuel n m p q e =
      ap (λ (i : ℕ). run closure scope fuel i m p) {x = 0 + suc n} {y = suc n} (omega arith)
      ∙ ap {B = Parse (Option BinaryOp × Parser)}
          (λ (r : Parse Parser).
            r >>= λ (q : Parser). loop closure scope fuel (suc n) (binary_op (ymc_peek q)) m q)
          e

  -- The tokens that push a value of their own.
  pushes :
      (ts : List Lexeme) (p : Parser) (f i : ℕ)
      → f < 256
      → i < 2 ^ 16
      → (emit_ofp (reading p ts) Op.push f i >>= λ q. ok (ymc_next q))
        ≡ ok (ymc_next (emitted (reading p ts) (asm_build (op_code Op.push) f i)))
  pushes ts p f i hf hi =
      ap {B = Parse Parser} (λ (r : Parse Parser). r >>= λ q. ok (ymc_next q))
        (emit_ofp_lem (reading p ts) Op.push f i hf hi)

  -- nil, true and false.
  leaf-Reads :
      (a : Src) (t : Tree) (x : Lexeme) (f i : ℕ)
      → f < 256
      → i < 2 ^ 16
      → ((rest : List Lexeme) → spell a rest ≡ x ∷ rest)
      → spine a ≡ 0
      → literals a ≡ 0
      → width a ≡ 1
      → code t ≡ asm_build (op_code Op.push) f i ∷ []
      → Fits t
      → ((core : Chunk) → Denotes core.kval a t)
      → ((expr : Expression) (fuel : ℕ) (p : Parser) (rest : List Lexeme)
          → parse_operand closure expr fuel (reading p (x ∷ rest))
            ≡ (emit_ofp (reading p (x ∷ rest)) Op.push f i >>= λ q. ok (ymc_next q)))
      → Reads closure scope a
  leaf-Reads a t x f i hf hi spelled no_spine no_literals one codes fits denotes operand k m fuel n
        p rest level le enough follows space =
      let p₀ : Parser = reading p (x ∷ rest) in
      (
        emitted p₀ (asm_build (op_code Op.push) f i),
        leaf_outcome a t p.blk p.blk f i one codes fits (denotes p.blk) refl
            (subst (λ (j : ℕ). Grows j p.blk p.blk) (sym no_literals)
              (Grows-refl p.blk space.counted))
            _,
        ap (λ (ts : List Lexeme). run closure scope fuel (spine a + suc n) m (reading p ts))
              (spelled rest)
            ∙ ap (λ (j : ℕ). run closure scope fuel (j + suc n) m p₀) no_spine
            ∙ onward fuel n m p₀ _
                (operand (parse_expr closure fuel) fuel p rest ∙ pushes (x ∷ rest) p f i hf hi),
      )

  pub nil-Reads : (w : Word) → Reads closure scope (Src.nil_ w)
  unfolding spell spine width literals code parse_operand parse_simple unary_op
  nil-Reads w =
      leaf-Reads (Src.nil_ w) Tree.nil_ (lexeme (tok 128) w) f_nil 0 (omega arith) (omega arith)
        (λ rest. refl) refl refl refl refl tt (λ core. Denotes.nil_) (λ expr fuel p rest. refl)

  pub true-Reads : (w : Word) → Reads closure scope (Src.true_ w)
  unfolding spell spine width literals code parse_operand parse_simple unary_op
  true-Reads w =
      leaf-Reads (Src.true_ w) (Tree.truth 1) (lexeme (tok 129) w) f_bool 1 (omega arith)
        (omega arith) (λ rest. refl) refl refl refl refl (omega arith) (λ core. Denotes.true_)
        (λ expr fuel p rest. refl)

  pub false-Reads : (w : Word) → Reads closure scope (Src.false_ w)
  unfolding spell spine width literals code parse_operand parse_simple unary_op
  false-Reads w =
      leaf-Reads (Src.false_ w) (Tree.truth 0) (lexeme (tok 130) w) f_bool 0 (omega arith)
        (omega arith) (λ rest. refl) refl refl refl refl (omega arith) (λ core. Denotes.false_)
        (λ expr fuel p rest. refl)

  literal_operand :
      (expr : Expression) (fuel : ℕ) (p : Parser) (w : Word) (v : ℕ) (rest : List Lexeme)
      → dtoll w.literal ≡ some v
      → parse_operand closure expr fuel (reading p (lexeme dec_token w ∷ rest))
        ≡ (ymk_emit_int (reading p (lexeme dec_token w ∷ rest)) (signed v) >>= λ q. ok (ymc_next q))
  unfolding parse_operand parse_simple unary_op
  literal_operand expr fuel p w v rest e =
      ap {B = Parse Parser}
        (λ (r : Option ℕ).
          or_abort r
          >>= (λ (u : ℕ). ymk_emit_int (reading p (lexeme dec_token w ∷ rest)) (signed u))
          >>= λ q. ok (ymc_next q))
        e

  pub literal-Reads : (w : Word) (v : ℕ) → Reads closure scope (Src.literal w v)
  unfolding spell spine width literals code Level ymk_emit_int
  literal-Reads w v k m fuel n p rest level le enough follows space =
      let ts = lexeme dec_token w ∷ rest in
      let r = blk_ki p.blk (signed v) in
      let p' : Parser = record p { blk = r.0 } in
      let held =
        blk_ki-Holds p.blk (signed v)
          (record { counted = space.counted; room = omega (arith, space.constants) }) in
      (
        emitted (reading p' ts) (asm_build (op_code Op.push) f_kval r.1),
        leaf_outcome (Src.literal w v) (Tree.number r.1) p.blk r.0 f_kval r.1 refl refl held.below
            (Denotes.literal held.there) held.inst held.grows _,
        onward fuel n m (reading p ts) _ (
            literal_operand (parse_expr closure fuel) fuel p w v rest level
            ∙ pushes ts p' f_kval r.1 (omega arith) held.below),
      )

  suffix_lem :
      (expr : Expression) (fuel m : ℕ) (p : Parser)
      → Follows m (ymc_peek p)
      → parse_suffix expr fuel p ≡ none
  unfolding parse_suffix
  suffix_lem expr fuel m p f =
      rw (f.not_dot, f.not_bracket, f.not_colon, f.not_paren, f.not_string, parse_suffix)

  pub suffix_stops :
      (expr : Expression) (fuel m : ℕ) (p : Parser)
      → Follows m (ymc_peek p)
      → suffix_loop expr (suc fuel) p ≡ ok p
  unfolding suffix_loop
  suffix_stops expr fuel m p f = rw (suffix_lem expr fuel m p f, suffix_loop)

  -- A name that is a local.
  find-names :
      (core : Chunk) (z : List ℕ)
      → names core ≡ names scope
      → blk_find_lz core z ≡ blk_find_lz scope z
  unfolding blk_find_lz
  find-names core z e =
      ap
        (λ (n : List Kstr × ℕ).
          if leb n.1 (kz_find (take n.1 n.0) z) then negsuc 0 else pos (kz_find (take n.1 n.0) z))
        e

  local_operand :
      (expr : Expression) (fuel i : ℕ) (p : Parser) (w : Word) (rest : List Lexeme)
      → blk_find_lz p.blk w.literal ≡ pos i
      → i < 2 ^ 16
      → parse_operand closure expr fuel (reading p (lexeme symbol_token w ∷ rest))
        ≡ suffix_loop expr fuel (emitted (reading p rest) (asm_build (op_code Op.push) f_local i))
  unfolding parse_operand parse_simple unary_op parse_suffixed parse_primary ymk_symbol
  local_operand expr fuel i p w rest e small =
      ap {B = Parse Parser} (λ (r : Parse Parser). r >>= suffix_loop expr fuel)
        (ymk_emit_push_lem (reading p rest) w.literal i e small)

  pub local-Reads : (w : Word) (i : ℕ) → Reads closure scope (Src.local_ w i)
  unfolding spell spine size width literals code Level
  local-Reads w i k m zero n p rest level le enough follows space = absurd (omega arith)
  local-Reads w i k m (suc fuel) n p rest (found, small) le enough follows space =
      let q : Parser = emitted (reading p rest) (asm_build (op_code Op.push) f_local i) in
      (
        q,
        leaf_outcome (Src.local_ w i) (Tree.local_ i) p.blk p.blk f_local i refl refl small
            Denotes.local_ refl (Grows-refl p.blk space.counted) _,
        onward (suc fuel) n m (reading p (lexeme symbol_token w ∷ rest)) q (
            local_operand (parse_expr closure (suc fuel)) (suc fuel) i p w rest
              (find-names p.blk w.literal space.in_scope ∙ found) small
            ∙ suffix_stops (parse_expr closure (suc fuel)) fuel (suc k) q follows),
      )
