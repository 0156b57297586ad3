-- ===== src/Compiler/Correct.antt =====
-- The compiler of expressions and the machine together.
use ymd.Common.{
  ℕ, suc, ◌+◌, ◌≤◌, ◌≡◌, ◌∙◌, refl, sym, ap, subst, arith, none, some, List, [], ◌∷◌, ◌++◌, length,
  length-append, get_elem?,
}
use mathlib.Core.List.{append_assoc}
use ymd.Chunk.{Variable}
use ymd.Stack.{max_stack}
use ymd.Vm.State.{done, Context, Services}
use ymd.Vm.Run.{vm_run, returned}
use ymd.Vm.Exec.{At, Arrives, arrival, vm_run-Steps}
use ymd.Vm.Operands.{Operands}
use ymd.Compiler.Emit.{Parse, ok, Lexeme, Parser}
use ymd.Compiler.Syntax.{binary_op}
use ymd.Compiler.Expr.{parse_expr}
use ymd.Compiler.Tree.{code}
use ymd.Compiler.Execute.{code-eval}
use ymd.Compiler.Grammar.{Src, spell, Level, size, width, literals, Follows}
use ymd.Compiler.Emission.{reading}
use ymd.Compiler.Outcome.{HasSpace}
use ymd.Compiler.ParseExpr.{following}
use ymd.Compiler.ParseExpr.Whole.{parse_expr_lem}
use ymd.Compiler.Meaning.{slots, depth-slots, value, eval-value}

get_elem?-middle : (xs ys : List ℕ) (x : ℕ) → get_elem? (xs ++ x ∷ ys) (length xs) ≡ some x
get_elem?-middle [] ys x = refl
get_elem?-middle (y ∷ xs) ys x = get_elem?-middle xs ys x

-- Code at the end of a list of instructions.
end-At : (front c : List ℕ) → At (front ++ c) (length front) c
end-At front [] = tt
end-At front (x ∷ c) = (
  get_elem?-middle front c x,
  subst (λ (n : ℕ). At (front ++ x ∷ c) n c) (length-append front (x ∷ []))
      (subst (λ (xs : List ℕ). At xs (length (front ++ x ∷ [])) c) (append_assoc front (x ∷ []) c)
        (end-At (front ++ x ∷ []) c)),
)

get_elem?-end : (xs : List ℕ) → get_elem? xs (length xs) ≡ none
get_elem?-end [] = refl
get_elem?-end (x ∷ xs) = get_elem?-end xs

-- What a run of the compiled expression comes to: it returns, with the value pushed.
pub record Returns {H : Type 0} (s : Services H) (l : Context H) (h : H) (vs : List Variable)
    : Type 0 where
  pub rounds : ℕ
  pub final : Context H
  pub runs : vm_run s rounds l ≡ returned 0 final
  pub operands : Operands final.stack vs
  pub heap : final.heap ≡ h

Arrives-Returns :
    {H : Type 0} (s : Services H) (l : Context H) (pc : ℕ) (h : H) (vs : List Variable)
    → pc ≡ length l.core.inst
    → Arrives s l pc h vs
    → Returns s l h vs
unfolding vm_run
Arrives-Returns s l pc h vs e a =
    let (n, runs) = vm_run-Steps s a.steps in
    record {
      rounds = n + 1;
      final = arrival s a;
      runs = runs 1 ∙ rw (ap (get_elem? l.core.inst) e ∙ get_elem?-end l.core.inst, vm_run);
      operands = a.operands;
      heap = refl;
    }

module _ {H : Type 0} (s : Services H) (closure : Parser → Parse Parser) where
  -- What the parser makes of an expression, run from the place where its code starts.
  -- On the tokens of an expression, with names that are locals of the chunk and literals that
  -- dtoll reads, followed by a token that does not go on with it, with room in the chunk and with
  -- a depth of recursion of at least its size, parse_expr reads these tokens and no more; when
  -- the expression has a value and the stack has room, vm_run on the code that was emitted
  -- returns, with that value pushed on what the stack held.
  pub compile_run :
      (a : Src) (m fuel : ℕ) (p : Parser) (rest : List Lexeme) (l : Context H) (vs : List Variable)
      (h : H) (v : Variable)
      → Level p.blk m a
      → size a ≤ fuel
      → Follows m (following rest p)
      → HasSpace p.blk (width a) (literals a) p.blk
      → Operands l.stack vs
      → length vs + slots a ≤ max_stack
      → value s l l.heap a ≡ done (h, v)
      → (q : Parser) × (parse_expr closure (suc fuel) m (reading p (spell a rest))
          ≡ ok (binary_op (following rest p), reading q rest))
        × Returns s (record l { pc = length p.blk.inst; core = q.blk }) h (vs ++ v ∷ [])
  compile_run a m fuel p rest l vs h v level enough follows space operands room e =
      let (q, o, parsed) =
        parse_expr_lem closure p.blk a m fuel p rest level enough follows space in
      let l' : Context H = record l { pc = length p.blk.inst; core = q.blk } in
      let placed : At q.blk.inst (length p.blk.inst) (code o.tree) =
        subst (λ (xs : List ℕ). At xs (length p.blk.inst) (code o.tree)) (sym o.inst)
          (end-At p.blk.inst (code o.tree)) in
      (
        q,
        parsed,
        Arrives-Returns s l' _ h (vs ++ v ∷ [])
            (sym (ap length o.inst ∙ length-append p.blk.inst (code o.tree)))
            (code-eval s l' o.tree vs h v o.fits placed operands
              (omega (arith, depth-slots o.denotes, room))
              (eval-value s l (length p.blk.inst) q.blk o.denotes l.heap ∙ e)),
      )
