-- ===== src/Compiler/Meaning.antt =====
-- The value of an expression as it is written, and that of the tree that it denotes.
use ymd.Common.{ℕ, ◌+◌, ◌≡◌, ◌∙◌, refl, ap, arith, true, false, List}
use Prim.Native.Nat.{max}
use mathlib.Core.Path.{fun_ext}
use ymd.Common.Int.{pos}
use ymd.Chunk.{Chunk, Variable, nil, int, bool}
use ymd.Vm.Arith.{signed}
use ymd.Vm.State.{Result, done, ◌>>=◌, Context, get_local, Services}
use ymd.Vm.Ops.{constant}
use ymd.Compiler.Syntax.{BinaryOp}
use ymd.Compiler.Tree.{Tree, with_state, apply_unary, apply_binary, decides, eval, depth}
use ymd.Compiler.Grammar.{Src, Denotes}

-- The slots of the stack that the evaluation takes.
unfoldable pub slots : Src → ℕ
slots (Src.parens w a w') = slots a
slots (Src.unary op w a) = slots a
slots (Src.binary op w a b) = max (slots a) (slots b + 1)
slots _ = 1

pub depth-slots : {kval : List Variable} {a : Src} {t : Tree} → Denotes kval a t → depth t ≡ slots a
unfolding slots
depth-slots Denotes.nil_ = refl
depth-slots Denotes.true_ = refl
depth-slots Denotes.false_ = refl
depth-slots (Denotes.literal e) = refl
depth-slots Denotes.local_ = refl
depth-slots (Denotes.parens d) = depth-slots d
depth-slots (Denotes.unary d) = depth-slots d
depth-slots (Denotes.binary d e) = omega (arith, depth-slots d, depth-slots e)

module _ {H : Type 0} (s : Services H) (l : Context H) where
  -- Literals are their numbers, and parentheses do nothing.
  unfoldable pub value : H → Src → Result (H × Variable)
  value h (Src.nil_ w) = done (h, nil)
  value h (Src.true_ w) = done (h, bool (pos 1))
  value h (Src.false_ w) = done (h, bool (pos 0))
  value h (Src.literal w n) = done (h, int (signed n))
  value h (Src.local_ w i) = with_state s h (get_local l i)
  value h (Src.parens w a w') = value h a
  value h (Src.unary op w a) = do (h', v) ← value h a; apply_unary s h' op v
  value h (Src.binary op w a b) = do
    (h', v) ← value h a
    elim (decides s op v) [
      | true ↦ done (h', v)
      | false ↦ (do (h'', u) ← value h' b; apply_binary s h'' op v u)
    ]

  -- A binary operator, from the evaluation of its operands.
  abbrev both :
      BinaryOp → Result (H × Variable) → (H → Result (H × Variable)) → Result (H × Variable)
  both op r second = do
    (h', v) ← r
    elim (decides s op v) [
      | true ↦ done (h', v)
      | false ↦ (do (h'', u) ← second h'; apply_binary s h'' op v u)
    ]

  pub eval-value :
      (pc : ℕ) (core : Chunk) {a : Src} {t : Tree}
      → Denotes core.kval a t
      → (h : H) → eval s (record l { pc = pc; core = core }) h t ≡ value h a
  unfolding eval value get_local constant
  eval-value pc core Denotes.nil_ h = refl
  eval-value pc core Denotes.true_ h = refl
  eval-value pc core Denotes.false_ h = refl
  eval-value pc core (Denotes.literal e) h = rw (e)
  eval-value pc core Denotes.local_ h = refl
  eval-value pc core (Denotes.parens d) h = eval-value pc core d h
  eval-value pc core (Denotes.unary {op = op} d) h =
      ap {B = Result (H × Variable)}
        (λ (r : Result (H × Variable)). r >>= λ x. apply_unary s x.0 op x.1)
        (eval-value pc core d h)
  eval-value pc core (Denotes.binary {op = op} {a = a} {b = b} {t = t} {u = u} d e) h =
      ap
        (λ (r : Result (H × Variable)).
          both op r (λ h'. eval s (record l { pc = pc; core = core }) h' u))
        (eval-value pc core d h)
      ∙ ap {B = Result (H × Variable)} (both op (value h a)) (fun_ext (eval-value pc core e))
