-- ===== src/Vm/Steps.antt =====
-- What the instructions of operands do: binary and unary ones, on any stack below them.
use ymd.Common.{ℕ, ◌+◌, ◌<◌, ◌≡◌, ◌∙◌, refl, sym, List, [], ◌∷◌, ◌++◌, length}
use mathlib.Core.List.{append_assoc}
use ymd.Chunk.{Variable, kstr}
use ymd.Stack.{Stack, store, max_stack}
use ymd.Vm.State.{Result, done, panic, Context, poke, pop, Services}
use ymd.Vm.Ops.{binary, unary, add_op, run_add}
use ymd.Vm.Transfers.{run_typeof, run_push, push_value}
use ymd.Vm.Operands.{Operands, peek_lem, pop_lem, push_lem, peek_under, peek_top, store-Operands}

-- The instruction goes on behind itself, and leaves this heap and these values; nothing else has
-- changed.
pub record Leaves {H : Type 0} (l : Context H) (r : Result (Context H)) (h : H) (vs : List Variable)
    : Type 0 where
  pub stack : Stack Variable
  pub result : r ≡ done (record l { pc = l.pc + 1; stack = stack; heap = h })
  pub operands : Operands stack vs

module _ {H : Type 0} (l : Context H) (s : List Variable) (a b : Variable)
    (o : Operands l.stack (s ++ a ∷ b ∷ [])) where
  -- The result takes the place of the first operand, and the second one is popped.
  pub replaced :
      (m : Context H) (v : Variable)
      → m.stack ≡ l.stack
      → (st : Stack Variable) × (pop (poke m (length s) v) 1 ≡ done (record m { stack = st }))
        × Operands st (s ++ v ∷ [])
  unfolding poke
  replaced m v same =
      pop_lem (poke m (length s) v) (s ++ v ∷ []) (b ∷ [])
        (record { valid = kept.valid; holds = kept.holds ∙ sym (append_assoc s (v ∷ []) (b ∷ [])) })
    where
      kept : Operands (store m.stack (length s) v) (s ++ v ∷ b ∷ [])
      kept = store-Operands s (b ∷ []) a (rw same o) v

  pub binary_lem :
      (f : Variable → Variable → Result Variable) (v : Variable)
      → f a b ≡ done v
      → Leaves l (binary f l) l.heap (s ++ v ∷ [])
  unfolding binary
  binary_lem f v e =
      let (st, popped, ops) = replaced l v refl in
      record {
        stack = st;
        result = rw (peek_under l s a b o, peek_top l s a b o, e, popped);
        operands = ops;
      }

  pub binary_panic :
      (f : Variable → Variable → Result Variable) → f a b ≡ panic → binary f l ≡ panic
  unfolding binary
  binary_panic f e = rw (peek_under l s a b o, peek_top l s a b o, e)

module _ {H : Type 0} (l : Context H) (s : List Variable) (a : Variable)
    (o : Operands l.stack (s ++ a ∷ [])) where
  pub unary_lem :
      (f : Variable → Result Variable) (v : Variable)
      → f a ≡ done v
      → Leaves l (unary f l) l.heap (s ++ v ∷ [])
  unfolding unary poke
  unary_lem f v e = record {
    stack = store l.stack (length s) v;
    result = rw (peek_lem l s [] a o, e);
    operands = store-Operands s [] a o v;
  }

  pub unary_panic : (f : Variable → Result Variable) → f a ≡ panic → unary f l ≡ panic
  unfolding unary
  unary_panic f e = rw (peek_lem l s [] a o, e)

module _ {H : Type 0} (srv : Services H) (l : Context H) where
  -- I_ADD, whose result may be a new string.
  pub run_add_lem :
      (s : List Variable) (a b v : Variable) (h : H)
      → Operands l.stack (s ++ a ∷ b ∷ [])
      → add_op srv l.heap a b ≡ done (h, v)
      → Leaves l (run_add srv l) h (s ++ v ∷ [])
  unfolding run_add
  run_add_lem s a b v h o e =
      let (st, popped, ops) = replaced l s a b o (record l { heap = h }) v refl in
      record {
        stack = st;
        result = rw (peek_under l s a b o, peek_top l s a b o, e, popped);
        operands = ops;
      }

  pub run_typeof_lem :
      (s : List Variable) (a : Variable)
      → Operands l.stack (s ++ a ∷ [])
      → Leaves l
          (run_typeof srv l)
          (srv.typeof_kstr l.heap a).0
          (s ++ kstr (srv.typeof_kstr l.heap a).1 ∷ [])
  unfolding run_typeof poke
  run_typeof_lem s a o = record {
    stack = store l.stack (length s) (kstr (srv.typeof_kstr l.heap a).1);
    result = rw (peek_lem l s [] a o);
    operands = store-Operands s [] a o (kstr (srv.typeof_kstr l.heap a).1);
  }

  pub run_push_lem :
      (flag param : ℕ) (vs : List Variable) (v : Variable)
      → Operands l.stack vs
      → length vs < max_stack
      → push_value srv flag param l ≡ done v
      → Leaves l (run_push srv flag param l) l.heap (vs ++ v ∷ [])
  unfolding run_push
  run_push_lem flag param vs v o room e =
      let (st, pushed, ops) = push_lem l vs v o room in
      record { stack = st; result = rw (e, pushed); operands = ops }
