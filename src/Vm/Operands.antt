-- ===== src/Vm/Operands.antt =====
-- The values on the operand stack, under the accesses of the instructions.
use ymd.Common.{
  ℕ, zero, suc, ◌+◌, ◌-◌, ◌<◌, ◌≡◌, ◌∙◌, refl, sym, ap, arith, leb, false, some, List, [], ◌∷◌,
  ◌++◌, length, get_elem?, set, take, length-append, length-set, length-take, take_all,
}
use mathlib.Core.List.{append_assoc}
use ymd.Common.Int.{pos}
use ymd.Chunk.{Variable, nil}
use ymd.Stack.{Stack, ymd_push, ymd_top, max_stack, store}
use ymd.Stack.Contents.{IsValid, values, ymd_pop_lem, pushed, pushed-IsValid, values-pushed}
use ymd.Vm.State.{done, ◌>>=◌, or_panic, Context, peek, pop, push}

-- The stack is valid, and holds these values.
pub record Operands (st : Stack Variable) (vs : List Variable) : Type 0 where
  pub valid : IsValid st
  pub holds : values st ≡ vs

get_elem?-take : (n i : ℕ) (xs : List Variable) → i < n → get_elem? (take n xs) i ≡ get_elem? xs i
get_elem?-take zero i xs h = absurd (omega arith)
get_elem?-take (suc n) i [] h = refl
get_elem?-take (suc n) zero (x ∷ xs) h = refl
get_elem?-take (suc n) (suc i) (x ∷ xs) h = get_elem?-take n i xs (omega arith)

get_elem?-middle :
    (s rest : List Variable) (v : Variable) → get_elem? (s ++ v ∷ rest) (length s) ≡ some v
get_elem?-middle [] rest v = refl
get_elem?-middle (x ∷ s) rest v = get_elem?-middle s rest v

set-middle :
    (s rest : List Variable) (a v : Variable) → set (s ++ a ∷ rest) (length s) v ≡ s ++ v ∷ rest
set-middle [] rest a v = refl
set-middle (x ∷ s) rest a v = ap (◌∷◌ x) (set-middle s rest a v)

take-set_comm :
    (n i : ℕ) (xs : List Variable) (v : Variable) → take n (set xs i v) ≡ set (take n xs) i v
take-set_comm zero i xs v = refl
take-set_comm (suc n) i [] v = refl
take-set_comm (suc n) zero (x ∷ xs) v = refl
take-set_comm (suc n) (suc i) (x ∷ xs) v = ap (◌∷◌ x) (take-set_comm n i xs v)

module _ {st : Stack Variable} {vs : List Variable} (o : Operands st vs) where
  pub length_operands : length vs ≡ st.top
  length_operands =
      omega (arith, ap length o.holds, length-take st.top st.stk, o.valid.whole, o.valid.fits)

module _ {st : Stack Variable} (s rest : List Variable) (v : Variable)
    (o : Operands st (s ++ v ∷ rest)) where
  top_of_parts : st.top ≡ length s + suc (length rest)
  top_of_parts = omega (arith, length_operands o, length-append s (v ∷ rest))

  ymd_top_lem : ymd_top st (pos (length rest)) ≡ some (length s)
  unfolding ymd_top
  ymd_top_lem = ground (arith, top_of_parts)

  read_lem : get_elem? st.stk (length s) ≡ some v
  read_lem =
      sym (get_elem?-take st.top (length s) st.stk (omega (arith, top_of_parts)))
      ∙ ap (λ xs. get_elem? xs (length s)) o.holds
      ∙ get_elem?-middle s rest v

  -- A write in place of a value.
  pub store-Operands : (w : Variable) → Operands (store st (length s) w) (s ++ w ∷ rest)
  store-Operands w = record {
    valid = record { whole = length-set st.stk (length s) w ∙ o.valid.whole; fits = o.valid.fits };
    holds =
        take-set_comm st.top (length s) st.stk w
        ∙ ap (λ xs. set xs (length s) w) o.holds
        ∙ set-middle s rest v w;
  }

module _ {H : Type 0} (l : Context H) where
  pub peek_lem :
      (s rest : List Variable) (v : Variable)
      → Operands l.stack (s ++ v ∷ rest)
      → peek l (length rest) ≡ done (length s, v)
  unfolding peek
  peek_lem s rest v o = rw (ymd_top_lem s rest v o, read_lem s rest v o)

  pub push_lem :
      (vs : List Variable) (v : Variable)
      → Operands l.stack vs
      → length vs < max_stack
      → (st : Stack Variable) × (push l v ≡ done (record l { stack = st }))
        × Operands st (vs ++ v ∷ [])
  unfolding push ymd_push
  push_lem vs v o h = (
    pushed v l.stack,
    rw room,
    record {
      valid = pushed-IsValid v l.stack o.valid below;
      holds = values-pushed v l.stack o.valid below ∙ ap (λ xs. xs ++ v ∷ []) o.holds;
    },
  )
    where
      below : l.stack.top < max_stack
      below = omega (arith, length_operands o)

      room : leb max_stack l.stack.top ≡ false
      room = ground (arith, below)

  pub pop_lem :
      (vs ws : List Variable)
      → Operands l.stack (vs ++ ws)
      → (st : Stack Variable) × (pop l (length ws) ≡ done (record l { stack = st }))
        × Operands st vs
  unfolding pop
  pop_lem vs ws o =
      let size = length-append vs ws in
      let (st, e, valid, kept) =
        ymd_pop_lem nil l.stack (length ws) o.valid (omega (arith, length_operands o, size)) in
      (
        st,
        ap (λ r. or_panic r >>= λ s. done (record l { stack = s })) e,
        record { valid = valid; holds = kept ∙ left },
      )
    where
      left : take (l.stack.top - length ws) (values l.stack) ≡ vs
      left =
          ap (λ (n : ℕ). take n (values l.stack)) depth
          ∙ ap (take (length vs)) o.holds
          ∙ take_all vs ws
        where
          depth : l.stack.top - length ws ≡ length vs
          depth = omega (arith, length_operands o, length-append vs ws)

module _ {H : Type 0} (l : Context H) (s : List Variable) (a b : Variable)
    (o : Operands l.stack (s ++ a ∷ b ∷ [])) where
  -- The two operands of an instruction.
  pub peek_under : peek l 1 ≡ done (length s, a)
  peek_under = peek_lem l s (b ∷ []) a o

  regrouped : Operands l.stack ((s ++ a ∷ []) ++ b ∷ [])
  regrouped = record { valid = o.valid; holds = o.holds ∙ sym (append_assoc s (a ∷ []) (b ∷ [])) }

  pub peek_top : peek l 0 ≡ done (length (s ++ a ∷ []), b)
  peek_top = peek_lem l (s ++ a ∷ []) [] b regrouped
