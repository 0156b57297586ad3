-- ===== src/Stack.antt =====
-- state.h: the operand stack of the machine. The stack is the list of its slots with the number in
-- use; a pointer into it is an index, and a panic is `none`. Counts that are never negative are
-- natural numbers; the index of ymd_top is an integer.
pub mod Contents
mod Tests
use ymd.Common.{
  ℕ, zero, suc, ◌+◌, ◌-◌, ltb, leb, ◌==◌, if◌then◌else◌, Option, none, some, ◌>>=◌, List, [], ◌∷◌,
  ◌++◌, length, get_elem?, set, take, drop, replicate,
}
use ymd.Common.Int.{ℤ, pos, negsuc}

-- MAX_STACK
abbrev pub max_stack : ℕ
max_stack = 128

-- The fields `stk` and `top` of struct ymd_context.
pub record Stack {ℓ} (A : Type ℓ) : Type ℓ where
  pub stk : List A
  pub top : ℕ

module _ {ℓ} {A : Type ℓ} where
  -- The index of the new slot, which keeps what it held.
  unfoldable pub ymd_push : Stack A → Option (Stack A × ℕ)
  ymd_push l = if leb max_stack l.top then none else some (record l { top = l.top + 1 }, l.top)

  -- From the top for an index from 0 on; a negative index -n is taken to stk + 1 + n.
  unfoldable pub ymd_top : Stack A → ℤ → Option ℕ
  ymd_top l (pos i) =
      if l.top == 0
      then none
      else if ltb 0 i
      then if leb l.top i then none else some (l.top - 1 - i)
      else some (l.top - 1 - i)
  ymd_top l (negsuc n) =
      if l.top == 0 then none else if leb l.top (n + 2) then none else some (n + 2)

  -- Writes through a pointer.
  abbrev pub store : Stack A → ℕ → A → Stack A
  store l p v = record l { stk = set l.stk p v }

  -- memmove(p, p + 1, ...) of the slots up to the top.
  abbrev close_gap : Stack A → ℕ → Stack A
  close_gap l p = record l {
    stk = take p l.stk ++ take (l.top - p - 1) (drop (suc p) l.stk) ++ drop (l.top - 1) l.stk;
  }

  unfoldable pub ymd_move : Stack A → ℤ → Option (Stack A)
  unfolding ymd_top
  ymd_move l (pos zero) = do p ← ymd_top l (pos 0); some l
  ymd_move l i = do
    p ← ymd_top l i
    k ← get_elem? l.stk p
    let l' = close_gap l p in do q ← ymd_top l' (pos 0); some (store l' q k)

  module _ (nil : A) where
    -- The slots given back are cleared.
    unfoldable pub ymd_pop : Stack A → ℕ → Option (Stack A)
    ymd_pop l n =
        let top = l.top - n in
        if ltb l.top n
        then none
        else some
            (record { stk = take top l.stk ++ replicate n nil ++ drop (top + n) l.stk; top = top })

    -- while (i--) vset_nil(ymd_push(l))
    unfoldable pub push_nils : ℕ → Stack A → Option (Stack A)
    unfolding ymd_push
    push_nils zero l = some l
    push_nils (suc i) l = do (l', p) ← ymd_push l; push_nils i (store l' p nil)

    -- The result is `ret` in each case, and is left out.
    unfoldable pub ymd_adjust : Stack A → ℕ → ℕ → Option (Stack A)
    unfolding ymd_pop push_nils
    ymd_adjust l adjust ret =
        if ltb adjust ret
        then ymd_pop l (ret - adjust)
        else if ltb ret adjust
        then push_nils (adjust - ret) l
        else some l
