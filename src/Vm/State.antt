-- ===== src/Vm/State.antt =====
-- call.c: the context of a call, and the access to the stack and to locals. A panic and a fault (a
-- failed assertion, an access out of bounds, or what C leaves undefined) end a run.
use ymd.Common.{
  ℕ, ◌+◌, ◌-◌, ◌%◌, ◌^◌, ltb, ◌==◌, if◌then◌else◌, Bool, true, false, not, Option, none, some, List,
  length, get_elem?, set,
}
use ymd.Common.Int.{ℤ, pos, negsuc}
use ymd.Asm.Opcodes.{f_forward, f_backward}
use ymd.Kstr.{Kstr}
use ymd.Chunk.{Chunk, Variable, nil, int, bool, kstr, func}
use ymd.Stack.{Stack, ymd_push, ymd_top, ymd_pop, store}

pub data Result {ℓ} (A : Type ℓ) : Type ℓ where
  done : A → Result A
  panic : Result A
  fault : Result A

infixl 5 ◌>>=◌ ◌>>◌
abbrev pub ◌>>=◌ {ℓ κ} : {A : Type ℓ} {B : Type κ} → Result A → (A → Result B) → Result B
done a >>= f = f a
panic >>= f = panic
fault >>= f = fault

abbrev pub ◌>>◌ {ℓ κ} : {A : Type ℓ} {B : Type κ} → Result A → Result B → Result B
m >> k = m >>= λ _. k

abbrev pub or_panic {ℓ} : {A : Type ℓ} → Option A → Result A
or_panic none = panic
or_panic (some a) = done a

abbrev pub or_fault {ℓ} : {A : Type ℓ} → Option A → Result A
or_fault none = fault
or_fault (some a) = done a

-- struct ymd_context and struct call_info, as far as one function runs: `loc` are the slots of locals
-- from info->loc on, `bind` the bound values of the function, `core` its chunk, and `heap` all that
-- other files keep.
pub record Context (H : Type 0) : Type 0 where
  pub pc : ℕ
  pub stack : Stack Variable
  pub loc : List Variable
  pub bind : List Variable
  pub core : Chunk
  pub tick : ℕ
  pub heap : H

module _ {H : Type 0} where
  -- The slot that `ymd_top(l, i)` points to, and its value.
  unfoldable pub peek : Context H → ℕ → Result (ℕ × Variable)
  peek l i = do
    p ← or_panic (ymd_top l.stack (pos i))
    v ← or_fault (get_elem? l.stack.stk p)
    done (p, v)

  unfoldable pub poke : Context H → ℕ → Variable → Context H
  poke l p v = record l { stack = store l.stack p v }

  unfoldable pub pop : Context H → ℕ → Result (Context H)
  pop l n = do s ← or_panic (ymd_pop nil l.stack n); done (record l { stack = s })

  -- *ymd_push(l) = v
  unfoldable pub push : Context H → Variable → Result (Context H)
  push l v = do (s, p) ← or_panic (ymd_push l.stack); done (record l { stack = store s p v })

  -- ++info->pc
  abbrev pub next : Context H → Context H
  next l = record l { pc = l.pc + 1 }

  -- IMPL_JUMP; a counter below zero is a fault.
  unfoldable pub jump : Context H → ℕ → ℕ → Result (Context H)
  jump l flag param =
      if flag == f_forward
      then done (record l { pc = l.pc + param })
      else if flag == f_backward
      then if ltb l.pc param then fault else done (record l { pc = l.pc - param })
      else fault

  -- vm_local, read and written.
  unfoldable pub get_local : Context H → ℕ → Result Variable
  get_local l i =
      if ltb i (length l.bind)
      then or_fault (get_elem? l.bind i)
      else or_fault (get_elem? l.loc (i - length l.bind))

  unfoldable pub set_local : Context H → ℕ → Variable → Result (Context H)
  set_local l i v =
      let j = i - length l.bind in
      if ltb i (length l.bind)
      then done (record l { bind = set l.bind i v })
      else if ltb j (length l.loc)
      then done (record l { loc = set l.loc j v })
      else fault

-- int_of, kstr_of and func_of
abbrev pub int_of : Variable → Result ℤ
int_of (int n) = done n
int_of _ = panic

abbrev pub kstr_of : Variable → Result Kstr
kstr_of (kstr kz) = done kz
kstr_of _ = panic

abbrev pub func_of : Variable → Result ℕ
func_of (func fn) = done fn
func_of _ = panic

-- An ymd_int_t that is 0 as the int that vm_bool returns.
is_zero : ℤ → Bool
is_zero (pos n) = n % 2 ^ 32 == 0
is_zero (negsuc n) = (n + 1) % 2 ^ 32 == 0

unfoldable pub vm_bool : Variable → Bool
unfolding is_zero
vm_bool nil = false
vm_bool (bool i) = not (is_zero i)
vm_bool _ = true

-- A value of type T_BOOL from a test of C.
abbrev pub from_test : Bool → Variable
from_test true = bool (pos 1)
from_test false = bool (pos 0)

unfoldable pub is_nil : Variable → Bool
is_nil nil = true
is_nil _ = false

-- What vm_run uses of the other files: equality and order of values, containers, globals, strings,
-- functions and calls. `H` is the state that they share.
pub record Services (H : Type 0) : Type 0 where
  pub equals : H → Variable → Variable → Result Bool
  pub compare : H → Variable → Variable → Result ℤ
  pub vm_match : H → Kstr → Kstr → Result Bool
  pub vm_get : H → Variable → Variable → Result Variable
  pub vm_put : H → Variable → Variable → Variable → Result H
  pub getg : H → Variable → Result Variable
  pub putg : H → Variable → Variable → Result H
  pub typeof_kstr : H → Variable → H × Kstr
  pub vm_strcat : H → Kstr → Kstr → H × Kstr
  pub hmap_new : H → ℕ → H × ℕ
  pub skls_new : H → H × ℕ
  pub dyay_new : H → ℕ → H × ℕ
  pub dyay_add : H → ℕ → Variable → H
  pub func_clone : H → ℕ → Result (H × ℕ)
  pub n_bind : H → ℕ → ℕ
  pub func_bind : H → ℕ → ℕ → Variable → Result H
  pub ymd_call : H → Stack Variable → ℕ → ℕ → Bool → Result (H × Stack Variable × ℕ)
