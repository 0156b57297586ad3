-- ===== src/Vm/Transfers.antt =====
-- call.c: the instructions of vm_run that jump, and those that move values between the stack, locals,
-- globals and containers.
use ymd.Common.{ℕ, zero, suc, ◌+◌, ◌*◌, ◌==◌, if◌then◌else◌, Bool, true, false}
use ymd.Common.Int.{pos}
use ymd.Asm.Opcodes.{f_kval, f_local, f_bool, f_nil, f_off, f_stack, f_fast}
use ymd.Chunk.{Variable, nil, bool, kstr}
use ymd.Vm.State.{
  Result, done, panic, fault, ◌>>=◌, Context, peek, poke, pop, push, next, jump, get_local,
  set_local, vm_bool, is_nil, Services,
}
use ymd.Vm.Ops.{do_keyz, constant}

module _ {H : Type 0} (s : Services H) where
  unfoldable pub run_store : ℕ → ℕ → Context H → Result (Context H)
  run_store flag param l = do
    (p, v) ← peek l 0
    l' ←
        (if flag == f_local
          then set_local l param v
          else if flag == f_off
          then (do k ← do_keyz l.core param; h ← s.putg l.heap k v; done (record l { heap = h }))
          else done l)
    r ← pop l' 1
    done (next r)

  -- I_JNE, I_JNT and I_JNN: `stay` is the truth at which the instruction falls through; I_JNE pops on
  -- a jump too.
  unfoldable pub run_branch : Bool → Bool → ℕ → ℕ → Context H → Result (Context H)
  run_branch stay drop flag param l = do
    (p, v) ← peek l 0
    let fall = (do r ← pop l 1; done (next r)) in
        let taken = (do r ← jump l flag param; if drop then pop r 1 else done r) in
        elim stay [
          | true ↦ if vm_bool v then fall else taken
          | false ↦ if vm_bool v then taken else fall
        ]

  unfoldable pub run_foreach : ℕ → ℕ → Context H → Result (Context H)
  run_foreach flag param l = do
    (p, v) ← peek l 0
    if is_nil v then (do r ← jump l flag param; pop r 1) else done (next l)

  unfoldable pub push_value : ℕ → ℕ → Context H → Result Variable
  push_value flag param l =
      if flag == f_kval
      then constant l.core param
      else if flag == f_local
      then get_local l param
      else if flag == f_bool
      then done (bool (pos param))
      else if flag == f_nil
      then done nil
      else if flag == f_off
      then (do_keyz l.core param >>= s.getg l.heap)
      else fault

  unfoldable pub run_push : ℕ → ℕ → Context H → Result (Context H)
  unfolding push_value
  run_push flag param l = do v ← push_value flag param l; r ← push l v; done (next r)

  -- vm_iput
  unfoldable pub vm_iput : H → Variable → Variable → Variable → Result H
  vm_iput h var k v = do h' ← s.vm_put h var k v; if is_nil v then panic else done h'

  -- for (i = 0; i < k; i += 2), with `n` rounds to go.
  unfoldable pub iput_loop : ℕ → ℕ → Variable → Context H → Result (Context H)
  unfolding vm_iput
  iput_loop zero i var l = done l
  iput_loop (suc n) i var l = do
    (p, k) ← peek l (i + 1)
    (q, v) ← peek l i
    h ← vm_iput l.heap var k v
    iput_loop n (i + 2) var (record l { heap = h })

  unfoldable pub run_setf : ℕ → ℕ → Context H → Result (Context H)
  unfolding iput_loop
  run_setf flag param l =
      if flag == f_stack
      then (do
        (p, var) ← peek l (param * 2)
        l' ← iput_loop param 0 var l
        r ← pop l' (param * 2 + 1)
        done (next r))
      else if flag == f_fast
      then (do
        (p, var) ← peek l 1
        k ← constant l.core param
        (q, v) ← peek l 0
        h ← vm_iput l.heap var k v
        r ← pop (record l { heap = h }) 2
        done (next r))
      else fault

  unfoldable pub run_getf : ℕ → ℕ → Context H → Result (Context H)
  run_getf flag param l =
      if flag == f_stack
      then (do
        (p, k) ← peek l 0
        (q, var) ← peek l 1
        v ← s.vm_get l.heap var k
        l' ← pop l 2
        r ← push l' v
        done (next r))
      else if flag == f_fast
      then (do
        (p, var) ← peek l 0
        k ← constant l.core param
        v ← s.vm_get l.heap var k
        done (next (poke l p v)))
      else fault

  unfoldable pub run_typeof : Context H → Result (Context H)
  run_typeof l = do
    (p, v) ← peek l 0
    let (h, kz) = s.typeof_kstr l.heap v in done (next (poke (record l { heap = h }) p (kstr kz)))
