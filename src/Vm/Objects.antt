-- ===== src/Vm/Objects.antt =====
-- call.c: the instructions that make containers, bind values to functions, and call.
use ymd.Common.{ℕ, zero, suc, ◌+◌, ◌-◌, ◌*◌, ◌==◌, if◌then◌else◌, Bool, true, false, ◌||◌}
use ymd.Asm.{asm_aret, asm_argc, asm_method}
use ymd.Chunk.{Variable, nil, func, dyay, hmap, skls}
use ymd.Stack.{ymd_adjust}
use ymd.Vm.State.{
  Result, done, panic, fault, ◌>>=◌, or_panic, Context, peek, poke, pop, push, next, func_of,
  is_nil, Services,
}
use ymd.Vm.Ops.{constant}

module _ {H : Type 0} (s : Services H) where
  -- do_put of a pair into a new map or skip list.
  unfoldable pub do_put : H → Variable → Variable → Variable → Result H
  do_put h raw k v = if is_nil k || is_nil v then panic else s.vm_put h raw k v

  unfoldable pub put_loop : ℕ → ℕ → Variable → Context H → Result (Context H)
  unfolding do_put
  put_loop zero i raw l = done l
  put_loop (suc n) i raw l = do
    (p, k) ← peek l (i + 1)
    (q, v) ← peek l i
    h ← do_put l.heap raw k v
    put_loop n (i + 2) raw (record l { heap = h })

  -- The `n` pairs on the stack go into the new object, and it takes their place.
  unfoldable pub run_newmap : ℕ → Context H → Result (Context H)
  unfolding put_loop
  run_newmap n l =
      let (h, o) = s.hmap_new l.heap n in
      do
        l' ← put_loop n 0 (hmap o) (record l { heap = h })
        r ← pop l' (n * 2)
        r' ← push r (hmap o)
        done (next r')

  unfoldable pub run_newskl : ℕ → Context H → Result (Context H)
  unfolding put_loop
  run_newskl n l =
      let (h, o) = s.skls_new l.heap in
      do
        l' ← put_loop n 0 (skls o) (record l { heap = h })
        r ← pop l' (n * 2)
        r' ← push r (skls o)
        done (next r')

  -- while (i--) do_put(vm, gcx(map), NULL, ymd_top(l, i))
  unfoldable pub add_loop : ℕ → ℕ → Context H → Result (Context H)
  add_loop zero o l = done l
  add_loop (suc i) o l = do
    (p, v) ← peek l i
    h ← if is_nil v then panic else done (s.dyay_add l.heap o v)
    add_loop i o (record l { heap = h })

  unfoldable pub run_newdya : ℕ → Context H → Result (Context H)
  unfolding add_loop
  run_newdya n l =
      let (h, o) = s.dyay_new l.heap 0 in
      do
        l' ← add_loop n o (record l { heap = h })
        r ← pop l' n
        r' ← push r (dyay o)
        done (next r')

  -- while (i--) func_bind(vm, copied, param - i - 1, ymd_top(l, i))
  unfoldable pub bind_loop : ℕ → ℕ → ℕ → Context H → Result (Context H)
  bind_loop zero param copied l = done l
  bind_loop (suc i) param copied l = do
    (p, v) ← peek l i
    h ← s.func_bind l.heap copied (param - i - 1) v
    bind_loop i param copied (record l { heap = h })

  unfoldable pub run_bind : ℕ → Context H → Result (Context H)
  unfolding bind_loop
  run_bind param l = do
    (p, opd) ← peek l param
    fn ← func_of opd
    (h, copied) ← s.func_clone l.heap fn
    if s.n_bind h copied == param
        then (do
          l' ← bind_loop param param copied (record l { heap = h })
          r ← pop (poke l' p (func copied)) param
          done (next r))
        else fault

  -- ymd_adjust(l, adjust, ymd_call(l, called, argc, method))
  unfoldable pub call_adjust : Variable → ℕ → ℕ → Bool → Context H → Result (Context H)
  call_adjust var adjust argc method l = do
    called ← func_of var
    (h, stack, rv) ← s.ymd_call l.heap l.stack called argc method
    stack' ← or_panic (ymd_adjust nil stack adjust rv)
    done (next (record l { heap = h; stack = stack' }))

  unfoldable pub run_call : ℕ → Context H → Result (Context H)
  unfolding call_adjust
  run_call inst l = do
    (p, var) ← peek l (asm_argc inst)
    call_adjust var (asm_aret inst) (asm_argc inst) false l

  unfoldable pub run_selfcall : ℕ → Context H → Result (Context H)
  unfolding call_adjust
  run_selfcall inst l = do
    (p, var) ← peek l (asm_argc inst)
    k ← constant l.core (asm_method inst)
    method ← s.vm_get l.heap var k
    call_adjust method (asm_aret inst) (asm_argc inst) true l
