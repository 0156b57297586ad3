-- ===== src/Vm/Run.antt =====
-- call.c: vm_run, the loop over the instructions of a function.
use ymd.Common.{ℕ, zero, suc, ◌+◌, true, false, none, some, get_elem?}
use ymd.Asm.{asm_op, asm_flag, asm_param}
use ymd.Asm.Opcodes.{Op, op_of}
use ymd.Vm.State.{Result, done, panic, fault, Context, jump, Services}
use ymd.Vm.Ops.{
  Arith, arith_op, shift_op, on_ints, binary, unary, inv_op, invb_op, not_op, run_add, test_op,
}
use ymd.Vm.Transfers.{run_store, run_branch, run_foreach, run_push, run_setf, run_getf, run_typeof}
use ymd.Vm.Objects.{run_newmap, run_newskl, run_newdya, run_bind, run_call, run_selfcall}

-- An instruction goes on, or returns.
pub data Next (H : Type 0) : Type 0 where
  goes : Context H → Next H
  returns : ℕ → Context H → Next H

abbrev pub going : {H : Type 0} → Result (Context H) → Result (Next H)
going (done l) = done (goes l)
going panic = panic
going fault = fault

-- What a run comes to: the number of results; a panic or a fault; or no end within the fuel.
pub data Ended (H : Type 0) : Type 0 where
  returned : ℕ → Context H → Ended H
  panicked : Ended H
  faulted : Ended H
  out_of_fuel : Ended H

module _ {H : Type 0} (s : Services H) where
  -- The switch over the opcode, for the instruction `inst`.
  unfoldable pub dispatch : Op → ℕ → Context H → Result (Next H)
  dispatch Op.panic inst l = panic
  dispatch Op.ret inst l = done (returns (asm_param inst) l)
  dispatch Op.store inst l = going (run_store s (asm_flag inst) (asm_param inst) l)
  dispatch Op.jne inst l = going (run_branch s true true (asm_flag inst) (asm_param inst) l)
  dispatch Op.jnt inst l = going (run_branch s true false (asm_flag inst) (asm_param inst) l)
  dispatch Op.jnn inst l = going (run_branch s false false (asm_flag inst) (asm_param inst) l)
  dispatch Op.jmp inst l = going (jump l (asm_flag inst) (asm_param inst))
  dispatch Op.foreach inst l = going (run_foreach s (asm_flag inst) (asm_param inst) l)
  dispatch Op.setf inst l = going (run_setf s (asm_flag inst) (asm_param inst) l)
  dispatch Op.push inst l = going (run_push s (asm_flag inst) (asm_param inst) l)
  dispatch Op.test inst l = going (binary (test_op s l.heap (asm_flag inst)) l)
  dispatch Op.not inst l = going (unary not_op l)
  dispatch Op.getf inst l = going (run_getf s (asm_flag inst) (asm_param inst) l)
  dispatch Op.typeof inst l = going (run_typeof s l)
  dispatch Op.inv inst l = going (unary inv_op l)
  dispatch Op.mul inst l = going (binary (on_ints (arith_op Arith.mul)) l)
  dispatch Op.div inst l = going (binary (on_ints (arith_op Arith.div)) l)
  dispatch Op.add inst l = going (run_add s l)
  dispatch Op.sub inst l = going (binary (on_ints (arith_op Arith.sub)) l)
  dispatch Op.mod_ inst l = going (binary (on_ints (arith_op Arith.mod_)) l)
  dispatch Op.pow inst l = going (binary (on_ints (arith_op Arith.pow)) l)
  dispatch Op.andb inst l = going (binary (on_ints (arith_op Arith.andb)) l)
  dispatch Op.orb inst l = going (binary (on_ints (arith_op Arith.orb)) l)
  dispatch Op.xorb inst l = going (binary (on_ints (arith_op Arith.xorb)) l)
  dispatch Op.invb inst l = going (unary invb_op l)
  dispatch Op.shift inst l = going (binary (on_ints (shift_op (asm_flag inst))) l)
  dispatch Op.call inst l = going (run_call s inst l)
  dispatch Op.selfcall inst l = going (run_selfcall s inst l)
  dispatch Op.newmap inst l = going (run_newmap s (asm_param inst) l)
  dispatch Op.newskl inst l = going (run_newskl s (asm_param inst) l)
  dispatch Op.newdya inst l = going (run_newdya s (asm_param inst) l)
  dispatch Op.bind inst l = going (run_bind s (asm_param inst) l)

  -- One round of the loop, for the instruction `inst`.
  unfoldable pub step : ℕ → Context H → Result (Next H)
  unfolding dispatch
  step inst l = elim (op_of (asm_op inst)) [
    | some op ↦ dispatch op inst (record l { tick = l.tick + 1 })
    | none ↦ fault
  ]

  -- while (info->pc < core->kinst)
  unfoldable pub vm_run : ℕ → Context H → Ended H
  vm_run zero l = out_of_fuel
  vm_run (suc fuel) l = elim (get_elem? l.core.inst l.pc) [
    | none ↦ returned 0 l
    | some inst ↦ elim (step inst l) [
      | done (goes l') ↦ vm_run fuel l'
      | done (returns n l') ↦ returned n l'
      | panic ↦ panicked
      | fault ↦ faulted
    ]
  ]
