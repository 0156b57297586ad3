-- ===== src/Vm.antt =====
-- call.c: the machine. Vm.Arith has the arithmetic of its integers, Vm.State the context and the
-- access to the stack and to locals, Vm.Ops, Vm.Transfers and Vm.Objects the instructions, and
-- Vm.Run the loop of vm_run.
pub mod Arith
pub mod State
pub mod Ops
pub mod Transfers
pub mod Objects
pub mod Run
pub mod Operands
pub mod Steps
pub mod Exec
pub mod Errors
pub mod Fixture
mod Tests
