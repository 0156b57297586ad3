-- ===== src/Compiler/Loops/Run.antt =====
-- compiler.c and call.c: the jumps of a loop, run by the machine.
use ymd.Common.{ℕ}
use ymd.Chunk.{Chunk}
use ymd.Vm.State.{Context, Services}

module _ {H : Type 0} (s : Services H) (l : Context H) where
  -- The context at the instruction `pc` of the chunk `core`.
  abbrev pub at : Chunk → ℕ → ℕ → Context H
  at core pc tick = record l { pc = pc; core = core; tick = tick }
