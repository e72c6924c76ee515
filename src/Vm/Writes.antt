-- ===== src/Vm/Writes.antt =====
-- src/thread/vm.rs: writes to a register of the frame.
use luster.Prelude.{◌<◌, ◌≡◌, arith, length, set}
use luster.Types.{RegisterIndex}
use luster.Float.{Float}
use luster.Value.{Value}
use luster.Vm
use luster.Vm.{Registers}
use luster.Vm.Outcome.{next}

module _ ⦃fl : Float⦄ where
  pub write-fits :
      (dest : RegisterIndex) (v : Value fl.F64) (f : Registers)
      → dest < length f.stack_frame
      → Vm.write dest v f ≡ next (record f { stack_frame = set f.stack_frame dest v })
  unfolding Vm.write
  write-fits dest v f h = ground arith
