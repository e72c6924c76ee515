-- ===== src/Vm/Tests.antt =====
-- src/thread/vm.rs: a loop from 1 to 3, in its second round.
use luster.Prelude.{◌≡◌, refl, [], ◌∷◌, arith}
use luster.Prelude.Int.{negsuc}
use luster.OpCode.{OpCode}
use luster.Float.Whole.{wholes}
use luster.I64.{sum_overflows}
use luster.Value.{integer}
use luster.Vm.{Registers, exec, register}
use luster.Vm.Frame.{add_offset}
use luster.Vm.Outcome.{next}
use luster.Vm.ForLoop.{Advances, numeric_for_loop-Advances}

abbrev looping : Registers ⦃fl = wholes⦄
looping = record { pc = 9; stack_frame = integer 1 ∷ integer 3 ∷ integer 1 ∷ integer 1 ∷ [] }

reads_index : register ⦃fl = wholes⦄ 0 looping ≡ next (integer 1)
unfolding register
reads_index = refl

reads_limit : register ⦃fl = wholes⦄ 1 looping ≡ next (integer 3)
unfolding register
reads_limit = refl

reads_step : register ⦃fl = wholes⦄ 2 looping ≡ next (integer 1)
unfolding register
reads_step = refl

jumps_back : add_offset 9 (negsuc 4) ≡ next 4
unfolding add_offset
jumps_back = refl

numeric_for_loop-Advances_example :
    Advances ⦃fl = wholes⦄
      (sum_overflows 1 1)
      0
      4
      1
      3
      1
      looping
      (exec ⦃fl = wholes⦄ [] (OpCode.numeric_for_loop 0 (negsuc 4)) looping)
numeric_for_loop-Advances_example =
    numeric_for_loop-Advances ⦃fl = wholes⦄ [] 0 (negsuc 4) 1 3 1 4 looping (omega arith)
      (omega arith) (omega arith) (omega arith) jumps_back reads_index reads_limit reads_step
