-- ===== src/Vm/Loops.antt =====
-- src/thread/vm.rs: the handler of `NumericForLoop`.
use luster.Prelude.{ℕ, ◌+◌, Option, some, if◌then◌else◌}
use luster.Prelude.Int.{ℤ}
use luster.Numbers.Monad
use luster.Types.{RegisterIndex}
use luster.Float.{Float}
use luster.I64
use luster.Value
use luster.Value.{Value}
use luster.Vm.Outcome.{Step, next, ◌>>=◌, BinaryOperatorError, or_fail, lift}
use luster.Vm.Frame.{Registers, write, jump_by}

module _ ⦃fl : Float⦄ where
  -- The two arms of `NumericForLoop`.
  unfoldable pub loop_integers : RegisterIndex → ℤ → ℕ → ℕ → ℕ → Registers → Step Registers
  unfolding write jump_by I64.lt I64.checked_sum
  loop_integers base jump index limit step f = do
    i ← lift (I64.checked_sum index step)
    g ← write base (Value.integer i) f
    if (if I64.is_negative step then I64.lt i limit else I64.lt limit i)
        then next g
        else (do h ← jump_by jump g; write (base + 3) (Value.integer i) h)

  unfoldable pub loop_numbers :
      RegisterIndex → ℤ → fl.F64 → fl.F64 → fl.F64 → Registers → Step Registers
  unfolding write jump_by
  loop_numbers base jump index limit step f =
      let i = fl.add index step in
      do
        g ← write base (Value.number i) f
        if (if fl.lt step (Value.of_i64 0) then fl.lt i limit else fl.lt limit i)
            then next g
            else (do h ← jump_by jump g; write (base + 3) (Value.number i) h)

  unfoldable pub as_numbers :
      Value fl.F64 → Value fl.F64 → Value fl.F64 → Option (fl.F64 × (fl.F64 × fl.F64))
  unfolding Value.to_number
  as_numbers a b c = Monad.◌>>=◌ (Value.to_number a) λ x.
      Monad.◌>>=◌ (Value.to_number b) λ y. Monad.◌>>=◌ (Value.to_number c) λ z. some (x, (y, z))

  unfoldable pub numeric_for_loop :
      RegisterIndex → ℤ → Value fl.F64 → Value fl.F64 → Value fl.F64 → Registers → Step Registers
  unfolding as_numbers loop_integers loop_numbers
  numeric_for_loop base jump (Value.integer index) (Value.integer limit) (Value.integer step) f =
      loop_integers base jump index limit step f
  numeric_for_loop base jump index limit step f = do
    (i, (l, s)) ← or_fail BinaryOperatorError.add (as_numbers index limit step)
    loop_numbers base jump i l s f
