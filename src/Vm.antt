-- ===== src/Vm.antt =====
-- src/thread/vm.rs: the instructions that work on the registers of one frame. An instruction that
-- reads or writes a table, an upvalue, a closure or another frame is `outside`.
pub mod Outcome
pub mod Frame
pub mod Loops
pub mod Arithmetic
pub mod Writes
pub mod ForLoop
pub mod Tests
use luster.Prelude.{
  ℕ, zero, suc, ◌+◌, ◌-◌, ◌^◌, ◌&&◌, Bool, true, false, not, Option, none, some, List, [], length,
  get_elem?, set, ltb, leb, if◌then◌else◌,
}
use luster.Prelude.Int.{ℤ, pos, negsuc}
use luster.Prelude.Run.{Run, done, panic}
use luster.Numbers.Monad
use luster.Types
use luster.Types.{RegisterIndex}
use luster.OpCode.{OpCode}
use luster.Float.{Float}
use luster.I64
use luster.Value
use luster.Value.{Value}
use luster.Constant.{Constant, to_value}
use luster.Vm.Outcome.{
  Step, next, fail, panics, outside, ◌>>=◌, BinaryOperatorError, or_fail, or_panic, lift,
}
pub use luster.Vm.Frame.{Registers, Constants, same}
unfoldable pub use luster.Vm.Frame.{
  register, write, constant, skip_when, jump_by, load_nils, arithmetic, comparison,
}
use luster.Vm.Loops.{numeric_for_loop}
unfoldable pub use luster.Vm.Arithmetic.{exec_shift, exec_bitwise, exec_division, exec_arithmetic}

module _ ⦃fl : Float⦄ where
  -- `Not`, `Minus` and `BitNot`
  unfoldable pub exec_unary : Constants → OpCode → Registers → Step Registers
  unfolding exec_arithmetic register write Value.not_value Value.negate Value.bitwise_not
  exec_unary p (OpCode.not dest source) f = do
    a ← register source f
    write dest (Value.not_value a) f
  exec_unary p (OpCode.minus dest source) f = do
    a ← register source f
    v ← or_fail BinaryOperatorError.unary_negate (Value.negate a)
    write dest v f
  exec_unary p (OpCode.bit_not dest source) f = do
    a ← register source f
    v ← or_fail BinaryOperatorError.bit_not (Value.bitwise_not a)
    write dest v f
  exec_unary p op f = exec_arithmetic p op f

  -- `Eq`, `Less` and `LessEq`
  unfoldable pub exec_comparison : Constants → OpCode → Registers → Step Registers
  unfolding exec_unary register constant comparison Value.value_eq Value.less_than Value.less_equal
  exec_comparison p (OpCode.eq_rr skip_if left right) f =
      comparison (λ x y. next (Value.value_eq x y)) skip_if (register left f) (register right f) f
  exec_comparison p (OpCode.eq_rc skip_if left right) f =
      comparison (λ x y. next (Value.value_eq x y)) skip_if (register left f) (constant right p) f
  exec_comparison p (OpCode.eq_cr skip_if left right) f =
      comparison (λ x y. next (Value.value_eq x y)) skip_if (constant left p) (register right f) f
  exec_comparison p (OpCode.eq_cc skip_if left right) f =
      comparison (λ x y. next (Value.value_eq x y)) skip_if (constant left p) (constant right p) f
  exec_comparison p (OpCode.less_rr skip_if left right) f =
      comparison (λ x y. or_fail BinaryOperatorError.less_than (Value.less_than x y)) skip_if
        (register left f) (register right f) f
  exec_comparison p (OpCode.less_rc skip_if left right) f =
      comparison (λ x y. or_fail BinaryOperatorError.less_than (Value.less_than x y)) skip_if
        (register left f) (constant right p) f
  exec_comparison p (OpCode.less_cr skip_if left right) f =
      comparison (λ x y. or_fail BinaryOperatorError.less_than (Value.less_than x y)) skip_if
        (constant left p) (register right f) f
  exec_comparison p (OpCode.less_cc skip_if left right) f =
      comparison (λ x y. or_fail BinaryOperatorError.less_than (Value.less_than x y)) skip_if
        (constant left p) (constant right p) f
  exec_comparison p (OpCode.less_eq_rr skip_if left right) f =
      comparison (λ x y. or_fail BinaryOperatorError.less_equal (Value.less_equal x y)) skip_if
        (register left f) (register right f) f
  exec_comparison p (OpCode.less_eq_rc skip_if left right) f =
      comparison (λ x y. or_fail BinaryOperatorError.less_equal (Value.less_equal x y)) skip_if
        (register left f) (constant right p) f
  exec_comparison p (OpCode.less_eq_cr skip_if left right) f =
      comparison (λ x y. or_fail BinaryOperatorError.less_equal (Value.less_equal x y)) skip_if
        (constant left p) (register right f) f
  exec_comparison p (OpCode.less_eq_cc skip_if left right) f =
      comparison (λ x y. or_fail BinaryOperatorError.less_equal (Value.less_equal x y)) skip_if
        (constant left p) (constant right p) f
  exec_comparison p op f = exec_unary p op f

  -- `GenericForLoop`
  unfoldable pub exec_generic_for : Constants → OpCode → Registers → Step Registers
  unfolding exec_comparison register write jump_by Value.to_bool
  exec_generic_for p (OpCode.generic_for_loop base jump) f = do
    v ← register (base + 1) f
    if not (Value.to_bool v) then next f else (do g ← write base v f; jump_by jump g)
  exec_generic_for p op f = exec_comparison p op f

  -- `NumericForPrep` and `NumericForLoop`
  unfoldable pub exec_numeric_for : Constants → OpCode → Registers → Step Registers
  unfolding exec_generic_for register write jump_by numeric_for_loop Value.subtract
  exec_numeric_for p (OpCode.numeric_for_prep base jump) f = do
    index ← register base f
    step ← register (base + 2) f
    v ← or_fail BinaryOperatorError.subtract (Value.subtract index step)
    g ← write base v f
    jump_by jump g
  exec_numeric_for p (OpCode.numeric_for_loop base jump) f = do
    index ← register base f
    limit ← register (base + 1) f
    step ← register (base + 2) f
    numeric_for_loop base jump index limit step f
  exec_numeric_for p op f = exec_generic_for p op f

  -- `Test` and `TestSet`
  unfoldable pub exec_test : Constants → OpCode → Registers → Step Registers
  unfolding exec_numeric_for register write skip_when Value.to_bool
  exec_test p (OpCode.test value is_true) f = do
    v ← register value f
    next (skip_when (same (Value.to_bool v) is_true) f)
  exec_test p (OpCode.test_set dest value is_true) f = do
    v ← register value f
    if same (Value.to_bool v) is_true then next (skip_when true f) else write dest v f
  exec_test p op f = exec_numeric_for p op f

  -- The `match` of `run_vm`, from `Move` to `LoadNil`, and the other instructions behind it.
  unfoldable pub exec : Constants → OpCode → Registers → Step Registers
  unfolding exec_test register constant write skip_when load_nils
  exec p (OpCode.move dest source) f = do v ← register source f; write dest v f
  exec p (OpCode.load_constant dest c) f = do v ← constant c p; write dest v f
  exec p (OpCode.load_bool dest value skip_next) f = do
    g ← write dest (Value.boolean value) f
    next (skip_when skip_next g)
  exec p (OpCode.load_nil dest count) f =
      if ltb (dest + count) (2 ^ 8) then load_nils count dest f else panics
  exec p op f = exec_test p op f

  -- One round of the loop: fetch, advance the program counter, execute.
  unfoldable pub step : List OpCode → Constants → Registers → Step Registers
  unfolding exec
  step opcodes p f = do
    op ← or_panic (get_elem? opcodes f.pc)
    exec p op (record f { pc = f.pc + 1 })
