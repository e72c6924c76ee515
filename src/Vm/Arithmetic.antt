-- ===== src/Vm/Arithmetic.antt =====
-- src/thread/vm.rs: the arithmetic and the bitwise instructions.
use luster.Prelude.Run.{done}
use luster.OpCode.{OpCode}
use luster.Float.{Float}
use luster.Value
use luster.Value.{Value}
use luster.Vm.Outcome.{Step, outside, BinaryOperatorError}
use luster.Vm.Frame.{Registers, Constants, register, constant, arithmetic}

module _ ⦃fl : Float⦄ where
  -- `ShiftLeft` and `ShiftRight`
  unfoldable pub exec_shift : Constants → OpCode → Registers → Step Registers
  unfolding arithmetic register constant Value.shift_left Value.shift_right
  exec_shift p (OpCode.shift_left_rr dest left right) f =
      arithmetic BinaryOperatorError.shift_left Value.shift_left dest (register left f)
        (register right f) f
  exec_shift p (OpCode.shift_left_rc dest left right) f =
      arithmetic BinaryOperatorError.shift_left Value.shift_left dest (register left f)
        (constant right p) f
  exec_shift p (OpCode.shift_left_cr dest left right) f =
      arithmetic BinaryOperatorError.shift_left Value.shift_left dest (constant left p)
        (register right f) f
  exec_shift p (OpCode.shift_left_cc dest left right) f =
      arithmetic BinaryOperatorError.shift_left Value.shift_left dest (constant left p)
        (constant right p) f
  exec_shift p (OpCode.shift_right_rr dest left right) f =
      arithmetic BinaryOperatorError.shift_right Value.shift_right dest (register left f)
        (register right f) f
  exec_shift p (OpCode.shift_right_rc dest left right) f =
      arithmetic BinaryOperatorError.shift_right Value.shift_right dest (register left f)
        (constant right p) f
  exec_shift p (OpCode.shift_right_cr dest left right) f =
      arithmetic BinaryOperatorError.shift_right Value.shift_right dest (constant left p)
        (register right f) f
  exec_shift p (OpCode.shift_right_cc dest left right) f =
      arithmetic BinaryOperatorError.shift_right Value.shift_right dest (constant left p)
        (constant right p) f
  exec_shift p op f = outside

  -- `BitAnd`, `BitOr` and `BitXor`
  unfoldable pub exec_bitwise : Constants → OpCode → Registers → Step Registers
  unfolding arithmetic register constant exec_shift Value.bitwise_and Value.bitwise_or
      Value.bitwise_xor
  exec_bitwise p (OpCode.bit_and_rr dest left right) f =
      arithmetic BinaryOperatorError.bit_and (λ x y. done (Value.bitwise_and x y)) dest
        (register left f) (register right f) f
  exec_bitwise p (OpCode.bit_and_rc dest left right) f =
      arithmetic BinaryOperatorError.bit_and (λ x y. done (Value.bitwise_and x y)) dest
        (register left f) (constant right p) f
  exec_bitwise p (OpCode.bit_and_cr dest left right) f =
      arithmetic BinaryOperatorError.bit_and (λ x y. done (Value.bitwise_and x y)) dest
        (constant left p) (register right f) f
  exec_bitwise p (OpCode.bit_and_cc dest left right) f =
      arithmetic BinaryOperatorError.bit_and (λ x y. done (Value.bitwise_and x y)) dest
        (constant left p) (constant right p) f
  exec_bitwise p (OpCode.bit_or_rr dest left right) f =
      arithmetic BinaryOperatorError.bit_or (λ x y. done (Value.bitwise_or x y)) dest
        (register left f) (register right f) f
  exec_bitwise p (OpCode.bit_or_rc dest left right) f =
      arithmetic BinaryOperatorError.bit_or (λ x y. done (Value.bitwise_or x y)) dest
        (register left f) (constant right p) f
  exec_bitwise p (OpCode.bit_or_cr dest left right) f =
      arithmetic BinaryOperatorError.bit_or (λ x y. done (Value.bitwise_or x y)) dest
        (constant left p) (register right f) f
  exec_bitwise p (OpCode.bit_or_cc dest left right) f =
      arithmetic BinaryOperatorError.bit_or (λ x y. done (Value.bitwise_or x y)) dest
        (constant left p) (constant right p) f
  exec_bitwise p (OpCode.bit_xor_rr dest left right) f =
      arithmetic BinaryOperatorError.bit_xor (λ x y. done (Value.bitwise_xor x y)) dest
        (register left f) (register right f) f
  exec_bitwise p (OpCode.bit_xor_rc dest left right) f =
      arithmetic BinaryOperatorError.bit_xor (λ x y. done (Value.bitwise_xor x y)) dest
        (register left f) (constant right p) f
  exec_bitwise p (OpCode.bit_xor_cr dest left right) f =
      arithmetic BinaryOperatorError.bit_xor (λ x y. done (Value.bitwise_xor x y)) dest
        (constant left p) (register right f) f
  exec_bitwise p (OpCode.bit_xor_cc dest left right) f =
      arithmetic BinaryOperatorError.bit_xor (λ x y. done (Value.bitwise_xor x y)) dest
        (constant left p) (constant right p) f
  exec_bitwise p op f = exec_shift p op f

  -- From `Div` to `Pow`
  unfoldable pub exec_division : Constants → OpCode → Registers → Step Registers
  unfolding arithmetic register constant exec_bitwise Value.float_divide Value.floor_divide
      Value.modulo Value.exponentiate
  exec_division p (OpCode.div_rr dest left right) f =
      arithmetic BinaryOperatorError.float_divide (λ x y. done (Value.float_divide x y)) dest
        (register left f) (register right f) f
  exec_division p (OpCode.div_rc dest left right) f =
      arithmetic BinaryOperatorError.float_divide (λ x y. done (Value.float_divide x y)) dest
        (register left f) (constant right p) f
  exec_division p (OpCode.div_cr dest left right) f =
      arithmetic BinaryOperatorError.float_divide (λ x y. done (Value.float_divide x y)) dest
        (constant left p) (register right f) f
  exec_division p (OpCode.div_cc dest left right) f =
      arithmetic BinaryOperatorError.float_divide (λ x y. done (Value.float_divide x y)) dest
        (constant left p) (constant right p) f
  exec_division p (OpCode.idiv_rr dest left right) f =
      arithmetic BinaryOperatorError.floor_divide (λ x y. done (Value.floor_divide x y)) dest
        (register left f) (register right f) f
  exec_division p (OpCode.idiv_rc dest left right) f =
      arithmetic BinaryOperatorError.floor_divide (λ x y. done (Value.floor_divide x y)) dest
        (register left f) (constant right p) f
  exec_division p (OpCode.idiv_cr dest left right) f =
      arithmetic BinaryOperatorError.floor_divide (λ x y. done (Value.floor_divide x y)) dest
        (constant left p) (register right f) f
  exec_division p (OpCode.idiv_cc dest left right) f =
      arithmetic BinaryOperatorError.floor_divide (λ x y. done (Value.floor_divide x y)) dest
        (constant left p) (constant right p) f
  exec_division p (OpCode.mod_rr dest left right) f =
      arithmetic BinaryOperatorError.modulo Value.modulo dest (register left f) (register right f) f
  exec_division p (OpCode.mod_rc dest left right) f =
      arithmetic BinaryOperatorError.modulo Value.modulo dest (register left f) (constant right p) f
  exec_division p (OpCode.mod_cr dest left right) f =
      arithmetic BinaryOperatorError.modulo Value.modulo dest (constant left p) (register right f) f
  exec_division p (OpCode.mod_cc dest left right) f =
      arithmetic BinaryOperatorError.modulo Value.modulo dest (constant left p) (constant right p) f
  exec_division p (OpCode.pow_rr dest left right) f =
      arithmetic BinaryOperatorError.exponentiate (λ x y. done (Value.exponentiate x y)) dest
        (register left f) (register right f) f
  exec_division p (OpCode.pow_rc dest left right) f =
      arithmetic BinaryOperatorError.exponentiate (λ x y. done (Value.exponentiate x y)) dest
        (register left f) (constant right p) f
  exec_division p (OpCode.pow_cr dest left right) f =
      arithmetic BinaryOperatorError.exponentiate (λ x y. done (Value.exponentiate x y)) dest
        (constant left p) (register right f) f
  exec_division p (OpCode.pow_cc dest left right) f =
      arithmetic BinaryOperatorError.exponentiate (λ x y. done (Value.exponentiate x y)) dest
        (constant left p) (constant right p) f
  exec_division p op f = exec_bitwise p op f

  -- `Add`, `Sub` and `Mul`
  unfoldable pub exec_arithmetic : Constants → OpCode → Registers → Step Registers
  unfolding arithmetic register constant exec_division Value.add Value.subtract Value.multiply
  exec_arithmetic p (OpCode.add_rr dest left right) f =
      arithmetic BinaryOperatorError.add (λ x y. done (Value.add x y)) dest (register left f)
        (register right f) f
  exec_arithmetic p (OpCode.add_rc dest left right) f =
      arithmetic BinaryOperatorError.add (λ x y. done (Value.add x y)) dest (register left f)
        (constant right p) f
  exec_arithmetic p (OpCode.add_cr dest left right) f =
      arithmetic BinaryOperatorError.add (λ x y. done (Value.add x y)) dest (constant left p)
        (register right f) f
  exec_arithmetic p (OpCode.add_cc dest left right) f =
      arithmetic BinaryOperatorError.add (λ x y. done (Value.add x y)) dest (constant left p)
        (constant right p) f
  -- the error is that of `Add`
  exec_arithmetic p (OpCode.sub_rr dest left right) f =
      arithmetic BinaryOperatorError.add (λ x y. done (Value.subtract x y)) dest (register left f)
        (register right f) f
  exec_arithmetic p (OpCode.sub_rc dest left right) f =
      arithmetic BinaryOperatorError.subtract (λ x y. done (Value.subtract x y)) dest
        (register left f) (constant right p) f
  exec_arithmetic p (OpCode.sub_cr dest left right) f =
      arithmetic BinaryOperatorError.subtract (λ x y. done (Value.subtract x y)) dest
        (constant left p) (register right f) f
  exec_arithmetic p (OpCode.sub_cc dest left right) f =
      arithmetic BinaryOperatorError.subtract (λ x y. done (Value.subtract x y)) dest
        (constant left p) (constant right p) f
  exec_arithmetic p (OpCode.mul_rr dest left right) f =
      arithmetic BinaryOperatorError.multiply (λ x y. done (Value.multiply x y)) dest
        (register left f) (register right f) f
  exec_arithmetic p (OpCode.mul_rc dest left right) f =
      arithmetic BinaryOperatorError.multiply (λ x y. done (Value.multiply x y)) dest
        (register left f) (constant right p) f
  exec_arithmetic p (OpCode.mul_cr dest left right) f =
      arithmetic BinaryOperatorError.multiply (λ x y. done (Value.multiply x y)) dest
        (constant left p) (register right f) f
  exec_arithmetic p (OpCode.mul_cc dest left right) f =
      arithmetic BinaryOperatorError.multiply (λ x y. done (Value.multiply x y)) dest
        (constant left p) (constant right p) f
  exec_arithmetic p op f = exec_division p op f
