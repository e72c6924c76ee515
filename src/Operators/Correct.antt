-- ===== src/Operators/Correct.antt =====
-- src/compiler/operators.rs against src/thread/vm.rs: what the emitted instructions compute.
use luster.Prelude.{◌≡◌, ◌<◌, Option, none, some, arith, length, set}
use luster.Prelude.Run.{Run, done, panic}
use luster.Types.{RegisterIndex}
use luster.Float.{Float}
use luster.Value
use luster.Value.{Value}
use luster.Operators.{SimpleBinOp, RegisterOrConstant, simple_binop_opcode}
use luster.Vm
use luster.Vm.{Registers, Constants, exec, arithmetic, comparison}
use luster.Vm.Outcome.{Step, next, fail, panics, BinaryOperatorError}

-- The error of an operator.
abbrev pub error_of : SimpleBinOp → BinaryOperatorError
error_of SimpleBinOp.add = BinaryOperatorError.add
error_of SimpleBinOp.sub = BinaryOperatorError.subtract
error_of SimpleBinOp.mul = BinaryOperatorError.multiply
error_of SimpleBinOp.mod_op = BinaryOperatorError.modulo
error_of SimpleBinOp.pow = BinaryOperatorError.exponentiate
error_of SimpleBinOp.div = BinaryOperatorError.float_divide
error_of SimpleBinOp.idiv = BinaryOperatorError.floor_divide
error_of SimpleBinOp.bit_and = BinaryOperatorError.bit_and
error_of SimpleBinOp.bit_or = BinaryOperatorError.bit_or
error_of SimpleBinOp.bit_xor = BinaryOperatorError.bit_xor
error_of SimpleBinOp.shift_left = BinaryOperatorError.shift_left
error_of SimpleBinOp.shift_right = BinaryOperatorError.shift_right

-- What the machine reports instead: subtraction of two registers fails with the error of addition.
abbrev pub reported : SimpleBinOp → RegisterOrConstant → RegisterOrConstant → BinaryOperatorError
reported SimpleBinOp.sub (RegisterOrConstant.register _) (RegisterOrConstant.register _) =
    BinaryOperatorError.add
reported op l r = error_of op

module _ ⦃fl : Float⦄ where
  abbrev pub operand : RegisterOrConstant → Constants → Registers → Step (Value fl.F64)
  operand (RegisterOrConstant.register r) p f = Vm.register r f
  operand (RegisterOrConstant.constant c) p f = Vm.constant c p

  unfoldable pub apply : SimpleBinOp → Value fl.F64 → Value fl.F64 → Run (Option (Value fl.F64))
  apply SimpleBinOp.add a b = done (Value.add a b)
  apply SimpleBinOp.sub a b = done (Value.subtract a b)
  apply SimpleBinOp.mul a b = done (Value.multiply a b)
  apply SimpleBinOp.mod_op a b = Value.modulo a b
  apply SimpleBinOp.pow a b = done (Value.exponentiate a b)
  apply SimpleBinOp.div a b = done (Value.float_divide a b)
  apply SimpleBinOp.idiv a b = done (Value.floor_divide a b)
  apply SimpleBinOp.bit_and a b = done (Value.bitwise_and a b)
  apply SimpleBinOp.bit_or a b = done (Value.bitwise_or a b)
  apply SimpleBinOp.bit_xor a b = done (Value.bitwise_xor a b)
  apply SimpleBinOp.shift_left a b = Value.shift_left a b
  apply SimpleBinOp.shift_right a b = Value.shift_right a b

  exec-simple_binop_opcode :
      (op : SimpleBinOp) (dest : RegisterIndex) (l r : RegisterOrConstant) (p : Constants)
      (f : Registers)
      → exec p (simple_binop_opcode op dest l r) f
        ≡ arithmetic (reported op l r) (apply op) dest (operand l p f) (operand r p f) f
  unfolding simple_binop_opcode exec Vm.exec_test Vm.exec_numeric_for Vm.exec_generic_for
      Vm.exec_comparison Vm.exec_unary Vm.exec_arithmetic Vm.exec_division Vm.exec_bitwise
      Vm.exec_shift apply
  exec-simple_binop_opcode op dest l r p f = ground arith

  -- What an instruction does with the result of its operator.
  abbrev pub Computes :
      Run (Option (Value fl.F64))
      → BinaryOperatorError
      → RegisterIndex
      → Registers
      → Step Registers
      → Type 0
  Computes panic e dest f r = r ≡ panics
  Computes (done none) e dest f r = r ≡ fail e
  Computes (done (some v)) e dest f r =
      r ≡ next (record f { stack_frame = set f.stack_frame dest v })

  arithmetic-Computes :
      (e : BinaryOperatorError) (op : Value fl.F64 → Value fl.F64 → Run (Option (Value fl.F64)))
      (dest : RegisterIndex) (a b : Value fl.F64) (f : Registers)
      → dest < length f.stack_frame
      → Computes (op a b) e dest f (arithmetic e op dest (next a) (next b) f)
  unfolding arithmetic Vm.write
  arithmetic-Computes e op dest a b f h = ground arith

  -- The instruction that `simple_binop_opcode` emits applies its operator to its two operands, in
  -- registers or constants, the left one first: it panics if the operator panics, fails if there
  -- is no result, with the operator's own error but for the subtraction of two registers, which
  -- fails with the error of addition, and otherwise changes nothing but the destination, which
  -- must be in the frame.
  pub simple_binop_opcode-Computes :
      (op : SimpleBinOp) (dest : RegisterIndex) (l r : RegisterOrConstant) (p : Constants)
      (f : Registers) {a b : Value fl.F64}
      → operand l p f ≡ next a
      → operand r p f ≡ next b
      → dest < length f.stack_frame
      → Computes
          (apply op a b)
          (reported op l r)
          dest
          f
          (exec p (simple_binop_opcode op dest l r) f)
  simple_binop_opcode-Computes op dest l r p f {a} {b} x y h =
      rw (exec-simple_binop_opcode op dest l r p f, x, y)
        (arithmetic-Computes (reported op l r) (apply op) dest a b f h)
