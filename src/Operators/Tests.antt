-- ===== src/Operators/Tests.antt =====
-- The emitted instructions at concrete operands.
use luster.Prelude.{◌-◌, ◌^◌, ◌≡◌, refl, true, false, some, [], ◌∷◌, arith, set}
use luster.Prelude.Run.{done}
use luster.Float.Whole
use luster.Float.Whole.{wholes, Whole}
use luster.I64
use luster.Value
use luster.Value.{Value, integer, number}
use luster.Constant.{to_value}
use luster.Constant
use luster.Operators.{
  minus, unop_const_fold, comparison_binop_const_fold, SimpleBinOp, ComparisonBinOp,
  RegisterOrConstant, simple_binop_opcode, comparison_binop_opcode, simple_binop_const_fold,
  fold_values,
}
use luster.Operators.Correct.{Computes, apply, reported, simple_binop_opcode-Computes}
use luster.Operators.Compare.{
  holds, comparison_binop_opcode-Skips, greater_than-unordered, integers,
}
use luster.Operators.Folding.{simple_binop_const_fold-exec}
use luster.Vm.{Registers, Constants, exec, register, constant, skip_when, same}
use luster.Vm.Outcome.{next}

abbrev seven : Constants ⦃fl = wholes⦄
seven = Constant.integer 7 ∷ Constant.integer 5 ∷ []

abbrev frame : Registers ⦃fl = wholes⦄
frame = record { pc = 3; stack_frame = integer 2 ∷ integer 9 ∷ number Whole.nan ∷ [] }

read_register : register ⦃fl = wholes⦄ 1 frame ≡ next (integer 9)
unfolding register
read_register = refl

read_nan : register ⦃fl = wholes⦄ 2 frame ≡ next (number Whole.nan)
unfolding register
read_nan = refl

read_constant : constant ⦃fl = wholes⦄ 0 seven ≡ next (to_value (Constant.integer 7))
unfolding constant to_value
read_constant = refl

read_second : constant ⦃fl = wholes⦄ 1 seven ≡ next (to_value (Constant.integer 5))
unfolding constant to_value
read_second = refl

simple_binop_opcode-Computes_example :
    Computes ⦃fl = wholes⦄
      (apply ⦃fl = wholes⦄ SimpleBinOp.sub (integer 9) (to_value (Constant.integer 7)))
      (reported SimpleBinOp.sub (RegisterOrConstant.register 1) (RegisterOrConstant.constant 0))
      0
      frame
      (exec ⦃fl = wholes⦄ seven
        (simple_binop_opcode SimpleBinOp.sub 0
          (RegisterOrConstant.register 1)
          (RegisterOrConstant.constant 0))
        frame)
simple_binop_opcode-Computes_example =
    simple_binop_opcode-Computes ⦃fl = wholes⦄ SimpleBinOp.sub 0 (RegisterOrConstant.register 1)
      (RegisterOrConstant.constant 0) seven frame read_register read_constant (omega arith)

comparison_binop_opcode-Skips_example :
    exec ⦃fl = wholes⦄ seven
      (comparison_binop_opcode ComparisonBinOp.greater_than
        (RegisterOrConstant.register 1)
        (RegisterOrConstant.register 1)
        true)
      frame
    ≡ next (
        skip_when ⦃fl = wholes⦄
          (same (holds ⦃fl = wholes⦄ ComparisonBinOp.greater_than (integer 9) (integer 9)) true)
          frame)
comparison_binop_opcode-Skips_example =
    comparison_binop_opcode-Skips ⦃fl = wholes⦄ ComparisonBinOp.greater_than
      (RegisterOrConstant.register 1) (RegisterOrConstant.register 1) true seven frame read_register
      read_register (integers 9 9)

greater_than-unordered_example :
    (exec ⦃fl = wholes⦄ seven
        (comparison_binop_opcode ComparisonBinOp.greater_than
          (RegisterOrConstant.register 2)
          (RegisterOrConstant.register 2)
          true)
        frame
      ≡ next (skip_when ⦃fl = wholes⦄ true frame))
    × (holds ⦃fl = wholes⦄ ComparisonBinOp.greater_than (number Whole.nan) (number Whole.nan)
        ≡ false)
unfolding Whole.le Whole.lt
greater_than-unordered_example =
    greater_than-unordered ⦃fl = wholes⦄ (RegisterOrConstant.register 2)
      (RegisterOrConstant.register 2) seven frame read_nan read_nan refl refl

folded :
    simple_binop_const_fold ⦃fl = wholes⦄ SimpleBinOp.sub (Constant.integer 7) (Constant.integer 5)
    ≡ done (some (Constant.integer 2))
unfolding simple_binop_const_fold fold_values Value.subtract Value.integers I64.wrapping_sub
    Constant.from_value to_value
folded = refl

simple_binop_const_fold-exec_example :
    exec ⦃fl = wholes⦄ seven
      (simple_binop_opcode SimpleBinOp.sub 1
        (RegisterOrConstant.constant 0)
        (RegisterOrConstant.constant 1))
      frame
    ≡ next (record frame { stack_frame = set frame.stack_frame 1 (to_value (Constant.integer 2)) })
simple_binop_const_fold-exec_example =
    simple_binop_const_fold-exec ⦃fl = wholes⦄ SimpleBinOp.sub 1 (RegisterOrConstant.constant 0)
      (RegisterOrConstant.constant 1) seven frame (Constant.integer 7) (Constant.integer 5)
      (Constant.integer 2) read_constant read_second (omega arith) folded

-- -9, of the constant 9 in register 1.
negated :
    unop_const_fold ⦃fl = wholes⦄ minus (Constant.integer 9) ≡ some (Constant.integer (2 ^ 64 - 9))
unfolding unop_const_fold Value.negate I64.wrapping_neg Constant.from_value to_value
negated = refl

read_nine : register ⦃fl = wholes⦄ 1 frame ≡ next (to_value (Constant.integer 9))
unfolding register to_value
read_nine = refl

compared :
    comparison_binop_const_fold ⦃fl = wholes⦄ ComparisonBinOp.less_than
      (Constant.integer 7)
      (Constant.integer 5)
    ≡ some (Constant.boolean false)
unfolding comparison_binop_const_fold Value.less_than Value.integers I64.lt to_value
compared = refl
