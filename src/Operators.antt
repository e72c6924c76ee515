-- ===== src/Operators.antt =====
-- src/compiler/operators.rs: the categories of the operators, the instruction that each compiles
-- to for operands in registers or in the constant table, and the folding of constant operands.
use mathlib.Core.Option
use luster.Prelude.{ℕ, Bool, true, false, not, Option, none, some}
use luster.Prelude.Run
use luster.Prelude.Run.{Run, done}
use luster.Types.{RegisterIndex, ConstantIndex8}
use luster.OpCode.{OpCode}
use luster.Float.{Float}
use luster.Value
use luster.Value.{Value}
use luster.Constant
use luster.Constant.{Constant, to_value, from_value}
use luster.Numbers.Monad.{◌>>=◌}
pub mod Correct
pub mod Compare
pub mod Folding
pub mod Tests

-- `BinaryOperator` and `UnaryOperator` of src/parser.rs
pub data BinaryOperator : Type 0 where
  add sub mul mod_op pow div idiv bit_and bit_or bit_xor shift_left shift_right : BinaryOperator
  concat not_equal equal less_than less_equal greater_than greater_equal : BinaryOperator
  and or : BinaryOperator

pub data UnaryOperator : Type 0 where
  not_op minus bit_not len : UnaryOperator

pub data SimpleBinOp : Type 0 where
  add sub mul mod_op pow div idiv bit_and bit_or bit_xor shift_left shift_right : SimpleBinOp

pub data ComparisonBinOp : Type 0 where
  not_equal equal less_than less_equal greater_than greater_equal : ComparisonBinOp

pub data ShortCircuitBinOp : Type 0 where
  and or : ShortCircuitBinOp

pub data BinOpCategory : Type 0 where
  simple : SimpleBinOp → BinOpCategory
  comparison : ComparisonBinOp → BinOpCategory
  short_circuit : ShortCircuitBinOp → BinOpCategory
  concat : BinOpCategory

unfoldable pub categorize_binop : BinaryOperator → BinOpCategory
categorize_binop BinaryOperator.add = simple SimpleBinOp.add
categorize_binop BinaryOperator.sub = simple SimpleBinOp.sub
categorize_binop BinaryOperator.mul = simple SimpleBinOp.mul
categorize_binop BinaryOperator.mod_op = simple SimpleBinOp.mod_op
categorize_binop BinaryOperator.pow = simple SimpleBinOp.pow
categorize_binop BinaryOperator.div = simple SimpleBinOp.div
categorize_binop BinaryOperator.idiv = simple SimpleBinOp.idiv
categorize_binop BinaryOperator.bit_and = simple SimpleBinOp.bit_and
categorize_binop BinaryOperator.bit_or = simple SimpleBinOp.bit_or
categorize_binop BinaryOperator.bit_xor = simple SimpleBinOp.bit_xor
categorize_binop BinaryOperator.shift_left = simple SimpleBinOp.shift_left
categorize_binop BinaryOperator.shift_right = simple SimpleBinOp.shift_right
categorize_binop BinaryOperator.concat = BinOpCategory.concat
categorize_binop BinaryOperator.not_equal = comparison ComparisonBinOp.not_equal
categorize_binop BinaryOperator.equal = comparison ComparisonBinOp.equal
categorize_binop BinaryOperator.less_than = comparison ComparisonBinOp.less_than
categorize_binop BinaryOperator.less_equal = comparison ComparisonBinOp.less_equal
categorize_binop BinaryOperator.greater_than = comparison ComparisonBinOp.greater_than
categorize_binop BinaryOperator.greater_equal = comparison ComparisonBinOp.greater_equal
categorize_binop BinaryOperator.and = short_circuit ShortCircuitBinOp.and
categorize_binop BinaryOperator.or = short_circuit ShortCircuitBinOp.or

pub data RegisterOrConstant : Type 0 where
  register : RegisterIndex → RegisterOrConstant
  constant : ConstantIndex8 → RegisterOrConstant

unfoldable pub simple_binop_opcode :
    SimpleBinOp → RegisterIndex → RegisterOrConstant → RegisterOrConstant → OpCode
simple_binop_opcode SimpleBinOp.add dest (register l) (register r) = OpCode.add_rr dest l r
simple_binop_opcode SimpleBinOp.add dest (register l) (constant r) = OpCode.add_rc dest l r
simple_binop_opcode SimpleBinOp.add dest (constant l) (register r) = OpCode.add_cr dest l r
simple_binop_opcode SimpleBinOp.add dest (constant l) (constant r) = OpCode.add_cc dest l r
simple_binop_opcode SimpleBinOp.sub dest (register l) (register r) = OpCode.sub_rr dest l r
simple_binop_opcode SimpleBinOp.sub dest (register l) (constant r) = OpCode.sub_rc dest l r
simple_binop_opcode SimpleBinOp.sub dest (constant l) (register r) = OpCode.sub_cr dest l r
simple_binop_opcode SimpleBinOp.sub dest (constant l) (constant r) = OpCode.sub_cc dest l r
simple_binop_opcode SimpleBinOp.mul dest (register l) (register r) = OpCode.mul_rr dest l r
simple_binop_opcode SimpleBinOp.mul dest (register l) (constant r) = OpCode.mul_rc dest l r
simple_binop_opcode SimpleBinOp.mul dest (constant l) (register r) = OpCode.mul_cr dest l r
simple_binop_opcode SimpleBinOp.mul dest (constant l) (constant r) = OpCode.mul_cc dest l r
simple_binop_opcode SimpleBinOp.mod_op dest (register l) (register r) = OpCode.mod_rr dest l r
simple_binop_opcode SimpleBinOp.mod_op dest (register l) (constant r) = OpCode.mod_rc dest l r
simple_binop_opcode SimpleBinOp.mod_op dest (constant l) (register r) = OpCode.mod_cr dest l r
simple_binop_opcode SimpleBinOp.mod_op dest (constant l) (constant r) = OpCode.mod_cc dest l r
simple_binop_opcode SimpleBinOp.pow dest (register l) (register r) = OpCode.pow_rr dest l r
simple_binop_opcode SimpleBinOp.pow dest (register l) (constant r) = OpCode.pow_rc dest l r
simple_binop_opcode SimpleBinOp.pow dest (constant l) (register r) = OpCode.pow_cr dest l r
simple_binop_opcode SimpleBinOp.pow dest (constant l) (constant r) = OpCode.pow_cc dest l r
simple_binop_opcode SimpleBinOp.div dest (register l) (register r) = OpCode.div_rr dest l r
simple_binop_opcode SimpleBinOp.div dest (register l) (constant r) = OpCode.div_rc dest l r
simple_binop_opcode SimpleBinOp.div dest (constant l) (register r) = OpCode.div_cr dest l r
simple_binop_opcode SimpleBinOp.div dest (constant l) (constant r) = OpCode.div_cc dest l r
simple_binop_opcode SimpleBinOp.idiv dest (register l) (register r) = OpCode.idiv_rr dest l r
simple_binop_opcode SimpleBinOp.idiv dest (register l) (constant r) = OpCode.idiv_rc dest l r
simple_binop_opcode SimpleBinOp.idiv dest (constant l) (register r) = OpCode.idiv_cr dest l r
simple_binop_opcode SimpleBinOp.idiv dest (constant l) (constant r) = OpCode.idiv_cc dest l r
simple_binop_opcode SimpleBinOp.bit_and dest (register l) (register r) = OpCode.bit_and_rr dest l r
simple_binop_opcode SimpleBinOp.bit_and dest (register l) (constant r) = OpCode.bit_and_rc dest l r
simple_binop_opcode SimpleBinOp.bit_and dest (constant l) (register r) = OpCode.bit_and_cr dest l r
simple_binop_opcode SimpleBinOp.bit_and dest (constant l) (constant r) = OpCode.bit_and_cc dest l r
simple_binop_opcode SimpleBinOp.bit_or dest (register l) (register r) = OpCode.bit_or_rr dest l r
simple_binop_opcode SimpleBinOp.bit_or dest (register l) (constant r) = OpCode.bit_or_rc dest l r
simple_binop_opcode SimpleBinOp.bit_or dest (constant l) (register r) = OpCode.bit_or_cr dest l r
simple_binop_opcode SimpleBinOp.bit_or dest (constant l) (constant r) = OpCode.bit_or_cc dest l r
simple_binop_opcode SimpleBinOp.bit_xor dest (register l) (register r) = OpCode.bit_xor_rr dest l r
simple_binop_opcode SimpleBinOp.bit_xor dest (register l) (constant r) = OpCode.bit_xor_rc dest l r
simple_binop_opcode SimpleBinOp.bit_xor dest (constant l) (register r) = OpCode.bit_xor_cr dest l r
simple_binop_opcode SimpleBinOp.bit_xor dest (constant l) (constant r) = OpCode.bit_xor_cc dest l r
simple_binop_opcode SimpleBinOp.shift_left dest (register l) (register r) =
    OpCode.shift_left_rr dest l r
simple_binop_opcode SimpleBinOp.shift_left dest (register l) (constant r) =
    OpCode.shift_left_rc dest l r
simple_binop_opcode SimpleBinOp.shift_left dest (constant l) (register r) =
    OpCode.shift_left_cr dest l r
simple_binop_opcode SimpleBinOp.shift_left dest (constant l) (constant r) =
    OpCode.shift_left_cc dest l r
simple_binop_opcode SimpleBinOp.shift_right dest (register l) (register r) =
    OpCode.shift_right_rr dest l r
simple_binop_opcode SimpleBinOp.shift_right dest (register l) (constant r) =
    OpCode.shift_right_rc dest l r
simple_binop_opcode SimpleBinOp.shift_right dest (constant l) (register r) =
    OpCode.shift_right_cr dest l r
simple_binop_opcode SimpleBinOp.shift_right dest (constant l) (constant r) =
    OpCode.shift_right_cc dest l r

unfoldable pub comparison_binop_opcode :
    ComparisonBinOp → RegisterOrConstant → RegisterOrConstant → Bool → OpCode
comparison_binop_opcode ComparisonBinOp.equal (register l) (register r) skip_if =
    OpCode.eq_rr skip_if l r
comparison_binop_opcode ComparisonBinOp.equal (register l) (constant r) skip_if =
    OpCode.eq_rc skip_if l r
comparison_binop_opcode ComparisonBinOp.equal (constant l) (register r) skip_if =
    OpCode.eq_cr skip_if l r
comparison_binop_opcode ComparisonBinOp.equal (constant l) (constant r) skip_if =
    OpCode.eq_cc skip_if l r
comparison_binop_opcode ComparisonBinOp.not_equal (register l) (register r) skip_if =
    OpCode.eq_rr (not skip_if) l r
comparison_binop_opcode ComparisonBinOp.not_equal (register l) (constant r) skip_if =
    OpCode.eq_rc (not skip_if) l r
comparison_binop_opcode ComparisonBinOp.not_equal (constant l) (register r) skip_if =
    OpCode.eq_cr (not skip_if) l r
comparison_binop_opcode ComparisonBinOp.not_equal (constant l) (constant r) skip_if =
    OpCode.eq_cc (not skip_if) l r
comparison_binop_opcode ComparisonBinOp.less_than (register l) (register r) skip_if =
    OpCode.less_rr skip_if l r
comparison_binop_opcode ComparisonBinOp.less_than (register l) (constant r) skip_if =
    OpCode.less_rc skip_if l r
comparison_binop_opcode ComparisonBinOp.less_than (constant l) (register r) skip_if =
    OpCode.less_cr skip_if l r
comparison_binop_opcode ComparisonBinOp.less_than (constant l) (constant r) skip_if =
    OpCode.less_cc skip_if l r
comparison_binop_opcode ComparisonBinOp.less_equal (register l) (register r) skip_if =
    OpCode.less_eq_rr skip_if l r
comparison_binop_opcode ComparisonBinOp.less_equal (register l) (constant r) skip_if =
    OpCode.less_eq_rc skip_if l r
comparison_binop_opcode ComparisonBinOp.less_equal (constant l) (register r) skip_if =
    OpCode.less_eq_cr skip_if l r
comparison_binop_opcode ComparisonBinOp.less_equal (constant l) (constant r) skip_if =
    OpCode.less_eq_cc skip_if l r
comparison_binop_opcode ComparisonBinOp.greater_than (register l) (register r) skip_if =
    OpCode.less_eq_rr (not skip_if) l r
comparison_binop_opcode ComparisonBinOp.greater_than (register l) (constant r) skip_if =
    OpCode.less_eq_rc (not skip_if) l r
comparison_binop_opcode ComparisonBinOp.greater_than (constant l) (register r) skip_if =
    OpCode.less_eq_cr (not skip_if) l r
comparison_binop_opcode ComparisonBinOp.greater_than (constant l) (constant r) skip_if =
    OpCode.less_eq_cc (not skip_if) l r
comparison_binop_opcode ComparisonBinOp.greater_equal (register l) (register r) skip_if =
    OpCode.less_rr (not skip_if) l r
comparison_binop_opcode ComparisonBinOp.greater_equal (register l) (constant r) skip_if =
    OpCode.less_rc (not skip_if) l r
comparison_binop_opcode ComparisonBinOp.greater_equal (constant l) (register r) skip_if =
    OpCode.less_cr (not skip_if) l r
comparison_binop_opcode ComparisonBinOp.greater_equal (constant l) (constant r) skip_if =
    OpCode.less_cc (not skip_if) l r

unfoldable pub unop_opcode : UnaryOperator → RegisterIndex → RegisterIndex → OpCode
unop_opcode minus dest source = OpCode.minus dest source
unop_opcode not_op dest source = OpCode.not dest source
unop_opcode bit_not dest source = OpCode.bit_not dest source
unop_opcode len dest source = OpCode.length dest source

module _ ⦃fl : Float⦄ where
  -- The `match` of `simple_binop_const_fold`.
  unfoldable pub fold_values :
      SimpleBinOp → Value fl.F64 → Value fl.F64 → Run (Option (Value fl.F64))
  unfolding Value.add Value.subtract Value.multiply Value.modulo Value.exponentiate
      Value.float_divide Value.floor_divide
  fold_values SimpleBinOp.add a b = done (Value.add a b)
  fold_values SimpleBinOp.sub a b = done (Value.subtract a b)
  fold_values SimpleBinOp.mul a b = done (Value.multiply a b)
  fold_values SimpleBinOp.mod_op a b = Value.modulo a b
  fold_values SimpleBinOp.pow a b = done (Value.exponentiate a b)
  fold_values SimpleBinOp.div a b = done (Value.float_divide a b)
  fold_values SimpleBinOp.idiv a b = done (Value.floor_divide a b)
  fold_values _ a b = done none

  unfoldable pub simple_binop_const_fold :
      SimpleBinOp → Constant fl.F64 → Constant fl.F64 → Run (Option (Constant fl.F64))
  unfolding fold_values to_value from_value
  simple_binop_const_fold op left right =
      Run.map (λ v. v >>= from_value) (fold_values op (to_value left) (to_value right))

  unfoldable pub comparison_binop_const_fold :
      ComparisonBinOp → Constant fl.F64 → Constant fl.F64 → Option (Constant fl.F64)
  unfolding Value.value_eq Value.less_than Value.less_equal to_value
  comparison_binop_const_fold equal left right =
      some (Constant.boolean (Value.value_eq (to_value left) (to_value right)))
  comparison_binop_const_fold less_than left right =
      Option.map Constant.boolean (Value.less_than (to_value left) (to_value right))
  comparison_binop_const_fold less_equal left right =
      Option.map Constant.boolean (Value.less_equal (to_value left) (to_value right))
  comparison_binop_const_fold _ left right = none

  unfoldable pub unop_const_fold : UnaryOperator → Constant fl.F64 → Option (Constant fl.F64)
  unfolding Value.negate Value.to_bool Value.bitwise_not to_value from_value
  unop_const_fold minus c = Value.negate (to_value c) >>= from_value
  unop_const_fold not_op c = some (Constant.boolean (not (Value.to_bool (to_value c))))
  unop_const_fold bit_not c = Value.bitwise_not (to_value c) >>= from_value
  unop_const_fold len c = none
