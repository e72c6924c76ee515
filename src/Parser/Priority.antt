-- ===== src/Parser/Priority.antt =====
-- src/parser.rs: the tables of the operators.
use luster.Prelude.{ℕ, Option, none, some}
use luster.Operators.{BinaryOperator, UnaryOperator}
use luster.Lexer.Tokens.{Token}

abbrev pub min_priority : ℕ
min_priority = 0

abbrev pub unary_priority : ℕ
unary_priority = 12

-- The left and the right priority.
unfoldable pub binary_priority : BinaryOperator → ℕ × ℕ
binary_priority BinaryOperator.add = (10, 10)
binary_priority BinaryOperator.sub = (10, 10)
binary_priority BinaryOperator.mul = (11, 11)
binary_priority BinaryOperator.mod_op = (11, 11)
binary_priority BinaryOperator.pow = (14, 13)
binary_priority BinaryOperator.div = (11, 11)
binary_priority BinaryOperator.idiv = (11, 11)
binary_priority BinaryOperator.bit_and = (6, 6)
binary_priority BinaryOperator.bit_or = (4, 4)
binary_priority BinaryOperator.bit_xor = (5, 5)
binary_priority BinaryOperator.shift_left = (7, 7)
binary_priority BinaryOperator.shift_right = (7, 7)
binary_priority BinaryOperator.concat = (9, 8)
binary_priority BinaryOperator.not_equal = (10, 10)
binary_priority BinaryOperator.equal = (3, 3)
binary_priority BinaryOperator.less_than = (3, 3)
binary_priority BinaryOperator.less_equal = (3, 3)
binary_priority BinaryOperator.greater_than = (3, 3)
binary_priority BinaryOperator.greater_equal = (3, 3)
binary_priority BinaryOperator.and = (2, 2)
binary_priority BinaryOperator.or = (1, 1)

module _ {F S : Type 0} where
  unfoldable pub get_unary_operator : Token F S → Option UnaryOperator
  get_unary_operator Token.not_token = some UnaryOperator.not_op
  get_unary_operator Token.minus = some UnaryOperator.minus
  get_unary_operator Token.bit_not_xor = some UnaryOperator.bit_not
  get_unary_operator Token.len = some UnaryOperator.len
  get_unary_operator _ = none

  unfoldable pub get_binary_operator : Token F S → Option BinaryOperator
  get_binary_operator Token.minus = some BinaryOperator.sub
  get_binary_operator Token.add = some BinaryOperator.add
  get_binary_operator Token.mul = some BinaryOperator.mul
  get_binary_operator Token.modulo = some BinaryOperator.mod_op
  get_binary_operator Token.pow = some BinaryOperator.pow
  get_binary_operator Token.div = some BinaryOperator.div
  get_binary_operator Token.idiv = some BinaryOperator.idiv
  get_binary_operator Token.bit_and = some BinaryOperator.bit_and
  get_binary_operator Token.bit_or = some BinaryOperator.bit_or
  get_binary_operator Token.bit_not_xor = some BinaryOperator.bit_xor
  get_binary_operator Token.shift_left = some BinaryOperator.shift_left
  get_binary_operator Token.shift_right = some BinaryOperator.shift_right
  get_binary_operator Token.concat = some BinaryOperator.concat
  get_binary_operator Token.not_equal = some BinaryOperator.not_equal
  get_binary_operator Token.equal = some BinaryOperator.equal
  get_binary_operator Token.less_than = some BinaryOperator.less_than
  get_binary_operator Token.less_equal = some BinaryOperator.less_equal
  get_binary_operator Token.greater_than = some BinaryOperator.greater_than
  get_binary_operator Token.greater_equal = some BinaryOperator.greater_equal
  get_binary_operator Token.and_token = some BinaryOperator.and
  get_binary_operator Token.or_token = some BinaryOperator.or
  get_binary_operator _ = none
