-- ===== src/Parser/Manual.antt =====
-- src/parser.rs: the priorities of the operators against the manual of Lua.
use luster.Prelude.{
  ℕ, ◌<◌, ◌≡◌, ◌≢◌, refl, Bool, true, false, not, ltb, leb, ◌==◌, if◌then◌else◌, arith,
}
use luster.Operators.{BinaryOperator}
use luster.Parser.Priority.{unary_priority, binary_priority}

-- The levels of the manual, from the loosest; unary operators have 11.
unfoldable pub level : BinaryOperator → ℕ
level BinaryOperator.or = 1
level BinaryOperator.and = 2
level BinaryOperator.less_than = 3
level BinaryOperator.greater_than = 3
level BinaryOperator.less_equal = 3
level BinaryOperator.greater_equal = 3
level BinaryOperator.not_equal = 3
level BinaryOperator.equal = 3
level BinaryOperator.bit_or = 4
level BinaryOperator.bit_xor = 5
level BinaryOperator.bit_and = 6
level BinaryOperator.shift_left = 7
level BinaryOperator.shift_right = 7
level BinaryOperator.concat = 8
level BinaryOperator.add = 9
level BinaryOperator.sub = 9
level BinaryOperator.mul = 10
level BinaryOperator.div = 10
level BinaryOperator.idiv = 10
level BinaryOperator.mod_op = 10
level BinaryOperator.pow = 12

unfoldable pub right_associative : BinaryOperator → Bool
right_associative BinaryOperator.concat = true
right_associative BinaryOperator.pow = true
right_associative _ = false

-- In `x a y b z`, whether `y` is an operand of `b`.
unfoldable pub binds_right : BinaryOperator → BinaryOperator → Bool
binds_right a b = if level a == level b then right_associative a else ltb (level a) (level b)

-- For all binary operators `a` and `b` but `~=`: in `x a y b z` the priorities make `y` an operand
-- of `b` exactly if Lua's manual does, and in `- y b z` likewise.
pub binary_priority-manual :
    (a b : BinaryOperator)
    → a ≢ BinaryOperator.not_equal
    → b ≢ BinaryOperator.not_equal
    → (not (leb (binary_priority b).0 (binary_priority a).1) ≡ binds_right a b)
      × (not (leb (binary_priority b).0 unary_priority) ≡ ltb 11 (level b))
unfolding binary_priority binds_right level right_associative
binary_priority-manual BinaryOperator.not_equal b ha hb = absurd (ha refl)
binary_priority-manual a BinaryOperator.not_equal ha hb = absurd (hb refl)
binary_priority-manual BinaryOperator.add BinaryOperator.add ha hb = (refl, refl)
binary_priority-manual _ _ ha hb = (refl, refl)

-- In `x a y ~= z`, for every operator `a` but `~=` that is looser than `+`, the priorities make `y
-- ~= z` the operand of `a`, where the manual does so for `and` and `or` alone.
pub binary_priority-not_equal :
    (a : BinaryOperator)
    → a ≢ BinaryOperator.not_equal
    → level a < 9
    → (not (leb (binary_priority BinaryOperator.not_equal).0 (binary_priority a).1) ≡ true)
      × (binds_right a BinaryOperator.not_equal ≡ ltb (level a) 3)
unfolding binary_priority binds_right level right_associative
binary_priority-not_equal BinaryOperator.not_equal ne h = absurd (ne refl)
binary_priority-not_equal BinaryOperator.add ne h = absurd (omega arith)
binary_priority-not_equal BinaryOperator.sub ne h = absurd (omega arith)
binary_priority-not_equal BinaryOperator.mul ne h = absurd (omega arith)
binary_priority-not_equal BinaryOperator.mod_op ne h = absurd (omega arith)
binary_priority-not_equal BinaryOperator.div ne h = absurd (omega arith)
binary_priority-not_equal BinaryOperator.idiv ne h = absurd (omega arith)
binary_priority-not_equal BinaryOperator.pow ne h = absurd (omega arith)
binary_priority-not_equal BinaryOperator.or ne h = (refl, refl)
binary_priority-not_equal _ ne h = (refl, refl)
