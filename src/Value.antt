-- ===== src/Value.antt =====
-- src/value.rs: Lua values and their operators. A table, a thread, a closure and a callback is the
-- address that its pointer comparison sees. Every operator returns `Option`, as the code does,
-- inside a `Run` where an arithmetic overflow panics.
use luster.Prelude.{
  ℕ, Bool, true, false, not, Option, none, some, ◌==◌, if◌then◌else◌, bit_and, bit_or, bit_xor,
}
use luster.Prelude.Run
use luster.Prelude.Run.{Run, done, panic}
use luster.Float.{Float}
use luster.I64
use luster.LuaString
use luster.LuaString.{LuaString}
use luster.Numbers.{read_float, read_hex_float}
use luster.Numbers.Monad.{◌>>=◌}

pub data Function : Type 0 where
  closure callback : ℕ → Function

pub data Value (F : Type 0) : Type 0 where
  nil : Value F
  boolean : Bool → Value F
  integer : ℕ → Value F
  number : F → Value F
  string : LuaString → Value F
  table : ℕ → Value F
  function : Function → Value F
  thread : ℕ → Value F

unfoldable pub function_eq : Function → Function → Bool
function_eq (closure p) (closure q) = p == q
function_eq (callback p) (callback q) = p == q
function_eq _ _ = false

-- The types that `type_name` and the error messages name.
pub data TypeName : Type 0 where
  nil boolean number string table function thread : TypeName

unfoldable pub type_name : {F : Type 0} → Value F → TypeName
type_name nil = TypeName.nil
type_name (boolean _) = TypeName.boolean
type_name (integer _) = TypeName.number
type_name (number _) = TypeName.number
type_name (string _) = TypeName.string
type_name (table _) = TypeName.table
type_name (function _) = TypeName.function
type_name (thread _) = TypeName.thread

unfoldable pub to_bool : {F : Type 0} → Value F → Bool
to_bool nil = false
to_bool (boolean b) = b
to_bool _ = true

unfoldable pub not_value : {F : Type 0} → Value F → Value F
unfolding to_bool
not_value v = boolean (not (to_bool v))

-- `(Value::Integer(a), Value::Integer(b))`, and the same of strings.
unfoldable pub integers : {F : Type 0} → Value F → Value F → Option (ℕ × ℕ)
integers (integer a) (integer b) = some (a, b)
integers _ _ = none

unfoldable pub strings : {F : Type 0} → Value F → Value F → Option (LuaString × LuaString)
strings (string a) (string b) = some (a, b)
strings _ _ = none

module _ ⦃fl : Float⦄ where
  -- `a as f64`
  abbrev pub of_i64 : ℕ → fl.F64
  of_i64 a = fl.of_ℤ (I64.to_ℤ a)

  -- `PartialEq`
  unfoldable pub value_eq : Value fl.F64 → Value fl.F64 → Bool
  unfolding function_eq LuaString.eq
  value_eq nil nil = true
  value_eq (boolean a) (boolean b) = if a then b else not b
  value_eq (integer a) (integer b) = a == b
  value_eq (integer a) (number b) = fl.eq (of_i64 a) b
  value_eq (number a) (number b) = fl.eq a b
  value_eq (number a) (integer b) = fl.eq (of_i64 b) a
  value_eq (string a) (string b) = LuaString.eq a b
  value_eq (table a) (table b) = a == b
  value_eq (function a) (function b) = function_eq a b
  value_eq (thread a) (thread b) = a == b
  value_eq _ _ = false

  unfoldable pub read_number : LuaString → Option fl.F64
  unfolding LuaString.as_bytes read_float read_hex_float
  read_number s = elim (read_hex_float (LuaString.as_bytes s)) [
    | some f ↦ some f
    | none ↦ read_float (LuaString.as_bytes s)
  ]

  unfoldable pub to_number : Value fl.F64 → Option fl.F64
  unfolding read_number
  to_number (integer a) = some (of_i64 a)
  to_number (number a) = some a
  to_number (string a) = read_number a
  to_number _ = none

  -- `if ((f as i64) as f64) == f { Some(f as i64) } else { None }`
  unfoldable pub exact_i64 : fl.F64 → Option ℕ
  exact_i64 f = if fl.eq (of_i64 (fl.as_i64 f)) f then some (fl.as_i64 f) else none

  unfoldable pub to_integer : Value fl.F64 → Option ℕ
  unfolding read_number exact_i64
  to_integer (integer a) = some a
  to_integer (number a) = exact_i64 a
  to_integer (string a) = read_number a >>= exact_i64
  to_integer _ = none

  -- The branch of an arithmetic operator for operands that are not both integers.
  unfoldable pub float_op :
      (fl.F64 → fl.F64 → fl.F64) → Value fl.F64 → Value fl.F64 → Option (Value fl.F64)
  unfolding to_number
  float_op f a b = do x ← to_number a; y ← to_number b; some (number (f x y))

  unfoldable pub add : Value fl.F64 → Value fl.F64 → Option (Value fl.F64)
  unfolding integers float_op I64.wrapping_add
  add a b = elim (integers a b) [
    | some (x, y) ↦ some (integer (I64.wrapping_add x y))
    | none ↦ float_op fl.add a b
  ]

  unfoldable pub subtract : Value fl.F64 → Value fl.F64 → Option (Value fl.F64)
  unfolding integers float_op I64.wrapping_sub
  subtract a b = elim (integers a b) [
    | some (x, y) ↦ some (integer (I64.wrapping_sub x y))
    | none ↦ float_op fl.sub a b
  ]

  unfoldable pub multiply : Value fl.F64 → Value fl.F64 → Option (Value fl.F64)
  unfolding integers float_op I64.wrapping_mul
  multiply a b = elim (integers a b) [
    | some (x, y) ↦ some (integer (I64.wrapping_mul x y))
    | none ↦ float_op fl.mul a b
  ]

  unfoldable pub float_divide : Value fl.F64 → Value fl.F64 → Option (Value fl.F64)
  unfolding float_op
  float_divide a b = float_op fl.div a b

  unfoldable pub floor_divide : Value fl.F64 → Value fl.F64 → Option (Value fl.F64)
  unfolding integers float_op I64.wrapping_div
  floor_divide a b = elim (integers a b) [
    | some (x, y) ↦ if y == 0 then none else some (integer (I64.wrapping_div x y))
    | none ↦ float_op (λ x y. fl.floor (fl.div x y)) a b
  ]

  unfoldable pub modulo : Value fl.F64 → Value fl.F64 → Run (Option (Value fl.F64))
  unfolding integers float_op I64.mod_i64
  modulo a b = elim (integers a b) [
    | some (x, y) ↦ if y == 0 then done none else Run.map (λ m. some (integer m)) (I64.mod_i64 x y)
    | none ↦ done (float_op (λ x y. fl.rem (fl.add (fl.rem x y) y) y) a b)
  ]

  unfoldable pub exponentiate : Value fl.F64 → Value fl.F64 → Option (Value fl.F64)
  unfolding float_op
  exponentiate a b = float_op fl.powf a b

  unfoldable pub negate : Value fl.F64 → Option (Value fl.F64)
  unfolding I64.wrapping_neg
  negate (integer a) = some (integer (I64.wrapping_neg a))
  negate (number a) = some (number (fl.neg a))
  negate _ = none

  unfoldable pub bitwise_not : Value fl.F64 → Option (Value fl.F64)
  unfolding to_integer I64.bit_not
  bitwise_not a = do x ← to_integer a; some (integer (I64.bit_not x))

  -- The two operands of a bitwise operator, as integers.
  unfoldable pub both_integers : Value fl.F64 → Value fl.F64 → Option (ℕ × ℕ)
  unfolding to_integer
  both_integers a b = do x ← to_integer a; y ← to_integer b; some (x, y)

  unfoldable pub bitwise_and : Value fl.F64 → Value fl.F64 → Option (Value fl.F64)
  unfolding both_integers
  bitwise_and a b = do (x, y) ← both_integers a b; some (integer (bit_and x y))

  unfoldable pub bitwise_or : Value fl.F64 → Value fl.F64 → Option (Value fl.F64)
  unfolding both_integers
  bitwise_or a b = do (x, y) ← both_integers a b; some (integer (bit_or x y))

  unfoldable pub bitwise_xor : Value fl.F64 → Value fl.F64 → Option (Value fl.F64)
  unfolding both_integers
  bitwise_xor a b = do (x, y) ← both_integers a b; some (integer (bit_xor x y))

  unfoldable pub shift_left : Value fl.F64 → Value fl.F64 → Run (Option (Value fl.F64))
  unfolding both_integers I64.shl
  shift_left a b = elim (both_integers a b) [
    | none ↦ done none
    | some (x, y) ↦ Run.map (λ m. some (integer m)) (I64.shl x y)
  ]

  unfoldable pub shift_right : Value fl.F64 → Value fl.F64 → Run (Option (Value fl.F64))
  unfolding both_integers I64.shr
  shift_right a b = elim (both_integers a b) [
    | none ↦ done none
    | some (x, y) ↦ Run.map (λ m. some (integer m)) (I64.shr x y)
  ]

  -- The last branch of a comparison.
  unfoldable pub compare_numbers :
      (fl.F64 → fl.F64 → Bool) → Value fl.F64 → Value fl.F64 → Option Bool
  unfolding to_number
  compare_numbers f a b = do x ← to_number a; y ← to_number b; some (f x y)

  unfoldable pub less_than : Value fl.F64 → Value fl.F64 → Option Bool
  unfolding integers strings compare_numbers I64.lt LuaString.as_bytes LuaString.bytes_lt
  less_than a b = elim (integers a b) [
    | some (x, y) ↦ some (I64.lt x y)
    | none ↦ elim (strings a b) [
      | some (s, t) ↦ some (LuaString.bytes_lt (LuaString.as_bytes s) (LuaString.as_bytes t))
      | none ↦ compare_numbers fl.lt a b
    ]
  ]

  unfoldable pub less_equal : Value fl.F64 → Value fl.F64 → Option Bool
  unfolding integers strings compare_numbers I64.le LuaString.as_bytes LuaString.bytes_le
  less_equal a b = elim (integers a b) [
    | some (x, y) ↦ some (I64.le x y)
    | none ↦ elim (strings a b) [
      | some (s, t) ↦ some (LuaString.bytes_le (LuaString.as_bytes s) (LuaString.as_bytes t))
      | none ↦ compare_numbers fl.le a b
    ]
  ]
