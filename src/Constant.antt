-- ===== src/Constant.antt =====
-- src/constant.rs: the values that a prototype's constant table may hold, equal only if they are
-- the same bit for bit.
use luster.Prelude.{ℕ, Bool, true, false, not, Option, none, some, ◌==◌, if◌then◌else◌}
use luster.Float.{Float}
use luster.LuaString
use luster.LuaString.{LuaString}
use luster.Value.{Value}

pub data Constant (F : Type 0) : Type 0 where
  nil : Constant F
  boolean : Bool → Constant F
  integer : ℕ → Constant F
  number : F → Constant F
  string : LuaString → Constant F

unfoldable pub from_value : {F : Type 0} → Value F → Option (Constant F)
from_value Value.nil = some nil
from_value (Value.boolean b) = some (boolean b)
from_value (Value.integer i) = some (integer i)
from_value (Value.number n) = some (number n)
from_value (Value.string s) = some (string s)
from_value _ = none

unfoldable pub to_value : {F : Type 0} → Constant F → Value F
to_value nil = Value.nil
to_value (boolean b) = Value.boolean b
to_value (integer i) = Value.integer i
to_value (number n) = Value.number n
to_value (string s) = Value.string s

module _ ⦃fl : Float⦄ where
  -- `PartialEq`; `float_bytes` is the transmute to the bits.
  unfoldable pub constant_eq : Constant fl.F64 → Constant fl.F64 → Bool
  unfolding LuaString.eq
  constant_eq nil nil = true
  constant_eq (boolean a) (boolean b) = if a then b else not b
  constant_eq (integer a) (integer b) = a == b
  constant_eq (number a) (number b) = fl.to_bits a == fl.to_bits b
  constant_eq (string a) (string b) = LuaString.eq a b
  constant_eq _ _ = false
