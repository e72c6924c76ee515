-- ===== src/Operators/Compare.antt =====
-- src/compiler/operators.rs, `comparison_binop_opcode`, against src/thread/vm.rs: which of the two
-- orders, and which skip, an emitted comparison uses.
use luster.Prelude.{ℕ, ◌≡◌, refl, sym, ap, ◌∙◌, Bool, true, false, not, Option, none, some, arith}
use luster.Float.{Float}
use luster.I64
use luster.LuaString
use luster.LuaString.{LuaString}
use luster.LuaString.Laws.{bytes_le-not_lt}
use luster.Value
use luster.Value.{Value}
use luster.Operators.{ComparisonBinOp, RegisterOrConstant, comparison_binop_opcode}
use luster.Operators.Correct.{operand}
use luster.Vm
use luster.Vm.{Registers, Constants, exec, comparison, skip_when, same}
use luster.Vm.Outcome.{Step, next, BinaryOperatorError, or_fail}

-- A comparison without a result is not one that holds.
abbrev pub is_true : Option Bool → Bool
is_true none = false
is_true (some b) = b

module _ ⦃fl : Float⦄ where
  -- Neither of the numbers is NaN: one order is the negation of the other.
  pub record Trichotomous (x y : fl.F64) : Type 0 where
    pub le_of : fl.le x y ≡ not (fl.lt y x)
    pub ge_of : fl.le y x ≡ not (fl.lt x y)

  -- Two values that the language compares without a conversion from a string.
  pub data Comparable : Value fl.F64 → Value fl.F64 → Type 0 where
    integers : (x y : ℕ) → Comparable (Value.integer x) (Value.integer y)
    strings : (s t : LuaString) → Comparable (Value.string s) (Value.string t)
    numbers : (x y : fl.F64) → Trichotomous x y → Comparable (Value.number x) (Value.number y)
    integer_number :
        (x : ℕ) (y : fl.F64)
        → Trichotomous (Value.of_i64 x) y
        → Comparable (Value.integer x) (Value.number y)
    number_integer :
        (x : fl.F64) (y : ℕ)
        → Trichotomous x (Value.of_i64 y)
        → Comparable (Value.number x) (Value.integer y)

  -- The four comparisons of two values have results, two of them the negations of the others.
  pub record Ordered (a b : Value fl.F64) : Type 0 where
    pub lt : Bool
    pub le : Bool
    pub less : Value.less_than a b ≡ some lt
    pub less_eq : Value.less_equal a b ≡ some le
    pub greater : Value.less_than b a ≡ some (not le)
    pub greater_eq : Value.less_equal b a ≡ some (not lt)

  le-not_lt : (x y : ℕ) → I64.le x y ≡ not (I64.lt y x)
  unfolding I64.le I64.lt
  le-not_lt x y = ground arith

  not_not : (b : Bool) → not (not b) ≡ b
  not_not b = ground arith

  ordered :
      (a b : Value fl.F64) (lt le gt ge : Bool)
      → Value.less_than a b ≡ some lt
      → Value.less_equal a b ≡ some le
      → Value.less_than b a ≡ some gt
      → Value.less_equal b a ≡ some ge
      → le ≡ not gt
      → ge ≡ not lt
      → Ordered a b
  ordered a b lt le gt ge p q r s t u = record {
    lt = lt;
    le = le;
    less = p;
    less_eq = q;
    greater = r ∙ ap some (sym (ap not t ∙ not_not gt));
    greater_eq = s ∙ ap some u;
  }

  pub Comparable-Ordered : {a b : Value fl.F64} → Comparable a b → Ordered a b
  unfolding Value.less_than Value.less_equal Value.integers Value.strings Value.compare_numbers
      Value.to_number
  Comparable-Ordered (integers x y) =
      ordered _ _ _ _ _ _ refl refl refl refl (le-not_lt x y) (le-not_lt y x)
  Comparable-Ordered (strings s t) =
      let a = LuaString.as_bytes s in
      let b = LuaString.as_bytes t in
      ordered _ _ _ _ _ _ refl refl refl refl (bytes_le-not_lt a b) (bytes_le-not_lt b a)
  Comparable-Ordered (numbers x y o) = ordered _ _ _ _ _ _ refl refl refl refl o.le_of o.ge_of
  Comparable-Ordered (integer_number x y o) =
      ordered _ _ _ _ _ _ refl refl refl refl o.le_of o.ge_of
  Comparable-Ordered (number_integer x y o) =
      ordered _ _ _ _ _ _ refl refl refl refl o.le_of o.ge_of

  -- The comparison that the language's operator stands for: `a > b` is `b < a`.
  unfoldable pub holds : ComparisonBinOp → Value fl.F64 → Value fl.F64 → Bool
  holds ComparisonBinOp.equal a b = Value.value_eq a b
  holds ComparisonBinOp.not_equal a b = not (Value.value_eq a b)
  holds ComparisonBinOp.less_than a b = is_true (Value.less_than a b)
  holds ComparisonBinOp.less_equal a b = is_true (Value.less_equal a b)
  holds ComparisonBinOp.greater_than a b = is_true (Value.less_than b a)
  holds ComparisonBinOp.greater_equal a b = is_true (Value.less_equal b a)

  -- The test and the skip of the emitted instruction.
  abbrev pub test_of : ComparisonBinOp → Value fl.F64 → Value fl.F64 → Step Bool
  test_of ComparisonBinOp.equal a b = next (Value.value_eq a b)
  test_of ComparisonBinOp.not_equal a b = next (Value.value_eq a b)
  test_of ComparisonBinOp.less_than a b =
      or_fail BinaryOperatorError.less_than (Value.less_than a b)
  test_of ComparisonBinOp.greater_equal a b =
      or_fail BinaryOperatorError.less_than (Value.less_than a b)
  test_of ComparisonBinOp.less_equal a b =
      or_fail BinaryOperatorError.less_equal (Value.less_equal a b)
  test_of ComparisonBinOp.greater_than a b =
      or_fail BinaryOperatorError.less_equal (Value.less_equal a b)

  abbrev pub skip_of : ComparisonBinOp → Bool → Bool
  skip_of ComparisonBinOp.equal b = b
  skip_of ComparisonBinOp.less_than b = b
  skip_of ComparisonBinOp.less_equal b = b
  skip_of ComparisonBinOp.not_equal b = not b
  skip_of ComparisonBinOp.greater_than b = not b
  skip_of ComparisonBinOp.greater_equal b = not b

  pub exec-comparison_binop_opcode :
      (op : ComparisonBinOp) (l r : RegisterOrConstant) (skip_if : Bool) (p : Constants)
      (f : Registers)
      → exec p (comparison_binop_opcode op l r skip_if) f
        ≡ comparison (test_of op) (skip_of op skip_if) (operand l p f) (operand r p f) f
  unfolding comparison_binop_opcode exec Vm.exec_test Vm.exec_numeric_for Vm.exec_generic_for
      Vm.exec_comparison
  exec-comparison_binop_opcode op l r skip_if p f = ground arith

  same_not : (b skip_if : Bool) → same b (not skip_if) ≡ same (not b) skip_if
  same_not b skip_if = ground arith

  -- What the emitted instruction does once its operands are read.
  comparison-Skips :
      (op : ComparisonBinOp) (a b : Value fl.F64) (skip_if : Bool) (f : Registers)
      → Ordered a b
      → comparison (test_of op) (skip_of op skip_if) (next a) (next b) f
        ≡ next (skip_when (same (holds op a b) skip_if) f)
  unfolding comparison holds
  comparison-Skips ComparisonBinOp.equal a b k f o = refl
  comparison-Skips ComparisonBinOp.not_equal a b k f o =
      ap (λ s. next (skip_when s f)) (same_not _ k)
  comparison-Skips ComparisonBinOp.less_than a b k f o = rw (o.less) refl
  comparison-Skips ComparisonBinOp.less_equal a b k f o = rw (o.less_eq) refl
  comparison-Skips ComparisonBinOp.greater_than a b k f o =
      rw (o.less_eq, o.greater) (ap (λ s. next (skip_when s f)) (same_not _ k))
  comparison-Skips ComparisonBinOp.greater_equal a b k f o =
      rw (o.less, o.greater_eq) (ap (λ s. next (skip_when s f)) (same_not _ k))

  -- The instruction that `comparison_binop_opcode` emits skips the next instruction exactly if the
  -- comparison of its two operands is `skip_if`, where the operands are both strings or both
  -- numbers of which none is NaN. `a > b` is `b < a` and `a >= b` is `b <= a`.
  pub comparison_binop_opcode-Skips :
      (op : ComparisonBinOp) (l r : RegisterOrConstant) (skip_if : Bool) (p : Constants)
      (f : Registers) {a b : Value fl.F64}
      → operand l p f ≡ next a
      → operand r p f ≡ next b
      → Comparable a b
      → exec p (comparison_binop_opcode op l r skip_if) f
        ≡ next (skip_when (same (holds op a b) skip_if) f)
  comparison_binop_opcode-Skips op l r skip_if p f {a} {b} x y c =
      rw (exec-comparison_binop_opcode op l r skip_if p f, x, y)
        (comparison-Skips op a b skip_if f (Comparable-Ordered c))

  -- With NaN the emitted `a > b` takes the branch of a comparison that holds, whatever the
  -- other number: numbers of which neither is at most the other one are found greater.
  pub greater_than-unordered :
      (l r : RegisterOrConstant) (p : Constants) (f : Registers) {x y : fl.F64}
      → operand l p f ≡ next (Value.number x)
      → operand r p f ≡ next (Value.number y)
      → fl.le x y ≡ false
      → fl.lt y x ≡ false
      → (exec p (comparison_binop_opcode ComparisonBinOp.greater_than l r true) f
          ≡ next (skip_when true f))
        × (holds ComparisonBinOp.greater_than (Value.number x) (Value.number y) ≡ false)
  unfolding comparison holds Value.less_than Value.less_equal Value.integers Value.strings
      Value.compare_numbers Value.to_number
  greater_than-unordered l r p f m n h k =
      (rw (exec-comparison_binop_opcode ComparisonBinOp.greater_than l r true p f, m, n, h) refl, k)
