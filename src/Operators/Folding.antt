-- ===== src/Operators/Folding.antt =====
-- src/compiler/operators.rs: constant folding against the execution of the instruction that it
-- replaces.
use luster.Prelude.{
  ◌∙◌, Bool, Option-cases, inl, inr, arith, ◌≡◌, sym, ap, ◌<◌, Option, none, some, arith, length,
  set, subst,
}
use luster.Prelude.Run
use luster.Prelude.Run.{Run, done, panic}
use luster.Types.{RegisterIndex}
use luster.Float.{Float}
use luster.Value
use luster.Value.{Value}
use luster.Constant.{Constant, to_value, from_value}
use luster.Numbers.Monad.{◌>>=◌}
use luster.Operators.{
  UnaryOperator, ComparisonBinOp, not_op, minus, bit_not, len, unop_opcode, unop_const_fold,
  comparison_binop_opcode, comparison_binop_const_fold, SimpleBinOp, RegisterOrConstant,
  simple_binop_opcode, simple_binop_const_fold, fold_values,
}
use luster.Operators.Correct.{operand, apply, reported, Computes, simple_binop_opcode-Computes}
use luster.Vm
use luster.Vm.Writes.{write-fits}
use luster.Operators.Compare.{test_of, skip_of, exec-comparison_binop_opcode}
use luster.Vm.{comparison, skip_when, same, Registers, Constants, exec}
use luster.Vm.Outcome.{next}

some-injective {ℓ} : {A : Type ℓ} {x y : A} → some x ≡ some y → x ≡ y
some-injective e = cc

module _ ⦃fl : Float⦄ where
  pub to_value-from_value :
      (v : Value fl.F64) (c : Constant fl.F64) → from_value v ≡ some c → to_value c ≡ v
  unfolding from_value to_value
  to_value-from_value v c h = ground arith

  fold_values-apply :
      (op : SimpleBinOp) (a b v : Value fl.F64)
      → fold_values op a b ≡ done (some v)
      → apply op a b ≡ done (some v)
  unfolding fold_values apply
  fold_values-apply op a b v h = ground arith

  unfold_constant :
      (r : Run (Option (Value fl.F64))) (c : Constant fl.F64)
      → Run.map (λ v. v >>= from_value) r ≡ done (some c)
      → r ≡ done (some (to_value c))
  unfold_constant panic c h = cc
  unfold_constant (done none) c h = cc
  unfold_constant (done (some v)) c h =
      ap (λ w. done (some w)) (sym (to_value-from_value v c (ground arith)))

  -- Where two constants fold to a third, the instruction that would have been emitted for them
  -- writes that constant's value to its destination and changes nothing else.
  pub simple_binop_const_fold-exec :
      (op : SimpleBinOp) (dest : RegisterIndex) (l r : RegisterOrConstant) (p : Constants)
      (f : Registers) (a b c : Constant fl.F64)
      → operand l p f ≡ next (to_value a)
      → operand r p f ≡ next (to_value b)
      → dest < length f.stack_frame
      → simple_binop_const_fold op a b ≡ done (some c)
      → exec p (simple_binop_opcode op dest l r) f
        ≡ next (record f { stack_frame = set f.stack_frame dest (to_value c) })
  unfolding simple_binop_const_fold
  simple_binop_const_fold-exec op dest l r p f a b c x y h k =
      subst
        (λ res. Computes res (reported op l r) dest f (exec p (simple_binop_opcode op dest l r) f))
        (fold_values-apply op _ _ _ (unfold_constant _ c k))
        (simple_binop_opcode-Computes op dest l r p f x y h)

  unfold_option :
      (o : Option (Value fl.F64)) (c : Constant fl.F64)
      → (o >>= from_value) ≡ some c
      → o ≡ some (to_value c)
  unfold_option none c h = cc
  unfold_option (some v) c h = ap some (sym (to_value-from_value v c h))

  -- Where a unary operator folds a constant to another, the instruction that would have been
  -- emitted for the constant in a register writes the other one's value to its destination, which
  -- must be in the frame, and changes nothing else.
  pub unop_const_fold-exec :
      (op : UnaryOperator) (dest source : RegisterIndex) (p : Constants) (f : Registers)
      (a c : Constant fl.F64)
      → Vm.register source f ≡ next (to_value a)
      → dest < length f.stack_frame
      → unop_const_fold op a ≡ some c
      → exec p (unop_opcode op dest source) f
        ≡ next (record f { stack_frame = set f.stack_frame dest (to_value c) })
  unfolding unop_const_fold unop_opcode exec Vm.exec_test Vm.exec_numeric_for Vm.exec_generic_for
      Vm.exec_comparison Vm.exec_unary Value.not_value to_value
  unop_const_fold-exec not_op dest source p f a c x h k = rw x (
      write-fits dest _ f h
      ∙ ap (λ v. next (record f { stack_frame = set f.stack_frame dest v }))
          (ap to_value (some-injective k)))
  unop_const_fold-exec minus dest source p f a c x h k =
      rw (x, unfold_option (Value.negate (to_value a)) c k) (write-fits dest (to_value c) f h)
  unop_const_fold-exec bit_not dest source p f a c x h k =
      rw (x, unfold_option (Value.bitwise_not (to_value a)) c k) (write-fits dest (to_value c) f h)
  unop_const_fold-exec len dest source p f a c x h k = absurd (ground arith)

  folded_comparison :
      (op : ComparisonBinOp) (a b c : Constant fl.F64) (skip_if : Bool) (f : Registers)
      → comparison_binop_const_fold op a b ≡ some c
      → comparison (test_of op) (skip_of op skip_if) (next (to_value a)) (next (to_value b)) f
        ≡ next (skip_when (same (Value.to_bool (to_value c)) skip_if) f)
  unfolding comparison_binop_const_fold comparison to_value Value.to_bool
  folded_comparison ComparisonBinOp.equal a b c k f h =
      ap (λ d. next (skip_when (same (Value.to_bool (to_value d)) k) f)) (some-injective h)
  folded_comparison ComparisonBinOp.less_than a b c k f h =
      elim (Option-cases (Value.less_than (to_value a) (to_value b))) [
        | inl n ↦ absurd (ground arith)
        | inr (r, e) ↦ rw e (
            ap (λ d. next (skip_when (same (Value.to_bool (to_value d)) k) f))
              (some-injective (rw e at h)))
      ]
  folded_comparison ComparisonBinOp.less_equal a b c k f h =
      elim (Option-cases (Value.less_equal (to_value a) (to_value b))) [
        | inl n ↦ absurd (ground arith)
        | inr (r, e) ↦ rw e (
            ap (λ d. next (skip_when (same (Value.to_bool (to_value d)) k) f))
              (some-injective (rw e at h)))
      ]
  folded_comparison ComparisonBinOp.not_equal a b c k f h = absurd (ground arith)
  folded_comparison ComparisonBinOp.greater_than a b c k f h = absurd (ground arith)
  folded_comparison ComparisonBinOp.greater_equal a b c k f h = absurd (ground arith)

  -- Where a comparison of two constants folds, the instruction that would have been emitted for
  -- them skips exactly if the folded result is `skip_if`.
  pub comparison_binop_const_fold-exec :
      (op : ComparisonBinOp) (l r : RegisterOrConstant) (skip_if : Bool) (p : Constants)
      (f : Registers) (a b c : Constant fl.F64)
      → operand l p f ≡ next (to_value a)
      → operand r p f ≡ next (to_value b)
      → comparison_binop_const_fold op a b ≡ some c
      → exec p (comparison_binop_opcode op l r skip_if) f
        ≡ next (skip_when (same (Value.to_bool (to_value c)) skip_if) f)
  comparison_binop_const_fold-exec op l r skip_if p f a b c x y h =
      rw (exec-comparison_binop_opcode op l r skip_if p f, x, y)
        (folded_comparison op a b c skip_if f h)
