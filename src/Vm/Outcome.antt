-- ===== src/Vm/Outcome.antt =====
-- src/thread/error.rs and src/thread/vm.rs: what an instruction comes to.
use luster.Prelude.{Option, none, some}
use luster.Prelude.Run.{Run, done, panic}

pub data BinaryOperatorError : Type 0 where
  add subtract multiply float_divide floor_divide modulo exponentiate : BinaryOperatorError
  unary_negate bit_and bit_or bit_xor bit_not shift_left shift_right : BinaryOperatorError
  less_than less_equal : BinaryOperatorError

-- A value, an error that `?` returns, a panic, or an instruction that is not of the frame alone.
pub data Step {ℓ} (A : Type ℓ) : Type ℓ where
  next : A → Step A
  fail : BinaryOperatorError → Step A
  panics : Step A
  outside : Step A

infixl 5 ◌>>=◌
abbrev pub ◌>>=◌ {ℓ κ} : {A : Type ℓ} {B : Type κ} → Step A → (A → Step B) → Step B
next a >>= f = f a
fail e >>= f = fail e
panics >>= f = panics
outside >>= f = outside

-- `ok_or(e)?`
abbrev pub or_fail {ℓ} : {A : Type ℓ} → BinaryOperatorError → Option A → Step A
or_fail e none = fail e
or_fail e (some a) = next a

-- An index out of range, `unwrap`, or an overflow.
abbrev pub or_panic {ℓ} : {A : Type ℓ} → Option A → Step A
or_panic none = panics
or_panic (some a) = next a

abbrev pub lift {ℓ} : {A : Type ℓ} → Run A → Step A
lift panic = panics
lift (done a) = next a
