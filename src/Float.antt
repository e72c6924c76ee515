-- ===== src/Float.antt =====
-- IEEE 754 doubles, `f64`, as the code uses them: the hardware's operations and the standard
-- library's conversions are a parameter of the development.
use luster.Prelude.{ℕ, ◌≡◌, Bool, true, false, Option, List}
use luster.Prelude.Int.{ℤ, pos}
pub mod Whole

pub record Float : Type 1 where
  pub F64 : Type 0
  pub add : F64 → F64 → F64
  pub sub : F64 → F64 → F64
  pub mul : F64 → F64 → F64
  pub div : F64 → F64 → F64
  pub rem : F64 → F64 → F64
  pub powf : F64 → F64 → F64
  pub neg : F64 → F64
  pub floor : F64 → F64
  pub exp2 : F64 → F64
  pub eq : F64 → F64 → Bool
  pub lt : F64 → F64 → Bool
  pub le : F64 → F64 → Bool
  pub is_nan : F64 → Bool
  pub max : F64 → F64 → F64
  pub min : F64 → F64 → F64
  pub round : F64 → F64
  -- `f64::INFINITY`
  pub infinity : F64
  -- `f as usize`
  pub as_usize : F64 → ℕ
  -- `n as f64` for an integer type
  pub of_ℤ : ℤ → F64
  -- `f as i64`
  pub as_i64 : F64 → ℕ
  -- `num_traits::cast::<f64, i64>`
  pub cast_i64 : F64 → Option ℕ
  -- the bits of the value, by `mem::transmute`
  pub to_bits : F64 → ℕ
  -- `str::from_utf8(s).ok()?.parse::<f64>().ok()`
  pub parse : List ℕ → Option F64
  -- `write!(_, "{}", f)`
  pub display : F64 → List ℕ

-- What IEEE 754 says of `==` and of the bits of a value.
pub record FloatLaws (fl : Float) : Type 0 where
  pub eq_refl : (a : fl.F64) → fl.is_nan a ≡ false → fl.eq a a ≡ true
  pub eq_symm : (a b : fl.F64) → fl.eq a b ≡ fl.eq b a
  pub eq_trans : (a b c : fl.F64) → fl.eq a b ≡ true → fl.eq b c ≡ true → fl.eq a c ≡ true
  pub to_bits-injective : (a b : fl.F64) → fl.to_bits a ≡ fl.to_bits b → a ≡ b
  pub eq-bits :
      (a b : fl.F64)
      → fl.eq a b ≡ true
      → fl.eq a (fl.of_ℤ (pos 0)) ≡ false
      → fl.to_bits a ≡ fl.to_bits b
  pub nan_ne : (a b : fl.F64) → fl.is_nan b ≡ true → fl.eq a b ≡ false
  pub zero_is_number : fl.is_nan (fl.of_ℤ (pos 0)) ≡ false
