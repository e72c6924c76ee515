-- ===== src/Float/Whole.antt =====
-- Floats that are whole numbers or NaN: the parameter of the tests.
use luster.Prelude.{
  ℕ, suc, ◌+◌, ◌-◌, ◌*◌, ◌^◌, ◌≡◌, refl, ap, Bool, true, false, not, ◌&&◌, Option, none, some, [],
  arith, ltb, ◌==◌, if◌then◌else◌,
}
use luster.Prelude.Int.{ℤ, pos, negsuc, ◌+ℤ◌, ◌-ℤ◌, ◌*ℤ◌, ltb_ℤ}
use luster.Float.{Float, FloatLaws}
use luster.I64.{modulus, half}

pub data Whole : Type 0 where
  nan : Whole
  whole : ℤ → Whole

unfoldable pub to_bits : Whole → ℕ
to_bits nan = 0
to_bits (whole (pos n)) = n * 2 + 1
to_bits (whole (negsuc n)) = n * 2 + 2

unfoldable pub is_nan : Whole → Bool
is_nan nan = true
is_nan (whole _) = false

unfoldable pub eq : Whole → Whole → Bool
unfolding is_nan to_bits
eq a b = not (is_nan a) && to_bits a == to_bits b

unfoldable pub lt : Whole → Whole → Bool
lt (whole a) (whole b) = ltb_ℤ a b
lt _ _ = false

unfoldable pub le : Whole → Whole → Bool
le (whole a) (whole b) = not (ltb_ℤ b a)
le _ _ = false

unfoldable pub both : (ℤ → ℤ → ℤ) → Whole → Whole → Whole
both f (whole a) (whole b) = whole (f a b)
both f _ _ = nan

unfoldable pub as_i64 : Whole → ℕ
as_i64 nan = 0
as_i64 (whole (pos n)) = if ltb n half then n else half - 1
as_i64 (whole (negsuc n)) = if ltb n half then modulus - suc n else half

unfoldable pub cast_i64 : Whole → Option ℕ
cast_i64 nan = none
cast_i64 (whole (pos n)) = if ltb n half then some n else none
cast_i64 (whole (negsuc n)) = if ltb n half then some (modulus - suc n) else none

unfoldable pub as_usize : Whole → ℕ
as_usize (whole (pos n)) = n
as_usize _ = 0

abbrev pub wholes : Float
wholes = record {
  F64 = Whole;
  add = both ◌+ℤ◌;
  sub = both ◌-ℤ◌;
  mul = both ◌*ℤ◌;
  div = λ a b. nan;
  rem = λ a b. nan;
  powf = λ a b. nan;
  neg = both ◌-ℤ◌ (whole (pos 0));
  floor = λ a. a;
  exp2 = λ a. nan;
  eq = eq;
  lt = lt;
  le = le;
  max = λ a b. if lt a b then b else a;
  min = λ a b. if lt b a then b else a;
  round = λ a. a;
  -- the first power of two that no `f64` reaches
  infinity = whole (pos (2 ^ 1024));
  as_usize = as_usize;
  is_nan = is_nan;
  of_ℤ = whole;
  as_i64 = as_i64;
  cast_i64 = cast_i64;
  to_bits = to_bits;
  parse = λ s. none;
  display = λ a. [];
}

to_bits-injective : (a b : Whole) → to_bits a ≡ to_bits b → a ≡ b
unfolding to_bits
to_bits-injective nan nan h = refl
to_bits-injective nan (whole (pos n)) h = absurd (omega arith)
to_bits-injective nan (whole (negsuc n)) h = absurd (omega arith)
to_bits-injective (whole (pos m)) nan h = absurd (omega arith)
to_bits-injective (whole (negsuc m)) nan h = absurd (omega arith)
to_bits-injective (whole (pos m)) (whole (pos n)) h = ap (λ x. whole (pos x)) (omega arith)
to_bits-injective (whole (pos m)) (whole (negsuc n)) h = absurd (omega arith)
to_bits-injective (whole (negsuc m)) (whole (pos n)) h = absurd (omega arith)
to_bits-injective (whole (negsuc m)) (whole (negsuc n)) h = ap (λ x. whole (negsuc x)) (omega arith)

nan_bits : (a : Whole) → is_nan a ≡ (to_bits a == 0)
unfolding is_nan to_bits
nan_bits a = ground arith

pub wholes-laws : FloatLaws wholes
unfolding eq is_nan
wholes-laws = record {
  eq_refl = λ a h. ground arith;
  eq_symm = λ a b. ground (arith, nan_bits a, nan_bits b);
  eq_trans = λ a b c h k. ground arith;
  to_bits-injective = to_bits-injective;
  eq-bits = λ a b h k. ground arith;
  nan_ne = λ a b h. ground (arith, nan_bits a, nan_bits b);
  zero_is_number = refl;
}
