-- ===== src/Math.antt =====
-- src/stdlib/math.rs: the functions of the table `math`. A function gets its arguments and returns
-- its results, or an error with the text of its `RuntimeError`. An integer is its bit pattern. The
-- elementary functions on floats and the generator of random numbers are parameters.
use Prim.Native.String.{String}
use luster.Prelude.{
  ℕ, ◌+◌, ◌-◌, ◌*◌, ◌/◌, ◌%◌, ◌^◌, bit_and, bit_or, Bool, true, false, Option, none, some, List, [],
  ◌∷◌, ltb, ◌==◌, if◌then◌else◌, length, get_or,
}
use luster.Prelude.Int.{pos}
use luster.Prelude.Run.{Run, done, panic, ◌>>=◌}
use luster.Prelude.Result.{Result, ok, err}
use luster.I64
use luster.Float.{Float}
use luster.LuaString
use luster.Value
use luster.Value.{Value}
pub mod Laws
mod Tests

-- The methods and constants of `f64` that `Float` does not have.
pub record Elementary (F : Type 0) : Type 0 where
  pub abs : F → F
  pub acos : F → F
  pub asin : F → F
  pub atan : F → F
  pub ceil : F → F
  pub cos : F → F
  pub cosh : F → F
  pub to_degrees : F → F
  pub to_radians : F → F
  pub ln : F → F
  pub log10 : F → F
  pub sin : F → F
  pub sqrt : F → F
  pub tan : F → F
  pub atan2 : F → F → F
  pub is_finite : F → Bool
  pub from_bits : ℕ → F
  -- `f as u64`
  pub as_u64 : F → ℕ
  pub e : F
  pub pi : F

-- `Xoshiro256StarStar` with a state in `R`; the bounds of `gen_range` are patterns.
pub record Rng (F R : Type 0) : Type 0 where
  pub gen : R → F × R
  pub gen_range : ℕ → ℕ → R → Run (ℕ × R)
  pub seed_from_u64 : ℕ → R

-- What a callback comes to.
abbrev pub Answer : Type 0 → Type 0
Answer A = Run (Result String A)

-- `a.abs()` on `i64` in a checked build.
unfoldable pub abs_i64 : ℕ → Run ℕ
abs_i64 a = if a == I64.min_value then panic else done (I64.magnitude a)

module _ ⦃fl : Float⦄ where
  abbrev pub Values : Type 0
  Values = List (Value fl.F64)

  -- `args.get(n).cloned().unwrap_or(Value::Nil)`
  abbrev pub argument : Values → ℕ → Value fl.F64
  argument args n = get_or args n Value.nil

  -- `Ok(CallbackResult::Return(vec![a]))`
  abbrev pub return_one : Value fl.F64 → Answer Values
  return_one a = done (ok (a ∷ []))

  abbrev pub bad_argument : {A : Type 0} → String → Answer A
  bad_argument text = done (err text)

  abbrev pub by_number : String → (fl.F64 → Answer Values) → Option fl.F64 → Answer Values
  by_number text f none = bad_argument text
  by_number text f (some a) = f a

  -- A function of one argument that is converted to a float.
  abbrev pub with_number : String → (fl.F64 → Answer Values) → Values → Answer Values
  with_number text f args = by_number text f (Value.to_number (argument args 0))

  abbrev pub by_numbers :
      String → (fl.F64 → fl.F64 → Answer Values) → Option fl.F64 → Option fl.F64 → Answer Values
  by_numbers text f (some a) (some b) = f a b
  by_numbers text f _ _ = bad_argument text

  -- A function of two.
  abbrev pub with_numbers : String → (fl.F64 → fl.F64 → Answer Values) → Values → Answer Values
  with_numbers text f args =
      by_numbers text f (Value.to_number (argument args 0)) (Value.to_number (argument args 1))

  abbrev pub two : fl.F64
  two = fl.of_ℤ (pos 2)

  abbrev pub negative_infinity : fl.F64
  negative_infinity = fl.neg fl.infinity

  -- `ok_or(e).and_then(|less| if less { Ok(entry) } else { Ok(best) })`
  abbrev pub choose :
      String → Value fl.F64 → Value fl.F64 → Option Bool → Result String (Value fl.F64)
  choose text best entry none = err text
  choose text best entry (some less) = ok (if less then entry else best)

  -- A step of the fold of `max`, and of `min`.
  unfoldable pub max_step : Value fl.F64 → Value fl.F64 → Result String (Value fl.F64)
  max_step max entry = choose "Bad argument to max" max entry (Value.less_than max entry)

  unfoldable pub min_step : Value fl.F64 → Value fl.F64 → Result String (Value fl.F64)
  min_step min entry = choose "Bad argument to min" min entry (Value.less_than entry min)

  abbrev pub go_on : {A B : Type 0} → Result String A → (A → Result String B) → Result String B
  go_on (ok a) f = f a
  go_on (err e) f = err e

  -- `Iterator::try_fold`
  unfoldable pub try_fold :
      (Value fl.F64 → Value fl.F64 → Result String (Value fl.F64))
      → Values
      → Value fl.F64
      → Result String (Value fl.F64)
  try_fold step [] acc = ok acc
  try_fold step (v ∷ vs) acc = go_on (step acc v) (try_fold step vs)

  abbrev pub as_values : Result String (Value fl.F64) → Answer Values
  as_values (ok a) = return_one a
  as_values (err e) = done (err e)

  unfoldable pub max : Values → Answer Values
  max [] = bad_argument "Bad argument to max"
  max args = as_values (try_fold max_step args (Value.number negative_infinity))

  unfoldable pub min : Values → Answer Values
  min [] = bad_argument "Bad argument to min"
  min args = as_values (try_fold min_step args (Value.number fl.infinity))

  abbrev pub kind : Value fl.F64 → Value fl.F64
  kind (Value.integer _) =
      Value.string (LuaString.static (b'i' ∷ b'n' ∷ b't' ∷ b'e' ∷ b'g' ∷ b'e' ∷ b'r' ∷ []))
  kind (Value.number _) = Value.string (LuaString.static (b'f' ∷ b'l' ∷ b'o' ∷ b'a' ∷ b't' ∷ []))
  kind _ = Value.nil

  unfoldable pub math_type : Values → Answer Values
  math_type args = return_one (kind (argument args 0))

  abbrev pub integer_or_nil : Option ℕ → Value fl.F64
  integer_or_nil none = Value.nil
  integer_or_nil (some i) = Value.integer i

  unfoldable pub tointeger : Values → Answer Values
  tointeger args = return_one (integer_or_nil (Value.to_integer (argument args 0)))

  -- `(f as u64) < (g as u64)` on patterns.
  abbrev pub compare_unsigned : Option ℕ → Option ℕ → Answer Values
  compare_unsigned (some f) (some g) = return_one (Value.boolean (ltb f g))
  compare_unsigned _ _ = bad_argument "Bad argument to ult"

  unfoldable pub ult : Values → Answer Values
  ult args =
      compare_unsigned (Value.to_integer (argument args 0)) (Value.to_integer (argument args 1))

module _ ⦃fl : Float⦄ (el : Elementary fl.F64) where
  -- A function on floats.
  abbrev pub elementary : String → (fl.F64 → fl.F64) → Values → Answer Values
  elementary text f = with_number text (λ a. return_one (Value.number (f a)))

  abbrev pub abs_value : Value fl.F64 → Answer Values
  abs_value (Value.integer a) = do b ← abs_i64 a; return_one (Value.integer b)
  abs_value a =
      by_number "Bad argument to abs" (λ f. return_one (Value.number (el.abs f)))
        (Value.to_number a)

  unfoldable pub abs : Values → Answer Values
  abs args = abs_value (argument args 0)

  unfoldable pub acos : Values → Answer Values
  acos = elementary "Bad argument to acos" el.acos

  unfoldable pub asin : Values → Answer Values
  asin = elementary "Bad argument to asin" el.asin

  unfoldable pub atan : Values → Answer Values
  atan = elementary "Bad argument to atan" el.atan

  unfoldable pub cos : Values → Answer Values
  cos = elementary "Bad argument to cos" el.cos

  unfoldable pub cosh : Values → Answer Values
  cosh = elementary "Bad argument to cosh" el.cosh

  unfoldable pub deg : Values → Answer Values
  deg = elementary "Bad argument to deg" el.to_degrees

  unfoldable pub log : Values → Answer Values
  log = elementary "Bad argument to log" el.ln

  unfoldable pub log10 : Values → Answer Values
  log10 = elementary "Bad argument to log10" el.log10

  unfoldable pub rad : Values → Answer Values
  rad = elementary "Bad argument to rad" el.to_radians

  unfoldable pub sin : Values → Answer Values
  sin = elementary "Bad argument to sin" el.sin

  unfoldable pub sqrt : Values → Answer Values
  sqrt = elementary "Bad argument to sqrt" el.sqrt

  unfoldable pub tan : Values → Answer Values
  tan = elementary "Bad argument to tan" el.tan

  unfoldable pub atan2 : Values → Answer Values
  atan2 = with_numbers "Bad argument to atan2" (λ f g. return_one (Value.number (el.atan2 f g)))

  unfoldable pub ceil : Values → Answer Values
  ceil =
      with_number "Bad argument to ceil" (λ f. return_one (Value.integer (fl.as_i64 (el.ceil f))))

  unfoldable pub exp : Values → Answer Values
  exp = elementary "Bad argument to exp" (fl.powf el.e)

  unfoldable pub fmod : Values → Answer Values
  fmod = with_numbers "Bad argument to fmod" (λ f g.
      let result = el.abs (fl.rem f g) in
      return_one (Value.number (if fl.lt f (fl.of_ℤ (pos 0)) then fl.neg result else result)))

  -- `f64::from_bits((bits | (0x3ff << 52)) & (!(1 << 62))) / 2.0`
  abbrev pub mantissa : ℕ → fl.F64
  mantissa bits =
      fl.div (el.from_bits (bit_and (bit_or bits (1023 * 2 ^ 52)) (2 ^ 64 - 1 - 2 ^ 62))) two

  -- `((bits >> 52) & 0x7ff) as i64 - 1023 + 1`
  abbrev pub exponent : ℕ → ℕ
  exponent bits = (bits / 2 ^ 52 % 2048 + I64.modulus - 1023 + 1) % I64.modulus

  unfoldable pub frexp : Values → Answer Values
  frexp = with_number "Bad argument to frexp" (λ f.
      if el.is_finite f
      then done (
          ok
            (Value.number (mantissa (fl.to_bits f)) ∷ Value.integer (exponent (fl.to_bits f)) ∷ []))
      else done (ok (Value.number f ∷ Value.integer 0 ∷ [])))

module _ ⦃fl : Float⦄ where
  unfoldable pub floor : Values → Answer Values
  floor =
      with_number "Bad argument to floor" (λ f. return_one (Value.integer (fl.as_i64 (fl.floor f))))

  unfoldable pub ldexp : Values → Answer Values
  ldexp =
      with_numbers "Bad argument to ldexp"
        (λ f g. return_one (Value.number (fl.mul f (fl.powf two g))))

  unfoldable pub modf : Values → Answer Values
  modf = with_number "Bad argument to modf" (λ f.
      done (ok (Value.integer (fl.as_i64 f) ∷ Value.number (fl.rem f (fl.of_ℤ (pos 1))) ∷ [])))

  module _ {R : Type 0} (rng : Rng fl.F64 R) where
    -- The results, and the generator's state.
    abbrev pub drawn : Run (ℕ × R) → Answer (Values × R)
    drawn (done (n, r)) = done (ok (Value.integer n ∷ [], r))
    drawn panic = panic

    -- `rng.borrow_mut().gen_range(low, high + 1)`
    abbrev pub random_range : ℕ → ℕ → R → Answer (Values × R)
    random_range low high r = do above ← I64.checked_sum high 1; drawn (rng.gen_range low above r)

    abbrev pub random_of : Option ℕ → Option ℕ → R → Answer (Values × R)
    random_of (some first) (some second) r = random_range first second r
    random_of _ _ r = bad_argument "Bad argument to random"

    abbrev pub random_up_to : Option ℕ → R → Answer (Values × R)
    random_up_to (some first) r = random_range 1 first r
    random_up_to none r = bad_argument "Bad argument to random"

    abbrev pub random_from : Value fl.F64 → Value fl.F64 → R → Answer (Values × R)
    random_from Value.nil Value.nil r = done (ok (Value.number (rng.gen r).0 ∷ [], (rng.gen r).1))
    random_from a Value.nil r = random_up_to (Value.to_integer a) r
    random_from a b r = random_of (Value.to_integer a) (Value.to_integer b) r

    unfoldable pub random : Values → R → Answer (Values × R)
    random args = random_from (argument args 0) (argument args 1)

module _ ⦃fl : Float⦄ (el : Elementary fl.F64) {R : Type 0} (rng : Rng fl.F64 R) where
  abbrev pub seeded : Option fl.F64 → Answer (Values × R)
  seeded none = bad_argument "Bad argument to randomseed"
  seeded (some f) = done (ok ([], rng.seed_from_u64 (el.as_u64 f)))

  unfoldable pub randomseed : Values → Answer (Values × R)
  randomseed args = seeded (Value.to_number (argument args 0))

-- `math.huge`, `math.maxinteger`, `math.mininteger` and `math.pi`.
module _ ⦃fl : Float⦄ where
  unfoldable pub huge : Value fl.F64
  huge = Value.number fl.infinity

  unfoldable pub maxinteger : Value fl.F64
  maxinteger = Value.integer I64.max_value

  unfoldable pub mininteger : Value fl.F64
  mininteger = Value.integer I64.min_value

  unfoldable pub pi : Elementary fl.F64 → Value fl.F64
  pi el = Value.number el.pi
