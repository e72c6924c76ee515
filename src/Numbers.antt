-- ===== src/Numbers.antt =====
-- src/lexer.rs, the readers of numbers: integers and floats from the bytes of a token or of a
-- string. A count of digits is unbounded here; the code counts them in a `u32`.
use mathlib.Core.Option
use luster.Prelude.{
  ℕ, zero, suc, ◌+◌, ◌-◌, ◌*◌, ◌%◌, ◌^◌, Bool, true, false, ◌&&◌, ◌||◌, Option, none, some, List,
  [], ◌∷◌, drop, ltb, leb, ◌==◌, if◌then◌else◌,
}
use luster.Prelude.Int.{ℤ, pos, negsuc, ◌+ℤ◌, ◌-ℤ◌, ◌*ℤ◌, ltb_ℤ}
use luster.Prelude.Run.{Run, done, panic}
use luster.Float.{Float}
pub mod Monad
pub mod Integers
use Monad.{◌>>=◌, ◌>>◌}

unfoldable pub from_digit : ℕ → Option ℕ
from_digit c = if leb b'0' c && leb c b'9' then some (c - b'0') else none

unfoldable pub from_hex_digit : ℕ → Option ℕ
from_hex_digit c =
    if leb b'0' c && leb c b'9'
    then some (c - b'0')
    else if leb b'a' c && leb c b'f'
    then some (10 + c - b'a')
    else if leb b'A' c && leb c b'F'
    then some (10 + c - b'A')
    else none

unfoldable pub read_neg : List ℕ → Bool × List ℕ
read_neg [] = (false, [])
read_neg (c ∷ s) = if c == b'-' then (true, s) else if c == b'+' then (false, s) else (false, c ∷ s)

-- `x.checked_mul(radix)?.checked_add(d)?` for an `i64` that is not negative.
unfoldable pub push_digit : ℕ → ℕ → ℕ → Option ℕ
push_digit radix i d =
    if ltb (i * radix) (2 ^ 63) && ltb (i * radix + d) (2 ^ 63) then some (i * radix + d) else none

unfoldable pub read_digits : (ℕ → Option ℕ) → ℕ → ℕ → List ℕ → Option ℕ
read_digits digit radix i [] = some i
read_digits digit radix i (c ∷ s) = do
  d ← digit c
  i' ← push_digit radix i d
  read_digits digit radix i' s

-- What follows the loop: `checked_neg`, which fails only at `i64::MIN`, and the test for that.
unfoldable pub signed_result : Bool → ℕ → Option ℕ
signed_result is_neg i =
    let r = if is_neg then (2 ^ 64 - i) % 2 ^ 64 else i in if r == 2 ^ 63 then none else some r

unfoldable pub read_integer : List ℕ → Option ℕ
unfolding from_digit push_digit read_digits signed_result read_neg
read_integer s = do
  let (is_neg, t) = read_neg s
  i ← read_digits from_digit 10 0 t
  signed_result is_neg i

-- The code indexes `s[0]` and `s[1]` unguarded: a text of fewer than two bytes is a panic.
unfoldable pub hex_integer : Bool → List ℕ → Run (Option ℕ)
unfolding from_hex_digit push_digit read_digits signed_result
hex_integer is_neg [] = panic
hex_integer is_neg (z ∷ []) = if z == b'0' then panic else done none
hex_integer is_neg (z ∷ x ∷ t) =
    let result : Option ℕ = (do i ← read_digits from_hex_digit 16 0 t; signed_result is_neg i) in
    done (if z == b'0' && (x == b'x' || x == b'X') then result else none)

unfoldable pub read_hex_integer : List ℕ → Run (Option ℕ)
unfolding hex_integer read_neg
read_hex_integer s = hex_integer (read_neg s).0 (read_neg s).1

abbrev max_significant_digits : ℕ
max_significant_digits = 30

-- An `i32`: `checked_add` and `checked_sub` give `none` out of range, `saturating_add` and
-- `saturating_mul` the nearest value in range.
abbrev fits_i32 : ℤ → Option ℤ
fits_i32 e = if ltb_ℤ e (negsuc (2 ^ 31 - 1)) || ltb_ℤ (pos (2 ^ 31 - 1)) e then none else some e

abbrev saturate_i32 : ℤ → ℤ
saturate_i32 e =
    if ltb_ℤ e (negsuc (2 ^ 31 - 1))
    then negsuc (2 ^ 31 - 1)
    else if ltb_ℤ (pos (2 ^ 31 - 1)) e
    then pos (2 ^ 31 - 1)
    else e

-- `exp1 = exp1.saturating_mul(10).saturating_add(d)` over the digits; `none` at any other byte.
read_exponent : ℤ → List ℕ → Option ℤ
unfolding from_digit ◌+ℤ◌ ◌*ℤ◌
read_exponent e [] = some e
read_exponent e (c ∷ s) = do
  d ← from_digit c
  read_exponent (saturate_i32 (saturate_i32 (e *ℤ pos 10) +ℤ pos d)) s

-- `s[i] == b'p' || s[i] == b'P'` with a byte after it, then the exponent, else the end.
hex_exponent : ℤ → List ℕ → Option ℤ
unfolding read_exponent read_neg ◌+ℤ◌ ◌-ℤ◌
hex_exponent exp [] = some exp
hex_exponent exp (p ∷ []) = none
hex_exponent exp (p ∷ c ∷ s) =
    let (exp_neg, exp_s) = read_neg (c ∷ s) in
    let result : Option ℤ = (do
      exp1 ← read_exponent (pos 0) exp_s
      some (saturate_i32 (exp +ℤ (if exp_neg then pos 0 -ℤ exp1 else exp1)))) in
    if p == b'p' || p == b'P' then result else none

has_hex_prefix : List ℕ → Bool
has_hex_prefix (z ∷ x ∷ s) = z == b'0' && (x == b'x' || x == b'X')
has_hex_prefix _ = false

module _ ⦃fl : Float⦄ where
  unfoldable pub read_float : List ℕ → Option fl.F64
  read_float s = fl.parse s

  -- The variables of the loop of `read_hex_float`.
  pub record HexState : Type 0 where
    pub significant_digits : ℕ
    pub non_significant_digits : ℕ
    pub found_dot : Bool
    pub base : fl.F64
    pub exp : ℤ

  -- The step for a hexadecimal digit: it is counted, then weighed if it stands behind the dot.
  count_digit : ℕ → HexState → Option HexState
  unfolding ◌+ℤ◌
  count_digit d st =
      if st.significant_digits == 0 && d == 0
      then some (record st { non_significant_digits = st.non_significant_digits + 1 })
      else if ltb st.significant_digits max_significant_digits
      then some (record st {
        significant_digits = st.significant_digits + 1;
        base = fl.add (fl.mul st.base (fl.of_ℤ (pos 16))) (fl.of_ℤ (pos d));
      })
      else Option.map (λ e. record st { exp = e }) (fits_i32 (st.exp +ℤ pos 4))

  place_digit : HexState → Option HexState
  unfolding ◌-ℤ◌
  place_digit st =
      if st.found_dot
      then Option.map (λ e. record st { exp = e }) (fits_i32 (st.exp -ℤ pos 4))
      else some st

  hex_digit : ℕ → HexState → Option HexState
  unfolding count_digit place_digit
  hex_digit d st = count_digit d st >>= place_digit

  -- The loop: the state at the first byte that is neither a dot nor a digit, and the bytes from
  -- there on; `none` where the code returns `None`.
  hex_loop : HexState → List ℕ → Option (HexState × List ℕ)
  hex_loop st [] = some (st, [])
  hex_loop st (c ∷ s) =
      let after_dot = hex_loop (record st { found_dot = true }) s in
      let after_digit = λ (d : ℕ). (do st' ← hex_digit d st; hex_loop st' s) in
      if c == b'.'
      then if st.found_dot then none else after_dot
      else elim (from_hex_digit c) [ none ↦ some (st, c ∷ s) | some d ↦ after_digit d ]

  hex_float : Bool → List ℕ → Option fl.F64
  unfolding hex_digit hex_loop hex_exponent
  hex_float is_neg s = do
    (st, rest) ←
        hex_loop
          (record {
            significant_digits = 0;
            non_significant_digits = 0;
            found_dot = false;
            base = fl.of_ℤ (pos 0);
            exp = pos 0;
          })
          s
    let digits = st.non_significant_digits + st.significant_digits
    exp ← if digits == 0 then none else hex_exponent st.exp rest
    some (fl.mul (if is_neg then fl.neg st.base else st.base) (fl.exp2 (fl.of_ℤ exp)))

  unfoldable pub read_hex_float : List ℕ → Option fl.F64
  unfolding hex_float has_hex_prefix read_neg
  read_hex_float s =
      let (is_neg, t) = read_neg s in if has_hex_prefix t then hex_float is_neg (drop 2 t) else none
