-- ===== src/I64.antt =====
-- The `i64` operations that the code uses. An `i64` is its two's complement bit pattern, a number
-- below 2 ^ 64, and `to_ℤ` is the integer that the pattern stands for.
use Prim.Native.Nat.{ℕ, zero, suc}
use luster.Prelude.{
  ◌+◌, ◌-◌, ◌*◌, ◌/◌, ◌%◌, ◌^◌, ◌<◌, Bool, true, false, not, ◌&&◌, ◌||◌, Option, none, some, ltb,
  leb, ◌==◌, if◌then◌else◌,
}
use luster.Prelude.Int.{ℤ, pos, negsuc}
use luster.Prelude.Run.{Run, done, panic, ◌>>=◌}
pub mod Laws

abbrev pub modulus : ℕ
modulus = 2 ^ 64

abbrev pub half : ℕ
half = 2 ^ 63

-- `i64::MIN` and `i64::MAX`.
abbrev pub min_value : ℕ
min_value = 2 ^ 63

abbrev pub max_value : ℕ
max_value = 2 ^ 63 - 1

abbrev pub is_negative : ℕ → Bool
is_negative a = leb half a

abbrev pub to_ℤ : ℕ → ℤ
to_ℤ a = if ltb a half then pos a else negsuc (modulus - a - 1)

-- `|a|`, as a number.
abbrev pub magnitude : ℕ → ℕ
magnitude a = if is_negative a then modulus - a else a

-- The pattern of `m` or `-m`, wrapped.
abbrev pub with_sign : Bool → ℕ → ℕ
with_sign negative m = if negative then (modulus - m % modulus) % modulus else m % modulus

unfoldable pub wrapping_add : ℕ → ℕ → ℕ
wrapping_add a b = (a + b) % modulus

unfoldable pub wrapping_sub : ℕ → ℕ → ℕ
wrapping_sub a b = (a + modulus - b) % modulus

unfoldable pub wrapping_mul : ℕ → ℕ → ℕ
wrapping_mul a b = a * b % modulus

unfoldable pub wrapping_neg : ℕ → ℕ
wrapping_neg a = (modulus - a) % modulus

differ : Bool → Bool → Bool
differ true b = not b
differ false b = b

-- Division rounds towards zero; the caller has excluded `b = 0`, on which Rust panics.
unfoldable pub wrapping_div : ℕ → ℕ → ℕ
unfolding differ
wrapping_div a b = with_sign (differ (is_negative a) (is_negative b)) (magnitude a / magnitude b)

-- `a % b`: it panics at `b = 0`, and at `i64::MIN % -1`.
unfoldable pub rem : ℕ → ℕ → Run ℕ
rem a b =
    if b == 0 || (a == min_value && b == modulus - 1)
    then panic
    else done (with_sign (is_negative a) (magnitude a % magnitude b))

-- Whether the true sum of two patterns of one sign leaves the range.
abbrev pub sum_overflows : ℕ → ℕ → Bool
sum_overflows a b = not (differ_sign a b) && differ_sign a ((a + b) % modulus)
  where
    differ_sign : ℕ → ℕ → Bool
    differ_sign x y = if is_negative x then not (is_negative y) else is_negative y

-- `a + b` in a checked build.
unfoldable pub checked_sum : ℕ → ℕ → Run ℕ
checked_sum a b = if sum_overflows a b then panic else done ((a + b) % modulus)

-- `a < b` and `a <= b`, on the integers that the patterns stand for.
abbrev pub flip_sign : ℕ → ℕ
flip_sign a = (a + half) % modulus

unfoldable pub lt : ℕ → ℕ → Bool
lt a b = ltb (flip_sign a) (flip_sign b)

unfoldable pub le : ℕ → ℕ → Bool
le a b = leb (flip_sign a) (flip_sign b)

unfoldable pub bit_not : ℕ → ℕ
bit_not a = modulus - 1 - a

-- `a << k` and `(a as u64 >> k as u64) as i64`: a checked build panics unless 0 <= k < 64.
unfoldable pub shl : ℕ → ℕ → Run ℕ
shl a k = if ltb k 64 then done (a * 2 ^ k % modulus) else panic

unfoldable pub shr : ℕ → ℕ → Run ℕ
shr a k = if ltb k 64 then done (a / 2 ^ k) else panic

-- `((a % b) + b) % b` in a checked build.
unfoldable pub mod_i64 : ℕ → ℕ → Run ℕ
unfolding rem checked_sum
mod_i64 a b = do r ← rem a b; s ← checked_sum r b; rem s b

-- The remainder of a division that rounds towards negative infinity, which takes the sign of the
-- divisor.
unfoldable pub floor_mod : ℕ → ℕ → ℕ
unfolding differ
floor_mod a b =
    let r = magnitude a % magnitude b in
    with_sign (is_negative b)
      (if differ (is_negative a) (is_negative b) && ltb 0 r then magnitude b - r else r)
