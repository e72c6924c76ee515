-- ===== src/Numbers/Integers.antt =====
-- src/lexer.rs: the readers of integers against the unbounded value of the digits.
use native.Mathlib.Nat.{mul-suc}
use luster.Prelude.{
  ◌||◌, ◌&&◌, ◌⊎◌, ap, ℕ, zero, suc, ◌+◌, ◌-◌, ◌*◌, ◌%◌, ◌^◌, ◌≤◌, ◌<◌, ◌≡◌, refl, sym, Bool, true,
  false, Option, none, some, List, [], ◌∷◌, arith, ltb, ◌==◌, if◌then◌else◌, Bool-cases,
  Option-cases, inl, inr, subst,
}
use luster.Prelude.Int.{pos, sub_ℕ}
use luster.I64.{to_ℤ, modulus}
use luster.Prelude.Run.{Run, done, panic}
use luster.Numbers.{
  hex_integer, read_hex_integer, from_hex_digit, from_digit, read_neg, push_digit, read_digits,
  signed_result, read_integer,
}
use luster.Numbers.Monad.{◌>>=◌}

-- The number that the digits stand for, behind a prefix of the value `i`, without a bound.
unfoldable pub digits_value : (ℕ → Option ℕ) → ℕ → ℕ → List ℕ → Option ℕ
digits_value digit radix i [] = some i
digits_value digit radix i (c ∷ s) = do d ← digit c; digits_value digit radix (i * radix + d) s

abbrev pub below_half : Option ℕ → Option ℕ
below_half none = none
below_half (some n) = if ltb n (2 ^ 63) then some n else none

too_large :
    (digit : ℕ → Option ℕ) (radix i : ℕ) (s : List ℕ)
    → 1 ≤ radix
    → 2 ^ 63 ≤ i
    → below_half (digits_value digit radix i s) ≡ none
unfolding digits_value
too_large digit radix i [] r h = ground arith
too_large digit radix i (c ∷ s) r h = elim (Option-cases (digit c)) [
  | inl e ↦ rw e refl
  | inr (d, e) ↦ rw e (too_large digit radix (i * radix + d) s r (larger i radix d r h))
]
  where
    larger : (i radix d : ℕ) → 1 ≤ radix → 2 ^ 63 ≤ i → 2 ^ 63 ≤ i * radix + d
    larger i zero d r h = absurd (omega arith)
    larger i (suc k) d r h = omega (arith, mul-suc i k)

pub read_digits-digits_value :
    (digit : ℕ → Option ℕ) (radix i : ℕ) (s : List ℕ)
    → 1 ≤ radix
    → i < 2 ^ 63
    → read_digits digit radix i s ≡ below_half (digits_value digit radix i s)
unfolding digits_value read_digits push_digit
read_digits-digits_value digit radix i [] r h = ground arith
read_digits-digits_value digit radix i (c ∷ s) r h = elim (Option-cases (digit c)) [
  | inl e ↦ rw e refl
  | inr (d, e) ↦ elim (Bool-cases (ltb (i * radix + d) (2 ^ 63))) [
    | inl fits ↦
        let part : ltb (i * radix) (2 ^ 63) ≡ true = ground arith in
        rw (e, part, fits) (read_digits-digits_value digit radix (i * radix + d) s r (ground arith))
    | inr over ↦ elim (Bool-cases (ltb (i * radix) (2 ^ 63))) [
      | inl part ↦
          rw (e, part, over) (sym (too_large digit radix (i * radix + d) s r (ground arith)))
      | inr all ↦ rw (e, all) (sym (too_large digit radix (i * radix + d) s r (ground arith)))
    ]
  ]
]

-- The result of `read_integer`, for the sign and the value of the digits.
abbrev pub Reads : Bool → Option ℕ → Option ℕ → Type 0
Reads is_neg none r = r ≡ none
Reads is_neg (some n) none = 2 ^ 63 ≤ n
Reads is_neg (some n) (some i) =
    (n < 2 ^ 63) × (i < modulus) × (to_ℤ i ≡ (if is_neg then sub_ℕ 0 n else pos n))

small : (is_neg : Bool) (n : ℕ) → n < 2 ^ 63 → Reads is_neg (some n) (signed_result is_neg n)
unfolding signed_result
small true n h = elim (Bool-cases ((2 ^ 64 - n) % 2 ^ 64 == 2 ^ 63)) [
  | inl e ↦ absurd (ground arith)
  | inr e ↦ rw e (h, omega arith, ground arith)
]
small false n h = elim (Bool-cases (n == 2 ^ 63)) [
  | inl e ↦ absurd (ground arith)
  | inr e ↦ rw e (h, omega arith, ground arith)
]

signed_result-Reads :
    (is_neg : Bool) (o : Option ℕ) → Reads is_neg o (below_half o >>= signed_result is_neg)
unfolding signed_result
signed_result-Reads is_neg none = refl
signed_result-Reads is_neg (some n) = elim (Bool-cases (ltb n (2 ^ 63))) [
  | inr over ↦ rw over (ground arith)
  | inl fits ↦ rw fits (small is_neg n (ground arith))
]

read_digits-Reads :
    (is_neg : Bool) (digit : ℕ → Option ℕ) (radix : ℕ) (s : List ℕ)
    → 1 ≤ radix
    → Reads is_neg
        (digits_value digit radix 0 s)
        (read_digits digit radix 0 s >>= signed_result is_neg)
read_digits-Reads is_neg digit radix s h =
    subst (λ o. Reads is_neg (digits_value digit radix 0 s) (o >>= signed_result is_neg))
      (sym (read_digits-digits_value digit radix 0 s h (omega arith)))
      (signed_result-Reads is_neg (digits_value digit radix 0 s))

-- For a text of any length: `read_integer` fails for a character behind the sign that is no digit,
-- and for digits of a value of 2 ^ 63 or more; otherwise it returns the `i64` of the value and the
-- sign.
pub read_integer-Reads :
    (s : List ℕ)
    → Reads (read_neg s).0 (digits_value from_digit 10 0 (read_neg s).1) (read_integer s)
unfolding read_integer
read_integer-Reads s = read_digits-Reads (read_neg s).0 from_digit 10 (read_neg s).1 (omega arith)

-- What follows `0x` or `0X`.
unfoldable pub after_prefix : List ℕ → Option (List ℕ)
after_prefix (z ∷ x ∷ t) = if z == b'0' && (x == b'x' || x == b'X') then some t else none
after_prefix _ = none

-- The digits that `read_hex_integer` found behind the prefix, and its result.
abbrev pub ReadsPrefixed : Bool → Option (List ℕ) → Option ℕ → Type 0
ReadsPrefixed is_neg none r = r ≡ none
ReadsPrefixed is_neg (some t) r = Reads is_neg (digits_value from_hex_digit 16 0 t) r

-- The result of `read_hex_integer`, for the text behind the sign.
abbrev pub ReadsHex : Bool → List ℕ → Run (Option ℕ) → Type 0
ReadsHex is_neg s panic = (s ≡ []) ⊎ (s ≡ b'0' ∷ [])
ReadsHex is_neg s (done r) = ReadsPrefixed is_neg (after_prefix s) r

hex_integer-ReadsHex : (is_neg : Bool) (s : List ℕ) → ReadsHex is_neg s (hex_integer is_neg s)
unfolding hex_integer after_prefix
hex_integer-ReadsHex is_neg [] = inl refl
hex_integer-ReadsHex is_neg (z ∷ []) = elim (Bool-cases (z == b'0')) [
  | inl e ↦ rw e (inr (ap (λ c. c ∷ []) (ground arith)))
  | inr e ↦ rw e refl
]
hex_integer-ReadsHex is_neg (z ∷ x ∷ t) =
    elim (Bool-cases (z == b'0' && (x == b'x' || x == b'X'))) [
      | inl e ↦ rw e (read_digits-Reads is_neg from_hex_digit 16 t (omega arith))
      | inr e ↦ rw e refl
    ]

-- `read_hex_integer` panics at most on a text that is nothing but a sign and at most the digit 0.
-- Otherwise it fails without the prefix, for a character behind it that is no digit, and for digits
-- of a value of 2 ^ 63 or more, and returns the `i64` of the value and the sign if none is so.
pub read_hex_integer-ReadsHex :
    (s : List ℕ) → ReadsHex (read_neg s).0 (read_neg s).1 (read_hex_integer s)
unfolding read_hex_integer
read_hex_integer-ReadsHex s = hex_integer-ReadsHex (read_neg s).0 (read_neg s).1
