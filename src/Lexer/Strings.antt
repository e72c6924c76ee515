-- ===== src/Lexer/Strings.antt =====
-- src/lexer.rs: short strings that are written with decimal escapes.
use luster.Prelude.{
  ℕ, zero, suc, ◌+◌, ◌*◌, ◌/◌, ◌%◌, ◌<◌, ◌≡◌, refl, ap, ◌∙◌, true, false, ◌||◌, Option, none, some,
  List, [], ◌∷◌, ◌++◌, length, ltb, ◌==◌, arith, ◌⊎◌, inl, inr,
}
use mathlib.Core.List.{append_assoc, append-nil}
use luster.Numbers.{from_digit}
use luster.Lexer.Reading.{Lexer, ok}
use luster.Lexer.{is_newline}
use luster.Lexer.LongString.{lexer}
use luster.Lexer.ShortString.{
  letter_escape, decimal_digits, decimal_escape, escape_from, short_string, read_short_string,
  is_some,
}

-- A byte, written with three digits.
abbrev pub decimal : ℕ → List ℕ → List ℕ
decimal b rest = 92 ∷ (b'0' + b / 100) ∷ (b'0' + b / 10 % 10) ∷ (b'0' + b % 10) ∷ rest

abbrev pub decimals : List ℕ → List ℕ → List ℕ
decimals [] rest = rest
decimals (b ∷ bs) rest = decimal b (decimals bs rest)

abbrev pub AreBytes : List ℕ → Type 0
AreBytes [] = Unit
AreBytes (b ∷ bs) = (b < 256) × AreBytes bs

from_digit-digit : (d : ℕ) → d < 10 → from_digit (b'0' + d) ≡ some d
unfolding from_digit
from_digit-digit d lt = ground arith

decimal_digits-three :
    (x y z : ℕ) (rest buffer : List ℕ) (line : ℕ)
    → x < 10
    → y < 10
    → z < 10
    → decimal_digits 3 0 (lexer ((b'0' + x) ∷ (b'0' + y) ∷ (b'0' + z) ∷ rest) buffer line)
      ≡ ok (x * 100 + y * 10 + z) (lexer rest buffer line)
unfolding decimal_digits
decimal_digits-three x y z rest buffer line hx hy hz =
    rw (from_digit-digit x hx, from_digit-digit y hy, from_digit-digit z hz)
      (ap (λ n. ok n (lexer rest buffer line)) (omega arith))

decimal_escape-byte :
    (b : ℕ) (rest buffer : List ℕ) (line : ℕ)
    → b < 256
    → decimal_escape
        (lexer ((b'0' + b / 100) ∷ (b'0' + b / 10 % 10) ∷ (b'0' + b % 10) ∷ rest) buffer line)
      ≡ ok tt (lexer rest (buffer ++ b ∷ []) line)
unfolding decimal_escape
decimal_escape-byte b rest buffer line lt =
    let value : b / 100 * 100 + b / 10 % 10 * 10 + b % 10 ≡ b = omega arith in
    let fits : ltb 255 b ≡ false = ground arith in
    rw
      (
        decimal_digits-three (b / 100) (b / 10 % 10) (b % 10) rest buffer line (omega arith)
            (omega arith) (omega arith),
        value,
        fits,
      )
      refl

letter_escape-digit : (d : ℕ) → d < 10 → letter_escape (b'0' + d) ≡ none
unfolding letter_escape
letter_escape-digit d lt = ground arith

escape_from-digit :
    (encode : ℕ → Option (List ℕ)) (fuel d : ℕ) (s : Lexer)
    → d < 10
    → escape_from encode fuel (b'0' + d) s ≡ decimal_escape s
unfolding escape_from
escape_from-digit encode fuel d s lt =
    let digit : is_some (from_digit (b'0' + d)) ≡ true = ap is_some (from_digit-digit d lt) in
    let newline : is_newline (b'0' + d) ≡ false = ground arith in
    let x : ((b'0' + d) == b'x') ≡ false = ground arith in
    let u : ((b'0' + d) == b'u') ≡ false = ground arith in
    let z : ((b'0' + d) == b'z') ≡ false = ground arith in
    rw (letter_escape-digit d lt, newline, x, u, z, digit) refl

short_string-decimal :
    (encode : ℕ → Option (List ℕ)) (fuel quote b : ℕ) (rest buffer : List ℕ) (line : ℕ)
    → b < 256
    → short_string encode (suc fuel) quote (lexer (decimal b rest) buffer line)
      ≡ short_string encode fuel quote (lexer rest (buffer ++ b ∷ []) line)
unfolding short_string
short_string-decimal encode fuel quote b rest buffer line lt =
    let digits = (b'0' + b / 100) ∷ (b'0' + b / 10 % 10) ∷ (b'0' + b % 10) ∷ rest in
    rw
      (
        escape_from-digit encode fuel (b / 100) (lexer digits buffer line) (omega arith),
        decimal_escape-byte b rest buffer line lt,
      )
      refl

short_string-end :
    (encode : ℕ → Option (List ℕ)) (fuel quote : ℕ) (rest buffer : List ℕ) (line : ℕ)
    → quote ≡ 34 ⊎ quote ≡ 39
    → short_string encode (suc fuel) quote (lexer (quote ∷ rest) buffer line)
      ≡ ok tt (lexer rest buffer line)
unfolding short_string
short_string-end encode fuel quote rest buffer line (inl e) = rw e refl
short_string-end encode fuel quote rest buffer line (inr e) = rw e refl

short_string-decimals :
    (encode : ℕ → Option (List ℕ)) (fuel quote : ℕ) (bytes rest buffer : List ℕ) (line : ℕ)
    → quote ≡ 34 ⊎ quote ≡ 39
    → AreBytes bytes
    → length bytes < fuel
    → short_string encode fuel quote (lexer (decimals bytes (quote ∷ rest)) buffer line)
      ≡ ok tt (lexer rest (buffer ++ bytes) line)
short_string-decimals encode zero quote bytes rest buffer line q h lt = ground (arith, lt)
short_string-decimals encode (suc fuel) quote [] rest buffer line q h lt =
    rw (append-nil buffer) (short_string-end encode fuel quote rest buffer line q)
short_string-decimals encode (suc fuel) quote (b ∷ bs) rest buffer line q (hb, h) lt =
    short_string-decimal encode fuel quote b (decimals bs (quote ∷ rest)) buffer line hb
    ∙ short_string-decimals encode fuel quote bs rest (buffer ++ b ∷ []) line q h
        (omega (arith, lt))
    ∙ ap (λ b. ok tt (lexer rest b line)) (append_assoc buffer (b ∷ []) bs)

-- Any bytes, written as decimal escapes between quotes of one kind, are read back by
-- `read_short_string`, with fuel above their number, and what follows is left.
pub read_short_string-decimals :
    (encode : ℕ → Option (List ℕ)) (fuel quote : ℕ) (bytes rest buffer : List ℕ) (line : ℕ)
    → quote ≡ 34 ⊎ quote ≡ 39
    → AreBytes bytes
    → length bytes < fuel
    → read_short_string encode fuel (lexer (quote ∷ decimals bytes (quote ∷ rest)) buffer line)
      ≡ ok tt (lexer rest bytes line)
unfolding read_short_string
read_short_string-decimals encode fuel quote bytes rest buffer line q h lt =
    let a_quote : (quote == 39 || quote == 34) ≡ true = ground arith in
    rw a_quote (short_string-decimals encode fuel quote bytes rest [] line q h lt)
