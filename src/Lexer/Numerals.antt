-- ===== src/Lexer/Numerals.antt =====
-- src/lexer.rs: decimal numerals without point and exponent, as `read_token` reads them.
use luster.Prelude.{
  ℕ, zero, suc, ◌<◌, ◌≡◌, refl, ap, ◌∙◌, Bool, true, false, not, ◌&&◌, ◌||◌, Option, none, some,
  List, [], ◌∷◌, ◌++◌, length, ◌==◌, arith,
}
use mathlib.Core.List.{append_assoc, append-nil}
use luster.Float.{Float}
use luster.Numbers.{from_digit, read_integer, read_float}
use luster.Lexer.{is_newline, is_space, whitespace, skip_whitespace}
use luster.Lexer.Reading.{bad_number, Lexer, Read, ok, err, and_then, pure}
use luster.Lexer.LongString.{lexer}
use luster.Lexer.Names.{All}
use luster.Lexer.Tokens.{Token, integer, float}
use luster.Lexer.ReadToken.{
  is_digit, mantissa, exponent, numeral_token, read_numeral, other_token, token_from, do_read_token,
  read_token, reset_end,
}

-- What may follow a numeral that has no point and no exponent.
abbrev pub ends_numeral : ℕ → Bool
ends_numeral c = not (is_digit c || c == b'.' || c == b'e' || c == b'E' || c == b'x' || c == b'X')

abbrev pub EndsNumeral : List ℕ → Type 0
EndsNumeral [] = Unit
EndsNumeral (c ∷ cs) = ends_numeral c ≡ true

digit-apart : (c d : ℕ) → is_digit c ≡ true → is_digit d ≡ false → (c == d) ≡ false
digit-apart c d h k = ground arith

mantissa-digits :
    (fuel : ℕ) (cs rest buffer : List ℕ) (line : ℕ)
    → All is_digit cs
    → EndsNumeral rest
    → length cs < fuel
    → mantissa fuel false false (lexer (cs ++ rest) buffer line)
      ≡ ok false (lexer rest (buffer ++ cs) line)
unfolding mantissa from_digit
mantissa-digits zero cs rest buffer line a e lt = ground (arith, lt)
mantissa-digits (suc fuel) [] [] buffer line a e lt = rw (append-nil buffer) refl
mantissa-digits (suc fuel) [] (c ∷ rest) buffer line a e lt =
    let digit : is_digit c ≡ false = ground arith in
    let point : (c == b'.') ≡ false = ground arith in rw (append-nil buffer, digit, point) refl
mantissa-digits (suc fuel) (c ∷ cs) rest buffer line (h, a) e lt =
    let point : (c == b'.') ≡ false = digit-apart c b'.' h refl in
    rw (point, h)
      (mantissa-digits fuel cs rest (buffer ++ c ∷ []) line a e (omega (arith, lt))
        ∙ ap (λ b. ok false (lexer rest b line)) (append_assoc buffer (c ∷ []) cs))

exponent-none :
    (fuel : ℕ) (rest buffer : List ℕ) (line : ℕ)
    → EndsNumeral rest
    → exponent fuel false (lexer rest buffer line) ≡ ok false (lexer rest buffer line)
unfolding exponent
exponent-none fuel [] buffer line e = refl
exponent-none fuel (c ∷ rest) buffer line e =
    let mark : (c == b'e' || c == b'E') ≡ false = ground arith in rw mark refl

skip_whitespace-digit :
    (fuel c : ℕ) (rest buffer : List ℕ) (line : ℕ)
    → is_digit c ≡ true
    → skip_whitespace (suc fuel) (lexer (c ∷ rest) buffer line)
      ≡ ok tt (lexer (c ∷ rest) buffer line)
unfolding skip_whitespace whitespace from_digit
skip_whitespace-digit fuel c rest buffer line h =
    let newline : is_newline c ≡ false = ground arith in
    let space : is_space c ≡ false = ground arith in
    let dash : (c == b'-') ≡ false = ground arith in rw (space, newline, dash) refl

module _ ⦃fl : Float⦄ {S : Type 0} where
  abbrev pub float_read : Option fl.F64 → List ℕ → List ℕ → ℕ → Read (Option (Token fl.F64 S))
  float_read (some f) text rest line = ok (some (float f)) (lexer rest text line)
  float_read none text rest line = err bad_number (lexer [] [] line)

  -- What the lexer makes of a numeral, and the buffer that is left.
  abbrev pub numeral_read : Option ℕ → List ℕ → List ℕ → ℕ → Read (Option (Token fl.F64 S))
  numeral_read (some i) text rest line = ok (some (integer i)) (lexer rest text line)
  numeral_read none text rest line = float_read (read_float text) text rest line

  read_numeral-digits :
      (fuel c : ℕ) (cs rest buffer : List ℕ) (line : ℕ)
      → is_digit c ≡ true
      → All is_digit cs
      → EndsNumeral rest
      → length cs < fuel
      → read_numeral {S = S} (suc fuel) (lexer (c ∷ cs ++ rest) buffer line)
        ≡ numeral_token false false false (c ∷ cs) (lexer rest (c ∷ cs) line)
  unfolding read_numeral from_digit
  read_numeral-digits fuel c [] [] buffer line h a e lt =
      let no_hex : (c == b'0' && false) ≡ false = ground arith in
      let starts : (c == b'.' || is_digit c) ≡ true = ground arith in
      rw (starts, no_hex)
        (rw
          (
            mantissa-digits (suc fuel) (c ∷ []) [] [] line (h, tt) e (omega (arith, lt)),
            exponent-none (suc fuel) [] (c ∷ []) line e,
          )
          refl)
  read_numeral-digits fuel c [] (d ∷ rest) buffer line h a e lt =
      let no_hex : (c == b'0' && (d == b'x' || d == b'X')) ≡ false = ground arith in
      let starts : (c == b'.' || is_digit c) ≡ true = ground arith in
      rw (starts, no_hex)
        (rw
          (
            mantissa-digits (suc fuel) (c ∷ []) (d ∷ rest) [] line (h, tt) e (omega (arith, lt)),
            exponent-none (suc fuel) (d ∷ rest) (c ∷ []) line e,
          )
          refl)
  read_numeral-digits fuel c (d ∷ ds) rest buffer line h (k, a) e lt =
      let no_hex : (c == b'0' && (d == b'x' || d == b'X')) ≡ false =
        ground (arith, digit-apart d b'x' k refl, digit-apart d b'X' k refl) in
      let starts : (c == b'.' || is_digit c) ≡ true = ground arith in
      rw (starts, no_hex)
        (rw
          (
            mantissa-digits (suc fuel) (c ∷ d ∷ ds) rest [] line (h, (k, a)) e (omega (arith, lt)),
            exponent-none (suc fuel) rest (c ∷ d ∷ ds) line e,
          )
          refl)

  module _ (create_string : List ℕ → S) (encode : ℕ → Option (List ℕ)) where
    token_from-digit :
        (fuel c : ℕ) (s : Lexer)
        → is_digit c ≡ true
        → token_from create_string encode fuel c s ≡ read_numeral fuel s
    unfolding token_from other_token from_digit
    token_from-digit fuel c s h =
        let space : is_space c ≡ false = ground arith in
        let quote : (c == 34 || c == 39) ≡ false = ground arith in
        rw
          (
            space,
            digit-apart c b'-' h refl,
            digit-apart c b'[' h refl,
            digit-apart c b'=' h refl,
            digit-apart c b'<' h refl,
            digit-apart c b'>' h refl,
            digit-apart c b'/' h refl,
            digit-apart c b'~' h refl,
            digit-apart c b':' h refl,
            quote,
            digit-apart c b'.' h refl,
          )
          (rw h refl)

    finished :
        (o : Option ℕ) (f : Option fl.F64) (text rest : List ℕ) (line : ℕ)
        → read_integer text ≡ o
        → read_float text ≡ f
        → reset_end create_string encode (
            and_then
              (numeral_token {S = S} false false false text (lexer rest text line))
              (λ t. pure (some t)))
          ≡ numeral_read o text rest line
    unfolding numeral_token
    finished (some i) f text rest line h k = rw h refl
    finished none (some f) text rest line h k = rw (h, k) refl
    finished none none text rest line h k = rw (h, k) refl

    -- Decimal digits, up to a character that is no digit, point, `e`, `E`, `x` or `X`, are one
    -- token of `read_token`, with fuel above their number: the integer that `read_integer` reads;
    -- where it reads none, the float that `read_float` reads; and where neither does, the error of
    -- a malformed number, and the lexer is reset. What follows is left.
    pub read_token-numeral :
        (fuel c : ℕ) (cs rest buffer : List ℕ) (line : ℕ)
        → is_digit c ≡ true
        → All is_digit cs
        → EndsNumeral rest
        → length cs < fuel
        → read_token create_string encode (suc fuel) (lexer (c ∷ cs ++ rest) buffer line)
          ≡ numeral_read (read_integer (c ∷ cs)) (c ∷ cs) rest line
    unfolding read_token do_read_token
    read_token-numeral fuel c cs rest buffer line h a e lt =
        rw
          (
            skip_whitespace-digit fuel c (cs ++ rest) buffer line h,
            token_from-digit (suc fuel) c (lexer (c ∷ cs ++ rest) buffer line) h,
            read_numeral-digits fuel c cs rest buffer line h a e lt,
          )
          (finished (read_integer (c ∷ cs)) (read_float (c ∷ cs)) (c ∷ cs) rest line refl refl)
