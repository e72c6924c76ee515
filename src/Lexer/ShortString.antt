-- ===== src/Lexer/ShortString.antt =====
-- src/lexer.rs: `read_short_string` and its escapes. `char::from_u32` and `encode_utf8` are a parameter:
-- the bytes of a character, if the number is one.
use luster.Prelude.{
  ℕ, zero, suc, ◌+◌, ◌*◌, ◌%◌, ◌^◌, bit_or, Bool, true, false, not, ◌||◌, Option, none, some, List,
  ltb, ◌==◌, if◌then◌else◌,
}
use luster.Numbers.{from_digit, from_hex_digit}
use luster.Lexer.Reading.{
  LexerError, unfinished_short_string, hex_digit_expected, escape_unicode_start, escape_unicode_end,
  escape_unicode_invalid, escape_decimal_too_large, invalid_escape, Method, ◌>>=◌, ◌>>◌, pure, fail,
  exhausted, peek, peek_some, advance, assert, push, push_all, clear, is_at,
}
use luster.Lexer.{is_newline, is_space, read_line_end}

-- The character that an escape of one letter stands for.
unfoldable pub letter_escape : ℕ → Option ℕ
letter_escape c =
    if c == b'a'
    then some 7
    else if c == b'b'
    then some 8
    else if c == b'f'
    then some 12
    else if c == b'n'
    then some 10
    else if c == b'r'
    then some 13
    else if c == b't'
    then some 9
    else if c == b'v'
    then some 11
    else if c == 92 || c == 39 || c == 34
    then some c
    else none

-- A match on an option.
abbrev pub by_option : {A : Type 0} → Option ℕ → Method A → (ℕ → Method A) → Method A
by_option none m f = m
by_option (some d) m f = f d

-- `.and_then(digit).ok_or(e)?`
abbrev pub digit_at : (ℕ → Option ℕ) → Option ℕ → Option ℕ
digit_at digit none = none
digit_at digit (some c) = digit c

abbrev pub or_fail : {A : Type 0} → LexerError → Option A → Method A
or_fail e none = fail e
or_fail e (some a) = pure a

unfoldable pub hex_escape : Method (Unit {0})
hex_escape = do
  advance 1
  c ← peek 0
  high ← or_fail hex_digit_expected (digit_at from_hex_digit c)
  d ← peek 1
  low ← or_fail hex_digit_expected (digit_at from_hex_digit d)
  push (bit_or (high * 2 ^ 4 % 2 ^ 8) low)
  advance 2

-- The digits between the braces, in a `u32`.
unfoldable pub unicode_digits : ℕ → ℕ → Method ℕ
unicode_digits zero u = exhausted
unicode_digits (suc fuel) u = do
  c ← peek 0
  elim c [
    | none ↦ fail escape_unicode_end
    | some c ↦ if c == b'}' then (do advance 1; pure u) else elim (from_hex_digit c) [
      | none ↦ fail escape_unicode_end
      | some h ↦ do advance 1; unicode_digits fuel (bit_or (u * 2 ^ 4 % 2 ^ 32) h)
    ]
  ]

unfoldable pub unicode_escape : (ℕ → Option (List ℕ)) → ℕ → Method (Unit {0})
unicode_escape encode fuel = do
  c ← peek 1
  if not (is_at c b'{') then fail escape_unicode_start else (do
    advance 2
    u ← unicode_digits fuel 0
    bytes ← or_fail escape_unicode_invalid (encode u)
    push_all bytes)

-- `\\z`
unfoldable pub skip_spaces : ℕ → Method (Unit {0})
skip_spaces zero = exhausted
skip_spaces (suc fuel) =
    let next = skip_spaces fuel in
    do
      c ← peek 0
      elim c [
        | none ↦ pure tt
        | some c ↦
            if is_newline c
            then (do read_line_end false; next)
            else if is_space c
            then (do advance 1; next)
            else pure tt
      ]

-- At most this number of digits; three make no `u16` overflow.
unfoldable pub decimal_digits : ℕ → ℕ → Method ℕ
decimal_digits zero u = pure u
decimal_digits (suc n) u = do
  c ← peek 0
  by_option (digit_at from_digit c) (pure u) (λ d. do advance 1; decimal_digits n (10 * u + d))

unfoldable pub decimal_escape : Method (Unit {0})
decimal_escape = do
  u ← decimal_digits 3 0
  if ltb 255 u then fail escape_decimal_too_large else push u

abbrev pub is_some : Option ℕ → Bool
is_some none = false
is_some (some d) = true

-- The escape whose first character is `c`.
unfoldable pub escape_from : (ℕ → Option (List ℕ)) → ℕ → ℕ → Method (Unit {0})
escape_from encode fuel c =
    by_option (letter_escape c)
      (if is_newline c
        then read_line_end true
        else if c == b'x'
        then hex_escape
        else if c == b'u'
        then unicode_escape encode fuel
        else if c == b'z'
        then (do advance 1; skip_spaces fuel)
        else if is_some (from_digit c)
        then decimal_escape
        else fail invalid_escape)
      (λ d. do advance 1; push d)

unfoldable pub short_string : (ℕ → Option (List ℕ)) → ℕ → ℕ → Method (Unit {0})
short_string encode zero quote = exhausted
short_string encode (suc fuel) quote =
    let next = short_string encode fuel quote in
    do
      c ← peek 0
      elim c [
        | none ↦ fail (unfinished_short_string quote)
        | some c ↦ if is_newline c then fail (unfinished_short_string quote) else (do
          advance 1
          if c == 92
              then (do
                d ← peek 0
                e ← or_fail (unfinished_short_string quote) d
                escape_from encode fuel e
                next)
              else if c == quote
              then pure tt
              else (do push c; next))
      ]

unfoldable pub read_short_string : (ℕ → Option (List ℕ)) → ℕ → Method (Unit {0})
read_short_string encode fuel = do
  quote ← peek_some
  assert (quote == 39 || quote == 34)
  advance 1
  clear
  short_string encode fuel quote
