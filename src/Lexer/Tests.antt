-- ===== src/Lexer/Tests.antt =====
-- src/lexer.rs: strings that are read, and the theorems at concrete inputs.
use luster.Prelude.{ℕ, true, ◌+◌, ◌≡◌, refl, Option, none, some, List, [], ◌∷◌, ◌++◌, arith, inl}
use luster.Lexer.Reading.{Read, ok, err, unfinished_short_string}
use luster.Lexer.{
  read_newline, read_line_end, skip_separators, long_string, read_long_string, separators,
  skip_line, skip_comment, whitespace, skip_whitespace,
}
use luster.Lexer.LongString.{lexer, closed, line_ends, read_long_string-closed}
use luster.Lexer.ShortString.{
  letter_escape, decimal_digits, decimal_escape, escape_from, short_string, read_short_string,
  hex_escape,
}
use luster.Float.Whole.{Whole, wholes}
use luster.Lexer.Tokens.{
  Token, if_token, shift_left, string, get_char_token, get_reserved_word_token, find_word,
  same_bytes,
}
use luster.Lexer.ReadToken.{
  read_token, do_read_token, token_from, other_token, read_word, word_token, take_string,
  take_while, two_characters, three_tokens, bracket_token, dot_token, read_numeral, numeral_token,
  mantissa, exponent,
}
use luster.Lexer.Names.{word_read, read_token-word}
use luster.Lexer.Numerals.{numeral_read, read_token-numeral}
use luster.Lexer.Strings.{decimals, read_short_string-decimals}
use luster.Numbers.{from_digit, from_hex_digit, read_integer, read_hex_integer}

program : Unit {0}
unfolding read_newline read_line_end skip_separators long_string read_long_string skip_line
    skip_comment whitespace skip_whitespace letter_escape decimal_digits decimal_escape escape_from
    short_string read_short_string hex_escape from_digit from_hex_digit line_ends
program = tt

abbrev no_characters : ℕ → Option (List ℕ)
no_characters u = none

-- A comment of level 1, and the line after it.
comment :
    skip_whitespace 30 (
      lexer
        (b'-' ∷ b'-' ∷ b'[' ∷ b'=' ∷ b'[' ∷ b'a' ∷ b']' ∷ b']' ∷ 13 ∷ 10 ∷ b']' ∷ b'=' ∷ b']' ∷ 10
          ∷ b'x' ∷ [])
        []
        0)
    ≡ ok tt (lexer (b'x' ∷ []) [] 2)
unfolding program
comment = refl

escapes :
    read_short_string no_characters 30
      (lexer (34 ∷ 92 ∷ b'n' ∷ 92 ∷ b'x' ∷ b'4' ∷ b'1' ∷ 92 ∷ b'6' ∷ b'5' ∷ 34 ∷ []) [] 0)
    ≡ ok tt (lexer [] (10 ∷ 65 ∷ 65 ∷ []) 0)
unfolding program
escapes = refl

unfinished :
    read_short_string no_characters 30 (lexer (39 ∷ b'a' ∷ 10 ∷ 39 ∷ []) [] 0)
    ≡ err (unfinished_short_string 39) (lexer (10 ∷ 39 ∷ []) (b'a' ∷ []) 0)
unfolding program
unfinished = refl

-- The line end behind the opening bracket is kept.
read_long_string-closed_example :
    read_long_string 6 true
      (lexer (b'[' ∷ (separators 1 ++ b'[' ∷ closed (13 ∷ 10 ∷ b'a' ∷ []) 1 (b';' ∷ []))) [] 3)
    ≡ ok tt (lexer (b';' ∷ []) (13 ∷ 10 ∷ b'a' ∷ []) (3 + line_ends (13 ∷ 10 ∷ b'a' ∷ [])))
read_long_string-closed_example =
    read_long_string-closed 5 1 (13 ∷ 10 ∷ b'a' ∷ []) (b';' ∷ []) [] 3 refl (omega arith)
      (omega arith)

read_short_string-decimals_example :
    read_short_string no_characters 4
      (lexer (34 ∷ decimals (0 ∷ 34 ∷ 255 ∷ []) (34 ∷ b';' ∷ [])) [] 0)
    ≡ ok tt (lexer (b';' ∷ []) (0 ∷ 34 ∷ 255 ∷ []) 0)
read_short_string-decimals_example =
    read_short_string-decimals no_characters 4 34 (0 ∷ 34 ∷ 255 ∷ []) (b';' ∷ []) [] 0 (inl refl)
      (omega arith, (omega arith, (omega arith, tt))) (omega arith)

tokens : Unit {0}
unfolding program read_token do_read_token token_from other_token read_word word_token take_string
    take_while two_characters three_tokens bracket_token dot_token read_numeral numeral_token
    mantissa exponent get_char_token get_reserved_word_token find_word same_bytes read_integer
    read_hex_integer
tokens = tt

abbrev token_of : List ℕ → Read (Option (Token Whole (List ℕ)))
token_of text = read_token ⦃fl = wholes⦄ (λ s. s) no_characters 30 (lexer text [] 0)

reserved :
    token_of (b' ' ∷ b'i' ∷ b'f' ∷ b'(' ∷ [])
    ≡ ok (some if_token) (lexer (b'(' ∷ []) (b'i' ∷ b'f' ∷ []) 0)
unfolding tokens
reserved = refl

shifted : token_of (b'<' ∷ b'<' ∷ b'=' ∷ []) ≡ ok (some shift_left) (lexer (b'=' ∷ []) [] 0)
unfolding tokens
shifted = refl

quoted :
    token_of (39 ∷ b'a' ∷ 39 ∷ b';' ∷ []) ≡ ok (some (string (b'a' ∷ []))) (lexer (b';' ∷ []) [] 0)
unfolding tokens
quoted = refl

ended : token_of (b' ' ∷ 10 ∷ []) ≡ ok none (lexer [] [] 1)
unfolding tokens
ended = refl

-- `i1;` is a name.
read_token-word_example :
    read_token ⦃fl = wholes⦄ (λ s. s) no_characters 3 (lexer (b'i' ∷ b'1' ∷ b';' ∷ []) [] 7)
    ≡ word_read ⦃fl = wholes⦄
        (λ s. s)
        no_characters
        (get_reserved_word_token (b'i' ∷ b'1' ∷ []))
        (b'i' ∷ b'1' ∷ [])
        (b';' ∷ [])
        7
unfolding from_digit
read_token-word_example =
    read_token-word ⦃fl = wholes⦄ (λ s. s) no_characters 2 b'i' (b'1' ∷ []) (b';' ∷ []) [] 7 refl
      (refl, tt) refl (omega arith)

-- `407;` is an integer.
read_token-numeral_example :
    read_token ⦃fl = wholes⦄ (λ s. s) no_characters 4 (lexer (b'4' ∷ b'0' ∷ b'7' ∷ b';' ∷ []) [] 7)
    ≡ numeral_read ⦃fl = wholes⦄
        (read_integer (b'4' ∷ b'0' ∷ b'7' ∷ []))
        (b'4' ∷ b'0' ∷ b'7' ∷ [])
        (b';' ∷ [])
        7
unfolding from_digit
read_token-numeral_example =
    read_token-numeral ⦃fl = wholes⦄ (λ s. s) no_characters 3 b'4' (b'0' ∷ b'7' ∷ []) (b';' ∷ []) []
      7 refl (refl, (refl, tt)) refl (omega arith)
