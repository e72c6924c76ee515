-- ===== src/Lexer.antt =====
-- src/lexer.rs: line ends, long strings, white space and comments. Loops run on fuel.
use luster.Prelude.{
  ℕ, zero, suc, ◌+◌, ◌^◌, ◌*◌, ◌-◌, Bool, true, false, not, ◌&&◌, ◌||◌, Option, none, some, List,
  [], ◌∷◌, ◌++◌, ltb, leb, ◌==◌, if◌then◌else◌,
}
use luster.Lexer.Reading.{
  LexerError, unfinished_short_string, hex_digit_expected, escape_decimal_too_large, invalid_escape,
  invalid_long_string_delimiter, unfinished_long_string, Lexer, Read, ok, err, panicked,
  out_of_fuel, Method, ◌>>=◌, ◌>>◌, pure, fail, exhausted, peek, peek_some, advance, assert, push,
  push_all, clear, when, reset, is_at,
}
pub mod Reading
pub mod LongString
pub mod ShortString
pub mod Tokens
pub mod ReadToken
pub mod Names
pub mod Numerals
pub mod Strings
mod Tests

abbrev pub is_newline : ℕ → Bool
is_newline c = c == 10 || c == 13

abbrev pub is_space : ℕ → Bool
is_space c = (c == b' ' || c == 9 || c == 11 || c == 12) || is_newline c

-- The second character of a line end, if there is one.
unfoldable pub read_newline : Bool → ℕ → Option ℕ → Method (Unit {0})
read_newline append newline none = pure tt
read_newline append newline (some next) =
    let taken : Method (Unit {0}) = (do advance 1; when append (push next)) in
    when (is_newline next && not (next == newline)) taken

-- `line_number += 1`
abbrev count_line : Method (Unit {0})
count_line s = ok tt (record s { line_number = s.line_number + 1 })

unfoldable pub read_line_end : Bool → Method (Unit {0})
read_line_end append = do
  newline ← peek_some
  assert (is_newline newline)
  advance 1
  when append (push newline)
  next ← peek 0
  read_newline append newline next
  count_line

abbrev pub max_i32 : ℕ
max_i32 = 2 ^ 31 - 1

-- The separators that are left to skip; their number, an `i32`.
unfoldable pub skip_separators : ℕ → ℕ → Method ℕ
skip_separators zero n = exhausted
skip_separators (suc fuel) n = do
  c ← peek 0
  elim (is_at c b'=') [
    | true ↦ do advance 1; assert (ltb n max_i32); skip_separators fuel (n + 1)
    | false ↦ pure n
  ]

abbrev pub separators : ℕ → List ℕ
separators zero = []
separators (suc n) = b'=' ∷ separators n

-- The characters of a long string up to its end.
unfoldable pub long_string : ℕ → Bool → ℕ → Method (Unit {0})
long_string zero into_string level = exhausted
long_string (suc fuel) into_string level =
    let next = long_string fuel into_string level in
    do
      c ← peek 0
      elim c [
        | none ↦ fail unfinished_long_string
        | some c ↦
            if is_newline c
            then (do read_line_end into_string; next)
            else if c == b']'
            then (do
              advance 1
              n ← skip_separators fuel 0
              d ← peek 0
              if level == n && is_at d b']'
                  then advance 1
                  else (do when into_string (push_all (b']' ∷ separators n)); next))
            else (do when into_string (push c); advance 1; next)
      ]

unfoldable pub read_long_string : ℕ → Bool → Method (Unit {0})
read_long_string fuel into_string = do
  c ← peek_some
  assert (c == b'[')
  advance 1
  when into_string clear
  n ← skip_separators fuel 0
  d ← peek 0
  elim (is_at d b'[') [
    | true ↦ do advance 1; long_string fuel into_string n
    | false ↦ fail invalid_long_string_delimiter
  ]

-- The rest of a short comment.
unfoldable pub skip_line : ℕ → Method (Unit {0})
skip_line zero = exhausted
skip_line (suc fuel) =
    let next = skip_line fuel in
    do
      c ← peek 0
      elim c [ none ↦ pure tt | some c ↦ if is_newline c then pure tt else (do advance 1; next) ]

-- A comment, when its two dashes have been taken.
unfoldable pub skip_comment : ℕ → Method (Unit {0})
skip_comment fuel = do
  c ← peek 0
  d ← peek 1
  if is_at c b'[' && (is_at d b'=' || is_at d b'[')
      then read_long_string fuel false
      else skip_line fuel

unfoldable pub whitespace : ℕ → Method (Unit {0})
whitespace zero = exhausted
whitespace (suc fuel) =
    let next = whitespace fuel in
    do
      c ← peek 0
      elim c [
        | none ↦ pure tt
        | some c ↦
            if is_newline c
            then (do read_line_end false; next)
            else if is_space c
            then (do advance 1; next)
            else if c == b'-'
            then (do
              d ← peek 1
              if is_at d b'-' then (do advance 2; skip_comment fuel; next) else pure tt)
            else pure tt
      ]

-- An error resets the lexer.
abbrev pub reset_error : Read (Unit {0}) → Read (Unit {0})
reset_error (err e s) = err e (reset s)
reset_error r = r

unfoldable pub skip_whitespace : ℕ → Method (Unit {0})
skip_whitespace fuel s = reset_error (whitespace fuel s)
