-- ===== src/Lexer/ReadToken.antt =====
-- src/lexer.rs: `read_numeral` and `read_token`. What makes a string of the bytes of the buffer is a
-- parameter, and so are the bytes of a character.
use luster.Prelude.{
  ℕ, zero, suc, Bool, true, false, not, ◌&&◌, ◌||◌, Option, none, some, List, [], leb, ◌==◌,
  if◌then◌else◌,
}
use luster.Prelude.Run.{Run, done, panic}
use luster.Float.{Float}
use luster.Numbers.{
  from_digit, from_hex_digit, read_integer, read_hex_integer, read_float, read_hex_float,
}
use luster.Lexer.Reading.{
  bad_number, unexpected_character, Read, ok, err, panicked, Method, ◌>>=◌, ◌>>◌, pure, fail,
  exhausted, peek, peek_some, advance, assert, and_then, push, clear, when, reset, is_at,
}
use luster.Lexer.{is_space, read_long_string, skip_whitespace}
use luster.Lexer.ShortString.{read_short_string, or_fail, is_some}
use luster.Lexer.Tokens.{
  Token, minus, concat, dots, assign, less_than, less_equal, greater_than, greater_equal, equal,
  not_equal, bit_not_xor, shift_left, shift_right, div, idiv, dot, colon, double_colon,
  left_bracket, integer, float, name, string, get_char_token, get_reserved_word_token,
}

abbrev pub is_digit : ℕ → Bool
is_digit c = is_some (from_digit c)

abbrev pub is_alpha : ℕ → Bool
is_alpha c = leb b'a' c && leb c b'z' || leb b'A' c && leb c b'Z' || c == b'_'

-- The characters from here on that pass the test go to the buffer.
unfoldable pub take_while : (ℕ → Bool) → ℕ → Method (Unit {0})
take_while test zero = exhausted
take_while test (suc fuel) =
    let next = take_while test fuel in
    do
      c ← peek 0
      elim c [ none ↦ pure tt | some c ↦ if test c then (do push c; advance 1; next) else pure tt ]

-- The digits of a numeral and its point; whether there is one.
unfoldable pub mantissa : ℕ → (is_hex has_radix : Bool) → Method Bool
mantissa zero is_hex has_radix = exhausted
mantissa (suc fuel) is_hex has_radix =
    let point = mantissa fuel is_hex true in
    let next = mantissa fuel is_hex has_radix in
    do
      c ← peek 0
      elim c [
        | none ↦ pure has_radix
        | some c ↦
            if c == b'.' && not has_radix
            then (do push b'.'; advance 1; point)
            else if not is_hex && is_digit c || is_hex && is_some (from_hex_digit c)
            then (do push c; advance 1; next)
            else pure has_radix
      ]

-- The exponent of a numeral; whether there is one.
unfoldable pub exponent : ℕ → Bool → Method Bool
exponent fuel is_hex = do
  c ← peek 0
  elim c [
    | none ↦ pure false
    | some c ↦
        if is_hex && (c == b'p' || c == b'P') || not is_hex && (c == b'e' || c == b'E')
        then (do
          push c
          advance 1
          d ← peek 0
          elim d [
            | none ↦ pure tt
            | some sign ↦ when (sign == b'+' || sign == b'-') (do push sign; advance 1)
          ]
          take_while is_digit fuel
          pure true)
        else pure false
  ]

-- A call of one of the readers of numbers.
abbrev pub call : {A : Type 0} → Run A → Method A
call panic s = panicked
call (done a) s = ok a s

abbrev pub first_some : {A : Type 0} → Option A → Option A → Option A
first_some none b = b
first_some (some a) b = some a

module _ ⦃fl : Float⦄ {S : Type 0} where
  -- The value of the buffer.
  unfoldable pub numeral_token :
      (is_hex has_radix has_exp : Bool) → List ℕ → Method (Token fl.F64 S)
  numeral_token is_hex has_radix has_exp text =
      let float_token : Method (Token fl.F64 S) = (do
        f ← or_fail bad_number (if is_hex then read_hex_float text else read_float text)
        pure (float f)) in
      do
        h ←
            if not has_exp && not has_radix && is_hex
            then call (read_hex_integer text)
            else pure none
        let i = if not has_exp && not has_radix then first_some h (read_integer text) else none
        elim i [ none ↦ float_token | some i ↦ pure (integer i) ]

  unfoldable pub read_numeral : ℕ → Method (Token fl.F64 S)
  read_numeral fuel = do
    c ← peek_some
    assert (c == b'.' || is_digit c)
    clear
    d ← peek 1
    let is_hex = c == b'0' && (is_at d b'x' || is_at d b'X')
    elim d [ none ↦ pure tt | some d ↦ when is_hex (do push c; push d; advance 2) ]
    has_radix ← mantissa fuel is_hex false
    has_exp ← exponent fuel is_hex
    text ← λ s. ok s.string_buffer s
    numeral_token is_hex has_radix has_exp text

  -- `advance(1)` and a token, or `advance(1)` once more and another, by what comes next.
  unfoldable pub two_characters : ℕ → (second first : Token fl.F64 S) → Method (Token fl.F64 S)
  two_characters c second first = do
    d ← peek 0
    if is_at d c then (do advance 1; pure second) else pure first

  unfoldable pub three_tokens :
      ℕ → ℕ → (second third first : Token fl.F64 S) → Method (Token fl.F64 S)
  three_tokens c e second third first = do
    d ← peek 0
    if is_at d c
        then (do advance 1; pure second)
        else if is_at d e
        then (do advance 1; pure third)
        else pure first

  module _ (create_string : List ℕ → S) (encode : ℕ → Option (List ℕ)) where
    -- `take_string`
    unfoldable pub take_string : Method S
    take_string s = ok (create_string s.string_buffer) (record s { string_buffer = [] })

    unfoldable pub dot_token : ℕ → Method (Token fl.F64 S)
    dot_token fuel = do
      d ← peek 1
      e ← peek 2
      if is_at d b'.'
          then (if is_at e b'.' then (do advance 3; pure dots) else (do advance 2; pure concat))
          else elim d [
            | none ↦ do advance 1; pure dot
            | some d ↦ if is_digit d then read_numeral fuel else (do advance 1; pure dot)
          ]

    abbrev pub word_of : Option (Token fl.F64 S) → Method (Token fl.F64 S)
    word_of (some t) s = ok t s
    word_of none s = and_then (take_string s) (λ n. pure (name n))

    -- The token of the buffer: a reserved word or a name.
    unfoldable pub word_token : Method (Token fl.F64 S)
    word_token s = word_of (get_reserved_word_token s.string_buffer) s

    unfoldable pub read_word : ℕ → ℕ → Method (Token fl.F64 S)
    read_word fuel c = do
      clear
      push c
      advance 1
      take_while (λ d. is_alpha d || is_digit d) fuel
      word_token

    unfoldable pub other_token : ℕ → ℕ → Method (Token fl.F64 S)
    other_token fuel c = if is_digit c then read_numeral fuel else elim (get_char_token c) [
      | some t ↦ do advance 1; pure t
      | none ↦ if is_alpha c then read_word fuel c else fail (unexpected_character c)
    ]

    unfoldable pub bracket_token : ℕ → Method (Token fl.F64 S)
    bracket_token fuel = do
      d ← peek 1
      if is_at d b'=' || is_at d b'['
          then (do read_long_string fuel true; s ← take_string; pure (string s))
          else (do advance 1; pure left_bracket)

    -- The token that begins with `c`; white space and comments have been skipped.
    unfoldable pub token_from : ℕ → ℕ → Method (Token fl.F64 S)
    token_from fuel c =
        if is_space c
        then (λ s. panicked)
        else if c == b'-'
        then (do d ← peek 1; if is_at d b'-' then (λ s. panicked) else (do advance 1; pure minus))
        else if c == b'['
        then bracket_token fuel
        else if c == b'='
        then (do advance 1; two_characters b'=' equal assign)
        else if c == b'<'
        then (do advance 1; three_tokens b'=' b'<' less_equal shift_left less_than)
        else if c == b'>'
        then (do advance 1; three_tokens b'=' b'>' greater_equal shift_right greater_than)
        else if c == b'/'
        then (do advance 1; two_characters b'/' idiv div)
        else if c == b'~'
        then (do advance 1; two_characters b'=' not_equal bit_not_xor)
        else if c == b':'
        then (do advance 1; two_characters b':' double_colon colon)
        else if c == 34 || c == 39
        then (do read_short_string encode fuel; s ← take_string; pure (string s))
        else if c == b'.'
        then dot_token fuel
        else other_token fuel c

    -- The end of the source and an error reset the lexer.
    abbrev pub reset_end : Read (Option (Token fl.F64 S)) → Read (Option (Token fl.F64 S))
    reset_end (ok none s) = ok none (reset s)
    reset_end (err e s) = err e (reset s)
    reset_end r = r

    unfoldable pub do_read_token : ℕ → Method (Option (Token fl.F64 S))
    do_read_token fuel = do
      c ← peek 0
      elim c [ none ↦ pure none | some c ↦ do t ← token_from fuel c; pure (some t) ]

    unfoldable pub read_token : ℕ → Method (Option (Token fl.F64 S))
    read_token fuel = do skip_whitespace fuel; λ s. reset_end (do_read_token fuel s)
