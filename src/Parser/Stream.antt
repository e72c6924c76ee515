-- ===== src/Parser/Stream.antt =====
-- src/parser.rs: the tokens that are left, the errors, and the methods that read tokens. What is in
-- `read_buffer` is not apart from what the lexer still has.
use luster.Prelude.{ℕ, zero, suc, ◌+◌, Bool, false, Option, none, some, ◌==◌, if◌then◌else◌}
use luster.Lexer.Reading.{LexerError}
use luster.Lexer.Tokens.{Token}

-- What `read_token` gives, one call after the other: tokens, and then the end or an error.
pub data Stream (F S : Type 0) : Type 0 where
  at_end : Stream F S
  fails : LexerError → Stream F S
  next : Token F S → Stream F S → Stream F S

-- What an error says was expected; a token is written out by its `Debug`.
pub data Expected (F S : Type 0) : Type 0 where
  a_token : Token F S → Expected F S
  a_name a_string assign_or_in grouped_expression_or_name field_or_suffix : Expected F S
  function_arguments expression_suffix parameter_name_or_dots : Expected F S

pub data ParserError (F S : Type 0) : Type 0 where
  unexpected : Token F S → Option (Expected F S) → ParserError F S
  end_of_stream : Option (Expected F S) → ParserError F S
  assign_to_expression expression_not_statement recursion_limit : ParserError F S
  lexer_error : LexerError → ParserError F S

-- A value with the tokens that are left, an error, or a loop that ran out of fuel.
pub data Parse (F S A : Type 0) : Type 0 where
  ok : A → Stream F S → Parse F S A
  err : ParserError F S → Parse F S A
  out_of_fuel : Parse F S A

-- What a round of a loop comes to: `break` with what is pushed last, or something to push first.
pub data Round (A L : Type 0) : Type 0 where
  break_with : L → Round A L
  push : A → Round A L

-- A method of the parser.
abbrev pub Method : Type 0 → Type 0 → Type 0 → Type 0
Method F S A = Stream F S → Parse F S A

module _ {F S : Type 0} where
  abbrev pub and_then : {A B : Type 0} → Parse F S A → (A → Method F S B) → Parse F S B
  and_then (ok a s) f = f a s
  and_then (err e) f = err e
  and_then out_of_fuel f = out_of_fuel

  infixl 5 ◌>>=◌ ◌>>◌
  abbrev pub ◌>>=◌ : {A B : Type 0} → Method F S A → (A → Method F S B) → Method F S B
  (m >>= f) s = and_then (m s) f

  abbrev pub ◌>>◌ : {A B : Type 0} → Method F S A → Method F S B → Method F S B
  m >> k = m >>= λ _. k

  abbrev pub pure : {A : Type 0} → A → Method F S A
  pure a s = ok a s

  abbrev pub fail : {A : Type 0} → ParserError F S → Method F S A
  fail e s = err e

  -- The error that is met before the buffer holds more than `n` tokens.
  unfoldable pub failure : ℕ → Stream F S → Option LexerError
  failure n at_end = none
  failure n (fails e) = some e
  failure zero (next t s) = none
  failure (suc n) (next t s) = failure n s

  abbrev pub fail_if : Option LexerError → Method F S (Unit {0})
  fail_if none s = ok tt s
  fail_if (some e) s = err (lexer_error e)

  unfoldable pub read_ahead : ℕ → Method F S (Unit {0})
  read_ahead n s = fail_if (failure n s) s

  -- `read_buffer.get(n)`
  unfoldable pub buffered : ℕ → Stream F S → Option (Token F S)
  buffered n at_end = none
  buffered n (fails e) = none
  buffered zero (next t s) = some t
  buffered (suc n) (next t s) = buffered n s

  abbrev pub get : ℕ → Method F S (Option (Token F S))
  get n s = ok (buffered n s) s

  -- `read_buffer.remove(0)`, with the error for an empty buffer.
  abbrev pub remove_or : ParserError F S → Method F S (Token F S)
  remove_or e at_end = err e
  remove_or e (fails f) = err e
  remove_or e (next t s) = ok t s

  abbrev pub or_fail : {A : Type 0} → ParserError F S → Option A → Method F S A
  or_fail e none = fail e
  or_fail e (some a) = pure a

  unfoldable pub get_next : Method F S (Token F S)
  get_next = do read_ahead 1; t ← get 0; or_fail (end_of_stream none) t

  unfoldable pub take_next : Method F S (Token F S)
  take_next = do read_ahead 1; remove_or (end_of_stream none)

  unfoldable pub look_ahead : ℕ → Method F S (Option (Token F S))
  look_ahead n = do read_ahead (n + 1); get n

  -- The variant of a token. Two tokens that carry nothing are equal exactly if it is.
  unfoldable pub discriminant : Token F S → ℕ
  discriminant Token.break_token = 0
  discriminant Token.do_token = 1
  discriminant Token.else_token = 2
  discriminant Token.elseif_token = 3
  discriminant Token.end_token = 4
  discriminant Token.function_token = 5
  discriminant Token.goto_token = 6
  discriminant Token.if_token = 7
  discriminant Token.in_token = 8
  discriminant Token.local_token = 9
  discriminant Token.nil_token = 10
  discriminant Token.for_token = 11
  discriminant Token.while_token = 12
  discriminant Token.repeat_token = 13
  discriminant Token.until_token = 14
  discriminant Token.return_token = 15
  discriminant Token.then_token = 16
  discriminant Token.true_token = 17
  discriminant Token.false_token = 18
  discriminant Token.not_token = 19
  discriminant Token.and_token = 20
  discriminant Token.or_token = 21
  discriminant Token.minus = 22
  discriminant Token.add = 23
  discriminant Token.mul = 24
  discriminant Token.div = 25
  discriminant Token.idiv = 26
  discriminant Token.pow = 27
  discriminant Token.modulo = 28
  discriminant Token.len = 29
  discriminant Token.bit_not_xor = 30
  discriminant Token.bit_and = 31
  discriminant Token.bit_or = 32
  discriminant Token.shift_right = 33
  discriminant Token.shift_left = 34
  discriminant Token.concat = 35
  discriminant Token.dots = 36
  discriminant Token.assign = 37
  discriminant Token.less_than = 38
  discriminant Token.less_equal = 39
  discriminant Token.greater_than = 40
  discriminant Token.greater_equal = 41
  discriminant Token.equal = 42
  discriminant Token.not_equal = 43
  discriminant Token.dot = 44
  discriminant Token.semi_colon = 45
  discriminant Token.colon = 46
  discriminant Token.double_colon = 47
  discriminant Token.comma = 48
  discriminant Token.left_paren = 49
  discriminant Token.right_paren = 50
  discriminant Token.left_bracket = 51
  discriminant Token.right_bracket = 52
  discriminant Token.left_brace = 53
  discriminant Token.right_brace = 54
  discriminant (Token.integer x) = 55
  discriminant (Token.float x) = 56
  discriminant (Token.name x) = 57
  discriminant (Token.string x) = 58

  abbrev pub is_token : Token F S → Token F S → Bool
  is_token t u = discriminant t == discriminant u

  -- `token` carries nothing.
  abbrev pub matches : Token F S → Option (Token F S) → Bool
  matches token none = false
  matches token (some t) = is_token t token

  unfoldable pub check_ahead : ℕ → Token F S → Method F S Bool
  check_ahead n token = do read_ahead n; t ← get n; pure (matches token t)

  -- `token` carries nothing.
  unfoldable pub expect_next : Token F S → Method F S (Unit {0})
  expect_next t = do
    read_ahead 1
    u ← remove_or (end_of_stream (some (a_token t)))
    if is_token u t then pure tt else fail (unexpected u (some (a_token t)))

  abbrev pub name_of : Token F S → Method F S S
  name_of (Token.name n) = pure n
  name_of t = fail (unexpected t (some a_name))

  unfoldable pub expect_name : Method F S S
  expect_name = do read_ahead 1; t ← remove_or (end_of_stream (some a_name)); name_of t

  abbrev pub string_of : Token F S → Method F S S
  string_of (Token.string s) = pure s
  string_of t = fail (unexpected t (some a_string))

  unfoldable pub expect_string : Method F S S
  expect_string = do read_ahead 1; t ← remove_or (end_of_stream (some a_string)); string_of t

  -- The tokens that are left: the fuel of every loop, whose rounds take one at least.
  unfoldable pub size : Stream F S → ℕ
  size at_end = zero
  size (fails e) = zero
  size (next t s) = suc (size s)

  module _ {A L : Type 0} (cons : A → L → L) (round : Method F S (Round A L)) where
    abbrev pub after : Method F S L → Round A L → Method F S L
    after more (break_with l) = pure l
    after more (push a) = do l ← more; pure (cons a l)

    unfoldable pub rounds : ℕ → Method F S L
    rounds zero = λ s. out_of_fuel
    rounds (suc n) = round >>= after (rounds n)

    -- `loop` and `while`.
    unfoldable pub loop : Method F S L
    loop s = rounds (suc (size s)) s
