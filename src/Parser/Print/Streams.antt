-- ===== src/Parser/Print/Streams.antt =====
-- src/parser.rs: the methods that read tokens, on a source that ends without an error.
use luster.Prelude.{ℕ, zero, suc, ◌≡◌, refl, true, Option, none, some, List, [], ◌∷◌, ◌==◌, arith}
use luster.Lexer.Tokens.{Token}
use luster.Parser.Stream.{
  Stream, at_end, next, ok, failure, read_ahead, buffered, get_next, take_next, look_ahead,
  check_ahead, expect_next, expect_name, expect_string, is_token, matches, discriminant,
}

module _ {F S : Type 0} where
  unfoldable pub stream : List (Token F S) → Stream F S
  stream [] = at_end
  stream (t ∷ ts) = next t (stream ts)

  abbrev pub head_of : List (Token F S) → Option (Token F S)
  head_of [] = none
  head_of (t ∷ ts) = some t

  failure-stream : (n : ℕ) (ts : List (Token F S)) → failure n (stream ts) ≡ none
  unfolding failure stream
  failure-stream zero [] = refl
  failure-stream (suc n) [] = refl
  failure-stream zero (t ∷ ts) = refl
  failure-stream (suc n) (t ∷ ts) = failure-stream n ts

  failure_zero : (ts : List (Token F S)) → failure 0 (stream ts) ≡ none
  failure_zero ts = failure-stream 0 ts

  pub get_next-stream :
      (t : Token F S) (ts : List (Token F S)) → get_next (stream (t ∷ ts)) ≡ ok t (stream (t ∷ ts))
  unfolding get_next read_ahead failure buffered stream
  get_next-stream t ts = rw (failure_zero ts)

  pub take_next-stream :
      (t : Token F S) (ts : List (Token F S)) → take_next (stream (t ∷ ts)) ≡ ok t (stream ts)
  unfolding take_next read_ahead failure stream
  take_next-stream t ts = rw (failure_zero ts)

  pub look_ahead-stream :
      (ts : List (Token F S)) → look_ahead 0 (stream ts) ≡ ok (head_of ts) (stream ts)
  unfolding look_ahead read_ahead failure buffered stream
  look_ahead-stream [] = refl
  look_ahead-stream (t ∷ ts) = rw (failure_zero ts)

  pub check_ahead-stream :
      (t : Token F S) (ts : List (Token F S))
      → check_ahead 0 t (stream ts) ≡ ok (matches t (head_of ts)) (stream ts)
  unfolding check_ahead read_ahead failure buffered stream
  check_ahead-stream t [] = refl
  check_ahead-stream t (u ∷ ts) = refl

  pub check_second-stream :
      (t u : Token F S) (ts : List (Token F S))
      → check_ahead 1 t (stream (u ∷ ts)) ≡ ok (matches t (head_of ts)) (stream (u ∷ ts))
  unfolding check_ahead read_ahead failure buffered stream
  check_second-stream t u [] = refl
  check_second-stream t u (v ∷ ts) = refl

  pub get_next-head :
      {t : Token F S} (ts : List (Token F S))
      → head_of ts ≡ some t
      → get_next (stream ts) ≡ ok t (stream ts)
  get_next-head [] h = cc
  get_next-head (u ∷ ts) h = rw (get_next-stream u ts) (cc (h))

  is_token_self : (t : Token F S) → is_token t t ≡ true
  is_token_self t = number_self (discriminant t)
    where
      number_self : (n : ℕ) → (n == n) ≡ true
      number_self n = ground arith

  pub expect_next-stream :
      (t : Token F S) (ts : List (Token F S)) → expect_next t (stream (t ∷ ts)) ≡ ok tt (stream ts)
  unfolding expect_next read_ahead failure stream
  expect_next-stream t ts = rw (failure_zero ts) (rw (is_token_self t))

  pub expect_name-stream :
      (n : S) (ts : List (Token F S)) → expect_name (stream (Token.name n ∷ ts)) ≡ ok n (stream ts)
  unfolding expect_name read_ahead failure stream
  expect_name-stream n ts = rw (failure_zero ts)

  pub expect_string-stream :
      (s : S) (ts : List (Token F S))
      → expect_string (stream (Token.string s ∷ ts)) ≡ ok s (stream ts)
  unfolding expect_string read_ahead failure stream
  expect_string-stream s ts = rw (failure_zero ts)

  pub ruleset reads = (
    get_next-stream, take_next-stream, look_ahead-stream, check_ahead-stream, check_second-stream,
    expect_next-stream, expect_name-stream, expect_string-stream,
  )
