-- ===== src/Lexer/Names.antt =====
-- src/lexer.rs: names and reserved words, as `read_token` reads them.
use luster.Prelude.{
  ℕ, zero, suc, ◌<◌, ◌≡◌, refl, ap, ◌∙◌, Bool, true, false, ◌||◌, Option, none, some, List, [], ◌∷◌,
  ◌++◌, length, ◌==◌, arith,
}
use mathlib.Core.List.{append_assoc, append-nil}
use luster.Float.{Float}
use luster.Lexer.Reading.{Lexer, Read, ok, and_then, pure}
use luster.Numbers.{from_digit}
use luster.Lexer.{is_newline, is_space, whitespace, skip_whitespace}
use luster.Lexer.LongString.{lexer}
use luster.Lexer.Tokens.{Token, name, get_char_token, get_reserved_word_token}
use luster.Lexer.ReadToken.{
  is_digit, is_alpha, take_while, word_token, take_string, read_word, other_token, token_from,
  do_read_token, read_token, word_of, reset_end,
}

abbrev pub All : (ℕ → Bool) → List ℕ → Type 0
All test [] = Unit
All test (c ∷ cs) = (test c ≡ true) × All test cs

-- The text ends, or what follows fails the test.
abbrev pub Stops : (ℕ → Bool) → List ℕ → Type 0
Stops test [] = Unit
Stops test (c ∷ cs) = test c ≡ false

take_while-All :
    (test : ℕ → Bool) (fuel : ℕ) (cs rest buffer : List ℕ) (line : ℕ)
    → All test cs
    → Stops test rest
    → length cs < fuel
    → take_while test fuel (lexer (cs ++ rest) buffer line) ≡ ok tt (lexer rest (buffer ++ cs) line)
unfolding take_while
take_while-All test zero cs rest buffer line a s lt = ground (arith, lt)
take_while-All test (suc fuel) [] [] buffer line a s lt = rw (append-nil buffer) refl
take_while-All test (suc fuel) [] (c ∷ rest) buffer line a s lt = rw (append-nil buffer, s) refl
take_while-All test (suc fuel) (c ∷ cs) rest buffer line (h, a) s lt = rw h (
    take_while-All test fuel cs rest (buffer ++ c ∷ []) line a s (omega (arith, lt))
    ∙ ap (λ b. ok tt (lexer rest b line)) (append_assoc buffer (c ∷ []) cs))

get_char_token-alpha :
    {F S : Type 0} (c : ℕ) → is_alpha c ≡ true → get_char_token {F = F} {S = S} c ≡ none
unfolding get_char_token
get_char_token-alpha c h = ground arith

is_digit-alpha : (c : ℕ) → is_alpha c ≡ true → is_digit c ≡ false
unfolding from_digit
is_digit-alpha c h = ground arith

skip_whitespace-alpha :
    (fuel c : ℕ) (rest buffer : List ℕ) (line : ℕ)
    → is_alpha c ≡ true
    → skip_whitespace (suc fuel) (lexer (c ∷ rest) buffer line)
      ≡ ok tt (lexer (c ∷ rest) buffer line)
unfolding skip_whitespace whitespace
skip_whitespace-alpha fuel c rest buffer line h =
    let newline : is_newline c ≡ false = ground arith in
    let space : is_space c ≡ false = ground arith in
    let dash : (c == b'-') ≡ false = ground arith in rw (space, newline, dash) refl

module _ ⦃fl : Float⦄ {S : Type 0} (create_string : List ℕ → S) (encode : ℕ → Option (List ℕ)) where
  -- What the lexer makes of a word, and the buffer that is left.
  abbrev pub word_read :
      Option (Token fl.F64 S) → List ℕ → List ℕ → ℕ → Read (Option (Token fl.F64 S))
  word_read (some t) word rest line = ok (some t) (lexer rest word line)
  word_read none word rest line = ok (some (name (create_string word))) (lexer rest [] line)

  token_from-alpha :
      (fuel c : ℕ) (s : Lexer)
      → is_alpha c ≡ true
      → token_from create_string encode fuel c s ≡ read_word create_string encode fuel c s
  unfolding token_from other_token
  token_from-alpha fuel c s h =
      let space : is_space c ≡ false = ground arith in
      let minus : (c == b'-') ≡ false = ground arith in
      let bracket : (c == b'[') ≡ false = ground arith in
      let equals : (c == b'=') ≡ false = ground arith in
      let less : (c == b'<') ≡ false = ground arith in
      let greater : (c == b'>') ≡ false = ground arith in
      let slash : (c == b'/') ≡ false = ground arith in
      let tilde : (c == b'~') ≡ false = ground arith in
      let colon : (c == b':') ≡ false = ground arith in
      let quote : (c == 34 || c == 39) ≡ false = ground arith in
      let dot : (c == b'.') ≡ false = ground arith in
      rw (space, minus, bracket, equals, less, greater, slash, tilde, colon, quote, dot)
        (rw (is_digit-alpha c h, get_char_token-alpha c h, h) refl)

  finished :
      (o : Option (Token fl.F64 S)) (word rest : List ℕ) (line : ℕ)
      → reset_end create_string encode
          (and_then (word_of create_string encode o (lexer rest word line)) (λ t. pure (some t)))
        ≡ word_read o word rest line
  unfolding take_string
  finished (some t) word rest line = refl
  finished none word rest line = refl

  -- A text of letters, digits and `_` that begins with no digit, up to a character that is none of
  -- these, is one token of `read_token`, with fuel above its length: that of a reserved word if it
  -- is one, and otherwise the name of the text. What follows is left.
  pub read_token-word :
      (fuel c : ℕ) (cs rest buffer : List ℕ) (line : ℕ)
      → is_alpha c ≡ true
      → All (λ d. is_alpha d || is_digit d) cs
      → Stops (λ d. is_alpha d || is_digit d) rest
      → length cs < suc fuel
      → read_token create_string encode (suc fuel) (lexer (c ∷ cs ++ rest) buffer line)
        ≡ word_read (get_reserved_word_token (c ∷ cs)) (c ∷ cs) rest line
  unfolding read_token do_read_token read_word word_token
  read_token-word fuel c cs rest buffer line h a s lt =
      rw
        (
          skip_whitespace-alpha fuel c (cs ++ rest) buffer line h,
          token_from-alpha (suc fuel) c (lexer (c ∷ cs ++ rest) buffer line) h,
          take_while-All (λ d. is_alpha d || is_digit d) (suc fuel) cs rest (c ∷ []) line a s lt,
        )
        (finished (get_reserved_word_token (c ∷ cs)) (c ∷ cs) rest line)
