-- ===== src/Lexer/Tokens.antt =====
-- src/lexer.rs: the tokens, the reserved words and the tokens of one character. `F` is the type of floats
-- and `S` that of strings; an integer is its bit pattern.
use luster.Prelude.{
  ℕ, Bool, true, false, ◌&&◌, Option, none, some, List, [], ◌∷◌, ◌==◌, if◌then◌else◌,
}

pub data Token (F S : Type 0) : Type 0 where
  break_token do_token else_token elseif_token end_token function_token : Token F S
  goto_token if_token in_token local_token nil_token for_token while_token : Token F S
  repeat_token until_token return_token then_token true_token false_token : Token F S
  not_token and_token or_token : Token F S
  minus add mul div idiv pow modulo len bit_not_xor bit_and bit_or shift_right : Token F S
  shift_left concat dots assign less_than less_equal greater_than greater_equal : Token F S
  equal not_equal dot semi_colon colon double_colon comma left_paren right_paren : Token F S
  left_bracket right_bracket left_brace right_brace : Token F S
  integer : ℕ → Token F S
  float : F → Token F S
  name string : S → Token F S

unfoldable pub same_bytes : List ℕ → List ℕ → Bool
same_bytes [] [] = true
same_bytes (a ∷ cs) (b ∷ ds) = a == b && same_bytes cs ds
same_bytes _ _ = false

module _ {F S : Type 0} where
  unfoldable pub get_char_token : ℕ → Option (Token F S)
  get_char_token c =
      if c == b'-'
      then some minus
      else if c == b'+'
      then some add
      else if c == b'*'
      then some mul
      else if c == b'^'
      then some pow
      else if c == b'%'
      then some modulo
      else if c == b'&'
      then some bit_and
      else if c == b'|'
      then some bit_or
      else if c == b','
      then some comma
      else if c == b';'
      then some semi_colon
      else if c == b'#'
      then some len
      else if c == b'('
      then some left_paren
      else if c == b')'
      then some right_paren
      else if c == b']'
      then some right_bracket
      else if c == b'{'
      then some left_brace
      else if c == b'}'
      then some right_brace
      else none

  -- The reserved words and their tokens.
  abbrev pub reserved_words : List (List ℕ × Token F S)
  reserved_words =
      (b'b' ∷ b'r' ∷ b'e' ∷ b'a' ∷ b'k' ∷ [], break_token)
      ∷ (b'd' ∷ b'o' ∷ [], do_token)
      ∷ (b'e' ∷ b'l' ∷ b's' ∷ b'e' ∷ [], else_token)
      ∷ (b'e' ∷ b'l' ∷ b's' ∷ b'e' ∷ b'i' ∷ b'f' ∷ [], elseif_token)
      ∷ (b'e' ∷ b'n' ∷ b'd' ∷ [], end_token)
      ∷ (b'f' ∷ b'u' ∷ b'n' ∷ b'c' ∷ b't' ∷ b'i' ∷ b'o' ∷ b'n' ∷ [], function_token)
      ∷ (b'g' ∷ b'o' ∷ b't' ∷ b'o' ∷ [], goto_token)
      ∷ (b'i' ∷ b'f' ∷ [], if_token)
      ∷ (b'i' ∷ b'n' ∷ [], in_token)
      ∷ (b'l' ∷ b'o' ∷ b'c' ∷ b'a' ∷ b'l' ∷ [], local_token)
      ∷ (b'n' ∷ b'i' ∷ b'l' ∷ [], nil_token)
      ∷ (b'f' ∷ b'o' ∷ b'r' ∷ [], for_token)
      ∷ (b'w' ∷ b'h' ∷ b'i' ∷ b'l' ∷ b'e' ∷ [], while_token)
      ∷ (b'r' ∷ b'e' ∷ b'p' ∷ b'e' ∷ b'a' ∷ b't' ∷ [], repeat_token)
      ∷ (b'u' ∷ b'n' ∷ b't' ∷ b'i' ∷ b'l' ∷ [], until_token)
      ∷ (b'r' ∷ b'e' ∷ b't' ∷ b'u' ∷ b'r' ∷ b'n' ∷ [], return_token)
      ∷ (b't' ∷ b'h' ∷ b'e' ∷ b'n' ∷ [], then_token)
      ∷ (b't' ∷ b'r' ∷ b'u' ∷ b'e' ∷ [], true_token)
      ∷ (b'f' ∷ b'a' ∷ b'l' ∷ b's' ∷ b'e' ∷ [], false_token)
      ∷ (b'n' ∷ b'o' ∷ b't' ∷ [], not_token)
      ∷ (b'a' ∷ b'n' ∷ b'd' ∷ [], and_token)
      ∷ (b'o' ∷ b'r' ∷ [], or_token)
      ∷ []

  unfoldable pub find_word : List (List ℕ × Token F S) → List ℕ → Option (Token F S)
  find_word [] word = none
  find_word (w ∷ ws) word = if same_bytes w.0 word then some w.1 else find_word ws word

  unfoldable pub get_reserved_word_token : List ℕ → Option (Token F S)
  get_reserved_word_token word = find_word reserved_words word
