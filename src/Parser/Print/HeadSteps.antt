-- ===== src/Parser/Print/HeadSteps.antt =====
-- src/parser.rs: what the methods of operators and simple expressions read, from what the methods that
-- they call read.
use luster.Prelude.{ℕ, ◌<◌, ◌≡◌, refl, false, Option, none, some, List, ◌∷◌, leb, ◌∙◌, arith}
use luster.Operators.{BinaryOperator, UnaryOperator}
use luster.Lexer.Tokens.{Token}
use luster.Parser.Syntax
use luster.Parser.Syntax.{
  Expression, Tail, HeadExpression, Expressions, SimpleExpression, PrimaryExpression, FieldSuffix,
  CallSuffix, SuffixPart, Suffixes, SuffixedExpression, FunctionDefinition, Fields, expression,
  no_tail, add_operand, simple, unary_operator, no_expressions, add_expression, nil, true_value,
  false_value, var_args, table_constructor, function, suffixed, grouped_expression, named, indexed,
  method_call, function_suffix, field, call, no_suffixes, add_suffix, suffixed_expression,
}
use luster.Parser.Stream.{
  Method, ok, and_then, break_with, loop, get_next, take_next, pure, Stream, Parse, err,
  out_of_fuel,
}
use luster.Parser.Priority.{unary_priority, binary_priority, get_unary_operator}
use luster.Parser.Expressions.{Guarded, parse_function_definition, parse_table_constructor}
use luster.Parser.Suffixes.{
  parse_suffixed_expression, simple_from, parse_simple_expression, head_from, operand_of,
  operator_of, operand_for, next_operand, push_operand, sub_expression,
}
use luster.Parser.Takes.Expressions.{GuardedTakes}
use luster.Parser.Takes.Suffixes.{next_operand-Takes}
use luster.Parser.Print.{unary_token, binary_token}
use luster.Parser.Print.Streams.{stream, head_of, reads}
use luster.Parser.Print.Beginnings.{
  Stops, Follows, get_unary_operator-unary_token, get_binary_operator-binary_token,
}
use luster.Parser.Print.ExpressionSteps.{Reads, break-Reads, push-Reads}

module _ {F S : Type 0} {guarded : Guarded F S} (takes : GuardedTakes guarded) where
  -- The head of a sub-expression.
  pub head : Method F S (HeadExpression F S)
  head s = and_then (get_next s) λ t. head_from guarded (get_unary_operator t)

  pub unary-Reads :
      {op : UnaryOperator} {ts rest : List (Token F S)} {e : Expression F S}
      → Reads (guarded.parse_sub_expression unary_priority) ts e rest
      → Reads head (unary_token op ∷ ts) (unary_operator op e) rest
  unfolding head head_from
  unary-Reads {op} h = record { eq = simp (reads, get_unary_operator-unary_token F S op, h.eq) }

  -- The head is a simple expression, by its first token.
  pub simple-Reads :
      {t : Token F S} {ts rest : List (Token F S)} {e : SimpleExpression F S}
      → get_unary_operator t ≡ none
      → Reads (simple_from guarded t) (t ∷ ts) e rest
      → Reads head (t ∷ ts) (simple e) rest
  unfolding head head_from parse_simple_expression
  simple-Reads u h = record { eq = simp (reads, u, h.eq) }

  pub float-Reads :
      (f : F) (rest : List (Token F S))
      → Reads head (Token.float f ∷ rest) (simple (Syntax.float f)) rest
  unfolding head get_unary_operator head_from parse_simple_expression simple_from
  float-Reads f rest = record { eq = simp reads }

  pub integer-Reads :
      (i : ℕ) (rest : List (Token F S))
      → Reads head (Token.integer i ∷ rest) (simple (Syntax.integer i)) rest
  unfolding head get_unary_operator head_from parse_simple_expression simple_from
  integer-Reads i rest = record { eq = simp reads }

  pub string-Reads :
      (s : S) (rest : List (Token F S))
      → Reads head (Token.string s ∷ rest) (simple (Syntax.string s)) rest
  unfolding head get_unary_operator head_from parse_simple_expression simple_from
  string-Reads s rest = record { eq = simp reads }

  -- The four values that a word or dots write.
  pub word-Reads :
      {t : Token F S} {e : SimpleExpression F S} (rest : List (Token F S))
      → get_unary_operator t ≡ none
      → ((s : Stream F S) → simple_from guarded t s ≡ and_then (take_next s) λ _. pure e)
      → Reads head (t ∷ rest) (simple e) rest
  word-Reads {t} rest u h = simple-Reads u (record { eq = rw (h (stream (t ∷ rest))) (simp reads) })

  pub table_head-Reads :
      {ts rest : List (Token F S)} {fields : Fields F S}
      → Reads (parse_table_constructor guarded) (Token.left_brace ∷ ts) fields rest
      → Reads head (Token.left_brace ∷ ts) (simple (table_constructor fields)) rest
  unfolding head get_unary_operator head_from parse_simple_expression simple_from
  table_head-Reads h = record { eq = simp (reads, h.eq) }

  pub function_head-Reads :
      {ts rest : List (Token F S)} {d : FunctionDefinition F S}
      → Reads (parse_function_definition guarded) ts d rest
      → Reads head (Token.function_token ∷ ts) (simple (function d)) rest
  unfolding head get_unary_operator head_from parse_simple_expression simple_from
  function_head-Reads h = record { eq = simp (reads, h.eq) }

  -- A token that begins a suffixed expression.
  pub suffixed_head-Reads :
      {t : Token F S} {ts rest : List (Token F S)} {e : SuffixedExpression F S}
      → get_unary_operator t ≡ none
      → ((s : Stream F S)
          → simple_from guarded t s
            ≡ and_then (parse_suffixed_expression guarded s) λ e. pure (suffixed e))
      → Reads (parse_suffixed_expression guarded) (t ∷ ts) e rest
      → Reads head (t ∷ ts) (simple (suffixed e)) rest
  suffixed_head-Reads {t} {ts} u h k =
      simple-Reads u (record { eq = rw (h (stream (t ∷ ts))) (simp k.eq) })

  no_operand :
      (limit : ℕ) (o : Option BinaryOperator) (s : Stream F S)
      → Stops limit o
      → operand_for guarded limit o s ≡ ok (break_with no_tail) s
  unfolding operand_of
  no_operand limit none s h = refl
  no_operand limit (some op) s h = ground (arith, h)

  pub no_operand-Reads :
      {limit : ℕ} {rest : List (Token F S)}
      → Follows limit rest
      → Reads (loop push_operand (next_operand guarded limit)) rest no_tail rest
  unfolding next_operand
  no_operand-Reads {limit} {rest} h =
      break-Reads _ _
        (simp (reads, no_operand limit (operator_of (head_of rest)) (stream rest) h.no_operator))

  above : (limit n : ℕ) → limit < n → leb n limit ≡ false
  above limit n h = ground arith

  pub operand-Reads :
      {limit : ℕ} {op : BinaryOperator} {ts mid rest : List (Token F S)} {e : Expression F S}
      {tail : Tail F S}
      → limit < (binary_priority op).0
      → Reads (guarded.parse_sub_expression (binary_priority op).1) ts e mid
      → Reads (loop push_operand (next_operand guarded limit)) mid tail rest
      → Reads
          (loop push_operand (next_operand guarded limit))
          (binary_token op ∷ ts)
          (add_operand op e tail)
          rest
  unfolding next_operand operand_of
  operand-Reads {limit} {op} lt h k =
      push-Reads _ _ {a = (op, _)} (next_operand-Takes takes limit) k (
        simp (
          reads,
          get_binary_operator-binary_token F S op,
          above limit (binary_priority op).0 lt,
          h.eq,
        ))

  -- The head is read as a whole.
  head_first :
      {A B C : Type 0} (r : Parse F S A) (f : A → Method F S B) (k : B → Method F S C)
      → and_then r (λ a s. and_then (f a s) k) ≡ and_then (and_then r f) k
  head_first (ok a s) f k = refl
  head_first (err e) f k = refl
  head_first out_of_fuel f k = refl

  pub sub_expression-Reads :
      (limit : ℕ) {ts mid rest : List (Token F S)} {e : HeadExpression F S} {tail : Tail F S}
      → Reads head ts e mid
      → Reads (loop push_operand (next_operand guarded limit)) mid tail rest
      → Reads (sub_expression guarded limit) ts (expression e tail) rest
  unfolding sub_expression head
  sub_expression-Reads limit {ts} h k = record {
    eq =
        head_first (get_next (stream ts)) (λ t. head_from guarded (get_unary_operator t)) _
        ∙ rw h.eq (rw k.eq);
  }
