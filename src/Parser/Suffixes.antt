-- ===== src/Parser/Suffixes.antt =====
-- src/parser.rs: primary and suffixed expressions, and `parse_sub_expression` behind its guard.
use luster.Prelude.{ℕ, Bool, true, false, Option, none, some, leb, if◌then◌else◌}
use luster.Operators.{BinaryOperator, UnaryOperator}
use luster.Lexer.Tokens.{Token}
use luster.Parser.Syntax
use luster.Parser.Syntax.{
  Expression, Tail, HeadExpression, Expressions, SimpleExpression, PrimaryExpression, FieldSuffix,
  CallSuffix, SuffixPart, Suffixes, SuffixedExpression, expression, no_tail, add_operand, simple,
  unary_operator, no_expressions, add_expression, nil, true_value, false_value, var_args,
  table_constructor, function, suffixed, grouped_expression, named, indexed, method_call,
  function_suffix, field, call, no_suffixes, add_suffix, suffixed_expression,
}
use luster.Parser.Stream.{
  Method, ◌>>=◌, ◌>>◌, pure, fail, Round, break_with, push, loop, get_next, take_next, look_ahead,
  expect_next, expect_name, expect_string, is_token, unexpected, grouped_expression_or_name,
  field_or_suffix, function_arguments, expression_suffix,
}
use luster.Parser.Priority.{
  unary_priority, binary_priority, get_unary_operator, get_binary_operator,
}
use luster.Parser.Expressions.{
  Guarded, parse_expression, parse_expression_list, parse_function_definition,
  parse_table_constructor,
}

module _ {F S : Type 0} where
  -- `vec![Expression { head: Box::new(HeadExpression::Simple(e)), tail: vec![] }]`
  abbrev pub one_argument : SimpleExpression F S → Expressions F S
  one_argument e = add_expression (expression (simple e) no_tail) no_expressions

  abbrev pub method_name : Token F S → Method F S (Option S)
  method_name Token.colon = do take_next; n ← expect_name; pure (some n)
  method_name _ = pure none

  abbrev pub call_suffix : Option S → Expressions F S → CallSuffix F S
  call_suffix none es = function_suffix es
  call_suffix (some n) es = method_call n es

  -- The tokens that the loop of `parse_suffixed_expression` goes on with.
  unfoldable pub starts_suffix : Option (Token F S) → Bool
  starts_suffix (some Token.dot) = true
  starts_suffix (some Token.left_bracket) = true
  starts_suffix (some Token.colon) = true
  starts_suffix (some Token.left_paren) = true
  starts_suffix (some Token.left_brace) = true
  starts_suffix (some (Token.string _)) = true
  starts_suffix _ = false

  abbrev pub push_operand : BinaryOperator × Expression F S → Tail F S → Tail F S
  push_operand operand tail = add_operand operand.0 operand.1 tail

  -- `and_then(get_binary_operator)`
  abbrev pub operator_of : Option (Token F S) → Option BinaryOperator
  operator_of none = none
  operator_of (some t) = get_binary_operator t

module _ {F S : Type 0} (guarded : Guarded F S) where
  -- The arms of `parse_primary_expression`.
  unfoldable pub primary_from : Token F S → Method F S (PrimaryExpression F S)
  primary_from Token.left_paren = do
    e ← parse_expression guarded
    expect_next Token.right_paren
    pure (grouped_expression e)
  primary_from (Token.name n) = pure (Syntax.name n)
  primary_from t = fail (unexpected t (some grouped_expression_or_name))

  unfoldable pub parse_primary_expression : Method F S (PrimaryExpression F S)
  parse_primary_expression = do t ← take_next; primary_from t

  -- The arms of `parse_field_suffix`.
  unfoldable pub field_suffix_from : Token F S → Method F S (FieldSuffix F S)
  field_suffix_from Token.dot = do take_next; n ← expect_name; pure (named n)
  field_suffix_from Token.left_bracket = do
    take_next
    e ← parse_expression guarded
    expect_next Token.right_bracket
    pure (indexed e)
  field_suffix_from t = fail (unexpected t (some field_or_suffix))

  unfoldable pub parse_field_suffix : Method F S (FieldSuffix F S)
  parse_field_suffix = do t ← get_next; field_suffix_from t

  -- The arms of the second `match` of `parse_call_suffix`.
  unfoldable pub arguments_from : Token F S → Method F S (Expressions F S)
  arguments_from Token.left_paren = do
    take_next
    t ← get_next
    es ← if is_token t Token.right_paren then pure no_expressions else parse_expression_list guarded
    expect_next Token.right_paren
    pure es
  arguments_from Token.left_brace = do
    fields ← parse_table_constructor guarded
    pure (one_argument (table_constructor fields))
  arguments_from (Token.string _) = do s ← expect_string; pure (one_argument (Syntax.string s))
  arguments_from t = fail (unexpected t (some function_arguments))

  unfoldable pub parse_call_suffix : Method F S (CallSuffix F S)
  parse_call_suffix = do
    t ← get_next
    m ← method_name t
    u ← get_next
    es ← arguments_from u
    pure (call_suffix m es)

  -- The arms of `parse_suffix_part`.
  unfoldable pub suffix_from : Token F S → Method F S (SuffixPart F S)
  suffix_from Token.dot = do f ← parse_field_suffix; pure (field f)
  suffix_from Token.left_bracket = do f ← parse_field_suffix; pure (field f)
  suffix_from Token.colon = do c ← parse_call_suffix; pure (call c)
  suffix_from Token.left_paren = do c ← parse_call_suffix; pure (call c)
  suffix_from Token.left_brace = do c ← parse_call_suffix; pure (call c)
  suffix_from (Token.string _) = do c ← parse_call_suffix; pure (call c)
  suffix_from t = fail (unexpected t (some expression_suffix))

  unfoldable pub parse_suffix_part : Method F S (SuffixPart F S)
  parse_suffix_part = do t ← get_next; suffix_from t

  unfoldable pub next_suffix : Method F S (Round (SuffixPart F S) (Suffixes F S))
  next_suffix = do
    t ← look_ahead 0
    if starts_suffix t
        then (do part ← parse_suffix_part; pure (push part))
        else pure (break_with no_suffixes)

  unfoldable pub parse_suffixed_expression : Method F S (SuffixedExpression F S)
  parse_suffixed_expression = do
    primary ← parse_primary_expression
    suffixes ← loop add_suffix next_suffix
    pure (suffixed_expression primary suffixes)

  -- The arms of `parse_simple_expression`.
  unfoldable pub simple_from : Token F S → Method F S (SimpleExpression F S)
  simple_from (Token.float f) = do take_next; pure (Syntax.float f)
  simple_from (Token.integer i) = do take_next; pure (Syntax.integer i)
  simple_from (Token.string _) = do s ← expect_string; pure (Syntax.string s)
  simple_from Token.nil_token = do take_next; pure nil
  simple_from Token.true_token = do take_next; pure true_value
  simple_from Token.false_token = do take_next; pure false_value
  simple_from Token.dots = do take_next; pure var_args
  simple_from Token.left_brace = do
    fields ← parse_table_constructor guarded
    pure (table_constructor fields)
  simple_from Token.function_token = do
    take_next
    definition ← parse_function_definition guarded
    pure (function definition)
  simple_from _ = do e ← parse_suffixed_expression; pure (suffixed e)

  unfoldable pub parse_simple_expression : Method F S (SimpleExpression F S)
  parse_simple_expression = do t ← get_next; simple_from t

  -- The head, by what `get_unary_operator` says of the next token.
  unfoldable pub head_from : Option UnaryOperator → Method F S (HeadExpression F S)
  head_from none = do e ← parse_simple_expression; pure (simple e)
  head_from (some op) = do
    take_next
    e ← guarded.parse_sub_expression unary_priority
    pure (unary_operator op e)

  -- The body of the loop, for `Some(binary_op)`.
  unfoldable pub operand_of :
      ℕ → BinaryOperator → Method F S (Round (BinaryOperator × Expression F S) (Tail F S))
  operand_of priority_limit op =
      if leb (binary_priority op).0 priority_limit then pure (break_with no_tail) else (do
        take_next
        right ← guarded.parse_sub_expression (binary_priority op).1
        pure (push (op, right)))

  abbrev pub operand_for :
      ℕ → Option BinaryOperator → Method F S (Round (BinaryOperator × Expression F S) (Tail F S))
  operand_for priority_limit none = pure (break_with no_tail)
  operand_for priority_limit (some op) = operand_of priority_limit op

  unfoldable pub next_operand : ℕ → Method F S (Round (BinaryOperator × Expression F S) (Tail F S))
  next_operand priority_limit = do t ← look_ahead 0; operand_for priority_limit (operator_of t)

  -- `parse_sub_expression` behind its guard.
  unfoldable pub sub_expression : ℕ → Method F S (Expression F S)
  sub_expression priority_limit = do
    t ← get_next
    head ← head_from (get_unary_operator t)
    tail ← loop push_operand (next_operand priority_limit)
    pure (expression head tail)
