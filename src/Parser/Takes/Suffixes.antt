-- ===== src/Parser/Takes/Suffixes.antt =====
-- src/parser.rs: every method of suffixed expressions and operators takes the tokens that it
-- should, and its loops end.
use luster.Prelude.{ℕ, Option, none, some, leb}
use luster.Operators.{BinaryOperator, UnaryOperator}
use luster.Lexer.Tokens.{Token}
use luster.Parser.Stream.{is_token}
use luster.Parser.Priority.{get_unary_operator, binary_priority}
use luster.Parser.Expressions.{Guarded}
use luster.Parser.Suffixes.{
  primary_from, parse_primary_expression, field_suffix_from, parse_field_suffix, arguments_from,
  method_name, parse_call_suffix, suffix_from, parse_suffix_part, starts_suffix, next_suffix,
  parse_suffixed_expression, simple_from, parse_simple_expression, head_from, operand_of,
  operator_of, operand_for, next_operand, sub_expression,
}
use luster.Parser.Takes.{
  Takes, TakesRound, reading, taking, taking_round, weaken, Takes-pure, Costs-fail, Round-break,
  Costs-if, get_next-Takes, take_next-Takes, look_ahead-Takes, expect_next-Takes, expect_name-Takes,
  expect_string-Takes, loop-Takes,
}
use luster.Parser.Takes.Expressions.{
  GuardedTakes, parse_expression-Takes, parse_expression_list-Takes,
  parse_function_definition-Takes, parse_table_constructor-Takes,
}

module _ {F S : Type 0} {guarded : Guarded F S} (takes : GuardedTakes guarded) where
  primary_from-Takes : (t : Token F S) → Takes 0 (primary_from guarded t)
  unfolding primary_from
  primary_from-Takes Token.left_paren =
      reading (weaken (parse_expression-Takes takes))
        λ e. reading (weaken (expect_next-Takes _)) λ _. Takes-pure _
  primary_from-Takes (Token.name n) = Takes-pure _
  primary_from-Takes Token.minus = Costs-fail _
  primary_from-Takes _ = Costs-fail _

  parse_primary_expression-Takes : Takes 1 (parse_primary_expression guarded)
  unfolding parse_primary_expression
  parse_primary_expression-Takes = taking take_next-Takes λ t. primary_from-Takes t

  field_suffix_from-Takes : (t : Token F S) → Takes 1 (field_suffix_from guarded t)
  unfolding field_suffix_from
  field_suffix_from-Takes Token.dot =
      taking take_next-Takes λ _. reading (weaken expect_name-Takes) λ n. Takes-pure _
  field_suffix_from-Takes Token.left_bracket = taking take_next-Takes λ _.
      reading (weaken (parse_expression-Takes takes))
        λ e. reading (weaken (expect_next-Takes _)) λ _. Takes-pure _
  field_suffix_from-Takes Token.minus = Costs-fail _
  field_suffix_from-Takes _ = Costs-fail _

  parse_field_suffix-Takes : Takes 1 (parse_field_suffix guarded)
  unfolding parse_field_suffix
  parse_field_suffix-Takes = reading get_next-Takes λ t. field_suffix_from-Takes t

  arguments_from-Takes : (t : Token F S) → Takes 1 (arguments_from guarded t)
  unfolding arguments_from
  arguments_from-Takes Token.left_paren = taking take_next-Takes λ _. reading get_next-Takes λ t.
      reading
        (Costs-if (is_token t Token.right_paren) (Takes-pure _)
          (weaken (parse_expression_list-Takes takes)))
        λ es. reading (weaken (expect_next-Takes _)) λ _. Takes-pure _
  arguments_from-Takes Token.left_brace =
      taking (parse_table_constructor-Takes takes) λ fields. Takes-pure _
  arguments_from-Takes (Token.string s) = taking expect_string-Takes λ s. Takes-pure _
  arguments_from-Takes Token.minus = Costs-fail _
  arguments_from-Takes _ = Costs-fail _

  method_name-Takes : (t : Token F S) → Takes 0 (method_name t)
  method_name-Takes Token.colon =
      reading (weaken take_next-Takes) λ _. reading (weaken expect_name-Takes) λ n. Takes-pure _
  method_name-Takes Token.minus = Takes-pure _
  method_name-Takes _ = Takes-pure _

  parse_call_suffix-Takes : Takes 1 (parse_call_suffix guarded)
  unfolding parse_call_suffix
  parse_call_suffix-Takes = reading get_next-Takes λ t.
      reading (method_name-Takes t)
        λ m. reading get_next-Takes λ u. taking (arguments_from-Takes u) λ es. Takes-pure _

  suffix_from-Takes : (t : Token F S) → Takes 1 (suffix_from guarded t)
  unfolding suffix_from
  suffix_from-Takes Token.dot = taking parse_field_suffix-Takes λ f. Takes-pure _
  suffix_from-Takes Token.left_bracket = taking parse_field_suffix-Takes λ f. Takes-pure _
  suffix_from-Takes Token.colon = taking parse_call_suffix-Takes λ c. Takes-pure _
  suffix_from-Takes Token.left_paren = taking parse_call_suffix-Takes λ c. Takes-pure _
  suffix_from-Takes Token.left_brace = taking parse_call_suffix-Takes λ c. Takes-pure _
  suffix_from-Takes (Token.string s) = taking parse_call_suffix-Takes λ c. Takes-pure _
  suffix_from-Takes Token.minus = Costs-fail _
  suffix_from-Takes _ = Costs-fail _

  pub next_suffix-Takes : TakesRound (next_suffix guarded)
  unfolding next_suffix parse_suffix_part
  next_suffix-Takes = reading (look_ahead-Takes 0) λ t.
      Costs-if (starts_suffix t)
        (taking_round (reading get_next-Takes λ u. suffix_from-Takes u) λ part. Takes-pure _)
        (Round-break _)

  pub parse_suffixed_expression-Takes : Takes 1 (parse_suffixed_expression guarded)
  unfolding parse_suffixed_expression
  parse_suffixed_expression-Takes =
      taking parse_primary_expression-Takes
        λ primary. reading (loop-Takes _ _ next_suffix-Takes) λ suffixes. Takes-pure _

  simple_from-Takes : (t : Token F S) → Takes 1 (simple_from guarded t)
  unfolding simple_from
  simple_from-Takes (Token.float f) = taking take_next-Takes λ _. Takes-pure _
  simple_from-Takes (Token.integer i) = taking take_next-Takes λ _. Takes-pure _
  simple_from-Takes (Token.string s) = taking expect_string-Takes λ s. Takes-pure _
  simple_from-Takes Token.nil_token = taking take_next-Takes λ _. Takes-pure _
  simple_from-Takes Token.true_token = taking take_next-Takes λ _. Takes-pure _
  simple_from-Takes Token.false_token = taking take_next-Takes λ _. Takes-pure _
  simple_from-Takes Token.dots = taking take_next-Takes λ _. Takes-pure _
  simple_from-Takes Token.left_brace =
      taking (parse_table_constructor-Takes takes) λ fields. Takes-pure _
  simple_from-Takes Token.function_token =
      taking take_next-Takes
        λ _. reading (weaken (parse_function_definition-Takes takes)) λ d. Takes-pure _
  simple_from-Takes Token.minus = taking parse_suffixed_expression-Takes λ e. Takes-pure _
  simple_from-Takes _ = taking parse_suffixed_expression-Takes λ e. Takes-pure _

  head_from-Takes : (op : Option UnaryOperator) → Takes 1 (head_from guarded op)
  unfolding head_from parse_simple_expression
  head_from-Takes none = taking (reading get_next-Takes λ t. simple_from-Takes t) λ e. Takes-pure _
  head_from-Takes (some op) =
      taking take_next-Takes
        λ _. reading (weaken (takes.parse_sub_expression-Takes _)) λ e. Takes-pure _

  pub operand_for-Takes :
      (limit : ℕ) (op : Option BinaryOperator) → TakesRound (operand_for guarded limit op)
  unfolding operand_of
  operand_for-Takes limit none = Round-break _
  operand_for-Takes limit (some op) = Costs-if (leb (binary_priority op).0 limit) (Round-break _) (
      taking_round take_next-Takes
        λ _. reading (weaken (takes.parse_sub_expression-Takes _)) λ e. Takes-pure _)

  pub next_operand-Takes : (limit : ℕ) → TakesRound (next_operand guarded limit)
  unfolding next_operand
  next_operand-Takes limit =
      reading (look_ahead-Takes 0) λ u. operand_for-Takes limit (operator_of u)

  pub sub_expression-Takes : (limit : ℕ) → Takes 1 (sub_expression guarded limit)
  unfolding sub_expression
  sub_expression-Takes limit = reading get_next-Takes λ t.
      taking (head_from-Takes (get_unary_operator t))
        λ head. reading (loop-Takes _ _ (next_operand-Takes limit)) λ tail. Takes-pure _
