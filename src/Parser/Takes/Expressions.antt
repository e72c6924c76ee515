-- ===== src/Parser/Takes/Expressions.antt =====
-- src/parser.rs: every method of expressions takes the tokens that it should, and its loops end.
use luster.Prelude.{ℕ, Option, none, some}
use luster.Lexer.Tokens.{Token}
use luster.Parser.Syntax.{ConstructorField, array}
use luster.Parser.Stream.{and_then, pure}
use luster.Parser.Expressions.{
  Guarded, parse_expression, next_expression, parse_expression_list, returns_nothing,
  parse_return_statement, block_round, parse_block, parameter, after_parameter, parse_parameters,
  parse_function_definition, field_from, parse_constructor_field, after_field, next_field,
  parse_table_constructor,
}
use luster.Parser.Takes.{
  Takes, TakesRound, reading, taking, taking_round, weaken, Takes-pure, Costs-fail, Round-break,
  Costs-if, get_next-Takes, take_next-Takes, look_ahead-Takes, check_ahead-Takes, expect_next-Takes,
  expect_name-Takes, loop-Takes,
}

-- What the methods rely on of those that take a guard.
pub record GuardedTakes {F S : Type 0} (guarded : Guarded F S) : Type 0 where
  pub parse_statement-Takes : Takes 1 guarded.parse_statement
  pub parse_sub_expression-Takes : (limit : ℕ) → Takes 1 (guarded.parse_sub_expression limit)

module _ {F S : Type 0} where
  pub parameter-Takes : (t : Token F S) → Takes 0 (parameter t)
  parameter-Takes (Token.name n) = Takes-pure _
  parameter-Takes Token.dots = Takes-pure _
  parameter-Takes Token.minus = Costs-fail _
  parameter-Takes _ = Costs-fail _

  pub after_parameter-Takes : (n : Option S) → Takes 0 (after_parameter {F = F} n)
  after_parameter-Takes none = Takes-pure _
  after_parameter-Takes (some n) =
      reading (check_ahead-Takes 0 _)
        λ b. Costs-if b (reading (weaken take_next-Takes) λ _. Takes-pure _) (Takes-pure _)

  parse_parameters-Takes : Takes 0 (parse_parameters {F = F} {S = S})
  unfolding parse_parameters
  parse_parameters-Takes =
      loop-Takes _ _
        (taking_round take_next-Takes λ t. reading (parameter-Takes t) λ n. after_parameter-Takes n)

module _ {F S : Type 0} {guarded : Guarded F S} (takes : GuardedTakes guarded) where
  pub parse_expression-Takes : Takes 1 (parse_expression guarded)
  unfolding parse_expression
  parse_expression-Takes = takes.parse_sub_expression-Takes _

  pub next_expression-Takes : TakesRound (next_expression guarded)
  unfolding next_expression
  next_expression-Takes = reading (check_ahead-Takes 0 _) λ more.
      Costs-if more
        (taking_round take_next-Takes
          λ _. reading (weaken parse_expression-Takes) λ e. Takes-pure _)
        (Round-break _)

  pub parse_expression_list-Takes : Takes 1 (parse_expression_list guarded)
  unfolding parse_expression_list
  parse_expression_list-Takes =
      taking parse_expression-Takes
        λ e. reading (loop-Takes _ _ next_expression-Takes) λ es. Takes-pure _

  parse_return_statement-Takes : Takes 1 (parse_return_statement guarded)
  unfolding parse_return_statement
  parse_return_statement-Takes = taking (expect_next-Takes _) λ _. reading (look_ahead-Takes 0) λ t.
      reading (Costs-if (returns_nothing t) (Takes-pure _) (weaken parse_expression_list-Takes))
        λ es.
          reading (check_ahead-Takes 0 _)
            λ b. Costs-if b (reading (weaken take_next-Takes) λ _. Takes-pure _) (Takes-pure _)

  pub block_round-Takes : (t : Option (Token F S)) → TakesRound (block_round guarded t)
  unfolding block_round
  block_round-Takes none = Round-break _
  block_round-Takes (some Token.else_token) = Round-break _
  block_round-Takes (some Token.elseif_token) = Round-break _
  block_round-Takes (some Token.end_token) = Round-break _
  block_round-Takes (some Token.until_token) = Round-break _
  block_round-Takes (some Token.semi_colon) = taking_round take_next-Takes λ _. Takes-pure _
  block_round-Takes (some Token.return_token) =
      reading (weaken parse_return_statement-Takes) λ r. Round-break _
  block_round-Takes (some _) = taking_round takes.parse_statement-Takes λ st. Takes-pure _

  pub parse_block-Takes : Takes 0 (parse_block guarded)
  unfolding parse_block
  parse_block-Takes = loop-Takes _ _ (reading (look_ahead-Takes 0) λ t. block_round-Takes t)

  pub parse_function_definition-Takes : Takes 1 (parse_function_definition guarded)
  unfolding parse_function_definition
  parse_function_definition-Takes = taking (expect_next-Takes _) λ _.
      reading (check_ahead-Takes 0 _) λ closed.
        reading (Costs-if closed (Takes-pure _) parse_parameters-Takes) λ ps.
          reading (weaken (expect_next-Takes _)) λ _.
            reading parse_block-Takes
              λ body. reading (weaken (expect_next-Takes _)) λ _. Takes-pure _

  array_field-Takes : Takes 1 (λ s. and_then (parse_expression guarded s) λ e. pure (array e))
  array_field-Takes = taking parse_expression-Takes λ e. Takes-pure _

  field_from-Takes : (t : Token F S) → Takes 1 (field_from guarded t)
  unfolding field_from
  field_from-Takes (Token.name n) = reading (check_ahead-Takes 1 _) λ keyed.
      Costs-if keyed
        (taking expect_name-Takes λ key.
          reading (weaken (expect_next-Takes _))
            λ _. reading (weaken parse_expression-Takes) λ value. Takes-pure _)
        array_field-Takes
  field_from-Takes Token.left_bracket = taking take_next-Takes λ _.
      reading (weaken parse_expression-Takes) λ key. reading (weaken (expect_next-Takes _)) λ _.
        reading (weaken (expect_next-Takes _))
          λ _. reading (weaken parse_expression-Takes) λ value. Takes-pure _
  field_from-Takes Token.minus = array_field-Takes
  field_from-Takes _ = array_field-Takes

  parse_constructor_field-Takes : Takes 1 (parse_constructor_field guarded)
  unfolding parse_constructor_field
  parse_constructor_field-Takes = reading get_next-Takes λ t. field_from-Takes t

  after_field-Takes : (c : ConstructorField F S) (t : Token F S) → Takes 0 (after_field c t)
  unfolding after_field
  after_field-Takes c Token.comma = reading (weaken take_next-Takes) λ _. Takes-pure _
  after_field-Takes c Token.semi_colon = reading (weaken take_next-Takes) λ _. Takes-pure _
  after_field-Takes c Token.minus = Takes-pure _
  after_field-Takes c _ = Takes-pure _

  pub next_field-Takes : TakesRound (next_field guarded)
  unfolding next_field
  next_field-Takes = reading (check_ahead-Takes 0 _) λ closed. Costs-if closed (Round-break _) (
      taking_round parse_constructor_field-Takes
        λ c. reading get_next-Takes λ t. after_field-Takes c t)

  pub parse_table_constructor-Takes : Takes 1 (parse_table_constructor guarded)
  unfolding parse_table_constructor
  parse_table_constructor-Takes = taking (expect_next-Takes _) λ _.
      reading (loop-Takes _ _ next_field-Takes)
        λ fields. reading (weaken (expect_next-Takes _)) λ _. Takes-pure _
