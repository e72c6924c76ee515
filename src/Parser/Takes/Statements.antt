-- ===== src/Parser/Takes/Statements.antt =====
-- src/parser.rs: every method of statements takes the tokens that it should, and its loops end.
use luster.Prelude.{◌||◌, Option, none, some}
use luster.Lexer.Tokens.{Token}
use luster.Parser.Syntax
use luster.Parser.Syntax.{
  SuffixedExpression, PrimaryExpression, Suffixes, SuffixPart, grouped_expression, field, call,
  suffixed_expression,
}
use luster.Parser.Expressions.{Guarded}
use luster.Parser.Statements.{
  pop, next_name, primary_target, suffix_target, target, suffix_statement, call_statement,
  next_else_if, parse_else_part, parse_if_statement, parse_while_statement, parse_step, numeric_for,
  generic_for, for_from, parse_for_statement, parse_repeat_statement, field_round,
  parse_function_statement, parse_local_function_statement, parse_local_statement, next_target,
  parse_assignment, parse_expression_statement,
}
use luster.Parser.Takes.{
  Takes, TakesRound, reading, taking, taking_round, weaken, Takes-pure, Costs-fail, Round-break,
  Costs-if, get_next-Takes, take_next-Takes, look_ahead-Takes, check_ahead-Takes, expect_next-Takes,
  expect_name-Takes, loop-Takes,
}
use luster.Parser.Takes.Expressions.{
  GuardedTakes, parse_expression-Takes, parse_expression_list-Takes, parse_block-Takes,
  parse_function_definition-Takes,
}
use luster.Parser.Takes.Suffixes.{parse_suffixed_expression-Takes}

module _ {F S : Type 0} where
  pub next_name-Takes : TakesRound (next_name {F = F} {S = S})
  unfolding next_name
  next_name-Takes = reading (check_ahead-Takes 0 _) λ more.
      Costs-if more
        (taking_round take_next-Takes λ _. reading (weaken expect_name-Takes) λ n. Takes-pure _)
        (Round-break _)

  suffix_target-Takes :
      (p : PrimaryExpression F S) (o : Option (Suffixes F S × SuffixPart F S))
      → Takes 0 (suffix_target p o)
  unfolding primary_target
  suffix_target-Takes (Syntax.name n) none = Takes-pure _
  suffix_target-Takes (grouped_expression e) none = Costs-fail _
  suffix_target-Takes p (some (ps, field f)) = Takes-pure _
  suffix_target-Takes p (some (ps, call c)) = Costs-fail _

  target-Takes : (e : SuffixedExpression F S) → Takes 0 (target e)
  unfolding target
  target-Takes (suffixed_expression p suffixes) = suffix_target-Takes p (pop suffixes)

  suffix_statement-Takes :
      (p : PrimaryExpression F S) (o : Option (Suffixes F S × SuffixPart F S))
      → Takes 0 (suffix_statement p o)
  suffix_statement-Takes p none = Costs-fail _
  suffix_statement-Takes p (some (ps, field f)) = Costs-fail _
  suffix_statement-Takes p (some (ps, call c)) = Takes-pure _

  call_statement-Takes : (e : SuffixedExpression F S) → Takes 0 (call_statement e)
  unfolding call_statement
  call_statement-Takes (suffixed_expression p suffixes) = suffix_statement-Takes p (pop suffixes)

  pub field_round-Takes : (t : Option (Token F S)) → TakesRound (field_round t)
  unfolding field_round
  field_round-Takes none = Round-break _
  field_round-Takes (some Token.dot) =
      taking_round take_next-Takes λ _. reading (weaken expect_name-Takes) λ n. Takes-pure _
  field_round-Takes (some Token.colon) =
      taking_round take_next-Takes λ _. reading (weaken expect_name-Takes) λ n. Takes-pure _
  field_round-Takes (some _) = Round-break _

module _ {F S : Type 0} {guarded : Guarded F S} (takes : GuardedTakes guarded) where
  pub next_else_if-Takes : TakesRound (next_else_if guarded)
  unfolding next_else_if
  next_else_if-Takes = reading (check_ahead-Takes 0 _) λ more.
      Costs-if more
        (taking_round take_next-Takes λ _. reading (weaken (parse_expression-Takes takes)) λ cond.
          reading (weaken (expect_next-Takes _))
            λ _. reading (parse_block-Takes takes) λ b. Takes-pure _)
        (Round-break _)

  parse_else_part-Takes : Takes 0 (parse_else_part guarded)
  unfolding parse_else_part
  parse_else_part-Takes = reading (check_ahead-Takes 0 _) λ there.
      Costs-if there
        (reading (weaken take_next-Takes) λ _. reading (parse_block-Takes takes) λ b. Takes-pure _)
        (Takes-pure _)

  pub parse_if_statement-Takes : Takes 1 (parse_if_statement guarded)
  unfolding parse_if_statement
  parse_if_statement-Takes = taking (expect_next-Takes _) λ _.
      reading (weaken (parse_expression-Takes takes)) λ cond.
        reading (weaken (expect_next-Takes _)) λ _. reading (parse_block-Takes takes) λ b.
          reading (loop-Takes _ _ next_else_if-Takes) λ else_ifs.
            reading parse_else_part-Takes
              λ otherwise. reading (weaken (expect_next-Takes _)) λ _. Takes-pure _

  pub parse_while_statement-Takes : Takes 1 (parse_while_statement guarded)
  unfolding parse_while_statement
  parse_while_statement-Takes = taking (expect_next-Takes _) λ _.
      reading (weaken (parse_expression-Takes takes)) λ cond.
        reading (weaken (expect_next-Takes _)) λ _.
          reading (parse_block-Takes takes)
            λ b. reading (weaken (expect_next-Takes _)) λ _. Takes-pure _

  parse_step-Takes : Takes 0 (parse_step guarded)
  unfolding parse_step
  parse_step-Takes = reading (check_ahead-Takes 0 _) λ there.
      Costs-if there
        (reading (weaken take_next-Takes)
          λ _. reading (weaken (parse_expression-Takes takes)) λ e. Takes-pure _)
        (Takes-pure _)

  numeric_for-Takes : (n : S) → Takes 0 (numeric_for guarded n)
  unfolding numeric_for
  numeric_for-Takes n = reading (weaken take_next-Takes) λ _.
      reading (weaken (parse_expression-Takes takes)) λ initial.
        reading (weaken (expect_next-Takes _)) λ _.
          reading (weaken (parse_expression-Takes takes)) λ limit. reading parse_step-Takes λ by.
            reading (weaken (expect_next-Takes _)) λ _.
              reading (parse_block-Takes takes)
                λ body. reading (weaken (expect_next-Takes _)) λ _. Takes-pure _

  generic_for-Takes : (n : S) → Takes 0 (generic_for guarded n)
  unfolding generic_for
  generic_for-Takes n = reading (loop-Takes _ _ next_name-Takes) λ names.
      reading (weaken (expect_next-Takes _)) λ _.
        reading (weaken (parse_expression_list-Takes takes)) λ arguments.
          reading (weaken (expect_next-Takes _)) λ _.
            reading (parse_block-Takes takes)
              λ body. reading (weaken (expect_next-Takes _)) λ _. Takes-pure _

  for_from-Takes : (n : S) (t : Token F S) → Takes 0 (for_from guarded n t)
  unfolding for_from
  for_from-Takes n Token.assign = numeric_for-Takes n
  for_from-Takes n Token.comma = generic_for-Takes n
  for_from-Takes n Token.in_token = generic_for-Takes n
  for_from-Takes n Token.minus = Costs-fail _
  for_from-Takes n _ = Costs-fail _

  pub parse_for_statement-Takes : Takes 1 (parse_for_statement guarded)
  unfolding parse_for_statement
  parse_for_statement-Takes =
      taking (expect_next-Takes _)
        λ _. reading (weaken expect_name-Takes) λ n. reading get_next-Takes λ t. for_from-Takes n t

  pub parse_repeat_statement-Takes : Takes 1 (parse_repeat_statement guarded)
  unfolding parse_repeat_statement
  parse_repeat_statement-Takes = taking (expect_next-Takes _) λ _.
      reading (parse_block-Takes takes) λ body.
        reading (weaken (expect_next-Takes _))
          λ _. reading (weaken (parse_expression-Takes takes)) λ until. Takes-pure _

  pub parse_function_statement-Takes : Takes 1 (parse_function_statement guarded)
  unfolding parse_function_statement
  parse_function_statement-Takes = taking (expect_next-Takes _) λ _.
      reading (weaken expect_name-Takes) λ n.
        reading (loop-Takes _ _ (reading (look_ahead-Takes 0) λ t. field_round-Takes t))
          λ fields. reading (weaken (parse_function_definition-Takes takes)) λ d. Takes-pure _

  pub parse_local_function_statement-Takes : Takes 1 (parse_local_function_statement guarded)
  unfolding parse_local_function_statement
  parse_local_function_statement-Takes = taking (expect_next-Takes _) λ _.
      reading (weaken expect_name-Takes)
        λ n. reading (weaken (parse_function_definition-Takes takes)) λ d. Takes-pure _

  pub parse_local_statement-Takes : Takes 1 (parse_local_statement guarded)
  unfolding parse_local_statement
  parse_local_statement-Takes = taking (expect_next-Takes _) λ _.
      reading (weaken expect_name-Takes) λ n. reading (loop-Takes _ _ next_name-Takes) λ names.
        reading (check_ahead-Takes 0 _) λ assigned.
          reading
            (Costs-if assigned
              (reading (weaken take_next-Takes) λ _. weaken (parse_expression_list-Takes takes))
              (Takes-pure _))
            λ values. Takes-pure _

  pub next_target-Takes : TakesRound (next_target guarded)
  unfolding next_target
  next_target-Takes = reading (check_ahead-Takes 0 _) λ more.
      Costs-if more
        (taking_round take_next-Takes λ _.
          reading (weaken (parse_suffixed_expression-Takes takes))
            λ e. reading (target-Takes e) λ t. Takes-pure _)
        (Round-break _)

  parse_assignment-Takes : (e : SuffixedExpression F S) → Takes 0 (parse_assignment guarded e)
  unfolding parse_assignment
  parse_assignment-Takes e = reading (target-Takes e) λ t.
      reading (loop-Takes _ _ next_target-Takes) λ targets.
        reading (weaken (expect_next-Takes _))
          λ _. reading (weaken (parse_expression_list-Takes takes)) λ values. Takes-pure _

  pub parse_expression_statement-Takes : Takes 1 (parse_expression_statement guarded)
  unfolding parse_expression_statement
  parse_expression_statement-Takes = taking (parse_suffixed_expression-Takes takes) λ e.
      reading (check_ahead-Takes 0 _) λ assigned.
        reading (check_ahead-Takes 0 _) λ listed.
          Costs-if (assigned || listed) (parse_assignment-Takes e) (call_statement-Takes e)
