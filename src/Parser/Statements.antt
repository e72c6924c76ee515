-- ===== src/Parser/Statements.antt =====
-- src/parser.rs: statements, and `parse_statement` behind its guard.
use luster.Prelude.{◌||◌, Option, none, some, List, [], ◌∷◌, if◌then◌else◌}
use luster.Lexer.Tokens.{Token}
use luster.Parser.Syntax
use luster.Parser.Syntax.{
  Block, Statement, OptionName, ElseIfParts, ElsePart, ForStatement, Step, Expression, Expressions,
  FieldSuffix, SuffixPart, Suffixes, SuffixedExpression, AssignmentTarget, Targets,
  PrimaryExpression, if_statement, while_statement, do_statement, for_statement, repeat_statement,
  function_statement, local_function, local_statement, label_statement, break_statement,
  goto_statement, function_call, assignment, no_method, no_else_ifs, add_else_if, no_else,
  else_part, numeric, generic, no_step, step, no_expressions, grouped_expression, field, call,
  no_suffixes, add_suffix, suffixed_expression, name_target, field_target, no_targets, add_target,
}
use luster.Parser.Stream.{
  Method, ◌>>=◌, ◌>>◌, pure, fail, Round, break_with, push, loop, get_next, take_next, look_ahead,
  check_ahead, expect_next, expect_name, unexpected, assign_or_in, assign_to_expression,
  expression_not_statement,
}
use luster.Parser.Expressions.{
  Guarded, parse_expression, parse_expression_list, parse_block, parse_function_definition,
}
use luster.Parser.Suffixes.{parse_suffixed_expression}

module _ {F S : Type 0} where
  abbrev pub push_front :
      SuffixPart F S
      → Option (Suffixes F S × SuffixPart F S)
      → Option (Suffixes F S × SuffixPart F S)
  push_front p none = some (no_suffixes, p)
  push_front p (some (ps, last)) = some (add_suffix p ps, last)

  -- `suffixed_expression.suffixes.pop()`: the suffixes before the last one, and that one.
  unfoldable pub pop : Suffixes F S → Option (Suffixes F S × SuffixPart F S)
  pop no_suffixes = none
  pop (add_suffix part rest) = push_front part (pop rest)

  -- A round of `while self.check_ahead(0, Token::Comma)?` of a list of names.
  unfoldable pub next_name : Method F S (Round S (List S))
  next_name = do
    more ← check_ahead 0 Token.comma
    if more then (do take_next; n ← expect_name; pure (push n)) else pure (break_with [])

  -- The target that an expression without suffixes is.
  unfoldable pub primary_target : PrimaryExpression F S → Method F S (AssignmentTarget F S)
  primary_target (Syntax.name n) = pure (name_target n)
  primary_target (grouped_expression e) = fail assign_to_expression

  abbrev pub suffix_target :
      PrimaryExpression F S
      → Option (Suffixes F S × SuffixPart F S)
      → Method F S (AssignmentTarget F S)
  suffix_target primary none = primary_target primary
  suffix_target primary (some (ps, field f)) =
      pure (field_target (suffixed_expression primary ps) f)
  suffix_target primary (some (ps, call c)) = fail assign_to_expression

  -- `assignment_target` in the loop of `parse_expression_statement`.
  unfoldable pub target : SuffixedExpression F S → Method F S (AssignmentTarget F S)
  target (suffixed_expression primary suffixes) = suffix_target primary (pop suffixes)

  abbrev pub suffix_statement :
      PrimaryExpression F S → Option (Suffixes F S × SuffixPart F S) → Method F S (Statement F S)
  suffix_statement primary none = fail expression_not_statement
  suffix_statement primary (some (ps, field f)) = fail expression_not_statement
  suffix_statement primary (some (ps, call c)) =
      pure (function_call (suffixed_expression primary ps) c)

  -- What `parse_expression_statement` makes of an expression that is not assigned to.
  unfoldable pub call_statement : SuffixedExpression F S → Method F S (Statement F S)
  call_statement (suffixed_expression primary suffixes) = suffix_statement primary (pop suffixes)

module _ {F S : Type 0} where
  abbrev pub push_else_if : Expression F S × Block F S → ElseIfParts F S → ElseIfParts F S
  push_else_if part parts = add_else_if part.0 part.1 parts

  -- A round of the loop of `parse_function_statement`: a field, or a method with which it ends.
  unfoldable pub field_round : Option (Token F S) → Method F S (Round S (List S × OptionName F S))
  field_round (some Token.dot) = do take_next; n ← expect_name; pure (push n)
  field_round (some Token.colon) = do
    take_next
    n ← expect_name
    pure (break_with ([], Syntax.method n))
  field_round _ = pure (break_with ([], no_method))

  abbrev pub push_field : S → List S × OptionName F S → List S × OptionName F S
  push_field n fields = (n ∷ fields.0, fields.1)

module _ {F S : Type 0} (guarded : Guarded F S) where
  unfoldable pub next_else_if : Method F S (Round (Expression F S × Block F S) (ElseIfParts F S))
  next_else_if = do
    more ← check_ahead 0 Token.elseif_token
    if more
        then (do
          take_next
          cond ← parse_expression guarded
          expect_next Token.then_token
          b ← parse_block guarded
          pure (push (cond, b)))
        else pure (break_with no_else_ifs)

  unfoldable pub parse_else_part : Method F S (ElsePart F S)
  parse_else_part = do
    there ← check_ahead 0 Token.else_token
    if there then (do take_next; b ← parse_block guarded; pure (else_part b)) else pure no_else

  unfoldable pub parse_if_statement : Method F S (Statement F S)
  parse_if_statement = do
    expect_next Token.if_token
    cond ← parse_expression guarded
    expect_next Token.then_token
    b ← parse_block guarded
    else_ifs ← loop push_else_if next_else_if
    otherwise ← parse_else_part
    expect_next Token.end_token
    pure (if_statement cond b else_ifs otherwise)

  unfoldable pub parse_while_statement : Method F S (Statement F S)
  parse_while_statement = do
    expect_next Token.while_token
    condition ← parse_expression guarded
    expect_next Token.do_token
    b ← parse_block guarded
    expect_next Token.end_token
    pure (while_statement condition b)

  unfoldable pub parse_step : Method F S (Step F S)
  parse_step = do
    there ← check_ahead 0 Token.comma
    if there then (do take_next; e ← parse_expression guarded; pure (step e)) else pure no_step

  unfoldable pub numeric_for : S → Method F S (ForStatement F S)
  numeric_for n = do
    take_next
    initial ← parse_expression guarded
    expect_next Token.comma
    limit ← parse_expression guarded
    by ← parse_step
    expect_next Token.do_token
    body ← parse_block guarded
    expect_next Token.end_token
    pure (numeric n initial limit by body)

  unfoldable pub generic_for : S → Method F S (ForStatement F S)
  generic_for n = do
    names ← loop ◌∷◌ next_name
    expect_next Token.in_token
    arguments ← parse_expression_list guarded
    expect_next Token.do_token
    body ← parse_block guarded
    expect_next Token.end_token
    pure (generic (n ∷ names) arguments body)

  -- The arms of `parse_for_statement`.
  unfoldable pub for_from : S → Token F S → Method F S (ForStatement F S)
  for_from n Token.assign = numeric_for n
  for_from n Token.comma = generic_for n
  for_from n Token.in_token = generic_for n
  for_from n t = fail (unexpected t (some assign_or_in))

  unfoldable pub parse_for_statement : Method F S (ForStatement F S)
  parse_for_statement = do expect_next Token.for_token; n ← expect_name; t ← get_next; for_from n t

  unfoldable pub parse_repeat_statement : Method F S (Statement F S)
  parse_repeat_statement = do
    expect_next Token.repeat_token
    body ← parse_block guarded
    expect_next Token.until_token
    until ← parse_expression guarded
    pure (repeat_statement body until)

  unfoldable pub parse_function_statement : Method F S (Statement F S)
  parse_function_statement = do
    expect_next Token.function_token
    n ← expect_name
    fields ← loop push_field (do t ← look_ahead 0; field_round t)
    definition ← parse_function_definition guarded
    pure (function_statement n fields.0 fields.1 definition)

  unfoldable pub parse_local_function_statement : Method F S (Statement F S)
  parse_local_function_statement = do
    expect_next Token.function_token
    n ← expect_name
    definition ← parse_function_definition guarded
    pure (local_function n definition)

  unfoldable pub parse_local_statement : Method F S (Statement F S)
  parse_local_statement = do
    expect_next Token.local_token
    n ← expect_name
    names ← loop ◌∷◌ next_name
    assigned ← check_ahead 0 Token.assign
    values ← if assigned then (do take_next; parse_expression_list guarded) else pure no_expressions
    pure (local_statement (n ∷ names) values)

  -- A round of the loop over the targets behind the first.
  unfoldable pub next_target : Method F S (Round (AssignmentTarget F S) (Targets F S))
  next_target = do
    more ← check_ahead 0 Token.comma
    if more
        then (do take_next; e ← parse_suffixed_expression guarded; t ← target e; pure (push t))
        else pure (break_with no_targets)

  unfoldable pub parse_assignment : SuffixedExpression F S → Method F S (Statement F S)
  parse_assignment e = do
    t ← target e
    others ← loop add_target next_target
    expect_next Token.assign
    values ← parse_expression_list guarded
    pure (assignment (add_target t others) values)

  unfoldable pub parse_expression_statement : Method F S (Statement F S)
  parse_expression_statement = do
    e ← parse_suffixed_expression guarded
    assigned ← check_ahead 0 Token.assign
    listed ← check_ahead 0 Token.comma
    if assigned || listed then parse_assignment e else call_statement e
