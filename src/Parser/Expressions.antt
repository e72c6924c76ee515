-- ===== src/Parser/Expressions.antt =====
-- src/parser.rs: expressions, and the blocks that function definitions hold.
use luster.Prelude.{ℕ, Bool, true, false, Option, none, some, List, [], ◌∷◌, if◌then◌else◌}
use luster.Lexer.Tokens.{Token}
use luster.Parser.Syntax.{
  Block, ReturnStatement, Statement, Expression, Expressions, FunctionDefinition, Fields,
  ConstructorField, block, no_statements, add_statement, no_return, returns, no_expressions,
  add_expression, function_definition, no_fields, add_field, array, record_field, named_key,
  indexed_key,
}
use luster.Parser.Stream.{
  Method, ◌>>=◌, ◌>>◌, pure, fail, Round, break_with, push, loop, get_next, take_next, look_ahead,
  check_ahead, expect_next, expect_name, unexpected, parameter_name_or_dots,
}
use luster.Parser.Priority.{min_priority}

-- The methods that take a recursion guard, where some guards are live.
pub record Guarded (F S : Type 0) : Type 0 where
  pub parse_statement : Method F S (Statement F S)
  pub parse_sub_expression : ℕ → Method F S (Expression F S)

abbrev pub push_parameter : {S : Type 0} → S → List S × Bool → List S × Bool
push_parameter n ps = (n ∷ ps.0, ps.1)

module _ {F S : Type 0} where
  -- Whether nothing is returned, by the token behind `return`.
  unfoldable pub returns_nothing : Option (Token F S) → Bool
  returns_nothing none = true
  returns_nothing (some Token.end_token) = true
  returns_nothing (some Token.semi_colon) = true
  returns_nothing (some Token.else_token) = true
  returns_nothing (some Token.elseif_token) = true
  returns_nothing (some Token.until_token) = true
  returns_nothing _ = false

  -- `None` for a semicolon, which pushes nothing.
  abbrev pub push_statement : Option (Statement F S) → Block F S → Block F S
  push_statement none b = b
  push_statement (some st) (block sts r) = block (add_statement st sts) r

  -- The `match` in the loop of `parse_function_definition`: a name, or `none` for dots.
  abbrev pub parameter : Token F S → Method F S (Option S)
  parameter (Token.name n) = pure (some n)
  parameter Token.dots = pure none
  parameter t = fail (unexpected t (some parameter_name_or_dots))

  -- What follows a parameter.
  abbrev pub after_parameter : Option S → Method F S (Round S (List S × Bool))
  after_parameter none = pure (break_with ([], true))
  after_parameter (some n) = do
    comma ← check_ahead 0 Token.comma
    if comma then (do take_next; pure (push n)) else pure (break_with (n ∷ [], false))

  unfoldable pub parse_parameters : Method F S (List S × Bool)
  parse_parameters = loop push_parameter (do t ← take_next; n ← parameter t; after_parameter n)

  -- What follows a field.
  unfoldable pub after_field :
      ConstructorField F S → Token F S → Method F S (Round (ConstructorField F S) (Fields F S))
  after_field c Token.comma = do take_next; pure (push c)
  after_field c Token.semi_colon = do take_next; pure (push c)
  after_field c _ = pure (break_with (add_field c no_fields))

module _ {F S : Type 0} (guarded : Guarded F S) where
  unfoldable pub parse_expression : Method F S (Expression F S)
  parse_expression = guarded.parse_sub_expression min_priority

  -- A round of `while self.check_ahead(0, Token::Comma)?`.
  unfoldable pub next_expression : Method F S (Round (Expression F S) (Expressions F S))
  next_expression = do
    more ← check_ahead 0 Token.comma
    if more
        then (do take_next; e ← parse_expression; pure (push e))
        else pure (break_with no_expressions)

  unfoldable pub parse_expression_list : Method F S (Expressions F S)
  parse_expression_list = do
    e ← parse_expression
    es ← loop add_expression next_expression
    pure (add_expression e es)

  unfoldable pub parse_return_statement : Method F S (ReturnStatement F S)
  parse_return_statement = do
    expect_next Token.return_token
    t ← look_ahead 0
    es ← if returns_nothing t then pure no_expressions else parse_expression_list
    semi_colon ← check_ahead 0 Token.semi_colon
    if semi_colon then (do take_next; pure (returns es)) else pure (returns es)

  -- The arms of the `match` in the loop of `parse_block`.
  unfoldable pub block_round :
      Option (Token F S) → Method F S (Round (Option (Statement F S)) (Block F S))
  block_round none = pure (break_with (block no_statements no_return))
  block_round (some Token.else_token) = pure (break_with (block no_statements no_return))
  block_round (some Token.elseif_token) = pure (break_with (block no_statements no_return))
  block_round (some Token.end_token) = pure (break_with (block no_statements no_return))
  block_round (some Token.until_token) = pure (break_with (block no_statements no_return))
  block_round (some Token.semi_colon) = do take_next; pure (push none)
  block_round (some Token.return_token) = do
    r ← parse_return_statement
    pure (break_with (block no_statements r))
  block_round _ = do st ← guarded.parse_statement; pure (push (some st))

  unfoldable pub parse_block : Method F S (Block F S)
  parse_block = loop push_statement (do t ← look_ahead 0; block_round t)

  unfoldable pub parse_function_definition : Method F S (FunctionDefinition F S)
  parse_function_definition = do
    expect_next Token.left_paren
    closed ← check_ahead 0 Token.right_paren
    ps ← if closed then pure ([], false) else parse_parameters
    expect_next Token.right_paren
    body ← parse_block
    expect_next Token.end_token
    pure (function_definition ps.0 ps.1 body)

  -- The arms of `parse_constructor_field`.
  unfoldable pub field_from : Token F S → Method F S (ConstructorField F S)
  field_from (Token.name _) = do
    keyed ← check_ahead 1 Token.assign
    if keyed
        then (do
          key ← expect_name
          expect_next Token.assign
          value ← parse_expression
          pure (record_field (named_key key) value))
        else (do e ← parse_expression; pure (array e))
  field_from Token.left_bracket = do
    take_next
    key ← parse_expression
    expect_next Token.right_bracket
    expect_next Token.assign
    value ← parse_expression
    pure (record_field (indexed_key key) value)
  field_from _ = do e ← parse_expression; pure (array e)

  unfoldable pub parse_constructor_field : Method F S (ConstructorField F S)
  parse_constructor_field = do t ← get_next; field_from t

  unfoldable pub next_field : Method F S (Round (ConstructorField F S) (Fields F S))
  next_field = do
    closed ← check_ahead 0 Token.right_brace
    if closed
        then pure (break_with no_fields)
        else (do c ← parse_constructor_field; t ← get_next; after_field c t)

  unfoldable pub parse_table_constructor : Method F S (Fields F S)
  parse_table_constructor = do
    expect_next Token.left_brace
    fields ← loop add_field next_field
    expect_next Token.right_brace
    pure fields
