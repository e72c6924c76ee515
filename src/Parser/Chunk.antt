-- ===== src/Parser/Chunk.antt =====
-- src/parser.rs: labels, `parse_statement` behind its guard, the guards, and `parse_chunk`.
use luster.Prelude.{ℕ, zero, suc, ◌-◌, Option, none, some, if◌then◌else◌}
use luster.Lexer.Tokens.{Token}
use luster.Parser.Syntax.{
  Statement, Chunk, do_statement, for_statement, label_statement, break_statement, goto_statement,
}
use luster.Parser.Stream.{
  Method, ◌>>=◌, ◌>>◌, pure, fail, get_next, take_next, look_ahead, check_ahead, expect_next,
  expect_name, end_of_stream, recursion_limit,
}
use luster.Parser.Expressions.{Guarded, parse_block}
use luster.Parser.Suffixes.{sub_expression}
use luster.Parser.Statements.{
  parse_if_statement, parse_while_statement, parse_for_statement, parse_repeat_statement,
  parse_function_statement, parse_local_function_statement, parse_local_statement,
  parse_expression_statement,
}

module _ {F S : Type 0} where
  unfoldable pub parse_label_statement : Method F S (Statement F S)
  parse_label_statement = do
    expect_next Token.double_colon
    n ← expect_name
    expect_next Token.double_colon
    pure (label_statement n)

  unfoldable pub parse_goto_statement : Method F S (Statement F S)
  parse_goto_statement = do expect_next Token.goto_token; n ← expect_name; pure (goto_statement n)

module _ {F S : Type 0} (guarded : Guarded F S) where
  -- The arms of `parse_statement`.
  unfoldable pub statement_from : Token F S → Method F S (Statement F S)
  statement_from Token.if_token = parse_if_statement guarded
  statement_from Token.while_token = parse_while_statement guarded
  statement_from Token.do_token = do
    take_next
    b ← parse_block guarded
    expect_next Token.end_token
    pure (do_statement b)
  statement_from Token.for_token = do f ← parse_for_statement guarded; pure (for_statement f)
  statement_from Token.repeat_token = parse_repeat_statement guarded
  statement_from Token.function_token = parse_function_statement guarded
  statement_from Token.local_token = do
    of_function ← check_ahead 1 Token.function_token
    if of_function
        then (do take_next; parse_local_function_statement guarded)
        else parse_local_statement guarded
  statement_from Token.double_colon = parse_label_statement
  statement_from Token.break_token = do take_next; pure break_statement
  statement_from Token.goto_token = parse_goto_statement
  statement_from _ = parse_expression_statement guarded

  -- `parse_statement` behind its guard.
  unfoldable pub statement : Method F S (Statement F S)
  statement = do t ← get_next; statement_from t

abbrev pub max_recursion : ℕ
max_recursion = 200

module _ {F S : Type 0} where
  -- Where `n` more guards can be live. `recursion_guard` counts the parser's own reference too, so
  -- that fewer than `max_recursion` guards can be.
  unfoldable pub recursion_guard : ℕ → Guarded F S
  recursion_guard zero = record {
    parse_statement = fail recursion_limit;
    parse_sub_expression = λ limit. fail recursion_limit;
  }
  recursion_guard (suc n) = record {
    parse_statement = statement (recursion_guard n);
    parse_sub_expression = sub_expression (recursion_guard n);
  }

  -- The end of `parse_chunk`.
  abbrev pub at_chunk_end : {A : Type 0} → Option (Token F S) → A → Method F S A
  at_chunk_end none a = pure a
  at_chunk_end (some t) a = fail (end_of_stream none)

  unfoldable pub parse_chunk : Method F S (Chunk F S)
  parse_chunk = do
    b ← parse_block (recursion_guard (max_recursion - 1))
    t ← look_ahead 0
    at_chunk_end t (record { block = b })
