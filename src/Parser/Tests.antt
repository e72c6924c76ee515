-- ===== src/Parser/Tests.antt =====
-- The tests of src/parser.rs, and instances of the theorems.
use luster.Prelude.{ℕ, ◌≡◌, refl, not, true, List, [], ◌∷◌, ltb, leb, arith}
use luster.Operators.{BinaryOperator, UnaryOperator}
use luster.Lexer.Tokens.{Token}
use luster.Parser.Syntax
use luster.Parser.Syntax.{
  Block, Suffixes, call, Expression, block, no_statements, add_statement, no_return, returns,
  if_statement, local_statement, repeat_statement, function_call, assignment, no_else_ifs,
  else_part, expression, no_tail, add_operand, simple, unary_operator, no_expressions,
  add_expression, nil, table_constructor, function, suffixed, grouped_expression, indexed,
  function_suffix, field, no_suffixes, add_suffix, suffixed_expression, function_definition,
  name_target, no_targets, add_target, no_fields, add_field, array,
}
use luster.Parser.Stream.{
  at_end, ok, err, recursion_limit, expression_not_statement, assign_to_expression,
}
use luster.Parser.Chunk.{recursion_guard, parse_chunk}
use luster.Parser.Priority.{binary_priority, unary_priority, get_binary_operator}
use luster.Parser.Suffixes.{starts_suffix}
use luster.Parser.Takes.Chunk.{Chunked, parse_chunk-Chunked}
use luster.Parser.Print.{print_block, print_expression, print_suffixed}
use luster.Parser.Print.Streams.{stream}
use luster.Parser.Print.Fits.{FitsBlock, FitsExpression, FitsSuffixed}
use luster.Parser.Print.Beginnings.{Follows, Stops}
use luster.Parser.Shape.{Returns, Shaped, next_operator, parse_sub_expression-Shaped}
use luster.Parser.Errors.{
  nested, ends_in_call, assignable, parse_sub_expression-nested, parse_statement-not_statement,
  parse_statement-not_target,
}
use luster.Parser.Manual.{level, binds_right, binary_priority-manual, binary_priority-not_equal}
use luster.Parser.Print.RoundTrip.{parse_sub_expression-print, parse_chunk-print}

-- A name is a number here.
abbrev variable : ℕ → Expression ℕ ℕ
variable n =
    expression (simple (suffixed (suffixed_expression (Syntax.name n) no_suffixes))) no_tail

-- `-x ^ y * z + 1`
abbrev operators : Expression ℕ ℕ
operators =
    expression (unary_operator UnaryOperator.minus power)
      (add_operand BinaryOperator.mul (variable 3) (add_operand BinaryOperator.add one no_tail))
  where
    one : Expression ℕ ℕ
    one = expression (simple (Syntax.integer 1)) no_tail

    power : Expression ℕ ℕ
    power =
        expression (simple (suffixed (suffixed_expression (Syntax.name 1) no_suffixes)))
          (add_operand BinaryOperator.pow (variable 2) no_tail)

-- `local a = f[x]; repeat a = {x}; until not a; return function(...) end`
abbrev program : Block ℕ ℕ
program =
    block
      (add_statement (local_statement (5 ∷ []) (add_expression element no_expressions)) (
        add_statement
          (repeat_statement body
            (expression (unary_operator UnaryOperator.not_op (variable 5)) no_tail))
          no_statements))
      (returns (
        add_expression
          (expression
            (simple (function (function_definition [] true (block no_statements no_return))))
            no_tail)
          no_expressions))
  where
    element : Expression ℕ ℕ
    element =
        expression
          (simple (
            suffixed (
              suffixed_expression (Syntax.name 6)
                (add_suffix (field (indexed (variable 1))) no_suffixes))))
          no_tail

    body : Block ℕ ℕ
    body =
        block
          (add_statement
            (assignment (add_target (name_target 5) no_targets) (
              add_expression
                (expression (simple (table_constructor (add_field (array (variable 1)) no_fields)))
                  no_tail)
                no_expressions))
            no_statements)
          no_return

program-Fits : FitsBlock 199 program
unfolding FitsBlock
program-Fits = omega arith

parse_chunk-print_example :
    parse_chunk (stream (print_block program [])) ≡ ok (record { block = program }) at_end
parse_chunk-print_example = parse_chunk-print program program-Fits

then-Follows : Follows {F = ℕ} {S = ℕ} 0 (Token.then_token ∷ [])
unfolding starts_suffix get_binary_operator
then-Follows = record { no_suffix = refl; no_operator = tt }

parse_sub_expression-print_example :
    (recursion_guard 3).parse_sub_expression 0
      (stream (print_expression operators (Token.then_token ∷ [])))
    ≡ ok operators (stream (Token.then_token ∷ []))
unfolding FitsExpression binary_priority
parse_sub_expression-print_example =
    parse_sub_expression-print 3 0 operators (Token.then_token ∷ []) (omega arith) (omega arith)
      then-Follows

parse_chunk-Chunked_example :
    Chunked (stream (print_block program [])) (parse_chunk (stream (print_block program [])))
parse_chunk-Chunked_example = parse_chunk-Chunked (stream (print_block program []))

parse_sub_expression-Shaped_example :
    Returns
      (λ e rest. Shaped 0 e × Stops 0 (next_operator rest))
      ((recursion_guard 3).parse_sub_expression 0
        (stream (print_expression operators (Token.then_token ∷ []))))
parse_sub_expression-Shaped_example =
    parse_sub_expression-Shaped 3 0 (stream (print_expression operators (Token.then_token ∷ [])))

-- `- - x` with two guards, which are too few.
abbrev minuses : List UnaryOperator
minuses = UnaryOperator.minus ∷ UnaryOperator.minus ∷ []

parse_sub_expression-nested_example :
    (recursion_guard 2).parse_sub_expression 0
      (stream (print_expression (nested {F = ℕ} {S = ℕ} minuses 1) (Token.then_token ∷ [])))
    ≡ err recursion_limit
parse_sub_expression-nested_example =
    parse_sub_expression-nested minuses 1 2 (Token.then_token ∷ []) then-Follows

-- `x[y]` and `x[y]()`
abbrev by_index : Suffixes ℕ ℕ
by_index = add_suffix (field (indexed (variable 2))) no_suffixes

abbrev by_call : Suffixes ℕ ℕ
by_call =
    add_suffix (field (indexed (variable 2)))
      (add_suffix (call (function_suffix no_expressions)) no_suffixes)

parse_statement-not_statement_example :
    (recursion_guard 2).parse_statement (
      stream
        (print_suffixed (suffixed_expression (Syntax.name 1) by_index) (Token.semi_colon ∷ [])))
    ≡ err expression_not_statement
unfolding FitsSuffixed ends_in_call
parse_statement-not_statement_example =
    parse_statement-not_statement 1 (Syntax.name 1) by_index [] (omega arith) refl

parse_statement-not_target_example :
    (recursion_guard 2).parse_statement
      (stream (print_suffixed (suffixed_expression (Syntax.name 1) by_call) (Token.assign ∷ [])))
    ≡ err assign_to_expression
unfolding FitsSuffixed assignable ends_in_call
parse_statement-not_target_example =
    parse_statement-not_target 1 (Syntax.name 1) by_call [] (omega arith) refl

-- In `x .. y + z` the sum is the operand.
binary_priority-manual_example :
    (not (leb (binary_priority BinaryOperator.add).0 (binary_priority BinaryOperator.concat).1)
      ≡ binds_right BinaryOperator.concat BinaryOperator.add)
    × (not (leb (binary_priority BinaryOperator.add).0 unary_priority)
        ≡ ltb 11 (level BinaryOperator.add))
binary_priority-manual_example =
    binary_priority-manual BinaryOperator.concat BinaryOperator.add (λ e. cc) (λ e. cc)

-- In `x .. y ~= z` the comparison is the operand.
binary_priority-not_equal_example :
    (not
        (leb (binary_priority BinaryOperator.not_equal).0 (binary_priority BinaryOperator.concat).1)
      ≡ true)
    × (binds_right BinaryOperator.concat BinaryOperator.not_equal
        ≡ ltb (level BinaryOperator.concat) 3)
unfolding level
binary_priority-not_equal_example =
    binary_priority-not_equal BinaryOperator.concat (λ e. cc) (omega arith)
