-- ===== src/Parser/Print/RoundTrip/Blocks.antt =====
-- src/parser.rs: printed lists of expressions, fields, blocks and functions are read back.
use luster.Prelude.{ℕ, ◌≡◌, refl, true, false, List, [], ◌∷◌, arith}
use luster.Lexer.Tokens.{Token}
use luster.Parser.Syntax.{
  Block, Statements, ReturnStatement, Expressions, FunctionDefinition, Fields, ConstructorField,
  block, no_statements, add_statement, no_return, returns, no_expressions, add_expression,
  function_definition, no_fields, add_field, array, record_field, named_key, indexed_key,
}
use luster.Parser.Stream.{matches, discriminant, loop}
use luster.Parser.Priority.{get_binary_operator, get_unary_operator}
use luster.Parser.Expressions.{
  parse_expression, next_expression, parse_block, parse_function_definition, next_field,
  parse_constructor_field,
}
use luster.Parser.Suffixes.{starts_suffix, arguments_from, simple_from}
use luster.Parser.Chunk.{recursion_guard, statement_from}
use luster.Parser.Print.{
  print_block, print_expression, print_more, print_expressions, print_function, print_fields,
  print_field, print_statements, print_return, print_parameter_list,
}
use luster.Parser.Print.Streams.{head_of}
use luster.Parser.Print.Fits.{
  FitsBlock, FitsStatements, FitsReturn, FitsExpression, FitsExpressions, FitsFunction, FitsFields,
  FitsField,
}
use luster.Parser.Print.Beginnings.{Follows, Follows-print_more, print_expression-Begins}
use luster.Parser.Print.ExpressionSteps.{
  Reads, EndsBlock, at_end_token, no_more-Reads, more-Reads, expression_list-Reads,
  return_nothing-Reads, return-Reads, no_statement-Reads, return_block-Reads, semi_colon-Reads,
  statement-Reads, no_parameter-Reads, function-Reads, named_field-Reads, indexed_field-Reads,
  no_field-Reads, field-Reads,
}
use luster.Parser.Print.SuffixSteps.{
  parameters-Reads, dots-Reads, no_arguments-Reads, arguments-Reads,
}
use luster.Parser.Print.StatementSteps.{append, suffixed_of}
use luster.Parser.Print.Firsts.{print_field-brace, array-Reads}
use luster.Parser.Print.RoundTrip.Ahead.{GuardedReads, follows, takes, guarded-Begins}

module _ {F S : Type 0} {n : ℕ} (reads : GuardedReads F S n) where
  -- The expressions behind a first one.
  pub more_of-Reads :
      (es : Expressions F S) (rest : List (Token F S))
      → FitsExpressions n es
      → Follows 0 rest
      → matches Token.comma (head_of rest) ≡ false
      → Reads
          (loop add_expression (next_expression (recursion_guard n)))
          (print_more es rest)
          es
          rest
  unfolding takes print_expression FitsExpression recursion_guard parse_expression append
      starts_suffix get_binary_operator get_unary_operator discriminant simple_from
      print_parameter_list statement_from suffixed_of
  more_of-Reads no_expressions rest fits fol h = no_more-Reads (takes n) rest h
  more_of-Reads (add_expression e es) rest (fe, fes) fol h =
      more-Reads (takes n)
        (reads.expression-Reads 0 e _ (omega arith) fe (Follows-print_more es fol))
        (more_of-Reads es rest fes fol h)

  pub arguments_of-Reads :
      (es : Expressions F S) (rest : List (Token F S))
      → FitsExpressions n es
      → Reads
          (arguments_from (recursion_guard n) Token.left_paren)
          (Token.left_paren ∷ print_expressions es (Token.right_paren ∷ rest))
          es
          rest
  unfolding takes print_expression FitsExpression recursion_guard parse_expression append
      starts_suffix get_binary_operator get_unary_operator discriminant simple_from
      print_parameter_list statement_from suffixed_of
  arguments_of-Reads no_expressions rest fits = no_arguments-Reads (takes n) rest
  arguments_of-Reads (add_expression e es) rest (fe, fes) =
      arguments-Reads (takes n) (print_expression-Begins e _) (
        expression_list-Reads (takes n)
          (reads.expression-Reads 0 e _ (omega arith) fe (Follows-print_more es (follows refl tt)))
          (more_of-Reads es _ fes (follows refl tt) refl))

  pub field_of-Reads :
      (c : ConstructorField F S) (rest : List (Token F S))
      → FitsField n c
      → Reads
          (parse_constructor_field (recursion_guard n))
          (print_field c (Token.comma ∷ rest))
          c
          (Token.comma ∷ rest)
  unfolding takes print_expression FitsExpression recursion_guard parse_expression append
      starts_suffix get_binary_operator get_unary_operator discriminant simple_from
      print_parameter_list statement_from suffixed_of
  field_of-Reads (array e) rest fits =
      array-Reads (recursion_guard n) e
        (reads.expression-Reads 0 e _ (omega arith) fits (follows refl tt))
  field_of-Reads (record_field (named_key s) e) rest (fk, fe) =
      named_field-Reads (takes n) (reads.expression-Reads 0 e _ (omega arith) fe (follows refl tt))
  field_of-Reads (record_field (indexed_key k) e) rest (fk, fe) =
      indexed_field-Reads (takes n)
        (reads.expression-Reads 0 k _ (omega arith) fk (follows refl tt))
        (reads.expression-Reads 0 e _ (omega arith) fe (follows refl tt))

  pub fields-Reads :
      (fields : Fields F S) (rest : List (Token F S))
      → FitsFields n fields
      → Reads
          (loop add_field (next_field (recursion_guard n)))
          (print_fields fields (Token.right_brace ∷ rest))
          fields
          (Token.right_brace ∷ rest)
  unfolding takes print_expression FitsExpression recursion_guard parse_expression append
      starts_suffix get_binary_operator get_unary_operator discriminant simple_from
      print_parameter_list statement_from suffixed_of
  fields-Reads no_fields rest fits = no_field-Reads (takes n) rest
  fields-Reads (add_field c fields) rest (fc, ff) =
      field-Reads (takes n) (print_field-brace c _) (field_of-Reads c _ fc)
        (fields-Reads fields rest ff)

  pub return_of-Reads :
      (r : ReturnStatement F S) (rest : List (Token F S))
      → FitsReturn n r
      → EndsBlock (head_of rest)
      → Reads (parse_block (recursion_guard n)) (print_return r rest) (block no_statements r) rest
  unfolding takes print_expression FitsExpression recursion_guard parse_expression append
      starts_suffix get_binary_operator get_unary_operator discriminant simple_from
      print_parameter_list statement_from suffixed_of
  return_of-Reads no_return rest fits h = no_statement-Reads (takes n) rest h
  return_of-Reads (returns no_expressions) rest fits h =
      return_block-Reads (takes n) (return_nothing-Reads (takes n) rest)
  return_of-Reads (returns (add_expression e es)) rest (fe, fes) h = return_block-Reads (takes n) (
      return-Reads (takes n) (print_expression-Begins e _) (
        expression_list-Reads (takes n)
          (reads.expression-Reads 0 e _ (omega arith) fe (Follows-print_more es (follows refl tt)))
          (more_of-Reads es _ fes (follows refl tt) refl)))

  pub statements-Reads :
      (sts : Statements F S) {r : ReturnStatement F S} {mid rest : List (Token F S)}
      → FitsStatements n sts
      → Reads (parse_block (recursion_guard n)) mid (block no_statements r) rest
      → Reads (parse_block (recursion_guard n)) (print_statements sts mid) (block sts r) rest
  unfolding takes print_expression FitsExpression recursion_guard parse_expression append
      starts_suffix get_binary_operator get_unary_operator discriminant simple_from
      print_parameter_list statement_from suffixed_of
  statements-Reads no_statements fits h = h
  statements-Reads (add_statement st sts) (fs, fss) h =
      statement-Reads (takes n) (guarded-Begins n st _ fs) (reads.statement-Reads st _ fs)
        (semi_colon-Reads (takes n) (statements-Reads sts fss h))

  pub block-Reads :
      (b : Block F S) (rest : List (Token F S))
      → FitsBlock n b
      → EndsBlock (head_of rest)
      → Reads (parse_block (recursion_guard n)) (print_block b rest) b rest
  unfolding takes print_expression FitsExpression recursion_guard parse_expression append
      starts_suffix get_binary_operator get_unary_operator discriminant simple_from
      print_parameter_list statement_from suffixed_of
  block-Reads (block sts r) rest (fs, fr) h = statements-Reads sts fs (return_of-Reads r rest fr h)

  pub function_definition-Reads :
      (d : FunctionDefinition F S) (rest : List (Token F S))
      → FitsFunction n d
      → Reads (parse_function_definition (recursion_guard n)) (print_function d rest) d rest
  unfolding takes print_expression FitsExpression recursion_guard parse_expression append
      starts_suffix get_binary_operator get_unary_operator discriminant simple_from
      print_parameter_list statement_from suffixed_of
  function_definition-Reads (function_definition [] false body) rest fits =
      no_parameter-Reads (takes n) (block-Reads body _ fits at_end_token)
  function_definition-Reads (function_definition [] true body) rest fits =
      function-Reads (takes n) {ps = ([], true)} refl (dots-Reads _)
        (block-Reads body _ fits at_end_token)
  function_definition-Reads (function_definition (s ∷ ss) b body) rest fits =
      function-Reads (takes n) {ps = (s ∷ ss, b)} refl (parameters-Reads s ss b _)
        (block-Reads body _ fits at_end_token)
