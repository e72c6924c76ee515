-- ===== src/Parser/Print/RoundTrip/Suffixes.antt =====
-- src/parser.rs: printed suffixed expressions and operators are read back.
use luster.Prelude.{ℕ, suc, ◌≤◌, ◌≡◌, refl, false, List, arith}
use luster.Lexer.Tokens.{Token}
use luster.Parser.Syntax
use luster.Parser.Syntax.{
  Block, Statements, ReturnStatement, Statement, OptionName, ElseIfParts, ElsePart, ForStatement,
  Step, Expression, Tail, HeadExpression, Expressions, SimpleExpression, PrimaryExpression,
  FieldSuffix, CallSuffix, SuffixPart, Suffixes, SuffixedExpression, FunctionDefinition,
  AssignmentTarget, Targets, Fields, ConstructorField, RecordKey, block, no_statements,
  add_statement, no_return, returns, if_statement, while_statement, do_statement, for_statement,
  repeat_statement, function_statement, local_function, local_statement, label_statement,
  break_statement, goto_statement, function_call, assignment, no_method, method, no_else_ifs,
  add_else_if, no_else, else_part, numeric, generic, no_step, step, expression, no_tail,
  add_operand, simple, unary_operator, no_expressions, add_expression, nil, true_value, false_value,
  var_args, table_constructor, function, suffixed, grouped_expression, named, indexed, method_call,
  function_suffix, field, call, no_suffixes, add_suffix, suffixed_expression, function_definition,
  name_target, field_target, no_targets, add_target, no_fields, add_field, array, record_field,
  named_key, indexed_key,
}
use luster.Parser.Stream.{discriminant, loop}
use luster.Parser.Priority.{
  unary_priority, binary_priority, get_binary_operator, get_unary_operator,
}
use luster.Parser.Expressions.{parse_expression}
use luster.Parser.Suffixes.{
  starts_suffix, next_suffix, next_operand, push_operand, parse_primary_expression, simple_from,
}
use luster.Parser.Chunk.{recursion_guard, statement_from}
use luster.Parser.Print.{
  print_expression, print_tail, print_head, print_simple, print_primary, print_suffixes, print_part,
  print_parameter_list,
}
use luster.Parser.Print.Streams.{head_of}
use luster.Parser.Print.Fits.{
  FitsExpression, FitsTail, FitsHead, FitsSimple, FitsPrimary, FitsPart, FitsSuffixes,
}
use luster.Parser.Print.Beginnings.{
  Follows, Follows-operand, Follows-unary, right_bound, tail-no_suffix,
}
use luster.Parser.Print.ExpressionSteps.{Reads, table-Reads}
use luster.Parser.Print.SuffixSteps.{
  name-Reads, grouped-Reads, named-Reads, indexed-Reads, method_call-Reads, call-Reads,
  no_suffix-Reads, dot-Reads, bracket-Reads, colon-Reads, paren-Reads,
}
use luster.Parser.Print.HeadSteps.{
  head, unary-Reads, float-Reads, integer-Reads, string-Reads, word-Reads, table_head-Reads,
  function_head-Reads, suffixed_head-Reads, no_operand-Reads, operand-Reads, sub_expression-Reads,
}
use luster.Parser.Print.StatementSteps.{append, suffixed_of}
use luster.Parser.Print.RoundTrip.Ahead.{GuardedReads, follows, takes, whole-Reads}
use luster.Parser.Print.RoundTrip.Blocks.{
  arguments_of-Reads, fields-Reads, function_definition-Reads,
}

module _ {F S : Type 0} {n : ℕ} (reads : GuardedReads F S n) where
  pub primary-Reads :
      (p : PrimaryExpression F S) (rest : List (Token F S))
      → FitsPrimary n p
      → Reads (parse_primary_expression (recursion_guard n)) (print_primary p rest) p rest
  unfolding takes print_expression FitsExpression recursion_guard parse_expression append
      starts_suffix get_binary_operator get_unary_operator discriminant simple_from
      print_parameter_list statement_from suffixed_of
  primary-Reads (Syntax.name s) rest fits = name-Reads (takes n) s rest
  primary-Reads (grouped_expression e) rest fits =
      grouped-Reads (takes n) (reads.expression-Reads 0 e _ (omega arith) fits (follows refl tt))

  pub part-Reads :
      (p : SuffixPart F S) {mid rest : List (Token F S)} {qs : Suffixes F S}
      → FitsPart n p
      → Reads (loop add_suffix (next_suffix (recursion_guard n))) mid qs rest
      → Reads
          (loop add_suffix (next_suffix (recursion_guard n)))
          (print_part p mid)
          (add_suffix p qs)
          rest
  unfolding takes print_expression FitsExpression recursion_guard parse_expression append
      starts_suffix get_binary_operator get_unary_operator discriminant simple_from
      print_parameter_list statement_from suffixed_of
  part-Reads (field (named s)) fits h = dot-Reads (takes n) (named-Reads (takes n) s _) h
  part-Reads (field (indexed e)) fits h =
      bracket-Reads (takes n)
        (indexed-Reads (takes n)
          (reads.expression-Reads 0 e _ (omega arith) fits (follows refl tt)))
        h
  part-Reads (call (method_call s es)) {mid} fits h =
      colon-Reads (takes n) (method_call-Reads (takes n) (arguments_of-Reads reads es mid fits)) h
  part-Reads (call (function_suffix es)) {mid} fits h =
      paren-Reads (takes n) (call-Reads (takes n) (arguments_of-Reads reads es mid fits)) h

  -- Suffixes in front of others.
  pub suffixes-Reads :
      (ps : Suffixes F S) {mid rest : List (Token F S)} {qs : Suffixes F S}
      → FitsSuffixes n ps
      → Reads (loop add_suffix (next_suffix (recursion_guard n))) mid qs rest
      → Reads
          (loop add_suffix (next_suffix (recursion_guard n)))
          (print_suffixes ps mid)
          (append ps qs)
          rest
  unfolding takes print_expression FitsExpression recursion_guard parse_expression append
      starts_suffix get_binary_operator get_unary_operator discriminant simple_from
      print_parameter_list statement_from suffixed_of
  suffixes-Reads no_suffixes fits h = h
  suffixes-Reads (add_suffix p ps) (fp, fps) h = part-Reads p fp (suffixes-Reads ps fps h)

  pub simple-Reads :
      (e : SimpleExpression F S) (rest : List (Token F S))
      → FitsSimple n e
      → starts_suffix (head_of rest) ≡ false
      → Reads (head (takes n)) (print_simple e rest) (simple e) rest
  unfolding takes print_expression FitsExpression recursion_guard parse_expression append
      starts_suffix get_binary_operator get_unary_operator discriminant simple_from
      print_parameter_list statement_from suffixed_of
  simple-Reads (Syntax.float f) rest fits h = float-Reads (takes n) f rest
  simple-Reads (Syntax.integer i) rest fits h = integer-Reads (takes n) i rest
  simple-Reads (Syntax.string s) rest fits h = string-Reads (takes n) s rest
  simple-Reads nil rest fits h = word-Reads (takes n) rest refl (λ s. refl)
  simple-Reads true_value rest fits h = word-Reads (takes n) rest refl (λ s. refl)
  simple-Reads false_value rest fits h = word-Reads (takes n) rest refl (λ s. refl)
  simple-Reads var_args rest fits h = word-Reads (takes n) rest refl (λ s. refl)
  simple-Reads (table_constructor fields) rest fits h =
      table_head-Reads (takes n) (table-Reads (takes n) (fields-Reads reads fields rest fits))
  simple-Reads (function d) rest fits h =
      function_head-Reads (takes n) (function_definition-Reads reads d rest fits)
  simple-Reads (suffixed (suffixed_expression (Syntax.name s) ps)) rest (fp, fs) h =
      suffixed_head-Reads (takes n) refl (λ s. refl)
        (whole-Reads n (Syntax.name s) ps rest (name-Reads (takes n) s _)
          (suffixes-Reads ps fs (no_suffix-Reads (takes n) rest h)))
  simple-Reads (suffixed (suffixed_expression (grouped_expression e) ps)) rest (fp, fs) h =
      suffixed_head-Reads (takes n) refl (λ s. refl)
        (whole-Reads n (grouped_expression e) ps rest
          (grouped-Reads (takes n)
            (reads.expression-Reads 0 e _ (omega arith) fp (follows refl tt)))
          (suffixes-Reads ps fs (no_suffix-Reads (takes n) rest h)))

  pub head-Reads :
      (limit : ℕ) (h : HeadExpression F S) (t : Tail F S) (rest : List (Token F S))
      → limit ≤ 13
      → FitsHead n h t
      → Follows limit rest
      → Reads (head (takes n)) (print_head h (print_tail t rest)) h (print_tail t rest)
  unfolding takes print_expression FitsExpression recursion_guard parse_expression append
      starts_suffix get_binary_operator get_unary_operator discriminant simple_from
      print_parameter_list statement_from suffixed_of
  head-Reads limit (unary_operator op e) t rest le (below, fe) fol = unary-Reads (takes n) (
      reads.expression-Reads unary_priority e (print_tail t rest) (omega arith) fe
        (Follows-unary t le below fol))
  head-Reads limit (simple e) t rest le fits fol =
      simple-Reads e (print_tail t rest) fits (tail-no_suffix t rest fol.no_suffix)

  pub tail-Reads :
      (limit : ℕ) (t : Tail F S) (rest : List (Token F S))
      → FitsTail n limit t
      → Follows limit rest
      → Reads
          (loop push_operand (next_operand (recursion_guard n) limit))
          (print_tail t rest)
          t
          rest
  unfolding takes print_expression FitsExpression recursion_guard parse_expression append
      starts_suffix get_binary_operator get_unary_operator discriminant simple_from
      print_parameter_list statement_from suffixed_of
  tail-Reads limit no_tail rest fits fol = no_operand-Reads (takes n) fol
  tail-Reads limit (add_operand op e t) rest (lt, below, fe, ft) fol =
      operand-Reads (takes n) lt
        (reads.expression-Reads (binary_priority op).1 e (print_tail t rest) (right_bound op) fe
          (Follows-operand op t lt below fol))
        (tail-Reads limit t rest ft fol)

  pub expression-Reads :
      (limit : ℕ) (e : Expression F S) (rest : List (Token F S))
      → limit ≤ 13
      → FitsExpression (suc n) limit e
      → Follows limit rest
      → Reads
          ((recursion_guard (suc n)).parse_sub_expression limit)
          (print_expression e rest)
          e
          rest
  unfolding takes print_expression FitsExpression recursion_guard parse_expression append
      starts_suffix get_binary_operator get_unary_operator discriminant simple_from
      print_parameter_list statement_from suffixed_of
  expression-Reads limit (expression h t) rest le (fh, ft) fol =
      sub_expression-Reads (takes n) limit (head-Reads limit h t rest le fh fol)
        (tail-Reads limit t rest ft fol)
