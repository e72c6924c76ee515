-- ===== src/Parser/Print/RoundTrip/Statements.antt =====
-- src/parser.rs: printed statements are read back.
use luster.Prelude.{ℕ, ◌≡◌, refl, false, List, [], ◌∷◌, arith}
use luster.Lexer.Tokens.{Token}
use luster.Parser.Syntax.{
  Statement, ElseIfParts, ElsePart, ForStatement, Step, AssignmentTarget, Targets, if_statement,
  while_statement, do_statement, for_statement, repeat_statement, function_statement,
  local_function, local_statement, label_statement, break_statement, goto_statement, function_call,
  assignment, no_else_ifs, add_else_if, no_else, else_part, numeric, generic, no_step, step,
  no_expressions, add_expression, named, indexed, method_call, function_suffix, suffixed_expression,
  name_target, field_target, no_targets, add_target,
}
use luster.Parser.Stream.{discriminant, loop}
use luster.Parser.Priority.{get_binary_operator, get_unary_operator}
use luster.Parser.Expressions.{parse_expression}
use luster.Parser.Suffixes.{starts_suffix, parse_suffixed_expression, simple_from}
use luster.Parser.Statements.{
  next_else_if, push_else_if, parse_else_part, parse_step, next_target, parse_for_statement,
}
use luster.Parser.Chunk.{recursion_guard, statement_from, statement}
use luster.Parser.Print.{
  print_expression, print_statement, print_else_ifs, print_else, print_for, print_step,
  print_target, print_targets, print_parameter_list,
}
use luster.Parser.Print.Streams.{head_of}
use luster.Parser.Print.Fits.{
  FitsStatement, FitsElseIfs, FitsElse, FitsFor, FitsStep, FitsExpression, FitsTarget, FitsTargets,
}
use luster.Parser.Print.Beginnings.{Follows-print_more}
use luster.Parser.Print.ExpressionSteps.{Reads, at_end_token, at_until, expression_list-Reads}
use luster.Parser.Print.SuffixSteps.{
  name-Reads, named-Reads, indexed-Reads, method_call-Reads, call-Reads, no_suffix-Reads, dot-Reads,
  bracket-Reads, colon-Reads, paren-Reads, suffixed-Reads,
}
use luster.Parser.Print.StatementSteps.{
  append, suffixed_of, label-Reads, goto-Reads, local_function-Reads, no_else_if-Reads,
  else_if-Reads, no_else-Reads, else-Reads, if-Reads, while-Reads, repeat-Reads, no_step-Reads,
  step-Reads, numeric-Reads,
}
use luster.Parser.Print.AssignmentSteps.{
  generic-Reads, no_values-Reads, values-Reads, function_call-Reads, no_target-Reads, target-Reads,
  assignment-Reads, statement_from-Reads, do-Reads, for-Reads, break_statement-Reads,
  of_function-Reads, local-Reads,
}
use luster.Parser.Print.RoundTrip.Ahead.{
  GuardedReads, follows, takes, else_ifs-Ends, else-no_else_if, step-Follows, targets-assign,
  targets-no_suffix, primary_statement-Reads, target_statement-Reads, function_of-Reads,
}
use luster.Parser.Print.RoundTrip.Blocks.{
  more_of-Reads, arguments_of-Reads, block-Reads, function_definition-Reads,
}
use luster.Parser.Print.RoundTrip.Suffixes.{primary-Reads, suffixes-Reads}

module _ {F S : Type 0} {n : ℕ} (reads : GuardedReads F S n) where
  pub else_ifs-Reads :
      (parts : ElseIfParts F S) (otherwise : ElsePart F S) (rest : List (Token F S))
      → FitsElseIfs n parts
      → Reads
          (loop push_else_if (next_else_if (recursion_guard n)))
          (print_else_ifs parts (print_else otherwise (Token.end_token ∷ rest)))
          parts
          (print_else otherwise (Token.end_token ∷ rest))
  unfolding takes print_expression FitsExpression recursion_guard parse_expression append
      starts_suffix get_binary_operator get_unary_operator discriminant simple_from
      print_parameter_list statement_from suffixed_of
  else_ifs-Reads no_else_ifs otherwise rest fits =
      no_else_if-Reads (takes n) _ (else-no_else_if otherwise _)
  else_ifs-Reads (add_else_if e b parts) otherwise rest (fe, fb, fp) =
      else_if-Reads (takes n) (reads.expression-Reads 0 e _ (omega arith) fe (follows refl tt))
        (block-Reads reads b _ fb (else_ifs-Ends parts otherwise _))
        (else_ifs-Reads parts otherwise _ fp)

  pub else_of-Reads :
      (otherwise : ElsePart F S) (rest : List (Token F S))
      → FitsElse n otherwise
      → Reads
          (parse_else_part (recursion_guard n))
          (print_else otherwise (Token.end_token ∷ rest))
          otherwise
          (Token.end_token ∷ rest)
  unfolding takes print_expression FitsExpression recursion_guard parse_expression append
      starts_suffix get_binary_operator get_unary_operator discriminant simple_from
      print_parameter_list statement_from suffixed_of
  else_of-Reads no_else rest fits = no_else-Reads (takes n) _
  else_of-Reads (else_part b) rest fits =
      else-Reads (takes n) (block-Reads reads b _ fits at_end_token)

  pub step_of-Reads :
      (by : Step F S) (rest : List (Token F S))
      → FitsStep n by
      → Reads
          (parse_step (recursion_guard n))
          (print_step by (Token.do_token ∷ rest))
          by
          (Token.do_token ∷ rest)
  unfolding takes print_expression FitsExpression recursion_guard parse_expression append
      starts_suffix get_binary_operator get_unary_operator discriminant simple_from
      print_parameter_list statement_from suffixed_of
  step_of-Reads no_step rest fits = no_step-Reads (takes n) _
  step_of-Reads (step e) rest fits =
      step-Reads (takes n) (reads.expression-Reads 0 e _ (omega arith) fits (follows refl tt))

  pub for_of-Reads :
      (f : ForStatement F S) (rest : List (Token F S))
      → FitsFor n f
      → Reads (parse_for_statement (recursion_guard n)) (Token.for_token ∷ print_for f rest) f rest
  unfolding takes print_expression FitsExpression recursion_guard parse_expression append
      starts_suffix get_binary_operator get_unary_operator discriminant simple_from
      print_parameter_list statement_from suffixed_of
  for_of-Reads (numeric s initial limit by b) rest (fi, fl, fs, fb) =
      numeric-Reads (takes n)
        (reads.expression-Reads 0 initial _ (omega arith) fi (follows refl tt))
        (reads.expression-Reads 0 limit _ (omega arith) fl (step-Follows by _))
        (step_of-Reads by _ fs) (block-Reads reads b _ fb at_end_token)
  for_of-Reads (generic [] es b) rest fits = elim fits [ ]
  for_of-Reads (generic (s ∷ ss) no_expressions b) rest fits = elim fits [ ]
  for_of-Reads (generic (s ∷ ss) (add_expression e es) b) rest (fe, fes, fb) =
      generic-Reads (takes n) ss
        (expression_list-Reads (takes n)
          (reads.expression-Reads 0 e _ (omega arith) fe (Follows-print_more es (follows refl tt)))
          (more_of-Reads reads es _ fes (follows refl tt) refl))
        (block-Reads reads b _ fb at_end_token)

  pub target_of-Reads :
      (t : AssignmentTarget F S) (rest : List (Token F S))
      → FitsTarget n t
      → starts_suffix (head_of rest) ≡ false
      → Reads
          (parse_suffixed_expression (recursion_guard n))
          (print_target t rest)
          (suffixed_of t)
          rest
  unfolding takes print_expression FitsExpression recursion_guard parse_expression append
      starts_suffix get_binary_operator get_unary_operator discriminant simple_from
      print_parameter_list statement_from suffixed_of
  target_of-Reads (name_target s) rest fits h =
      suffixed-Reads (takes n) (name-Reads (takes n) s rest) (no_suffix-Reads (takes n) rest h)
  target_of-Reads (field_target (suffixed_expression p ps) (named s)) rest ((fp, fs), ff) h =
      suffixed-Reads (takes n) (primary-Reads reads p _ fp) (
        suffixes-Reads reads ps fs
          (dot-Reads (takes n) (named-Reads (takes n) s _) (no_suffix-Reads (takes n) rest h)))
  target_of-Reads (field_target (suffixed_expression p ps) (indexed e)) rest ((fp, fs), fe) h =
      suffixed-Reads (takes n) (primary-Reads reads p _ fp) (
        suffixes-Reads reads ps fs (
          bracket-Reads (takes n)
            (indexed-Reads (takes n)
              (reads.expression-Reads 0 e _ (omega arith) fe (follows refl tt)))
            (no_suffix-Reads (takes n) rest h)))

  -- The targets behind a first one.
  pub targets_of-Reads :
      (others : Targets F S) (rest : List (Token F S))
      → FitsTargets n others
      → Reads
          (loop add_target (next_target (recursion_guard n)))
          (print_targets others (Token.assign ∷ rest))
          others
          (Token.assign ∷ rest)
  unfolding takes print_expression FitsExpression recursion_guard parse_expression append
      starts_suffix get_binary_operator get_unary_operator discriminant simple_from
      print_parameter_list statement_from suffixed_of
  targets_of-Reads no_targets rest fits = no_target-Reads (takes n) rest
  targets_of-Reads (add_target t others) rest (ft, fo) =
      target-Reads (takes n) (target_of-Reads t _ ft (targets-no_suffix others _))
        (targets_of-Reads others rest fo)

  pub statement_of-Reads :
      (st : Statement F S) (rest : List (Token F S))
      → FitsStatement n st
      → Reads
          (statement (recursion_guard n))
          (print_statement st (Token.semi_colon ∷ rest))
          st
          (Token.semi_colon ∷ rest)
  unfolding takes print_expression FitsExpression recursion_guard parse_expression append
      starts_suffix get_binary_operator get_unary_operator discriminant simple_from
      print_parameter_list statement_from suffixed_of
  statement_of-Reads (if_statement e b parts otherwise) rest (fe, fb, fp, fo) =
      statement_from-Reads (takes n) (
        if-Reads (takes n) (reads.expression-Reads 0 e _ (omega arith) fe (follows refl tt))
          (block-Reads reads b _ fb (else_ifs-Ends parts otherwise _))
          (else_ifs-Reads parts otherwise _ fp) (else_of-Reads otherwise _ fo))
  statement_of-Reads (while_statement e b) rest (fe, fb) = statement_from-Reads (takes n) (
      while-Reads (takes n) (reads.expression-Reads 0 e _ (omega arith) fe (follows refl tt))
        (block-Reads reads b _ fb at_end_token))
  statement_of-Reads (do_statement b) rest fits =
      statement_from-Reads (takes n) (do-Reads (takes n) (block-Reads reads b _ fits at_end_token))
  statement_of-Reads (for_statement f) rest fits =
      statement_from-Reads (takes n) (for-Reads (takes n) (for_of-Reads f _ fits))
  statement_of-Reads (repeat_statement b e) rest (fb, fe) = statement_from-Reads (takes n) (
      repeat-Reads (takes n) (block-Reads reads b _ fb at_until)
        (reads.expression-Reads 0 e _ (omega arith) fe (follows refl tt)))
  statement_of-Reads (function_statement s ss m d) rest fits =
      statement_from-Reads (takes n)
        (function_of-Reads n d _ (function_definition-Reads reads d _ fits))
  statement_of-Reads (local_function s d) rest fits = statement_from-Reads (takes n) (
      of_function-Reads (takes n)
        (local_function-Reads (takes n) (function_definition-Reads reads d _ fits)))
  statement_of-Reads (local_statement [] es) rest fits = elim fits [ ]
  statement_of-Reads (local_statement (s ∷ ss) no_expressions) rest fits =
      statement_from-Reads (takes n) (local-Reads (takes n) (no_values-Reads (takes n) ss rest))
  statement_of-Reads (local_statement (s ∷ ss) (add_expression e es)) rest (fe, fes) =
      statement_from-Reads (takes n) (
        local-Reads (takes n) (
          values-Reads (takes n) ss (
            expression_list-Reads (takes n)
              (reads.expression-Reads 0 e _ (omega arith) fe
                (Follows-print_more es (follows refl tt)))
              (more_of-Reads reads es _ fes (follows refl tt) refl))))
  statement_of-Reads (label_statement s) rest fits =
      statement_from-Reads (takes n) (label-Reads s _)
  statement_of-Reads break_statement rest fits =
      statement_from-Reads (takes n) (break_statement-Reads (takes n) _)
  statement_of-Reads (goto_statement s) rest fits = statement_from-Reads (takes n) (goto-Reads s _)
  statement_of-Reads (function_call (suffixed_expression p ps) (method_call s es)) rest
        ((fp, fs), fc) =
      primary_statement-Reads n p _ (
        function_call-Reads (takes n) (
          suffixed-Reads (takes n) (primary-Reads reads p _ fp) (
            suffixes-Reads reads ps fs (
              colon-Reads (takes n) (method_call-Reads (takes n) (arguments_of-Reads reads es _ fc))
                (no_suffix-Reads (takes n) _ refl)))))
  statement_of-Reads (function_call (suffixed_expression p ps) (function_suffix es)) rest
        ((fp, fs), fc) =
      primary_statement-Reads n p _ (
        function_call-Reads (takes n) (
          suffixed-Reads (takes n) (primary-Reads reads p _ fp) (
            suffixes-Reads reads ps fs (
              paren-Reads (takes n) (call-Reads (takes n) (arguments_of-Reads reads es _ fc))
                (no_suffix-Reads (takes n) _ refl)))))
  statement_of-Reads (assignment no_targets es) rest fits = elim fits [ ]
  statement_of-Reads (assignment (add_target t others) no_expressions) rest fits = elim fits [ ]
  statement_of-Reads (assignment (add_target t others) (add_expression e es)) rest
        (ft, fo, fe, fes) =
      target_statement-Reads n t _ (
        assignment-Reads (takes n) (targets-assign others _)
          (target_of-Reads t _ ft (targets-no_suffix others _)) (targets_of-Reads others _ fo)
          (expression_list-Reads (takes n)
            (reads.expression-Reads 0 e _ (omega arith) fe
              (Follows-print_more es (follows refl tt)))
            (more_of-Reads reads es _ fes (follows refl tt) refl)))
