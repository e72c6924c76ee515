-- ===== src/Parser/Print/RoundTrip/Ahead.antt =====
-- src/parser.rs: what stands behind and in front of the parts of a printed tree.
use luster.Prelude.{ℕ, zero, suc, ◌≤◌, ◌≡◌, refl, subst, true, false, ◌||◌, List, ◌∷◌}
use luster.Lexer.Tokens.{Token}
use luster.Parser.Syntax
use luster.Parser.Syntax.{
  Block, Statements, ReturnStatement, Statement, OptionName, ElseIfParts, ElsePart, ForStatement,
  Step, Expression, Tail, HeadExpression, Expressions, SimpleExpression, PrimaryExpression,
  FieldSuffix, CallSuffix, SuffixPart, Suffixes, SuffixedExpression, FunctionDefinition,
  AssignmentTarget, Targets, Fields, ConstructorField, RecordKey, block, no_statements,
  add_statement, no_return, returns, if_statement, while_statement, do_statement, for_statement,
  repeat_statement, function_statement, local_function, local_statement, label_statement,
  break_statement, goto_statement, function_call, assignment, no_method, method, no_else_ifs,
  add_else_if, no_else, else_part, numeric, generic, no_step, step, expression, no_tail,
  add_operand, simple, unary_operator, no_expressions, add_expression, nil, true_value, false_value,
  var_args, table_constructor, function, suffixed, grouped_expression, named, indexed, method_call,
  function_suffix, field, call, no_suffixes, add_suffix, suffixed_expression, function_definition,
  name_target, field_target, no_targets, add_target, no_fields, add_field, array, record_field,
  named_key, indexed_key,
}
use luster.Parser.Stream.{matches, discriminant, loop}
use luster.Parser.Priority.{get_binary_operator}
use luster.Parser.Expressions.{parse_function_definition}
use luster.Parser.Suffixes.{
  starts_suffix, operator_of, next_suffix, parse_primary_expression, parse_suffixed_expression,
}
use luster.Parser.Statements.{parse_expression_statement, parse_function_statement}
use luster.Parser.Chunk.{recursion_guard, statement_from, statement}
use luster.Parser.Takes.Expressions.{GuardedTakes}
use luster.Parser.Takes.Chunk.{recursion_guard-Takes}
use luster.Parser.Print.{
  print_expression, print_primary, print_function, print_statement, print_else_ifs, print_else,
  print_step, print_target, print_targets, print_fields_of, print_method,
}
use luster.Parser.Print.Streams.{head_of}
use luster.Parser.Print.Fits.{FitsStatement, FitsExpression, Guard}
use luster.Parser.Print.Beginnings.{Stops, Follows}
use luster.Parser.Print.ExpressionSteps.{
  Reads, BeginsStatement, EndsBlock, at_else, at_else_if, at_end_token,
}
use luster.Parser.Print.SuffixSteps.{suffixed-Reads}
use luster.Parser.Print.StatementSteps.{append, append-no_suffixes, function_statement-Reads}
use luster.Parser.Print.AssignmentSteps.{statement_from-Reads}
use luster.Parser.Print.Firsts.{print_statement-BeginsStatement}

-- What the methods rely on of those that take a guard, where `n` more can be taken.
pub record GuardedReads (F S : Type 0) (n : ℕ) : Type 0 where
  pub expression-Reads :
      (limit : ℕ) (e : Expression F S) (rest : List (Token F S))
      → limit ≤ 13
      → FitsExpression n limit e
      → Follows limit rest
      → Reads ((recursion_guard n).parse_sub_expression limit) (print_expression e rest) e rest
  pub statement-Reads :
      (st : Statement F S) (rest : List (Token F S))
      → Guard n (λ m. FitsStatement m st)
      → Reads
          (recursion_guard n).parse_statement
          (print_statement st (Token.semi_colon ∷ rest))
          st
          (Token.semi_colon ∷ rest)

module _ {F S : Type 0} where
  pub follows :
      {limit : ℕ} {rest : List (Token F S)}
      → starts_suffix (head_of rest) ≡ false
      → Stops limit (operator_of (head_of rest))
      → Follows limit rest
  follows p q = record { no_suffix = p; no_operator = q }

  unfoldable pub takes : (n : ℕ) → GuardedTakes (recursion_guard {F = F} {S = S} n)
  takes n = recursion_guard-Takes n

  pub whole-Reads :
      (n : ℕ) (p : PrimaryExpression F S) (ps : Suffixes F S) (rest : List (Token F S))
      {ts mid : List (Token F S)}
      → Reads (parse_primary_expression (recursion_guard n)) ts p mid
      → Reads (loop add_suffix (next_suffix (recursion_guard n))) mid (append ps no_suffixes) rest
      → Reads (parse_suffixed_expression (recursion_guard n)) ts (suffixed_expression p ps) rest
  whole-Reads n p ps rest {mid} h k = suffixed-Reads (takes n) h (
      subst (λ qs. Reads (loop add_suffix (next_suffix (recursion_guard n))) mid qs rest)
        (append-no_suffixes ps) k)

  -- What stands behind a part of a statement.
  pub else_ifs-Ends :
      (parts : ElseIfParts F S) (otherwise : ElsePart F S) (rest : List (Token F S))
      → EndsBlock (head_of (print_else_ifs parts (print_else otherwise (Token.end_token ∷ rest))))
  unfolding print_else_ifs
  else_ifs-Ends no_else_ifs no_else rest = at_end_token
  else_ifs-Ends no_else_ifs (else_part b) rest = at_else
  else_ifs-Ends (add_else_if e b parts) otherwise rest = at_else_if

  pub else-no_else_if :
      (otherwise : ElsePart F S) (rest : List (Token F S))
      → matches Token.elseif_token (head_of (print_else otherwise (Token.end_token ∷ rest))) ≡ false
  unfolding print_else discriminant
  else-no_else_if no_else rest = refl
  else-no_else_if (else_part b) rest = refl

  pub step-Follows :
      (by : Step F S) (rest : List (Token F S)) → Follows 0 (print_step by (Token.do_token ∷ rest))
  unfolding print_step starts_suffix get_binary_operator
  step-Follows no_step rest = follows refl tt
  step-Follows (step e) rest = follows refl tt

  pub targets-assign :
      (others : Targets F S) (rest : List (Token F S))
      → (matches Token.assign (head_of (print_targets others (Token.assign ∷ rest)))
          || matches Token.comma (head_of (print_targets others (Token.assign ∷ rest))))
        ≡ true
  unfolding print_targets discriminant
  targets-assign no_targets rest = refl
  targets-assign (add_target t others) rest = refl

  pub targets-no_suffix :
      (others : Targets F S) (rest : List (Token F S))
      → starts_suffix (head_of (print_targets others (Token.assign ∷ rest))) ≡ false
  unfolding print_targets starts_suffix
  targets-no_suffix no_targets rest = refl
  targets-no_suffix (add_target t others) rest = refl

  -- A statement that begins with an expression.
  pub primary_statement-Reads :
      (n : ℕ) (p : PrimaryExpression F S) (mid : List (Token F S)) {rest : List (Token F S)}
      {st : Statement F S}
      → Reads (parse_expression_statement (recursion_guard n)) (print_primary p mid) st rest
      → Reads (statement (recursion_guard n)) (print_primary p mid) st rest
  unfolding print_primary takes statement_from
  primary_statement-Reads n (Syntax.name s) mid h = statement_from-Reads (takes n) h
  primary_statement-Reads n (grouped_expression e) mid h = statement_from-Reads (takes n) h

  pub target_statement-Reads :
      (n : ℕ) (t : AssignmentTarget F S) (mid : List (Token F S)) {rest : List (Token F S)}
      {st : Statement F S}
      → Reads (parse_expression_statement (recursion_guard n)) (print_target t mid) st rest
      → Reads (statement (recursion_guard n)) (print_target t mid) st rest
  unfolding print_target takes statement_from
  target_statement-Reads n (name_target s) mid h = statement_from-Reads (takes n) h
  target_statement-Reads n (field_target (suffixed_expression p ps) f) mid h =
      primary_statement-Reads n p _ h

  pub function_of-Reads :
      (n : ℕ) {s : S} {ss : List S} {m : OptionName F S} (d : FunctionDefinition F S)
      (rest : List (Token F S))
      → Reads (parse_function_definition (recursion_guard n)) (print_function d rest) d rest
      → Reads
          (parse_function_statement (recursion_guard n))
          (Token.function_token
            ∷ Token.name s
            ∷ print_fields_of ss (print_method m (print_function d rest)))
          (function_statement s ss m d)
          rest
  unfolding print_function
  function_of-Reads n (function_definition ps b body) rest h = function_statement-Reads (takes n) h

  pub guarded-Begins :
      (n : ℕ) (st : Statement F S) (rest : List (Token F S))
      → Guard n (λ m. FitsStatement m st)
      → BeginsStatement (print_statement st rest)
  guarded-Begins zero st rest fits = elim fits [ ]
  guarded-Begins (suc n) st rest fits = print_statement-BeginsStatement n st rest fits
