-- ===== src/Parser/Print.antt =====
-- The tokens of a syntax tree, in front of others: the reference for src/parser.rs. Every statement
-- and a `return` end in a semicolon, and the arguments of a call stand in parentheses.
use luster.Prelude.{ℕ, Bool, true, false, List, [], ◌∷◌}
use luster.Operators.{BinaryOperator, UnaryOperator}
use luster.Lexer.Tokens.{Token}
use luster.Parser.Syntax
use luster.Parser.Syntax.{
  Block, Statements, ReturnStatement, Statement, OptionName, ElseIfParts, ElsePart, ForStatement,
  Step, Expression, Tail, HeadExpression, Expressions, SimpleExpression, PrimaryExpression,
  FieldSuffix, CallSuffix, SuffixPart, Suffixes, SuffixedExpression, FunctionDefinition,
  AssignmentTarget, Targets, Fields, ConstructorField, RecordKey, block, no_statements,
  add_statement, no_return, returns, if_statement, while_statement, do_statement, for_statement,
  repeat_statement, function_statement, local_function, local_statement, label_statement,
  break_statement, goto_statement, function_call, assignment, no_method, method, no_else_ifs,
  add_else_if, no_else, else_part, numeric, generic, no_step, step, expression, no_tail,
  add_operand, simple, unary_operator, no_expressions, add_expression, nil, true_value, false_value,
  var_args, table_constructor, function, suffixed, grouped_expression, named, indexed, method_call,
  function_suffix, field, call, no_suffixes, add_suffix, suffixed_expression, function_definition,
  name_target, field_target, no_targets, add_target, no_fields, add_field, array, record_field,
  named_key, indexed_key,
}
pub mod Streams
pub mod Fits
pub mod Beginnings
pub mod ExpressionSteps
pub mod SuffixSteps
pub mod HeadSteps
pub mod StatementSteps
pub mod AssignmentSteps
pub mod Firsts
pub mod RoundTrip

module _ {F S : Type 0} where
  unfoldable pub unary_token : UnaryOperator → Token F S
  unary_token UnaryOperator.not_op = Token.not_token
  unary_token UnaryOperator.minus = Token.minus
  unary_token UnaryOperator.bit_not = Token.bit_not_xor
  unary_token UnaryOperator.len = Token.len

  unfoldable pub binary_token : BinaryOperator → Token F S
  binary_token BinaryOperator.add = Token.add
  binary_token BinaryOperator.sub = Token.minus
  binary_token BinaryOperator.mul = Token.mul
  binary_token BinaryOperator.mod_op = Token.modulo
  binary_token BinaryOperator.pow = Token.pow
  binary_token BinaryOperator.div = Token.div
  binary_token BinaryOperator.idiv = Token.idiv
  binary_token BinaryOperator.bit_and = Token.bit_and
  binary_token BinaryOperator.bit_or = Token.bit_or
  binary_token BinaryOperator.bit_xor = Token.bit_not_xor
  binary_token BinaryOperator.shift_left = Token.shift_left
  binary_token BinaryOperator.shift_right = Token.shift_right
  binary_token BinaryOperator.concat = Token.concat
  binary_token BinaryOperator.not_equal = Token.not_equal
  binary_token BinaryOperator.equal = Token.equal
  binary_token BinaryOperator.less_than = Token.less_than
  binary_token BinaryOperator.less_equal = Token.less_equal
  binary_token BinaryOperator.greater_than = Token.greater_than
  binary_token BinaryOperator.greater_equal = Token.greater_equal
  binary_token BinaryOperator.and = Token.and_token
  binary_token BinaryOperator.or = Token.or_token

  -- Names behind a first one.
  unfoldable pub print_names : List S → List (Token F S) → List (Token F S)
  print_names [] ts = ts
  print_names (n ∷ ns) ts = Token.comma ∷ Token.name n ∷ print_names ns ts

  unfoldable pub print_fields_of : List S → List (Token F S) → List (Token F S)
  print_fields_of [] ts = ts
  print_fields_of (n ∷ ns) ts = Token.dot ∷ Token.name n ∷ print_fields_of ns ts

  unfoldable pub print_method : OptionName F S → List (Token F S) → List (Token F S)
  print_method no_method ts = ts
  print_method (method n) ts = Token.colon ∷ Token.name n ∷ ts

  -- The parameters behind a first one.
  unfoldable pub print_parameters : List S → Bool → List (Token F S) → List (Token F S)
  print_parameters [] false ts = ts
  print_parameters [] true ts = Token.comma ∷ Token.dots ∷ ts
  print_parameters (n ∷ ns) b ts = Token.comma ∷ Token.name n ∷ print_parameters ns b ts

  unfoldable pub print_parameter_list : List S → Bool → List (Token F S) → List (Token F S)
  unfolding print_parameters
  print_parameter_list [] false ts = ts
  print_parameter_list [] true ts = Token.dots ∷ ts
  print_parameter_list (n ∷ ns) b ts = Token.name n ∷ print_parameters ns b ts

  unfoldable mutual
    pub print_block : Block F S → List (Token F S) → List (Token F S)
    print_block (block sts r) ts = print_statements sts (print_return r ts)

    pub print_statements : Statements F S → List (Token F S) → List (Token F S)
    print_statements no_statements ts = ts
    print_statements (add_statement st sts) ts =
        print_statement st (Token.semi_colon ∷ print_statements sts ts)

    pub print_return : ReturnStatement F S → List (Token F S) → List (Token F S)
    print_return no_return ts = ts
    print_return (returns es) ts = Token.return_token ∷ print_expressions es (Token.semi_colon ∷ ts)

    pub print_statement : Statement F S → List (Token F S) → List (Token F S)
    print_statement (if_statement e b parts otherwise) ts =
        Token.if_token
        ∷ print_expression e (
            Token.then_token
            ∷ print_block b (print_else_ifs parts (print_else otherwise (Token.end_token ∷ ts))))
    print_statement (while_statement e b) ts =
        Token.while_token
        ∷ print_expression e (Token.do_token ∷ print_block b (Token.end_token ∷ ts))
    print_statement (do_statement b) ts = Token.do_token ∷ print_block b (Token.end_token ∷ ts)
    print_statement (for_statement f) ts = Token.for_token ∷ print_for f ts
    print_statement (repeat_statement b e) ts =
        Token.repeat_token ∷ print_block b (Token.until_token ∷ print_expression e ts)
    print_statement (function_statement n fields m d) ts =
        Token.function_token
        ∷ Token.name n
        ∷ print_fields_of fields (print_method m (print_function d ts))
    print_statement (local_function n d) ts =
        Token.local_token ∷ Token.function_token ∷ Token.name n ∷ print_function d ts
    print_statement (local_statement [] es) ts = ts
    print_statement (local_statement (n ∷ ns) es) ts =
        Token.local_token ∷ Token.name n ∷ print_names ns (print_values es ts)
    print_statement (label_statement n) ts =
        Token.double_colon ∷ Token.name n ∷ Token.double_colon ∷ ts
    print_statement break_statement ts = Token.break_token ∷ ts
    print_statement (goto_statement n) ts = Token.goto_token ∷ Token.name n ∷ ts
    print_statement (function_call e c) ts = print_suffixed e (print_call c ts)
    print_statement (assignment no_targets es) ts = ts
    print_statement (assignment (add_target t others) es) ts =
        print_target t (print_targets others (Token.assign ∷ print_expressions es ts))

    -- The values of a local statement, which need not be there.
    pub print_values : Expressions F S → List (Token F S) → List (Token F S)
    print_values no_expressions ts = ts
    print_values (add_expression e es) ts = Token.assign ∷ print_expression e (print_more es ts)

    pub print_else_ifs : ElseIfParts F S → List (Token F S) → List (Token F S)
    print_else_ifs no_else_ifs ts = ts
    print_else_ifs (add_else_if e b parts) ts =
        Token.elseif_token
        ∷ print_expression e (Token.then_token ∷ print_block b (print_else_ifs parts ts))

    pub print_else : ElsePart F S → List (Token F S) → List (Token F S)
    print_else no_else ts = ts
    print_else (else_part b) ts = Token.else_token ∷ print_block b ts

    pub print_for : ForStatement F S → List (Token F S) → List (Token F S)
    print_for (numeric n initial limit by b) ts =
        Token.name n
        ∷ Token.assign
        ∷ print_expression initial (
            Token.comma
            ∷ print_expression limit
                (print_step by (Token.do_token ∷ print_block b (Token.end_token ∷ ts))))
    print_for (generic [] es b) ts = ts
    print_for (generic (n ∷ ns) es b) ts =
        Token.name n
        ∷ print_names ns (
            Token.in_token
            ∷ print_expressions es (Token.do_token ∷ print_block b (Token.end_token ∷ ts)))

    pub print_step : Step F S → List (Token F S) → List (Token F S)
    print_step no_step ts = ts
    print_step (step e) ts = Token.comma ∷ print_expression e ts

    pub print_expression : Expression F S → List (Token F S) → List (Token F S)
    print_expression (expression head tail) ts = print_head head (print_tail tail ts)

    pub print_tail : Tail F S → List (Token F S) → List (Token F S)
    print_tail no_tail ts = ts
    print_tail (add_operand op e tail) ts =
        binary_token op ∷ print_expression e (print_tail tail ts)

    pub print_head : HeadExpression F S → List (Token F S) → List (Token F S)
    print_head (simple e) ts = print_simple e ts
    print_head (unary_operator op e) ts = unary_token op ∷ print_expression e ts

    pub print_expressions : Expressions F S → List (Token F S) → List (Token F S)
    print_expressions no_expressions ts = ts
    print_expressions (add_expression e es) ts = print_expression e (print_more es ts)

    -- The expressions behind a first one.
    pub print_more : Expressions F S → List (Token F S) → List (Token F S)
    print_more no_expressions ts = ts
    print_more (add_expression e es) ts = Token.comma ∷ print_expression e (print_more es ts)

    pub print_simple : SimpleExpression F S → List (Token F S) → List (Token F S)
    print_simple (Syntax.float f) ts = Token.float f ∷ ts
    print_simple (Syntax.integer i) ts = Token.integer i ∷ ts
    print_simple (Syntax.string s) ts = Token.string s ∷ ts
    print_simple nil ts = Token.nil_token ∷ ts
    print_simple true_value ts = Token.true_token ∷ ts
    print_simple false_value ts = Token.false_token ∷ ts
    print_simple var_args ts = Token.dots ∷ ts
    print_simple (table_constructor fields) ts =
        Token.left_brace ∷ print_fields fields (Token.right_brace ∷ ts)
    print_simple (function d) ts = Token.function_token ∷ print_function d ts
    print_simple (suffixed e) ts = print_suffixed e ts

    pub print_primary : PrimaryExpression F S → List (Token F S) → List (Token F S)
    print_primary (Syntax.name n) ts = Token.name n ∷ ts
    print_primary (grouped_expression e) ts =
        Token.left_paren ∷ print_expression e (Token.right_paren ∷ ts)

    pub print_field_suffix : FieldSuffix F S → List (Token F S) → List (Token F S)
    print_field_suffix (named n) ts = Token.dot ∷ Token.name n ∷ ts
    print_field_suffix (indexed e) ts =
        Token.left_bracket ∷ print_expression e (Token.right_bracket ∷ ts)

    pub print_call : CallSuffix F S → List (Token F S) → List (Token F S)
    print_call (method_call n es) ts =
        Token.colon
        ∷ Token.name n
        ∷ Token.left_paren
        ∷ print_expressions es (Token.right_paren ∷ ts)
    print_call (function_suffix es) ts =
        Token.left_paren ∷ print_expressions es (Token.right_paren ∷ ts)

    pub print_part : SuffixPart F S → List (Token F S) → List (Token F S)
    print_part (field f) ts = print_field_suffix f ts
    print_part (call c) ts = print_call c ts

    pub print_suffixes : Suffixes F S → List (Token F S) → List (Token F S)
    print_suffixes no_suffixes ts = ts
    print_suffixes (add_suffix part parts) ts = print_part part (print_suffixes parts ts)

    pub print_suffixed : SuffixedExpression F S → List (Token F S) → List (Token F S)
    print_suffixed (suffixed_expression p parts) ts = print_primary p (print_suffixes parts ts)

    pub print_function : FunctionDefinition F S → List (Token F S) → List (Token F S)
    print_function (function_definition ps b body) ts =
        Token.left_paren
        ∷ print_parameter_list ps b (Token.right_paren ∷ print_block body (Token.end_token ∷ ts))

    pub print_target : AssignmentTarget F S → List (Token F S) → List (Token F S)
    print_target (name_target n) ts = Token.name n ∷ ts
    print_target (field_target e f) ts = print_suffixed e (print_field_suffix f ts)

    -- The others behind a first one.
    pub print_targets : Targets F S → List (Token F S) → List (Token F S)
    print_targets no_targets ts = ts
    print_targets (add_target t others) ts = Token.comma ∷ print_target t (print_targets others ts)

    pub print_fields : Fields F S → List (Token F S) → List (Token F S)
    print_fields no_fields ts = ts
    print_fields (add_field c fields) ts = print_field c (Token.comma ∷ print_fields fields ts)

    pub print_field : ConstructorField F S → List (Token F S) → List (Token F S)
    print_field (array e) ts = print_expression e ts
    print_field (record_field k e) ts = print_key k (Token.assign ∷ print_expression e ts)

    pub print_key : RecordKey F S → List (Token F S) → List (Token F S)
    print_key (named_key n) ts = Token.name n ∷ ts
    print_key (indexed_key e) ts =
        Token.left_bracket ∷ print_expression e (Token.right_bracket ∷ ts)
