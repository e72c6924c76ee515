-- ===== src/Parser/Print/Fits.antt =====
-- src/parser.rs: the trees that are what their print parses to. `n` is the number of guards that may
-- still be taken, and a limit is that of the sub-expression.
use luster.Prelude.{ℕ, zero, suc, ◌≤◌, ◌<◌, [], ◌∷◌}
use luster.Parser.Syntax
use luster.Parser.Syntax.{
  Block, Statements, ReturnStatement, Statement, OptionName, ElseIfParts, ElsePart, ForStatement,
  Step, Expression, Tail, HeadExpression, Expressions, SimpleExpression, PrimaryExpression,
  FieldSuffix, CallSuffix, SuffixPart, Suffixes, SuffixedExpression, FunctionDefinition,
  AssignmentTarget, Targets, Fields, ConstructorField, RecordKey, block, no_statements,
  add_statement, no_return, returns, if_statement, while_statement, do_statement, for_statement,
  repeat_statement, function_statement, local_function, local_statement, label_statement,
  break_statement, goto_statement, function_call, assignment, no_method, method, no_else_ifs,
  add_else_if, no_else, else_part, numeric, generic, no_step, step, expression, no_tail,
  add_operand, simple, unary_operator, no_expressions, add_expression, nil, true_value, false_value,
  var_args, table_constructor, function, suffixed, grouped_expression, named, indexed, method_call,
  function_suffix, field, call, no_suffixes, add_suffix, suffixed_expression, function_definition,
  name_target, field_target, no_targets, add_target, no_fields, add_field, array, record_field,
  named_key, indexed_key,
}
use luster.Parser.Priority.{unary_priority, binary_priority}

-- A guard can be taken, and then the rest holds.
abbrev pub Guard : ℕ → (ℕ → Type 0) → Type 0
Guard zero P = ⊥
Guard (suc n) P = P n

module _ {F S : Type 0} where
  -- The operator behind an operand does not bind to it.
  unfoldable pub Below : ℕ → Tail F S → Type 0
  Below limit no_tail = Unit {0}
  Below limit (add_operand op e tail) = (binary_priority op).0 ≤ limit

  unfoldable mutual
    unfolding Below

    pub FitsBlock : ℕ → Block F S → Type 0
    FitsBlock n (block sts r) = FitsStatements n sts × FitsReturn n r

    pub FitsStatements : ℕ → Statements F S → Type 0
    FitsStatements n no_statements = Unit {0}
    FitsStatements n (add_statement st sts) =
        Guard n (λ m. FitsStatement m st) × FitsStatements n sts

    pub FitsReturn : ℕ → ReturnStatement F S → Type 0
    FitsReturn n no_return = Unit {0}
    FitsReturn n (returns es) = FitsExpressions n es

    -- There is a name or a target where the code reads one, and a generic loop has an argument.
    pub FitsStatement : ℕ → Statement F S → Type 0
    FitsStatement n (if_statement e b parts otherwise) =
        FitsExpression n 0 e × FitsBlock n b × FitsElseIfs n parts × FitsElse n otherwise
    FitsStatement n (while_statement e b) = FitsExpression n 0 e × FitsBlock n b
    FitsStatement n (do_statement b) = FitsBlock n b
    FitsStatement n (for_statement f) = FitsFor n f
    FitsStatement n (repeat_statement b e) = FitsBlock n b × FitsExpression n 0 e
    FitsStatement n (function_statement s fields m d) = FitsFunction n d
    FitsStatement n (local_function s d) = FitsFunction n d
    FitsStatement n (local_statement [] es) = ⊥
    FitsStatement n (local_statement (s ∷ ss) es) = FitsExpressions n es
    FitsStatement n (label_statement s) = Unit {0}
    FitsStatement n break_statement = Unit {0}
    FitsStatement n (goto_statement s) = Unit {0}
    FitsStatement n (function_call e c) = FitsSuffixed n e × FitsCall n c
    FitsStatement n (assignment no_targets es) = ⊥
    FitsStatement n (assignment (add_target t others) no_expressions) = ⊥
    FitsStatement n (assignment (add_target t others) (add_expression e es)) =
        FitsTarget n t × FitsTargets n others × FitsExpression n 0 e × FitsExpressions n es

    pub FitsElseIfs : ℕ → ElseIfParts F S → Type 0
    FitsElseIfs n no_else_ifs = Unit {0}
    FitsElseIfs n (add_else_if e b parts) =
        FitsExpression n 0 e × FitsBlock n b × FitsElseIfs n parts

    pub FitsElse : ℕ → ElsePart F S → Type 0
    FitsElse n no_else = Unit {0}
    FitsElse n (else_part b) = FitsBlock n b

    pub FitsFor : ℕ → ForStatement F S → Type 0
    FitsFor n (numeric s initial limit by b) =
        FitsExpression n 0 initial × FitsExpression n 0 limit × FitsStep n by × FitsBlock n b
    FitsFor n (generic [] es b) = ⊥
    FitsFor n (generic (s ∷ ss) no_expressions b) = ⊥
    FitsFor n (generic (s ∷ ss) (add_expression e es) b) =
        FitsExpression n 0 e × FitsExpressions n es × FitsBlock n b

    pub FitsStep : ℕ → Step F S → Type 0
    FitsStep n no_step = Unit {0}
    FitsStep n (step e) = FitsExpression n 0 e

    pub FitsExpression : ℕ → ℕ → Expression F S → Type 0
    FitsExpression n limit (expression head tail) =
        Guard n λ m. FitsHead m head tail × FitsTail m limit tail

    -- Every operator binds more tightly than the limit, and the next one does not bind to its operand.
    pub FitsTail : ℕ → ℕ → Tail F S → Type 0
    FitsTail n limit no_tail = Unit {0}
    FitsTail n limit (add_operand op e tail) =
        (limit < (binary_priority op).0)
        × Below (binary_priority op).1 tail
        × FitsExpression n (binary_priority op).1 e
        × FitsTail n limit tail

    pub FitsHead : ℕ → HeadExpression F S → Tail F S → Type 0
    FitsHead n (simple e) tail = FitsSimple n e
    FitsHead n (unary_operator op e) tail =
        Below unary_priority tail × FitsExpression n unary_priority e

    pub FitsExpressions : ℕ → Expressions F S → Type 0
    FitsExpressions n no_expressions = Unit {0}
    FitsExpressions n (add_expression e es) = FitsExpression n 0 e × FitsExpressions n es

    pub FitsSimple : ℕ → SimpleExpression F S → Type 0
    FitsSimple n (table_constructor fields) = FitsFields n fields
    FitsSimple n (function d) = FitsFunction n d
    FitsSimple n (suffixed e) = FitsSuffixed n e
    FitsSimple n _ = Unit {0}

    pub FitsPrimary : ℕ → PrimaryExpression F S → Type 0
    FitsPrimary n (Syntax.name s) = Unit {0}
    FitsPrimary n (grouped_expression e) = FitsExpression n 0 e

    pub FitsFieldSuffix : ℕ → FieldSuffix F S → Type 0
    FitsFieldSuffix n (named s) = Unit {0}
    FitsFieldSuffix n (indexed e) = FitsExpression n 0 e

    pub FitsCall : ℕ → CallSuffix F S → Type 0
    FitsCall n (method_call s es) = FitsExpressions n es
    FitsCall n (function_suffix es) = FitsExpressions n es

    pub FitsPart : ℕ → SuffixPart F S → Type 0
    FitsPart n (field f) = FitsFieldSuffix n f
    FitsPart n (call c) = FitsCall n c

    pub FitsSuffixes : ℕ → Suffixes F S → Type 0
    FitsSuffixes n no_suffixes = Unit {0}
    FitsSuffixes n (add_suffix part parts) = FitsPart n part × FitsSuffixes n parts

    pub FitsSuffixed : ℕ → SuffixedExpression F S → Type 0
    FitsSuffixed n (suffixed_expression p parts) = FitsPrimary n p × FitsSuffixes n parts

    pub FitsFunction : ℕ → FunctionDefinition F S → Type 0
    FitsFunction n (function_definition ps b body) = FitsBlock n body

    pub FitsTarget : ℕ → AssignmentTarget F S → Type 0
    FitsTarget n (name_target s) = Unit {0}
    FitsTarget n (field_target e f) = FitsSuffixed n e × FitsFieldSuffix n f

    pub FitsTargets : ℕ → Targets F S → Type 0
    FitsTargets n no_targets = Unit {0}
    FitsTargets n (add_target t others) = FitsTarget n t × FitsTargets n others

    pub FitsFields : ℕ → Fields F S → Type 0
    FitsFields n no_fields = Unit {0}
    FitsFields n (add_field c fields) = FitsField n c × FitsFields n fields

    pub FitsField : ℕ → ConstructorField F S → Type 0
    FitsField n (array e) = FitsExpression n 0 e
    FitsField n (record_field k e) = FitsKey n k × FitsExpression n 0 e

    pub FitsKey : ℕ → RecordKey F S → Type 0
    FitsKey n (named_key s) = Unit {0}
    FitsKey n (indexed_key e) = FitsExpression n 0 e
