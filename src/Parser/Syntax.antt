-- ===== src/Parser/Syntax.antt =====
-- src/parser.rs: the syntax tree. `F` is the type of floats and `S` that of strings; an integer is its
-- bit pattern. A struct that stands in one variant alone is that variant's fields, and a `Vec` or an
-- `Option` of trees is a type of its own, since the types are recursive through them.
use luster.Prelude.{ℕ, Bool, List}
use luster.Operators.{BinaryOperator, UnaryOperator}

module _ (F S : Type 0) where
  mutual
    -- `statements` and `return_statement`
    pub data Block : Type 0 where
      block : Statements → ReturnStatement → Block

    pub data Statements : Type 0 where
      no_statements : Statements
      add_statement : Statement → Statements → Statements

    -- `Option<ReturnStatement<S>>`
    pub data ReturnStatement : Type 0 where
      no_return : ReturnStatement
      returns : Expressions → ReturnStatement

    pub data Statement : Type 0 where
      if_statement : Expression → Block → ElseIfParts → ElsePart → Statement
      while_statement : Expression → Block → Statement
      do_statement : Block → Statement
      for_statement : ForStatement → Statement
      repeat_statement : Block → Expression → Statement
      function_statement : S → List S → OptionName → FunctionDefinition → Statement
      local_function : S → FunctionDefinition → Statement
      local_statement : List S → Expressions → Statement
      label_statement : S → Statement
      break_statement : Statement
      goto_statement : S → Statement
      function_call : SuffixedExpression → CallSuffix → Statement
      assignment : Targets → Expressions → Statement

    -- `Option<S>`, the method of a function statement
    pub data OptionName : Type 0 where
      no_method : OptionName
      method : S → OptionName

    -- `Vec<(Expression<S>, Block<S>)>`
    pub data ElseIfParts : Type 0 where
      no_else_ifs : ElseIfParts
      add_else_if : Expression → Block → ElseIfParts → ElseIfParts

    -- `Option<Block<S>>`
    pub data ElsePart : Type 0 where
      no_else : ElsePart
      else_part : Block → ElsePart

    pub data ForStatement : Type 0 where
      numeric : S → Expression → Expression → Step → Block → ForStatement
      generic : List S → Expressions → Block → ForStatement

    -- `Option<Expression<S>>`, the step of a numeric loop
    pub data Step : Type 0 where
      no_step : Step
      step : Expression → Step

    -- `head` and `tail`
    pub data Expression : Type 0 where
      expression : HeadExpression → Tail → Expression

    -- `Vec<(BinaryOperator, Expression<S>)>`
    pub data Tail : Type 0 where
      no_tail : Tail
      add_operand : BinaryOperator → Expression → Tail → Tail

    pub data HeadExpression : Type 0 where
      simple : SimpleExpression → HeadExpression
      unary_operator : UnaryOperator → Expression → HeadExpression

    pub data Expressions : Type 0 where
      no_expressions : Expressions
      add_expression : Expression → Expressions → Expressions

    pub data SimpleExpression : Type 0 where
      float : F → SimpleExpression
      integer : ℕ → SimpleExpression
      string : S → SimpleExpression
      nil true_value false_value var_args : SimpleExpression
      table_constructor : Fields → SimpleExpression
      function : FunctionDefinition → SimpleExpression
      suffixed : SuffixedExpression → SimpleExpression

    pub data PrimaryExpression : Type 0 where
      name : S → PrimaryExpression
      grouped_expression : Expression → PrimaryExpression

    pub data FieldSuffix : Type 0 where
      named : S → FieldSuffix
      indexed : Expression → FieldSuffix

    pub data CallSuffix : Type 0 where
      method_call : S → Expressions → CallSuffix
      function_suffix : Expressions → CallSuffix

    pub data SuffixPart : Type 0 where
      field : FieldSuffix → SuffixPart
      call : CallSuffix → SuffixPart

    pub data Suffixes : Type 0 where
      no_suffixes : Suffixes
      add_suffix : SuffixPart → Suffixes → Suffixes

    -- `primary` and `suffixes`
    pub data SuffixedExpression : Type 0 where
      suffixed_expression : PrimaryExpression → Suffixes → SuffixedExpression

    -- `parameters`, `has_varargs` and `body`
    pub data FunctionDefinition : Type 0 where
      function_definition : List S → Bool → Block → FunctionDefinition

    pub data AssignmentTarget : Type 0 where
      name_target : S → AssignmentTarget
      field_target : SuffixedExpression → FieldSuffix → AssignmentTarget

    pub data Targets : Type 0 where
      no_targets : Targets
      add_target : AssignmentTarget → Targets → Targets

    -- the fields of a `TableConstructor`
    pub data Fields : Type 0 where
      no_fields : Fields
      add_field : ConstructorField → Fields → Fields

    pub data ConstructorField : Type 0 where
      array : Expression → ConstructorField
      record_field : RecordKey → Expression → ConstructorField

    pub data RecordKey : Type 0 where
      named_key : S → RecordKey
      indexed_key : Expression → RecordKey

  pub record Chunk : Type 0 where
    pub block : Block
