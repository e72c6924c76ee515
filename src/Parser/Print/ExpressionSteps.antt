-- ===== src/Parser/Print/ExpressionSteps.antt =====
-- src/parser.rs: what a method reads, from what the methods that it calls read. `Reads m ts a rest`
-- says that `m` gets `a` from the tokens `ts` and leaves `rest`.
use luster.Prelude.{◌≡◌, refl, Bool, false, Option, none, some, List, [], ◌∷◌}
use luster.Lexer.Tokens.{Token}
use luster.Parser.Syntax.{
  Block, Statement, ReturnStatement, Expression, Expressions, ConstructorField, Fields, block,
  no_statements, no_return, returns, no_expressions, add_expression, record_field, named_key,
  indexed_key, no_fields, add_field, function_definition,
}
use luster.Parser.Stream.{
  Stream, Method, ok, and_then, is_token, matches, discriminant, Round, push, break_with, loop,
  look_ahead, pure,
}
use luster.Parser.Expressions.{
  Guarded, parse_expression, next_expression, parse_expression_list, returns_nothing,
  parse_return_statement, push_statement, block_round, parse_block, parse_parameters,
  parse_function_definition, field_from, parse_constructor_field, after_field, next_field,
  parse_table_constructor,
}
use luster.Parser.Takes.{TakesRound, reading}
use luster.Parser.Takes.Expressions.{
  GuardedTakes, next_expression-Takes, block_round-Takes, next_field-Takes,
}
use luster.Parser.Takes.{look_ahead-Takes}
use luster.Parser.Rounds.{loop-break, loop-push}
use luster.Parser.Print.Streams.{stream, head_of, reads}
use luster.Parser.Print.Beginnings.{Begins}

module _ {F S : Type 0} where
  pub record Reads {A : Type 0} (m : Method F S A) (ts : List (Token F S)) (a : A)
      (rest : List (Token F S)) : Type 0 where
    pub eq : m (stream ts) ≡ ok a (stream rest)

  -- What ends a block.
  pub data EndsBlock : Option (Token F S) → Type 0 where
    at_stream_end : EndsBlock none
    at_else : EndsBlock (some Token.else_token)
    at_else_if : EndsBlock (some Token.elseif_token)
    at_end_token : EndsBlock (some Token.end_token)
    at_until : EndsBlock (some Token.until_token)

  -- What begins a statement.
  pub record BeginsStatement (ts : List (Token F S)) : Type 0 where
    pub first : Token F S
    pub begin : head_of ts ≡ some first
    pub is_statement :
        (guarded : Guarded F S) (s : Stream F S)
        → block_round guarded (some first) s
          ≡ and_then (guarded.parse_statement s) λ st. pure (push (some st))

  -- A loop, one round at a time.
  module _ {A L : Type 0} where
    pub break-Reads :
        (cons : A → L → L) (round : Method F S (Round A L)) {ts rest : List (Token F S)} {l : L}
        → round (stream ts) ≡ ok (break_with l) (stream rest)
        → Reads (loop cons round) ts l rest
    break-Reads cons round e = record { eq = loop-break cons round e }

    pub push-Reads :
        (cons : A → L → L) (round : Method F S (Round A L)) {ts mid rest : List (Token F S)} {a : A}
        {l : L}
        → TakesRound round
        → Reads (loop cons round) mid l rest
        → round (stream ts) ≡ ok (push a) (stream mid)
        → Reads (loop cons round) ts (cons a l) rest
    push-Reads cons round takes h e = record { eq = loop-push cons round takes e h.eq }

module _ {F S : Type 0} {guarded : Guarded F S} (takes : GuardedTakes guarded) where
  pub no_more-Reads :
      (rest : List (Token F S))
      → matches Token.comma (head_of rest) ≡ false
      → Reads (loop add_expression (next_expression guarded)) rest no_expressions rest
  unfolding next_expression
  no_more-Reads rest h = break-Reads _ _ (simp (reads, h))

  pub more-Reads :
      {ts mid rest : List (Token F S)} {e : Expression F S} {es : Expressions F S}
      → Reads (parse_expression guarded) ts e mid
      → Reads (loop add_expression (next_expression guarded)) mid es rest
      → Reads
          (loop add_expression (next_expression guarded))
          (Token.comma ∷ ts)
          (add_expression e es)
          rest
  unfolding next_expression discriminant
  more-Reads {ts} h k = push-Reads _ _ (next_expression-Takes takes) k (simp (reads, h.eq))

  pub expression_list-Reads :
      {ts mid rest : List (Token F S)} {e : Expression F S} {es : Expressions F S}
      → Reads (parse_expression guarded) ts e mid
      → Reads (loop add_expression (next_expression guarded)) mid es rest
      → Reads (parse_expression_list guarded) ts (add_expression e es) rest
  unfolding parse_expression_list
  expression_list-Reads h k = record { eq = rw h.eq (rw k.eq) }

  -- `return ;`
  pub return_nothing-Reads :
      (rest : List (Token F S))
      → Reads
          (parse_return_statement guarded)
          (Token.return_token ∷ Token.semi_colon ∷ rest)
          (returns no_expressions)
          rest
  unfolding parse_return_statement returns_nothing discriminant
  return_nothing-Reads rest = record { eq = simp reads }

  pub return-Reads :
      {ts rest : List (Token F S)} {es : Expressions F S}
      → Begins ts
      → Reads (parse_expression_list guarded) ts es (Token.semi_colon ∷ rest)
      → Reads (parse_return_statement guarded) (Token.return_token ∷ ts) (returns es) rest
  unfolding parse_return_statement discriminant
  return-Reads {ts} b h = record { eq = simp (reads, b.begin, b.returns_something, h.eq) }

  round-Takes : TakesRound (λ s. and_then (look_ahead 0 s) (block_round guarded))
  round-Takes = reading (look_ahead-Takes 0) λ t. block_round-Takes takes t

  EndsBlock-round :
      {t : Option (Token F S)} {s : Stream F S}
      → EndsBlock t
      → block_round guarded t s ≡ ok (break_with (block no_statements no_return)) s
  unfolding block_round
  EndsBlock-round at_stream_end = refl
  EndsBlock-round at_else = refl
  EndsBlock-round at_else_if = refl
  EndsBlock-round at_end_token = refl
  EndsBlock-round at_until = refl

  pub no_statement-Reads :
      (rest : List (Token F S))
      → EndsBlock (head_of rest)
      → Reads (parse_block guarded) rest (block no_statements no_return) rest
  unfolding parse_block
  no_statement-Reads rest h = record {
    eq = (break-Reads push_statement _ (simp (reads, EndsBlock-round h))).eq;
  }

  pub return_block-Reads :
      {ts rest : List (Token F S)} {r : ReturnStatement F S}
      → Reads (parse_return_statement guarded) (Token.return_token ∷ ts) r rest
      → Reads (parse_block guarded) (Token.return_token ∷ ts) (block no_statements r) rest
  unfolding parse_block block_round
  return_block-Reads h = record { eq = (break-Reads push_statement _ (simp (reads, h.eq))).eq }

  pub semi_colon-Reads :
      {ts rest : List (Token F S)} {b : Block F S}
      → Reads (parse_block guarded) ts b rest
      → Reads (parse_block guarded) (Token.semi_colon ∷ ts) b rest
  unfolding parse_block block_round
  semi_colon-Reads {ts} h = record {
    eq =
        (push-Reads push_statement _ {a = none} round-Takes (record { eq = h.eq }) (simp reads)).eq;
  }

  pub statement-Reads :
      {ts mid rest : List (Token F S)} {st : Statement F S} {b : Block F S}
      → BeginsStatement ts
      → Reads guarded.parse_statement ts st mid
      → Reads (parse_block guarded) mid b rest
      → Reads (parse_block guarded) ts (push_statement (some st) b) rest
  unfolding parse_block
  statement-Reads b h k = record {
    eq =
        (push-Reads push_statement _ {a = some _} round-Takes (record { eq = k.eq })
          (simp (reads, b.begin, b.is_statement guarded _, h.eq))).eq;
  }

  pub no_parameter-Reads :
      {ts rest : List (Token F S)} {b : Block F S}
      → Reads (parse_block guarded) ts b (Token.end_token ∷ rest)
      → Reads
          (parse_function_definition guarded)
          (Token.left_paren ∷ Token.right_paren ∷ ts)
          (function_definition [] false b)
          rest
  unfolding parse_function_definition discriminant
  no_parameter-Reads h = record { eq = simp (reads, h.eq) }

  pub function-Reads :
      {t : Token F S} {ts us rest : List (Token F S)} {ps : List S × Bool} {b : Block F S}
      → is_token t Token.right_paren ≡ false
      → Reads parse_parameters (t ∷ ts) ps (Token.right_paren ∷ us)
      → Reads (parse_block guarded) us b (Token.end_token ∷ rest)
      → Reads
          (parse_function_definition guarded)
          (Token.left_paren ∷ t ∷ ts)
          (function_definition ps.0 ps.1 b)
          rest
  unfolding parse_function_definition
  function-Reads e h k = record { eq = simp (reads, e, h.eq, k.eq) }

  pub named_field-Reads :
      {n : S} {ts rest : List (Token F S)} {e : Expression F S}
      → Reads (parse_expression guarded) ts e rest
      → Reads
          (parse_constructor_field guarded)
          (Token.name n ∷ Token.assign ∷ ts)
          (record_field (named_key n) e)
          rest
  unfolding parse_constructor_field field_from discriminant
  named_field-Reads h = record { eq = simp (reads, h.eq) }

  pub indexed_field-Reads :
      {ts us rest : List (Token F S)} {k e : Expression F S}
      → Reads (parse_expression guarded) ts k (Token.right_bracket ∷ Token.assign ∷ us)
      → Reads (parse_expression guarded) us e rest
      → Reads
          (parse_constructor_field guarded)
          (Token.left_bracket ∷ ts)
          (record_field (indexed_key k) e)
          rest
  unfolding parse_constructor_field field_from
  indexed_field-Reads h k = record { eq = simp (reads, h.eq, k.eq) }

  pub no_field-Reads :
      (rest : List (Token F S))
      → Reads
          (loop add_field (next_field guarded))
          (Token.right_brace ∷ rest)
          no_fields
          (Token.right_brace ∷ rest)
  unfolding next_field discriminant
  no_field-Reads rest = break-Reads _ _ (simp reads)

  pub field-Reads :
      {ts mid rest : List (Token F S)} {c : ConstructorField F S} {fields : Fields F S}
      → matches Token.right_brace (head_of ts) ≡ false
      → Reads (parse_constructor_field guarded) ts c (Token.comma ∷ mid)
      → Reads (loop add_field (next_field guarded)) mid fields rest
      → Reads (loop add_field (next_field guarded)) ts (add_field c fields) rest
  unfolding next_field after_field
  field-Reads e h k = push-Reads _ _ (next_field-Takes takes) k (simp (reads, e, h.eq))

  pub table-Reads :
      {ts rest : List (Token F S)} {fields : Fields F S}
      → Reads (loop add_field (next_field guarded)) ts fields (Token.right_brace ∷ rest)
      → Reads (parse_table_constructor guarded) (Token.left_brace ∷ ts) fields rest
  unfolding parse_table_constructor
  table-Reads h = record { eq = simp (reads, h.eq) }
