-- ===== src/Parser/Print/SuffixSteps.antt =====
-- src/parser.rs: what the methods of suffixed expressions and operators read, from what the methods
-- that they call read.
use luster.Prelude.{◌≡◌, Bool, true, false, List, [], ◌∷◌}
use luster.Lexer.Tokens.{Token}
use luster.Parser.Syntax
use luster.Parser.Syntax.{
  Expression, Tail, HeadExpression, Expressions, SimpleExpression, PrimaryExpression, FieldSuffix,
  CallSuffix, SuffixPart, Suffixes, SuffixedExpression, FunctionDefinition, Fields, expression,
  no_tail, add_operand, simple, unary_operator, no_expressions, add_expression, nil, true_value,
  false_value, var_args, table_constructor, function, suffixed, grouped_expression, named, indexed,
  method_call, function_suffix, field, call, no_suffixes, add_suffix, suffixed_expression,
}
use luster.Parser.Stream.{and_then, discriminant, loop, take_next}
use luster.Parser.Expressions.{
  Guarded, parse_expression, parse_expression_list, parse_parameters, push_parameter, parameter,
  after_parameter,
}
use luster.Parser.Suffixes.{
  primary_from, parse_primary_expression, field_suffix_from, parse_field_suffix, arguments_from,
  parse_call_suffix, suffix_from, parse_suffix_part, starts_suffix, next_suffix,
  parse_suffixed_expression,
}
use luster.Parser.Takes.{TakesRound, reading, taking_round, take_next-Takes}
use luster.Parser.Takes.Expressions.{GuardedTakes, parameter-Takes, after_parameter-Takes}
use luster.Parser.Takes.Suffixes.{next_suffix-Takes}
use luster.Parser.Print.{print_parameters}
use luster.Parser.Print.Streams.{head_of, reads, get_next-head}
use luster.Parser.Print.Beginnings.{Begins}
use luster.Parser.Print.ExpressionSteps.{Reads, break-Reads, push-Reads}

module _ {F S : Type 0} where
  parameter_round-Takes :
      TakesRound {F = F} {S = S}
        λ s. and_then (take_next s) λ t s'. and_then (parameter t s') after_parameter
  parameter_round-Takes =
      taking_round take_next-Takes λ t. reading (parameter-Takes t) λ n. after_parameter-Takes n

  pub parameters-Reads :
      (n : S) (ns : List S) (b : Bool) (rest : List (Token F S))
      → Reads parse_parameters
          (Token.name n ∷ print_parameters ns b (Token.right_paren ∷ rest))
          (n ∷ ns, b)
          (Token.right_paren ∷ rest)
  unfolding parse_parameters print_parameters discriminant
  parameters-Reads n [] false rest = record { eq = (break-Reads push_parameter _ (simp reads)).eq }
  parameters-Reads n [] true rest = record {
    eq =
        (push-Reads push_parameter _ {mid = Token.dots ∷ Token.right_paren ∷ rest} {a = n}
          parameter_round-Takes (record { eq = (break-Reads push_parameter _ (simp reads)).eq })
          (simp reads)).eq;
  }
  parameters-Reads n (m ∷ ns) b rest = record {
    eq =
        (push-Reads push_parameter _
          {mid = Token.name m ∷ print_parameters ns b (Token.right_paren ∷ rest)} {a = n}
          parameter_round-Takes (record { eq = (parameters-Reads m ns b rest).eq })
          (simp reads)).eq;
  }

  pub dots-Reads :
      (rest : List (Token F S))
      → Reads parse_parameters
          (Token.dots ∷ Token.right_paren ∷ rest)
          ([], true)
          (Token.right_paren ∷ rest)
  unfolding parse_parameters
  dots-Reads rest = record { eq = (break-Reads push_parameter _ (simp reads)).eq }

module _ {F S : Type 0} {guarded : Guarded F S} (takes : GuardedTakes guarded) where
  pub name-Reads :
      (n : S) (rest : List (Token F S))
      → Reads (parse_primary_expression guarded) (Token.name n ∷ rest) (Syntax.name n) rest
  unfolding parse_primary_expression primary_from
  name-Reads n rest = record { eq = simp reads }

  pub grouped-Reads :
      {ts rest : List (Token F S)} {e : Expression F S}
      → Reads (parse_expression guarded) ts e (Token.right_paren ∷ rest)
      → Reads (parse_primary_expression guarded) (Token.left_paren ∷ ts) (grouped_expression e) rest
  unfolding parse_primary_expression primary_from
  grouped-Reads h = record { eq = simp (reads, h.eq) }

  pub named-Reads :
      (n : S) (rest : List (Token F S))
      → Reads (parse_field_suffix guarded) (Token.dot ∷ Token.name n ∷ rest) (named n) rest
  unfolding parse_field_suffix field_suffix_from
  named-Reads n rest = record { eq = simp reads }

  pub indexed-Reads :
      {ts rest : List (Token F S)} {e : Expression F S}
      → Reads (parse_expression guarded) ts e (Token.right_bracket ∷ rest)
      → Reads (parse_field_suffix guarded) (Token.left_bracket ∷ ts) (indexed e) rest
  unfolding parse_field_suffix field_suffix_from
  indexed-Reads h = record { eq = simp (reads, h.eq) }

  -- The arguments of a call, with the bracket that opens them.
  pub no_arguments-Reads :
      (rest : List (Token F S))
      → Reads
          (arguments_from guarded Token.left_paren)
          (Token.left_paren ∷ Token.right_paren ∷ rest)
          no_expressions
          rest
  unfolding arguments_from discriminant
  no_arguments-Reads rest = record { eq = simp reads }

  pub arguments-Reads :
      {ts rest : List (Token F S)} {es : Expressions F S}
      → Begins ts
      → Reads (parse_expression_list guarded) ts es (Token.right_paren ∷ rest)
      → Reads (arguments_from guarded Token.left_paren) (Token.left_paren ∷ ts) es rest
  unfolding arguments_from
  arguments-Reads {ts} b h = record {
    eq = simp (reads, get_next-head ts b.begin, b.no_right_paren, h.eq);
  }

  pub method_call-Reads :
      {n : S} {ts rest : List (Token F S)} {es : Expressions F S}
      → Reads (arguments_from guarded Token.left_paren) (Token.left_paren ∷ ts) es rest
      → Reads
          (parse_call_suffix guarded)
          (Token.colon ∷ Token.name n ∷ Token.left_paren ∷ ts)
          (method_call n es)
          rest
  unfolding parse_call_suffix
  method_call-Reads h = record { eq = simp (reads, h.eq) }

  pub call-Reads :
      {ts rest : List (Token F S)} {es : Expressions F S}
      → Reads (arguments_from guarded Token.left_paren) (Token.left_paren ∷ ts) es rest
      → Reads (parse_call_suffix guarded) (Token.left_paren ∷ ts) (function_suffix es) rest
  unfolding parse_call_suffix
  call-Reads h = record { eq = simp (reads, h.eq) }

  pub no_suffix-Reads :
      (rest : List (Token F S))
      → starts_suffix (head_of rest) ≡ false
      → Reads (loop add_suffix (next_suffix guarded)) rest no_suffixes rest
  unfolding next_suffix
  no_suffix-Reads rest h = break-Reads _ _ (simp (reads, h))

  pub dot-Reads :
      {ts mid rest : List (Token F S)} {f : FieldSuffix F S} {parts : Suffixes F S}
      → Reads (parse_field_suffix guarded) (Token.dot ∷ ts) f mid
      → Reads (loop add_suffix (next_suffix guarded)) mid parts rest
      → Reads
          (loop add_suffix (next_suffix guarded))
          (Token.dot ∷ ts)
          (add_suffix (field f) parts)
          rest
  unfolding next_suffix starts_suffix parse_suffix_part suffix_from
  dot-Reads h k = push-Reads _ _ (next_suffix-Takes takes) k (simp (reads, h.eq))

  pub bracket-Reads :
      {ts mid rest : List (Token F S)} {f : FieldSuffix F S} {parts : Suffixes F S}
      → Reads (parse_field_suffix guarded) (Token.left_bracket ∷ ts) f mid
      → Reads (loop add_suffix (next_suffix guarded)) mid parts rest
      → Reads
          (loop add_suffix (next_suffix guarded))
          (Token.left_bracket ∷ ts)
          (add_suffix (field f) parts)
          rest
  unfolding next_suffix starts_suffix parse_suffix_part suffix_from
  bracket-Reads h k = push-Reads _ _ (next_suffix-Takes takes) k (simp (reads, h.eq))

  pub colon-Reads :
      {ts mid rest : List (Token F S)} {c : CallSuffix F S} {parts : Suffixes F S}
      → Reads (parse_call_suffix guarded) (Token.colon ∷ ts) c mid
      → Reads (loop add_suffix (next_suffix guarded)) mid parts rest
      → Reads
          (loop add_suffix (next_suffix guarded))
          (Token.colon ∷ ts)
          (add_suffix (call c) parts)
          rest
  unfolding next_suffix starts_suffix parse_suffix_part suffix_from
  colon-Reads h k = push-Reads _ _ (next_suffix-Takes takes) k (simp (reads, h.eq))

  pub paren-Reads :
      {ts mid rest : List (Token F S)} {c : CallSuffix F S} {parts : Suffixes F S}
      → Reads (parse_call_suffix guarded) (Token.left_paren ∷ ts) c mid
      → Reads (loop add_suffix (next_suffix guarded)) mid parts rest
      → Reads
          (loop add_suffix (next_suffix guarded))
          (Token.left_paren ∷ ts)
          (add_suffix (call c) parts)
          rest
  unfolding next_suffix starts_suffix parse_suffix_part suffix_from
  paren-Reads h k = push-Reads _ _ (next_suffix-Takes takes) k (simp (reads, h.eq))

  pub suffixed-Reads :
      {ts mid rest : List (Token F S)} {p : PrimaryExpression F S} {parts : Suffixes F S}
      → Reads (parse_primary_expression guarded) ts p mid
      → Reads (loop add_suffix (next_suffix guarded)) mid parts rest
      → Reads (parse_suffixed_expression guarded) ts (suffixed_expression p parts) rest
  unfolding parse_suffixed_expression
  suffixed-Reads h k = record { eq = simp (h.eq, k.eq) }
