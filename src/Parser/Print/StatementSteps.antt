-- ===== src/Parser/Print/StatementSteps.antt =====
-- src/parser.rs: what the methods of statements read, from what the methods that they call read.
use luster.Prelude.{◌≡◌, refl, ap, false, some, List, [], ◌∷◌}
use luster.Lexer.Tokens.{Token}
use luster.Parser.Syntax
use luster.Parser.Syntax.{
  Block, Statement, OptionName, ElseIfParts, ElsePart, ForStatement, Step, Expression, Expressions,
  FieldSuffix, CallSuffix, SuffixPart, Suffixes, SuffixedExpression, AssignmentTarget, Targets,
  PrimaryExpression, FunctionDefinition, if_statement, while_statement, do_statement, for_statement,
  repeat_statement, function_statement, local_function, local_statement, label_statement,
  break_statement, goto_statement, function_call, assignment, no_method, method, no_else_ifs,
  add_else_if, no_else, else_part, numeric, generic, no_step, step, no_expressions, field, call,
  no_suffixes, add_suffix, suffixed_expression, name_target, field_target, no_targets, add_target,
}
use luster.Parser.Stream.{
  Stream, Method, ok, and_then, matches, discriminant, Round, loop, look_ahead,
}
use luster.Parser.Expressions.{Guarded, parse_expression, parse_block, parse_function_definition}
use luster.Parser.Statements.{
  pop, next_name, primary_target, target, field_round, push_field, push_else_if, next_else_if,
  parse_else_part, parse_if_statement, parse_while_statement, parse_step, numeric_for, for_from,
  parse_for_statement, parse_repeat_statement, parse_function_statement,
  parse_local_function_statement,
}
use luster.Parser.Chunk.{parse_label_statement, parse_goto_statement}
use luster.Parser.Takes.{TakesRound, reading, look_ahead-Takes}
use luster.Parser.Takes.Expressions.{GuardedTakes}
use luster.Parser.Takes.Statements.{next_name-Takes, next_else_if-Takes, field_round-Takes}
use luster.Parser.Print.{print_names, print_fields_of, print_method}
use luster.Parser.Print.Streams.{head_of, reads}
use luster.Parser.Print.ExpressionSteps.{Reads, break-Reads, push-Reads}

module _ {F S : Type 0} where
  unfoldable pub append : Suffixes F S → Suffixes F S → Suffixes F S
  append no_suffixes qs = qs
  append (add_suffix p ps) qs = add_suffix p (append ps qs)

  pub append-no_suffixes : (ps : Suffixes F S) → append ps no_suffixes ≡ ps
  unfolding append
  append-no_suffixes no_suffixes = refl
  append-no_suffixes (add_suffix p ps) = ap (add_suffix p) (append-no_suffixes ps)

  -- The last suffix is popped.
  pub pop-append :
      (ps : Suffixes F S) (p : SuffixPart F S)
      → pop (append ps (add_suffix p no_suffixes)) ≡ some (ps, p)
  unfolding pop append
  pop-append no_suffixes p = refl
  pop-append (add_suffix q qs) p = rw (pop-append qs p)

  -- The expression that is read for a target.
  unfoldable pub suffixed_of : AssignmentTarget F S → SuffixedExpression F S
  suffixed_of (name_target n) = suffixed_expression (Syntax.name n) no_suffixes
  suffixed_of (field_target (suffixed_expression p ps) f) =
      suffixed_expression p (append ps (add_suffix (field f) no_suffixes))

  pub target-suffixed_of :
      (t : AssignmentTarget F S) (s : Stream F S) → target (suffixed_of t) s ≡ ok t s
  unfolding target suffixed_of pop primary_target
  target-suffixed_of (name_target n) s = refl
  target-suffixed_of (field_target (suffixed_expression p ps) f) s = rw (pop-append ps (field f))

  pub names-Reads :
      (ns : List S) (rest : List (Token F S))
      → matches Token.comma (head_of rest) ≡ false
      → Reads (loop ◌∷◌ next_name) (print_names ns rest) ns rest
  unfolding next_name print_names discriminant
  names-Reads [] rest h = break-Reads _ _ (simp (reads, h))
  names-Reads (n ∷ ns) rest h =
      push-Reads _ _ {a = n} next_name-Takes (names-Reads ns rest h) (simp reads)

  unfoldable fields_round : Method F S (Round S (List S × OptionName F S))
  fields_round s = and_then (look_ahead 0 s) field_round

  fields_round-Takes : TakesRound {F = F} {S = S} fields_round
  unfolding fields_round
  fields_round-Takes = reading (look_ahead-Takes 0) λ t. field_round-Takes t

  fields-Reads :
      (ns : List S) (m : OptionName F S) (rest : List (Token F S))
      → Reads
          (loop push_field fields_round)
          (print_fields_of ns (print_method m (Token.left_paren ∷ rest)))
          (ns, m)
          (Token.left_paren ∷ rest)
  unfolding fields_round field_round print_fields_of print_method
  fields-Reads [] no_method rest = break-Reads push_field _ (simp reads)
  fields-Reads [] (method n) rest = break-Reads push_field _ (simp reads)
  fields-Reads (n ∷ ns) m rest =
      push-Reads push_field _ {a = n} fields_round-Takes (fields-Reads ns m rest) (simp reads)

  pub label-Reads :
      (n : S) (rest : List (Token F S))
      → Reads parse_label_statement
          (Token.double_colon ∷ Token.name n ∷ Token.double_colon ∷ rest)
          (label_statement n)
          rest
  unfolding parse_label_statement
  label-Reads n rest = record { eq = simp reads }

  pub goto-Reads :
      (n : S) (rest : List (Token F S))
      → Reads parse_goto_statement (Token.goto_token ∷ Token.name n ∷ rest) (goto_statement n) rest
  unfolding parse_goto_statement
  goto-Reads n rest = record { eq = simp reads }

module _ {F S : Type 0} {guarded : Guarded F S} (takes : GuardedTakes guarded) where
  pub function_statement-Reads :
      {n : S} {ns : List S} {m : OptionName F S} {ts rest : List (Token F S)}
      {d : FunctionDefinition F S}
      → Reads (parse_function_definition guarded) (Token.left_paren ∷ ts) d rest
      → Reads
          (parse_function_statement guarded)
          (Token.function_token
            ∷ Token.name n
            ∷ print_fields_of ns (print_method m (Token.left_paren ∷ ts)))
          (function_statement n ns m d)
          rest
  unfolding parse_function_statement fields_round
  function_statement-Reads {ns} {m} {ts} h = record {
    eq = simp (reads, (fields-Reads ns m ts).eq, h.eq);
  }

  pub local_function-Reads :
      {n : S} {ts rest : List (Token F S)} {d : FunctionDefinition F S}
      → Reads (parse_function_definition guarded) ts d rest
      → Reads
          (parse_local_function_statement guarded)
          (Token.function_token ∷ Token.name n ∷ ts)
          (local_function n d)
          rest
  unfolding parse_local_function_statement
  local_function-Reads h = record { eq = simp (reads, h.eq) }

  pub no_else_if-Reads :
      (rest : List (Token F S))
      → matches Token.elseif_token (head_of rest) ≡ false
      → Reads (loop push_else_if (next_else_if guarded)) rest no_else_ifs rest
  unfolding next_else_if
  no_else_if-Reads rest h = break-Reads push_else_if _ (simp (reads, h))

  pub else_if-Reads :
      {ts us mid rest : List (Token F S)} {e : Expression F S} {b : Block F S}
      {parts : ElseIfParts F S}
      → Reads (parse_expression guarded) ts e (Token.then_token ∷ us)
      → Reads (parse_block guarded) us b mid
      → Reads (loop push_else_if (next_else_if guarded)) mid parts rest
      → Reads
          (loop push_else_if (next_else_if guarded))
          (Token.elseif_token ∷ ts)
          (add_else_if e b parts)
          rest
  unfolding next_else_if discriminant
  else_if-Reads {e} {b} h k l =
      push-Reads push_else_if _ {a = (e, b)} (next_else_if-Takes takes) l (simp (reads, h.eq, k.eq))

  pub no_else-Reads :
      (rest : List (Token F S))
      → Reads (parse_else_part guarded) (Token.end_token ∷ rest) no_else (Token.end_token ∷ rest)
  unfolding parse_else_part discriminant
  no_else-Reads rest = record { eq = simp reads }

  pub else-Reads :
      {ts rest : List (Token F S)} {b : Block F S}
      → Reads (parse_block guarded) ts b rest
      → Reads (parse_else_part guarded) (Token.else_token ∷ ts) (else_part b) rest
  unfolding parse_else_part discriminant
  else-Reads h = record { eq = simp (reads, h.eq) }

  pub if-Reads :
      {ts us mid end rest : List (Token F S)} {e : Expression F S} {b : Block F S}
      {parts : ElseIfParts F S} {otherwise : ElsePart F S}
      → Reads (parse_expression guarded) ts e (Token.then_token ∷ us)
      → Reads (parse_block guarded) us b mid
      → Reads (loop push_else_if (next_else_if guarded)) mid parts end
      → Reads (parse_else_part guarded) end otherwise (Token.end_token ∷ rest)
      → Reads
          (parse_if_statement guarded)
          (Token.if_token ∷ ts)
          (if_statement e b parts otherwise)
          rest
  unfolding parse_if_statement
  if-Reads h k l m = record { eq = simp (reads, h.eq, k.eq, l.eq, m.eq) }

  pub while-Reads :
      {ts us rest : List (Token F S)} {e : Expression F S} {b : Block F S}
      → Reads (parse_expression guarded) ts e (Token.do_token ∷ us)
      → Reads (parse_block guarded) us b (Token.end_token ∷ rest)
      → Reads (parse_while_statement guarded) (Token.while_token ∷ ts) (while_statement e b) rest
  unfolding parse_while_statement
  while-Reads h k = record { eq = simp (reads, h.eq, k.eq) }

  pub repeat-Reads :
      {ts us rest : List (Token F S)} {e : Expression F S} {b : Block F S}
      → Reads (parse_block guarded) ts b (Token.until_token ∷ us)
      → Reads (parse_expression guarded) us e rest
      → Reads (parse_repeat_statement guarded) (Token.repeat_token ∷ ts) (repeat_statement b e) rest
  unfolding parse_repeat_statement
  repeat-Reads h k = record { eq = simp (reads, h.eq, k.eq) }

  pub no_step-Reads :
      (rest : List (Token F S))
      → Reads (parse_step guarded) (Token.do_token ∷ rest) no_step (Token.do_token ∷ rest)
  unfolding parse_step discriminant
  no_step-Reads rest = record { eq = simp reads }

  pub step-Reads :
      {ts rest : List (Token F S)} {e : Expression F S}
      → Reads (parse_expression guarded) ts e rest
      → Reads (parse_step guarded) (Token.comma ∷ ts) (step e) rest
  unfolding parse_step discriminant
  step-Reads h = record { eq = simp (reads, h.eq) }

  pub numeric-Reads :
      {n : S} {ts us mid vs rest : List (Token F S)} {initial limit : Expression F S}
      {by : Step F S} {b : Block F S}
      → Reads (parse_expression guarded) ts initial (Token.comma ∷ us)
      → Reads (parse_expression guarded) us limit mid
      → Reads (parse_step guarded) mid by (Token.do_token ∷ vs)
      → Reads (parse_block guarded) vs b (Token.end_token ∷ rest)
      → Reads
          (parse_for_statement guarded)
          (Token.for_token ∷ Token.name n ∷ Token.assign ∷ ts)
          (numeric n initial limit by b)
          rest
  unfolding parse_for_statement for_from numeric_for
  numeric-Reads h k l m = record { eq = simp (reads, h.eq, k.eq, l.eq, m.eq) }
