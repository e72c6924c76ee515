-- ===== src/Parser/Print/AssignmentSteps.antt =====
-- src/parser.rs: what the methods of loops over names, local statements and assignments read, from what
-- the methods that they call read.
use luster.Prelude.{◌≡◌, refl, true, ◌||◌, List, [], ◌∷◌}
use luster.Lexer.Tokens.{Token}
use luster.Parser.Syntax.{
  Block, Statement, ForStatement, Expressions, CallSuffix, Suffixes, AssignmentTarget, Targets,
  PrimaryExpression, do_statement, for_statement, local_statement, break_statement, function_call,
  assignment, generic, no_expressions, call, no_suffixes, add_suffix, suffixed_expression,
  no_targets, add_target,
}
use luster.Parser.Stream.{matches, discriminant, loop}
use luster.Parser.Expressions.{Guarded, parse_expression_list, parse_block}
use luster.Parser.Suffixes.{parse_suffixed_expression}
use luster.Parser.Statements.{
  call_statement, generic_for, for_from, parse_for_statement, parse_local_function_statement,
  parse_local_statement, next_target, parse_assignment, parse_expression_statement,
}
use luster.Parser.Chunk.{statement_from, statement}
use luster.Parser.Takes.Expressions.{GuardedTakes}
use luster.Parser.Takes.Statements.{next_target-Takes}
use luster.Parser.Print.{print_names}
use luster.Parser.Print.Streams.{stream, head_of, reads}
use luster.Parser.Print.ExpressionSteps.{Reads, break-Reads, push-Reads}
use luster.Parser.Print.StatementSteps.{
  append, suffixed_of, pop-append, target-suffixed_of, names-Reads,
}

module _ {F S : Type 0} {guarded : Guarded F S} (takes : GuardedTakes guarded) where
  pub generic-Reads :
      {n : S} (ns : List S) {ts us rest : List (Token F S)} {es : Expressions F S} {b : Block F S}
      → Reads (parse_expression_list guarded) ts es (Token.do_token ∷ us)
      → Reads (parse_block guarded) us b (Token.end_token ∷ rest)
      → Reads
          (parse_for_statement guarded)
          (Token.for_token ∷ Token.name n ∷ print_names ns (Token.in_token ∷ ts))
          (generic (n ∷ ns) es b)
          rest
  unfolding parse_for_statement for_from generic_for print_names discriminant
  generic-Reads [] {ts} h k = record {
    eq = simp (reads, (names-Reads [] (Token.in_token ∷ ts) refl).eq, h.eq, k.eq);
  }
  generic-Reads (n ∷ ns) {ts} h k = record {
    eq = simp (reads, (names-Reads (n ∷ ns) (Token.in_token ∷ ts) refl).eq, h.eq, k.eq);
  }

  pub no_values-Reads :
      {n : S} (ns : List S) (rest : List (Token F S))
      → Reads
          (parse_local_statement guarded)
          (Token.local_token ∷ Token.name n ∷ print_names ns (Token.semi_colon ∷ rest))
          (local_statement (n ∷ ns) no_expressions)
          (Token.semi_colon ∷ rest)
  unfolding parse_local_statement discriminant
  no_values-Reads ns rest = record {
    eq = simp (reads, (names-Reads ns (Token.semi_colon ∷ rest) refl).eq);
  }

  pub values-Reads :
      {n : S} (ns : List S) {ts rest : List (Token F S)} {es : Expressions F S}
      → Reads (parse_expression_list guarded) ts es rest
      → Reads
          (parse_local_statement guarded)
          (Token.local_token ∷ Token.name n ∷ print_names ns (Token.assign ∷ ts))
          (local_statement (n ∷ ns) es)
          rest
  unfolding parse_local_statement discriminant
  values-Reads ns {ts} h = record {
    eq = simp (reads, (names-Reads ns (Token.assign ∷ ts) refl).eq, h.eq);
  }

  pub function_call-Reads :
      {ts rest : List (Token F S)} {p : PrimaryExpression F S} {ps : Suffixes F S}
      {c : CallSuffix F S}
      → Reads
          (parse_suffixed_expression guarded)
          ts
          (suffixed_expression p (append ps (add_suffix (call c) no_suffixes)))
          (Token.semi_colon ∷ rest)
      → Reads
          (parse_expression_statement guarded)
          ts
          (function_call (suffixed_expression p ps) c)
          (Token.semi_colon ∷ rest)
  unfolding parse_expression_statement call_statement discriminant
  function_call-Reads {ps} {c} h = record { eq = simp (reads, h.eq, pop-append ps (call c)) }

  pub no_target-Reads :
      (rest : List (Token F S))
      → Reads
          (loop add_target (next_target guarded))
          (Token.assign ∷ rest)
          no_targets
          (Token.assign ∷ rest)
  unfolding next_target discriminant
  no_target-Reads rest = break-Reads _ _ (simp reads)

  pub target-Reads :
      {t : AssignmentTarget F S} {ts mid rest : List (Token F S)} {others : Targets F S}
      → Reads (parse_suffixed_expression guarded) ts (suffixed_of t) mid
      → Reads (loop add_target (next_target guarded)) mid others rest
      → Reads (loop add_target (next_target guarded)) (Token.comma ∷ ts) (add_target t others) rest
  unfolding next_target discriminant
  target-Reads {t} {mid} h k =
      push-Reads _ _ (next_target-Takes takes) k
        (simp (reads, h.eq, target-suffixed_of t (stream mid)))

  pub assignment-Reads :
      {t : AssignmentTarget F S} {ts mid us rest : List (Token F S)} {others : Targets F S}
      {es : Expressions F S}
      → (matches Token.assign (head_of mid) || matches Token.comma (head_of mid)) ≡ true
      → Reads (parse_suffixed_expression guarded) ts (suffixed_of t) mid
      → Reads (loop add_target (next_target guarded)) mid others (Token.assign ∷ us)
      → Reads (parse_expression_list guarded) us es rest
      → Reads (parse_expression_statement guarded) ts (assignment (add_target t others) es) rest
  unfolding parse_expression_statement parse_assignment
  assignment-Reads {t} {mid} e h k l = record {
    eq = simp (reads, h.eq, e, target-suffixed_of t (stream mid), k.eq, l.eq);
  }

  -- `parse_statement` behind its guard, by the first token.
  pub statement_from-Reads :
      {t : Token F S} {ts rest : List (Token F S)} {st : Statement F S}
      → Reads (statement_from guarded t) (t ∷ ts) st rest
      → Reads (statement guarded) (t ∷ ts) st rest
  unfolding statement
  statement_from-Reads h = record { eq = simp (reads, h.eq) }

  pub do-Reads :
      {ts rest : List (Token F S)} {b : Block F S}
      → Reads (parse_block guarded) ts b (Token.end_token ∷ rest)
      → Reads (statement_from guarded Token.do_token) (Token.do_token ∷ ts) (do_statement b) rest
  unfolding statement_from
  do-Reads h = record { eq = simp (reads, h.eq) }

  pub for-Reads :
      {ts rest : List (Token F S)} {f : ForStatement F S}
      → Reads (parse_for_statement guarded) (Token.for_token ∷ ts) f rest
      → Reads (statement_from guarded Token.for_token) (Token.for_token ∷ ts) (for_statement f) rest
  unfolding statement_from
  for-Reads h = record { eq = simp h.eq }

  pub break_statement-Reads :
      (rest : List (Token F S))
      → Reads
          (statement_from guarded Token.break_token)
          (Token.break_token ∷ rest)
          break_statement
          rest
  unfolding statement_from
  break_statement-Reads rest = record { eq = simp reads }

  pub of_function-Reads :
      {ts rest : List (Token F S)} {st : Statement F S}
      → Reads (parse_local_function_statement guarded) (Token.function_token ∷ ts) st rest
      → Reads
          (statement_from guarded Token.local_token)
          (Token.local_token ∷ Token.function_token ∷ ts)
          st
          rest
  unfolding statement_from discriminant
  of_function-Reads h = record { eq = simp (reads, h.eq) }

  pub local-Reads :
      {n : S} {ts rest : List (Token F S)} {st : Statement F S}
      → Reads (parse_local_statement guarded) (Token.local_token ∷ Token.name n ∷ ts) st rest
      → Reads
          (statement_from guarded Token.local_token)
          (Token.local_token ∷ Token.name n ∷ ts)
          st
          rest
  unfolding statement_from discriminant
  local-Reads h = record { eq = simp (reads, h.eq) }
