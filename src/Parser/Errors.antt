-- ===== src/Parser/Errors.antt =====
-- src/parser.rs: the recursion limit, and the expressions that are no statement or no target.
use luster.Prelude.{
  ℕ, zero, suc, ◌≤◌, ◌<◌, ◌≡◌, refl, sym, ap, ◌∙◌, inl, inr, Bool, true, false, not, none, some,
  List, [], ◌∷◌, ltb, length, if◌then◌else◌, arith, Bool-cases, ltb→lt,
}
use luster.Operators.{UnaryOperator}
use luster.Lexer.Tokens.{Token}
use luster.Parser.Syntax
use luster.Parser.Syntax.{
  Expression, Statement, PrimaryExpression, SuffixPart, Suffixes, SuffixedExpression, expression,
  simple, no_tail, unary_operator, suffixed, suffixed_expression, grouped_expression, no_suffixes,
  add_suffix, field, call,
}
use luster.Parser.Stream.{
  Stream, ok, err, discriminant, assign_to_expression, expression_not_statement, recursion_limit,
}
use luster.Parser.Priority.{unary_priority}
use luster.Parser.Suffixes.{parse_suffixed_expression, starts_suffix, head_from, sub_expression}
use luster.Parser.Statements.{
  pop, push_front, primary_target, suffix_target, target, suffix_statement, call_statement,
  parse_expression_statement, parse_assignment,
}
use luster.Parser.Chunk.{statement, statement_from, recursion_guard}
use luster.Parser.Print.{print_primary, print_suffixed, print_expression}
use luster.Parser.Print.Streams.{stream, head_of, reads}
use luster.Parser.Print.Fits.{FitsExpression, FitsSuffixed}
use luster.Parser.Print.Beginnings.{Follows, get_unary_operator-unary_token}
use luster.Parser.Print.ExpressionSteps.{Reads}
use luster.Parser.Print.SuffixSteps.{no_suffix-Reads}
use luster.Parser.Print.RoundTrip.{recursion_guard-Reads, parse_sub_expression-print}
use luster.Parser.Print.RoundTrip.Ahead.{takes, whole-Reads}
use luster.Parser.Print.RoundTrip.Suffixes.{primary-Reads, suffixes-Reads}

module _ {F S : Type 0} where
  -- A name behind unary operators.
  unfoldable pub nested : List UnaryOperator → S → Expression F S
  nested [] s =
      expression (simple (suffixed (suffixed_expression (Syntax.name s) no_suffixes))) no_tail
  nested (op ∷ ops) s = expression (unary_operator op (nested ops s)) no_tail

module _ (F : Type 0) {S : Type 0} where
  nested-Fits :
      (ops : List UnaryOperator) (s : S) (n limit : ℕ)
      → length ops < n
      → FitsExpression n limit (nested {F = F} ops s)
  unfolding nested FitsExpression
  nested-Fits ops s zero limit h = absurd (omega arith)
  nested-Fits [] s (suc n) limit h = ((tt, tt), tt)
  nested-Fits (op ∷ ops) s (suc n) limit h =
      ((tt, nested-Fits ops s n unary_priority (omega arith)), tt)

module _ {F S : Type 0} where
  nested-limit :
      (ops : List UnaryOperator) (s : S) (n limit : ℕ) (rest : List (Token F S))
      → n ≤ length ops
      → (recursion_guard n).parse_sub_expression limit
          (stream (print_expression (nested ops s) rest))
        ≡ err recursion_limit
  unfolding nested print_expression recursion_guard sub_expression head_from
  nested-limit ops s zero limit rest h = refl
  nested-limit [] s (suc n) limit rest h = absurd (omega arith)
  nested-limit (op ∷ ops) s (suc n) limit rest h = simp (
    reads,
    get_unary_operator-unary_token F S op,
    nested-limit ops s n unary_priority rest (omega arith),
  )

  -- Where `n` more guards can be taken, a name behind fewer than `n` unary operators, in front of
  -- tokens that end it, is read, and one behind `n` or more of them is the error for the recursion
  -- limit.
  pub parse_sub_expression-nested :
      (ops : List UnaryOperator) (s : S) (n : ℕ) (rest : List (Token F S))
      → Follows 0 rest
      → (recursion_guard n).parse_sub_expression 0 (stream (print_expression (nested ops s) rest))
        ≡ (if ltb (length ops) n then ok (nested ops s) (stream rest) else err recursion_limit)
  parse_sub_expression-nested ops s n rest fol = elim (Bool-cases (ltb (length ops) n)) [
    | inl lt ↦ rw lt (
        parse_sub_expression-print n 0 (nested ops s) rest (omega arith)
          (nested-Fits F ops s n 0 (ltb→lt (length ops) n lt)) fol)
    | inr ge ↦ rw ge (nested-limit ops s n 0 rest (ground (arith, ge)))
  ]

  is_call : SuffixPart F S → Bool
  is_call (field f) = false
  is_call (call c) = true

  unfoldable pub ends_in_call : Suffixes F S → Bool
  unfolding is_call
  ends_in_call no_suffixes = false
  ends_in_call (add_suffix p no_suffixes) = is_call p
  ends_in_call (add_suffix p (add_suffix q qs)) = ends_in_call (add_suffix q qs)

  -- What can be assigned to: a name, or what ends in a field.
  unfoldable pub assignable : PrimaryExpression F S → Suffixes F S → Bool
  assignable (Syntax.name s) no_suffixes = true
  assignable (grouped_expression e) no_suffixes = false
  assignable p (add_suffix q qs) = not (ends_in_call (add_suffix q qs))

  -- The last suffix is the one that is popped.
  pop-ends :
      (p : SuffixPart F S) (ps : Suffixes F S)
      → (qs : Suffixes F S) × (q : SuffixPart F S) × (pop (add_suffix p ps) ≡ some (qs, q))
        × (ends_in_call (add_suffix p ps) ≡ is_call q)
  unfolding pop ends_in_call
  pop-ends p no_suffixes = (no_suffixes, p, refl, refl)
  pop-ends p (add_suffix q qs) =
      let (rs, r, e, c) = pop-ends q qs in (add_suffix p rs, r, ap (push_front p) e, c)

  statement-primary :
      (n : ℕ) (p : PrimaryExpression F S) (ts : List (Token F S))
      → (recursion_guard (suc n)).parse_statement (stream (print_primary p ts))
        ≡ parse_expression_statement (recursion_guard n) (stream (print_primary p ts))
  unfolding recursion_guard statement statement_from print_primary
  statement-primary n (Syntax.name s) ts = simp reads
  statement-primary n (grouped_expression e) ts = simp reads

  statement-suffixed :
      (n : ℕ) (p : PrimaryExpression F S) (ps : Suffixes F S) (rest : List (Token F S))
      → (recursion_guard (suc n)).parse_statement
          (stream (print_suffixed (suffixed_expression p ps) rest))
        ≡ parse_expression_statement
            (recursion_guard n)
            (stream (print_suffixed (suffixed_expression p ps) rest))
  unfolding print_suffixed
  statement-suffixed n p ps rest = statement-primary n p _

  suffixed_expression-Reads :
      (n : ℕ) (p : PrimaryExpression F S) (ps : Suffixes F S) (rest : List (Token F S))
      → FitsSuffixed n (suffixed_expression p ps)
      → starts_suffix (head_of rest) ≡ false
      → Reads
          (parse_suffixed_expression (recursion_guard n))
          (print_suffixed (suffixed_expression p ps) rest)
          (suffixed_expression p ps)
          rest
  unfolding FitsSuffixed print_suffixed
  suffixed_expression-Reads n p ps rest (fp, fs) h =
      let reads_n = recursion_guard-Reads n in
      whole-Reads n p ps rest (primary-Reads reads_n p _ fp)
        (suffixes-Reads reads_n ps fs (no_suffix-Reads (takes n) rest h))

  pop-no_suffixes : pop {F = F} {S = S} no_suffixes ≡ none
  unfolding pop
  pop-no_suffixes = refl

  last_statement :
      (p : PrimaryExpression F S) (ps : Suffixes F S) (q : SuffixPart F S) (s : Stream F S)
      → is_call q ≡ false
      → suffix_statement p (some (ps, q)) s ≡ err expression_not_statement
  unfolding is_call
  last_statement p ps (field f) s h = refl
  last_statement p ps (call c) s h = cc

  not_statement :
      (p : PrimaryExpression F S) (ps : Suffixes F S) (s : Stream F S)
      → ends_in_call ps ≡ false
      → call_statement (suffixed_expression p ps) s ≡ err expression_not_statement
  unfolding call_statement
  not_statement p no_suffixes s h = rw pop-no_suffixes refl
  not_statement p (add_suffix q qs) s h =
      let (rs, r, e, c) = pop-ends q qs in rw e (last_statement p rs r s (sym c ∙ h))

  last_target :
      (p : PrimaryExpression F S) (ps : Suffixes F S) (q : SuffixPart F S) (s : Stream F S)
      → not (is_call q) ≡ false
      → suffix_target p (some (ps, q)) s ≡ err assign_to_expression
  unfolding is_call
  last_target p ps (field f) s h = cc
  last_target p ps (call c) s h = refl

  call_target :
      (p : PrimaryExpression F S) (q : SuffixPart F S) (qs : Suffixes F S) (s : Stream F S)
      → not (ends_in_call (add_suffix q qs)) ≡ false
      → target (suffixed_expression p (add_suffix q qs)) s ≡ err assign_to_expression
  unfolding target
  call_target p q qs s h =
      let (rs, r, e, c) = pop-ends q qs in rw e (last_target p rs r s (ap not (sym c) ∙ h))

  not_target :
      (p : PrimaryExpression F S) (ps : Suffixes F S) (s : Stream F S)
      → assignable p ps ≡ false
      → target (suffixed_expression p ps) s ≡ err assign_to_expression
  unfolding target primary_target assignable pop
  not_target (Syntax.name n) no_suffixes s h = cc
  not_target (grouped_expression e) no_suffixes s h = refl
  not_target (Syntax.name n) (add_suffix q qs) s h = call_target (Syntax.name n) q qs s h
  not_target (grouped_expression e) (add_suffix q qs) s h =
      call_target (grouped_expression e) q qs s h

  -- A suffixed expression that fits, has no call for its last suffix and stands in front of a
  -- semicolon is the error `ExpressionNotStatement`.
  pub parse_statement-not_statement :
      (n : ℕ) (p : PrimaryExpression F S) (ps : Suffixes F S) (rest : List (Token F S))
      → FitsSuffixed n (suffixed_expression p ps)
      → ends_in_call ps ≡ false
      → (recursion_guard (suc n)).parse_statement
          (stream (print_suffixed (suffixed_expression p ps) (Token.semi_colon ∷ rest)))
        ≡ err expression_not_statement
  unfolding starts_suffix parse_expression_statement discriminant
  parse_statement-not_statement n p ps rest fits h =
      let read = suffixed_expression-Reads n p ps (Token.semi_colon ∷ rest) fits refl in
      statement-suffixed n p ps (Token.semi_colon ∷ rest)
      ∙ simp (reads, read.eq, not_statement p ps (stream (Token.semi_colon ∷ rest)) h)

  -- A suffixed expression that fits and stands in front of `=` is the error `AssignToExpression`,
  -- if it ends in a call or is nothing but a grouped expression.
  pub parse_statement-not_target :
      (n : ℕ) (p : PrimaryExpression F S) (ps : Suffixes F S) (rest : List (Token F S))
      → FitsSuffixed n (suffixed_expression p ps)
      → assignable p ps ≡ false
      → (recursion_guard (suc n)).parse_statement
          (stream (print_suffixed (suffixed_expression p ps) (Token.assign ∷ rest)))
        ≡ err assign_to_expression
  unfolding starts_suffix parse_expression_statement parse_assignment discriminant
  parse_statement-not_target n p ps rest fits h =
      let read = suffixed_expression-Reads n p ps (Token.assign ∷ rest) fits refl in
      statement-suffixed n p ps (Token.assign ∷ rest)
      ∙ simp (reads, read.eq, not_target p ps (stream (Token.assign ∷ rest)) h)
