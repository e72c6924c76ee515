-- ===== src/Parser/Print/Firsts.antt =====
-- src/parser.rs: which method the first token of a statement or a field leads to.
use luster.Prelude.{ℕ, ◌≡◌, refl, false, some, List, [], ◌∷◌}
use luster.Operators.{UnaryOperator}
use luster.Lexer.Tokens.{Token}
use luster.Parser.Syntax
use luster.Parser.Syntax.{
  Statement, Expression, HeadExpression, SimpleExpression, PrimaryExpression, SuffixedExpression,
  ConstructorField, RecordKey, AssignmentTarget, if_statement, while_statement, do_statement,
  for_statement, repeat_statement, function_statement, local_function, local_statement,
  label_statement, break_statement, goto_statement, function_call, assignment, no_targets,
  add_target, no_expressions, add_expression, name_target, field_target, suffixed_expression,
  grouped_expression, expression, simple, unary_operator, suffixed, array, record_field, named_key,
  indexed_key,
}
use luster.Parser.Stream.{Stream, and_then, matches, is_token, discriminant, push, pure}
use luster.Parser.Expressions.{
  Guarded, parse_expression, block_round, field_from, parse_constructor_field,
}
use luster.Parser.Print.{print_statement, print_expression, print_field, unary_token}
use luster.Parser.Print.Streams.{head_of, reads}
use luster.Parser.Print.Fits.{FitsStatement}
use luster.Parser.Print.Beginnings.{print_expression-Begins, suffixes-assign}
use luster.Parser.Print.ExpressionSteps.{Reads, BeginsStatement}

module _ {F S : Type 0} where
  begins :
      {t : Token F S} {us : List (Token F S)}
      → ((guarded : Guarded F S) (s : Stream F S)
          → block_round guarded (some t) s
            ≡ and_then (guarded.parse_statement s) λ st. pure (push (some st)))
      → BeginsStatement (t ∷ us)
  begins {t} h = record { first = t; begin = refl; is_statement = h }

  pub print_statement-BeginsStatement :
      (n : ℕ) (st : Statement F S) (rest : List (Token F S))
      → FitsStatement n st
      → BeginsStatement (print_statement st rest)
  unfolding print_statement FitsStatement block_round
  print_statement-BeginsStatement n (if_statement e b parts otherwise) rest h = begins λ g s. refl
  print_statement-BeginsStatement n (while_statement e b) rest h = begins λ g s. refl
  print_statement-BeginsStatement n (do_statement b) rest h = begins λ g s. refl
  print_statement-BeginsStatement n (for_statement f) rest h = begins λ g s. refl
  print_statement-BeginsStatement n (repeat_statement b e) rest h = begins λ g s. refl
  print_statement-BeginsStatement n (function_statement s fields m d) rest h = begins λ g s. refl
  print_statement-BeginsStatement n (local_function s d) rest h = begins λ g s. refl
  print_statement-BeginsStatement n (local_statement [] es) rest h = elim h [ ]
  print_statement-BeginsStatement n (local_statement (s ∷ ss) es) rest h = begins λ g s. refl
  print_statement-BeginsStatement n (label_statement s) rest h = begins λ g s. refl
  print_statement-BeginsStatement n break_statement rest h = begins λ g s. refl
  print_statement-BeginsStatement n (goto_statement s) rest h = begins λ g s. refl
  print_statement-BeginsStatement n (function_call (suffixed_expression (Syntax.name s) ps) c) rest
        h =
      begins λ g s. refl
  print_statement-BeginsStatement n
        (function_call (suffixed_expression (grouped_expression e) ps) c) rest h =
      begins λ g s. refl
  print_statement-BeginsStatement n (assignment no_targets es) rest h = elim h [ ]
  print_statement-BeginsStatement n (assignment (add_target (name_target s) others) es) rest h =
      begins λ g s. refl
  print_statement-BeginsStatement n
        (assignment
          (add_target (field_target (suffixed_expression (Syntax.name s) ps) f) others)
          es)
        rest h =
      begins λ g s. refl
  print_statement-BeginsStatement n
        (assignment
          (add_target (field_target (suffixed_expression (grouped_expression e) ps) f) others)
          es)
        rest h =
      begins λ g s. refl

  is_brace :
      {t : Token F S} (ts : List (Token F S))
      → head_of ts ≡ some t
      → is_token t Token.right_brace ≡ false
      → matches Token.right_brace (head_of ts) ≡ false
  is_brace ts h e = rw h e

  pub print_field-brace :
      (c : ConstructorField F S) (rest : List (Token F S))
      → matches Token.right_brace (head_of (print_field c rest)) ≡ false
  unfolding print_field discriminant
  print_field-brace (array e) rest =
      let b = print_expression-Begins e rest in
      is_brace (print_expression e rest) b.begin b.no_right_brace
  print_field-brace (record_field (named_key s) e) rest = refl
  print_field-brace (record_field (indexed_key k) e) rest = refl

module _ {F S : Type 0} (guarded : Guarded F S) where
  -- An expression that is a field: it begins with no bracket, and not with a name and `=`.
  pub array-Reads :
      (e : Expression F S) {rest : List (Token F S)}
      → Reads
          (parse_expression guarded)
          (print_expression e (Token.comma ∷ rest))
          e
          (Token.comma ∷ rest)
      → Reads
          (parse_constructor_field guarded)
          (print_expression e (Token.comma ∷ rest))
          (array e)
          (Token.comma ∷ rest)
  unfolding parse_constructor_field field_from print_expression unary_token discriminant
  array-Reads (expression (unary_operator UnaryOperator.not_op e) tail) h = record {
    eq = simp (reads, h.eq);
  }
  array-Reads (expression (unary_operator _ e) tail) h = record { eq = simp (reads, h.eq) }
  array-Reads (expression (simple (suffixed (suffixed_expression (Syntax.name n) ps))) tail) {rest}
        h =
      record { eq = simp (reads, suffixes-assign ps tail (Token.comma ∷ rest) refl, h.eq) }
  array-Reads (expression (simple (suffixed (suffixed_expression (grouped_expression e) ps))) tail)
        h =
      record { eq = simp (reads, h.eq) }
  array-Reads (expression (simple _) tail) h = record { eq = simp (reads, h.eq) }
