-- ===== src/Parser/Print/Beginnings.antt =====
-- src/parser.rs: the first token of a print, and what may follow an expression.
use luster.Prelude.{ℕ, suc, ◌≤◌, ◌<◌, ◌≡◌, refl, false, Option, none, some, List, ◌∷◌, arith}
use luster.Operators.{BinaryOperator, UnaryOperator}
use luster.Lexer.Tokens.{Token}
use luster.Parser.Syntax
use luster.Parser.Syntax.{
  Expression, Tail, HeadExpression, SimpleExpression, PrimaryExpression, SuffixedExpression,
  Suffixes, SuffixPart, FieldSuffix, CallSuffix, expression, no_tail, add_operand, simple,
  unary_operator, nil, true_value, false_value, var_args, table_constructor, function, suffixed,
  grouped_expression, suffixed_expression, no_suffixes, add_suffix, field, call, named, indexed,
  method_call, function_suffix, Expressions, no_expressions, add_expression,
}
use luster.Parser.Stream.{is_token, matches, discriminant}
use luster.Parser.Priority.{
  unary_priority, binary_priority, get_binary_operator, get_unary_operator,
}
use luster.Parser.Expressions.{returns_nothing}
use luster.Parser.Suffixes.{starts_suffix, operator_of}
use luster.Parser.Print.{
  unary_token, binary_token, print_expression, print_tail, print_more, print_suffixes,
}
use luster.Parser.Print.Streams.{head_of}
use luster.Parser.Print.Fits.{Below}

-- The operator, if there is one, does not bind more tightly than the limit.
abbrev pub Stops : ℕ → Option BinaryOperator → Type 0
Stops limit none = Unit {0}
Stops limit (some op) = (binary_priority op).0 ≤ limit

module _ {F S : Type 0} where
  -- What stands behind a sub-expression ends it.
  pub record Follows (limit : ℕ) (rest : List (Token F S)) : Type 0 where
    pub no_suffix : starts_suffix (head_of rest) ≡ false
    pub no_operator : Stops limit (operator_of (head_of rest))

module _ (F S : Type 0) where
  pub get_unary_operator-unary_token :
      (op : UnaryOperator) → get_unary_operator (unary_token {F = F} {S = S} op) ≡ some op
  unfolding get_unary_operator unary_token
  get_unary_operator-unary_token UnaryOperator.not_op = refl
  get_unary_operator-unary_token UnaryOperator.minus = refl
  get_unary_operator-unary_token UnaryOperator.bit_not = refl
  get_unary_operator-unary_token UnaryOperator.len = refl

  pub get_binary_operator-binary_token :
      (op : BinaryOperator) → get_binary_operator (binary_token {F = F} {S = S} op) ≡ some op
  unfolding get_binary_operator binary_token
  get_binary_operator-binary_token BinaryOperator.add = refl
  get_binary_operator-binary_token _ = refl

  starts_suffix-binary_token :
      (op : BinaryOperator) → starts_suffix (some (binary_token {F = F} {S = S} op)) ≡ false
  unfolding starts_suffix binary_token
  starts_suffix-binary_token BinaryOperator.add = refl
  starts_suffix-binary_token _ = refl

  binary_token-is_assign :
      (op : BinaryOperator) → is_token (binary_token {F = F} {S = S} op) Token.assign ≡ false
  unfolding binary_token discriminant
  binary_token-is_assign BinaryOperator.add = refl
  binary_token-is_assign _ = refl

pub left_right : (op : BinaryOperator) → (binary_priority op).0 ≤ suc (binary_priority op).1
unfolding binary_priority
left_right BinaryOperator.add = omega arith
left_right _ = omega arith

pub right_bound : (op : BinaryOperator) → (binary_priority op).1 ≤ 13
unfolding binary_priority
right_bound BinaryOperator.add = omega arith
right_bound _ = omega arith

left_unary : (op : BinaryOperator) → (binary_priority op).0 ≤ 13 → (binary_priority op).0 ≤ 12
unfolding binary_priority
left_unary BinaryOperator.add h = omega arith
left_unary _ h = omega arith

Stops-weaken : {l k : ℕ} (o : Option BinaryOperator) → l ≤ k → Stops l o → Stops k o
Stops-weaken none le h = tt
Stops-weaken (some op) le h = omega arith

Stops-unary : {l : ℕ} (o : Option BinaryOperator) → l ≤ 13 → Stops l o → Stops unary_priority o
Stops-unary none le h = tt
Stops-unary (some op) le h = left_unary op (omega arith)

module _ {F S : Type 0} where
  Follows-print_tail :
      {limit : ℕ} (tail : Tail F S) {rest : List (Token F S)}
      → Below limit tail
      → Follows limit rest
      → Follows limit (print_tail tail rest)
  unfolding Below print_tail
  Follows-print_tail no_tail below h = h
  Follows-print_tail (add_operand op e tail) below h = record {
    no_suffix = starts_suffix-binary_token F S op;
    no_operator = rw (get_binary_operator-binary_token F S op) below;
  }

  pub tail-no_suffix :
      (tail : Tail F S) (rest : List (Token F S))
      → starts_suffix (head_of rest) ≡ false
      → starts_suffix (head_of (print_tail tail rest)) ≡ false
  unfolding print_tail
  tail-no_suffix no_tail rest h = h
  tail-no_suffix (add_operand op e tail) rest h = starts_suffix-binary_token F S op

  pub Follows-print_more :
      (es : Expressions F S) {rest : List (Token F S)}
      → Follows 0 rest
      → Follows 0 (print_more es rest)
  unfolding print_more starts_suffix get_binary_operator
  Follows-print_more no_expressions h = h
  Follows-print_more (add_expression e es) h = record { no_suffix = refl; no_operator = tt }

  -- Behind an operand.
  pub Follows-operand :
      {limit : ℕ} (op : BinaryOperator) (tail : Tail F S) {rest : List (Token F S)}
      → limit < (binary_priority op).0
      → Below (binary_priority op).1 tail
      → Follows limit rest
      → Follows (binary_priority op).1 (print_tail tail rest)
  Follows-operand op tail {rest} lt below h = Follows-print_tail tail below (record {
    no_suffix = h.no_suffix;
    no_operator =
        Stops-weaken (operator_of (head_of rest)) (omega (arith, lt, left_right op)) h.no_operator;
  })

  -- Behind the operand of a unary operator.
  pub Follows-unary :
      {limit : ℕ} (tail : Tail F S) {rest : List (Token F S)}
      → limit ≤ 13
      → Below unary_priority tail
      → Follows limit rest
      → Follows unary_priority (print_tail tail rest)
  Follows-unary tail {rest} le below h = Follows-print_tail tail below (record {
    no_suffix = h.no_suffix;
    no_operator = Stops-unary (operator_of (head_of rest)) le h.no_operator;
  })

  -- The first token of an expression.
  pub record Begins (ts : List (Token F S)) : Type 0 where
    pub first : Token F S
    pub begin : head_of ts ≡ some first
    pub returns_something : returns_nothing (some first) ≡ false
    pub no_right_paren : is_token first Token.right_paren ≡ false
    pub no_right_brace : is_token first Token.right_brace ≡ false

  begins :
      {t : Token F S} {us : List (Token F S)}
      → returns_nothing (some t) ≡ false
      → is_token t Token.right_paren ≡ false
      → is_token t Token.right_brace ≡ false
      → Begins (t ∷ us)
  begins {t} p q r = record {
    first = t;
    begin = refl;
    returns_something = p;
    no_right_paren = q;
    no_right_brace = r;
  }

  pub print_expression-Begins :
      (e : Expression F S) (rest : List (Token F S)) → Begins (print_expression e rest)
  unfolding print_expression returns_nothing discriminant unary_token
  print_expression-Begins (expression (unary_operator UnaryOperator.not_op e) tail) rest =
      begins refl refl refl
  print_expression-Begins (expression (unary_operator _ e) tail) rest = begins refl refl refl
  print_expression-Begins
        (expression (simple (suffixed (suffixed_expression (Syntax.name n) ss))) tail) rest =
      begins refl refl refl
  print_expression-Begins
        (expression (simple (suffixed (suffixed_expression (grouped_expression e) ss))) tail) rest =
      begins refl refl refl
  print_expression-Begins (expression (simple _) tail) rest = begins refl refl refl

  -- The second token of an expression that begins with a name.
  pub suffixes-assign :
      (ss : Suffixes F S) (tail : Tail F S) (rest : List (Token F S))
      → matches Token.assign (head_of rest) ≡ false
      → matches Token.assign (head_of (print_suffixes ss (print_tail tail rest))) ≡ false
  unfolding print_expression discriminant
  suffixes-assign no_suffixes no_tail rest h = h
  suffixes-assign no_suffixes (add_operand op e tail) rest h = binary_token-is_assign F S op
  suffixes-assign (add_suffix (field (named n)) ss) tail rest h = refl
  suffixes-assign (add_suffix (field (indexed e)) ss) tail rest h = refl
  suffixes-assign (add_suffix (call (method_call n es)) ss) tail rest h = refl
  suffixes-assign (add_suffix (call (function_suffix es)) ss) tail rest h = refl
