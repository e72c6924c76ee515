-- ===== src/Parser/Shape.antt =====
-- src/parser.rs: the operators of what `parse_sub_expression` returns.
use luster.Prelude.{
  ℕ, zero, suc, ◌<◌, ◌≡◌, refl, sym, ap, subst, Option, none, some, leb, Bool-cases, inl, inr,
  tests, arith,
}
use luster.Operators.{BinaryOperator, UnaryOperator}
use luster.Lexer.Reading.{LexerError}
use luster.Parser.Syntax.{
  Expression, Tail, HeadExpression, expression, no_tail, add_operand, simple, unary_operator,
}
use luster.Parser.Stream.{
  Stream, ParserError, Parse, ok, err, out_of_fuel, Method, and_then, Round, push, break_with,
  after, rounds, loop, size, look_ahead, read_ahead, failure, fail_if, buffered, get_next,
  take_next,
}
use luster.Parser.Priority.{unary_priority, binary_priority, get_unary_operator}
use luster.Parser.Expressions.{Guarded}
use luster.Parser.Suffixes.{
  parse_simple_expression, head_from, operand_of, operand_for, operator_of, next_operand,
  push_operand, sub_expression,
}
use luster.Parser.Chunk.{recursion_guard}
use luster.Parser.Takes.{Leaves}
use luster.Parser.Takes.Chunk.{recursion_guard-Takes}
use luster.Parser.Print.Beginnings.{Stops}
use luster.Parser.Print.Fits.{Below}

module _ {F S : Type 0} where
  mutual
    -- Every operator binds more tightly than the limit, and no operator to an operand before it.
    pub Shaped : ℕ → Expression F S → Type 0
    Shaped limit (expression h t) = ShapedHead h t × ShapedTail limit t

    pub ShapedHead : HeadExpression F S → Tail F S → Type 0
    ShapedHead (simple e) t = Unit {0}
    ShapedHead (unary_operator op e) t = Below unary_priority t × Shaped unary_priority e

    pub ShapedTail : ℕ → Tail F S → Type 0
    ShapedTail limit no_tail = Unit {0}
    ShapedTail limit (add_operand op e t) =
        (limit < (binary_priority op).0)
        × Below (binary_priority op).1 t
        × Shaped (binary_priority op).1 e
        × ShapedTail limit t

  -- The operator that stands next.
  abbrev pub next_operator : Stream F S → Option BinaryOperator
  next_operator s = operator_of (buffered 0 s)

  -- `P` holds of the value and what is left, if there is a value.
  pub data Gives {A : Type 0} (P : A → Stream F S → Type 0) : Parse F S A → Type 0 where
    gives : {a : A} {s : Stream F S} → P a s → Gives P (ok a s)
    error : {e : ParserError F S} → Gives P (err e)
    unfinished : Gives P out_of_fuel

  pub Gives-and_then :
      {A B : Type 0} {P : A → Stream F S → Type 0} {Q : B → Stream F S → Type 0} {r : Parse F S A}
      {f : A → Method F S B}
      → Gives P r
      → ((a : A) (s : Stream F S) → P a s → Gives Q (f a s))
      → Gives Q (and_then r f)
  Gives-and_then (gives {a} {s} h) k = k a s h
  Gives-and_then error k = error
  Gives-and_then unfinished k = unfinished

  -- Nothing is known of the value.
  any : {A : Type 0} (r : Parse F S A) → Gives (λ a s. Unit {0}) r
  any (ok a s) = gives tt
  any (err e) = error
  any out_of_fuel = unfinished

  look_ahead-Gives :
      (s : Stream F S) → Gives (λ t s'. (t ≡ buffered 0 s) × (s' ≡ s)) (look_ahead 0 s)
  unfolding look_ahead read_ahead
  look_ahead-Gives s = by_failure (failure 1 s)
    where
      by_failure :
          (o : Option LexerError)
          → Gives
              (λ t s'. (t ≡ buffered 0 s) × (s' ≡ s))
              (and_then (fail_if o s) λ u s'. ok (buffered 0 s') s')
      by_failure none = gives (refl, refl)
      by_failure (some e) = error

  -- What a tail is read to, from a stream.
  abbrev IsTail : ℕ → Stream F S → Tail F S → Stream F S → Type 0
  IsTail limit s t rest =
      ShapedTail limit t
      × ((k : ℕ) → Stops k (next_operator s) → Below k t)
      × Stops limit (next_operator rest)

  -- What a round is read to.
  abbrev IsRound :
      ℕ → Stream F S → Round (BinaryOperator × Expression F S) (Tail F S) → Stream F S → Type 0
  IsRound limit s (break_with t) mid = (t ≡ no_tail) × (mid ≡ s) × Stops limit (next_operator s)
  IsRound limit s (push a) mid =
      (next_operator s ≡ some a.0)
      × (limit < (binary_priority a.0).0)
      × Shaped (binary_priority a.0).1 a.1
      × Stops (binary_priority a.0).1 (next_operator mid)

  -- What a head is read to: a unary operator's operand is followed by what does not bind to it.
  abbrev IsHead : HeadExpression F S → Stream F S → Type 0
  IsHead h mid =
      (t : Tail F S) → ((k : ℕ) → Stops k (next_operator mid) → Below k t) → ShapedHead h t

  abbrev pub GivesShaped : Guarded F S → Type 0
  GivesShaped guarded =
      (limit : ℕ) (s : Stream F S)
      → Gives (λ e rest. Shaped limit e × Stops limit (next_operator rest))
          (guarded.parse_sub_expression limit s)

module _ {F S : Type 0} (guarded : Guarded F S) (shaped : GivesShaped guarded) where
  head_from-Gives :
      (op : Option UnaryOperator) (s : Stream F S) → Gives IsHead (head_from guarded op s)
  unfolding head_from ShapedHead
  head_from-Gives none s =
      Gives-and_then (any (parse_simple_expression guarded s)) λ e mid u. gives λ t below. tt
  head_from-Gives (some op) s = Gives-and_then (any (take_next s)) λ u s' v.
      Gives-and_then (shaped unary_priority s')
        λ e mid (sh, stops). gives λ t below. (below unary_priority stops, sh)

  operand-Gives :
      (limit : ℕ) (s : Stream F S) (o : Option BinaryOperator)
      → next_operator s ≡ o
      → Gives (IsRound limit s) (operand_for guarded limit o s)
  unfolding operand_of
  operand-Gives limit s none e = gives (refl, refl, subst (Stops limit) (sym e) tt)
  operand-Gives limit s (some op) e = elim (Bool-cases (leb (binary_priority op).0 limit)) [
    | inl le ↦ rw le (gives (refl, refl, subst (Stops limit) (sym e) (omega (tests, le))))
    | inr gt ↦ rw gt (
        Gives-and_then (any (take_next s)) λ u s' v.
          Gives-and_then (shaped (binary_priority op).1 s')
            λ right mid (sh, stops). gives (e, ground (arith, gt), sh, stops))
  ]

  IsRound-Gives :
      (limit : ℕ) (s : Stream F S) → Gives (IsRound limit s) (next_operand guarded limit s)
  unfolding next_operand
  IsRound-Gives limit s = Gives-and_then (look_ahead-Gives s) λ t s' (et, es).
      subst (λ u. Gives (IsRound limit s) (operand_for guarded limit (operator_of t) u)) (sym es)
        (operand-Gives limit s (operator_of t) (ap operator_of (sym et)))

  rounds-Gives :
      (limit n : ℕ) (s : Stream F S)
      → Gives (IsTail limit s) (rounds push_operand (next_operand guarded limit) n s)
  unfolding rounds ShapedTail Below
  rounds-Gives limit zero s = unfinished
  rounds-Gives limit (suc n) s =
      Gives-and_then (IsRound-Gives limit s) (after-Gives (rounds-Gives limit n))
    where
      after-Gives :
          ((mid : Stream F S)
            → Gives (IsTail limit mid) (rounds push_operand (next_operand guarded limit) n mid))
          → (r : Round (BinaryOperator × Expression F S) (Tail F S)) (mid : Stream F S)
          → IsRound limit s r mid
          → Gives (IsTail limit s) (
              after push_operand
                (next_operand guarded limit)
                (rounds push_operand (next_operand guarded limit) n)
                r
                mid)
      after-Gives ih (break_with t) mid (et, em, stops) =
          rw et (rw em (gives (tt, (λ k h. tt), stops)))
      after-Gives ih (push a) mid (eo, lt, sh, stops) =
          Gives-and_then (ih mid) λ t rest (st, below, last).
            gives (
              (lt, below (binary_priority a.0).1 stops, sh, st),
              (λ k h. subst (Stops k) eo h),
              last,
            )

  sub_expression-Gives :
      (limit : ℕ) (s : Stream F S)
      → Gives
          (λ e rest. Shaped limit e × Stops limit (next_operator rest))
          (sub_expression guarded limit s)
  unfolding sub_expression loop Shaped
  sub_expression-Gives limit s = Gives-and_then (any (get_next s)) λ t s' u.
      Gives-and_then (head_from-Gives (get_unary_operator t) s') λ h mid is_head.
        Gives-and_then (rounds-Gives limit (suc (size mid)) mid)
          λ tail rest (st, below, last). gives ((is_head tail below, st), last)

module _ {F S : Type 0} where
  shaped : (n : ℕ) → GivesShaped (recursion_guard {F = F} {S = S} n)
  unfolding recursion_guard
  shaped zero limit s = error
  shaped (suc n) limit s = sub_expression-Gives (recursion_guard n) (shaped n) limit s

  -- `P` holds of the value and what is left, or there is an error.
  pub data Returns {A : Type 0} (P : A → Stream F S → Type 0) : Parse F S A → Type 0 where
    returns : {a : A} {s : Stream F S} → P a s → Returns P (ok a s)
    returns_error : {e : ParserError F S} → Returns P (err e)

  Gives-Returns :
      {A : Type 0} {P : A → Stream F S → Type 0} {cost : A → ℕ} {s : Stream F S} {r : Parse F S A}
      → Leaves cost s r
      → Gives P r
      → Returns P r
  Gives-Returns l (gives h) = returns h
  Gives-Returns l error = returns_error
  Gives-Returns l unfinished = elim l [ ]

  -- Whatever tokens there are, `parse_sub_expression` comes to an error, or to an expression whose
  -- operators are as the priorities say: each binds more tightly than the limit, and none to an
  -- operand before it; the token that follows is no operator that binds more tightly than the
  -- limit. No loop runs out of fuel.
  pub parse_sub_expression-Shaped :
      (n limit : ℕ) (s : Stream F S)
      → Returns
          (λ e rest. Shaped limit e × Stops limit (next_operator rest))
          ((recursion_guard n).parse_sub_expression limit s)
  parse_sub_expression-Shaped n limit s =
      Gives-Returns (((recursion_guard-Takes n).parse_sub_expression-Takes limit).run s)
        (shaped n limit s)
