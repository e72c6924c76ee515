-- ===== src/Parser/Takes.antt =====
-- src/parser.rs: how many tokens a method takes, and the loops.
use luster.Prelude.{
  ℕ, zero, suc, ◌+◌, ◌≤◌, ◌<◌, ◌≡◌, ◌≢◌, refl, Bool, true, false, Option, none, some, if◌then◌else◌,
  arith,
}
use luster.Lexer.Reading.{LexerError}
use luster.Lexer.Tokens
use luster.Lexer.Tokens.{Token}
use luster.Parser.Stream.{
  Stream, at_end, fails, next, ParserError, end_of_stream, Parse, ok, err, out_of_fuel, Method,
  and_then, ◌>>=◌, ◌>>◌, pure, fail, fail_if, or_fail, failure, buffered, remove_or, get,
  read_ahead, get_next, take_next, look_ahead, check_ahead, expect_next, expect_name, expect_string,
  name_of, string_of, is_token, matches, Round, break_with, push, size, after, rounds, loop,
}
pub mod Expressions
pub mod Suffixes
pub mod Statements
pub mod Chunk

abbrev pub round_cost : {A L : Type 0} → Round A L → ℕ
round_cost (break_with l) = 0
round_cost (push a) = 1

module _ {F S : Type 0} where
  -- The error that the stream ends in.
  unfoldable pub ending : Stream F S → Option LexerError
  ending at_end = none
  ending (fails e) = some e
  ending (next t s) = ending s

  -- From `s` on: an error, or a value with `cost` tokens taken at least. No loop ran out of fuel.
  pub data Leaves {A : Type 0} (cost : A → ℕ) (s : Stream F S) : Parse F S A → Type 0 where
    left :
        {a : A} {rest : Stream F S}
        → size rest + cost a ≤ size s
        → ending rest ≡ ending s
        → Leaves cost s (ok a rest)
    failed : {e : ParserError F S} → Leaves cost s (err e)

  pub record Costs {A : Type 0} (cost : A → ℕ) (m : Method F S A) : Type 0 where
    pub run : (s : Stream F S) → Leaves cost s (m s)

  -- At least `k` tokens are taken.
  abbrev pub Takes : {A : Type 0} → ℕ → Method F S A → Type 0
  Takes {A} k m = Costs {A = A} (λ a. k) m

  -- A round of a loop: a token is taken at least if something is pushed.
  abbrev pub TakesRound : {A L : Type 0} → Method F S (Round A L) → Type 0
  TakesRound {A} {L} m = Costs {A = Round A L} round_cost m

  Leaves-more :
      {A B : Type 0} (j : A → ℕ) {k l : B → ℕ} {s rest : Stream F S} (a : A) {r : Parse F S B}
      → size rest + j a ≤ size s
      → ending rest ≡ ending s
      → Leaves k rest r
      → ((b : B) → l b ≤ j a + k b)
      → Leaves l s r
  Leaves-more j a lt e failed le = failed
  Leaves-more j a lt e (left {a = b} lt' e') le = left (omega (arith, lt, lt', le b)) (cc)

  Leaves-and_then :
      {A B : Type 0} {j : A → ℕ} {k l : B → ℕ} {s : Stream F S} {r : Parse F S A}
      {f : A → Method F S B}
      → Leaves j s r
      → ((a : A) (rest : Stream F S) → Leaves k rest (f a rest))
      → ((a : A) (b : B) → l b ≤ j a + k b)
      → Leaves l s (and_then r f)
  Leaves-and_then failed h le = failed
  Leaves-and_then {j} (left {a} {rest} lt e) h le = Leaves-more j a lt e (h a rest) (le a)

  Costs-bind :
      {A B : Type 0} {j : A → ℕ} {k l : B → ℕ} {m : Method F S A} {f : A → Method F S B}
      → Costs j m
      → ((a : A) → Costs k (f a))
      → ((a : A) (b : B) → l b ≤ j a + k b)
      → Costs l (m >>= f)
  Costs-bind h g le = record { run = λ s. Leaves-and_then (h.run s) (λ a rest. (g a).run rest) le }

  -- The value costs what the rest of the block costs.
  pub reading :
      {A B : Type 0} {k : B → ℕ} {m : Method F S A} {f : A → Method F S B}
      → Takes 0 m
      → ((a : A) → Costs k (f a))
      → Costs k (m >>= f)
  reading h g = Costs-bind h g λ a b. omega arith

  -- A token is taken in front of the rest of the block.
  pub taking :
      {A B : Type 0} {m : Method F S A} {f : A → Method F S B}
      → Takes 1 m
      → ((a : A) → Takes 0 (f a))
      → Takes 1 (m >>= f)
  taking h g = Costs-bind h g λ a b. omega arith

  pub taking_round :
      {A B L : Type 0} {m : Method F S A} {f : A → Method F S (Round B L)}
      → Takes 1 m
      → ((a : A) → Takes 0 (f a))
      → TakesRound (m >>= f)
  taking_round h g = Costs-bind h g λ a b. ground arith

  Leaves-weaken :
      {A : Type 0} {s : Stream F S} {r : Parse F S A} → Leaves (λ a. 1) s r → Leaves (λ a. 0) s r
  Leaves-weaken failed = failed
  Leaves-weaken (left lt e) = left (omega (arith, lt)) e

  pub weaken : {A : Type 0} {m : Method F S A} → Takes 1 m → Takes 0 m
  weaken h = record { run = λ s. Leaves-weaken (h.run s) }

  pub Takes-pure : {A : Type 0} (a : A) → Takes 0 (pure {F = F} {S = S} a)
  Takes-pure a = record { run = λ s. left (omega arith) refl }

  pub Costs-fail : {A : Type 0} {k : A → ℕ} (e : ParserError F S) → Costs k (fail {A = A} e)
  Costs-fail e = record { run = λ s. failed }

  pub Round-break :
      {A L : Type 0} (l : L) → TakesRound {A = A} {L = L} (pure {F = F} {S = S} (break_with l))
  Round-break l = record { run = λ s. left (omega arith) refl }

  pub Costs-if :
      {A : Type 0} {k : A → ℕ} (b : Bool) {x y : Method F S A}
      → Costs k x
      → Costs k y
      → Costs k (if b then x else y)
  Costs-if true hx hy = hx
  Costs-if false hx hy = hy

  read_ahead-Takes : (n : ℕ) → Takes 0 (read_ahead {F = F} {S = S} n)
  unfolding read_ahead
  read_ahead-Takes n = record { run = λ s. by_failure (failure n s) s }
    where
      by_failure : (o : Option LexerError) (s : Stream F S) → Leaves (λ a. 0) s (fail_if o s)
      by_failure none s = left (omega arith) refl
      by_failure (some e) s = failed

  get-Takes : (n : ℕ) → Takes 0 (get {F = F} {S = S} n)
  get-Takes n = record { run = λ s. left (omega arith) refl }

  remove_or-Takes : (e : ParserError F S) → Takes 1 (remove_or e)
  unfolding size ending
  remove_or-Takes e = record { run = run }
    where
      run : (s : Stream F S) → Leaves (λ a. 1) s (remove_or e s)
      run at_end = failed
      run (fails f) = failed
      run (next t s) = left (omega arith) refl

  or_fail-Takes : {A : Type 0} (e : ParserError F S) (o : Option A) → Takes 0 (or_fail e o)
  or_fail-Takes e none = Costs-fail e
  or_fail-Takes e (some a) = Takes-pure a

  pub get_next-Takes : Takes 0 (get_next {F = F} {S = S})
  unfolding get_next
  get_next-Takes =
      reading (read_ahead-Takes 1)
        λ _. reading (get-Takes 0) λ o. or_fail-Takes (end_of_stream none) o

  pub take_next-Takes : Takes 1 (take_next {F = F} {S = S})
  unfolding take_next
  take_next-Takes = reading (read_ahead-Takes 1) λ _. remove_or-Takes _

  pub look_ahead-Takes : (n : ℕ) → Takes 0 (look_ahead {F = F} {S = S} n)
  unfolding look_ahead
  look_ahead-Takes n = reading (read_ahead-Takes (n + 1)) λ _. get-Takes n

  pub check_ahead-Takes : (n : ℕ) (t : Token F S) → Takes 0 (check_ahead n t)
  unfolding check_ahead
  check_ahead-Takes n t =
      reading (read_ahead-Takes n) λ _. reading (get-Takes n) λ o. Takes-pure (matches t o)

  pub expect_next-Takes : (t : Token F S) → Takes 1 (expect_next t)
  unfolding expect_next
  expect_next-Takes t =
      reading (read_ahead-Takes 1)
        λ _. taking (remove_or-Takes _) λ u. Costs-if (is_token u t) (Takes-pure tt) (Costs-fail _)

  name_of-Takes : (t : Token F S) → Takes 0 (name_of t)
  name_of-Takes (Token.name n) = Takes-pure n
  name_of-Takes Token.minus = Costs-fail _
  name_of-Takes _ = Costs-fail _

  pub expect_name-Takes : Takes 1 (expect_name {F = F} {S = S})
  unfolding expect_name
  expect_name-Takes =
      reading (read_ahead-Takes 1) λ _. taking (remove_or-Takes _) λ t. name_of-Takes t

  string_of-Takes : (t : Token F S) → Takes 0 (string_of t)
  string_of-Takes (Token.string n) = Takes-pure n
  string_of-Takes Token.minus = Costs-fail _
  string_of-Takes _ = Costs-fail _

  pub expect_string-Takes : Takes 1 (expect_string {F = F} {S = S})
  unfolding expect_string
  expect_string-Takes =
      reading (read_ahead-Takes 1) λ _. taking (remove_or-Takes _) λ t. string_of-Takes t

  -- A loop whose rounds take a token each does not run out of fuel.
  module _ {A L : Type 0} (cons : A → L → L) (round : Method F S (Round A L)) where
    rounds-Leaves :
        TakesRound round
        → (n : ℕ) (s : Stream F S) → size s < n
        → Leaves (λ l. 0) s (rounds cons round n s)
    unfolding rounds
    rounds-Leaves h zero s lt = absurd (omega arith)
    rounds-Leaves h (suc n) s lt = again (λ rest. rounds-Leaves h n rest) (h.run s)
      where
        again :
            ((rest : Stream F S) → size rest < n → Leaves (λ l. 0) rest (rounds cons round n rest))
            → {r : Parse F S (Round A L)} → Leaves round_cost s r
            → Leaves (λ l. 0) s (and_then r (after cons round (rounds cons round n)))
        again ih failed = failed
        again ih (left {a = break_with l} le e) = left le e
        again ih (left {a = push a} {rest} le e) =
            Leaves-more (λ l. 0) {k = λ l. 0} tt (omega (arith, le)) e
              (Leaves-and_then {j = λ l. 0} {k = λ l. 0} (ih rest (omega (arith, le, lt)))
                (λ l s'. left (omega arith) refl) (λ a b. omega arith))
              (λ b. omega arith)

    pub loop-Takes : TakesRound round → Takes 0 (loop cons round)
    unfolding loop
    loop-Takes h = record { run = λ s. rounds-Leaves h (suc (size s)) s (omega arith) }
