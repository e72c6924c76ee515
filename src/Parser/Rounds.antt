-- ===== src/Parser/Rounds.antt =====
-- src/parser.rs: a loop, one round at a time, whatever its fuel.
use luster.Prelude.{ℕ, zero, suc, ◌≤◌, ◌<◌, ◌≡◌, refl, ap, arith}
use luster.Parser.Stream.{
  Stream, Parse, ok, Method, and_then, Round, break_with, push, size, after, rounds, loop,
}
use luster.Parser.Takes.{Leaves, left, failed, round_cost, TakesRound}

module _ {F S A L : Type 0} where
  pushed-size :
      {s rest : Stream F S} {a : A} {r : Parse F S (Round A L)}
      → Leaves round_cost s r
      → r ≡ ok (push a) rest
      → size rest < size s
  pushed-size failed e = cc
  pushed-size (left {a = break_with l} le h) e = cc
  pushed-size (left {a = push b} le h) e = ground (arith, le, e)

module _ {F S A L : Type 0} (cons : A → L → L) (round : Method F S (Round A L)) where
  after-agree :
      (m k : Method F S L) {s : Stream F S} {r : Parse F S (Round A L)}
      → Leaves round_cost s r
      → ((rest : Stream F S) → suc (size rest) ≤ size s → m rest ≡ k rest)
      → and_then r (after cons round m) ≡ and_then r (after cons round k)
  after-agree m k failed agree = refl
  after-agree m k (left {a = break_with l} le e) agree = refl
  after-agree m k (left {a = push a} {rest} le e) agree =
      ap (λ p. and_then p λ l s. ok (cons a l) s) (agree rest (omega (arith, le)))

  rounds-agree :
      TakesRound round
      → (j k : ℕ) (s : Stream F S) → size s < j
      → size s < k
      → rounds cons round j s ≡ rounds cons round k s
  unfolding rounds
  rounds-agree takes zero k s hj hk = absurd (omega arith)
  rounds-agree takes (suc j) zero s hj hk = absurd (omega arith)
  rounds-agree takes (suc j) (suc k) s hj hk =
      after-agree (rounds cons round j) (rounds cons round k) (takes.run s)
        λ rest le. rounds-agree takes j k rest (omega (arith, le, hj)) (omega (arith, le, hk))

  pub loop-break :
      {s rest : Stream F S} {l : L}
      → round s ≡ ok (break_with l) rest
      → loop cons round s ≡ ok l rest
  unfolding loop rounds
  loop-break e = rw e

  pub loop-push :
      {s rest rest' : Stream F S} {a : A} {l : L}
      → TakesRound round
      → round s ≡ ok (push a) rest
      → loop cons round rest ≡ ok l rest'
      → loop cons round s ≡ ok (cons a l) rest'
  unfolding loop rounds
  loop-push {s} {rest} takes e h =
      let lt = pushed-size (takes.run s) e in
      rw e (rw (rounds-agree takes (size s) (suc (size rest)) rest lt (omega arith)) (rw h))
