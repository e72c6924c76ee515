-- ===== src/Math/Tests.antt =====
-- Tests of the model of src/stdlib/math.rs.
use luster.Prelude.{
  ℕ, suc, ◌+◌, ◌-◌, ◌^◌, ◌≡◌, refl, inl, inr, ◌⊎◌, Bool, true, false, not, ◌&&◌, ◌==◌, Bool-cases,
  List, [], ◌∷◌, arith, if◌then◌else◌,
}
use luster.Prelude.Run.{done, panic}
use luster.Prelude.Result.{ok}
use luster.I64
use luster.I64.{max_value}
use luster.Float.Whole.{Whole, whole, wholes}
use luster.Value
use luster.Math
use luster.Math.{Rng, try_fold}
use luster.Math.Laws
use luster.Math.Laws.{Best, GenRange, Draws, integers, smaller}

-- `math.max(7, -1, 9)`.
abbrev others : List ℕ
others = 18446744073709551615 ∷ 9 ∷ []

max_test :
    Math.max ⦃fl = wholes⦄ (integers ⦃fl = wholes⦄ (7 ∷ others)) ≡ done (ok (Value.integer 9 ∷ []))
unfolding Math.max try_fold Math.max_step Value.less_than Value.integers Value.strings
    Value.compare_numbers Value.to_number I64.lt luster.Float.Whole.lt luster.Float.Whole.both
max_test = refl

max-min-Best_example :
    (greatest : ℕ) × (least : ℕ) × (Math.max ⦃fl = wholes⦄ (integers ⦃fl = wholes⦄ (7 ∷ others))
      ≡ done (ok (Value.integer greatest ∷ [])))
    × Best I64.lt greatest (7 ∷ others)
    × (Math.min ⦃fl = wholes⦄ (integers ⦃fl = wholes⦄ (7 ∷ others))
        ≡ done (ok (Value.integer least ∷ [])))
    × Best smaller least (7 ∷ others)
unfolding luster.Float.Whole.lt luster.Float.Whole.both luster.Prelude.Int.◌-ℤ◌
max-min-Best_example = Laws.max-min-Best ⦃fl = wholes⦄ 7 others refl refl

-- A generator that draws the lower bound.
abbrev lowest : Rng Whole ℕ
lowest = record {
  gen = λ r. (whole (package.luster.Prelude.Int.pos 0), suc r);
  gen_range = λ low high r. if I64.lt low high then done (low, suc r) else panic;
  seed_from_u64 = λ n. n;
}

lowest-GenRange : GenRange lowest
unfolding I64.lt I64.le
lowest-GenRange = record {
  draws = λ low high r h. (low, suc r, rw h refl, ground arith, h);
  empty = λ low high r h. rw h refl;
}

random-cases_example :
    ((I64.le 3 6 && not (6 == max_value) ≡ true) × Draws ⦃fl = wholes⦄ lowest lowest-GenRange 3 6 0)
    ⊎ ((I64.le 3 6 && not (6 == max_value) ≡ false)
        × (Math.random ⦃fl = wholes⦄ lowest (integers ⦃fl = wholes⦄ (3 ∷ 6 ∷ [])) 0 ≡ panic))
random-cases_example =
    Laws.random-cases ⦃fl = wholes⦄ lowest lowest-GenRange 3 6 0 (ground arith) (ground arith)
