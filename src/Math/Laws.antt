-- ===== src/Math/Laws.antt =====
-- src/stdlib/math.rs: `max` and `min` of integers, and the range of `random`.
use Prim.Native.String.{String}
use luster.Prelude.{
  ℕ, ◌+◌, ◌%◌, ◌≡◌, refl, sym, ◌∙◌, ◌⊎◌, inl, inr, Bool, true, false, not, List, [], ◌∷◌, map, has,
  ◌&&◌, if◌then◌else◌, Bool-cases, ◌==◌, arith,
}
use luster.Prelude.Run.{done, panic}
use luster.Prelude.Result.{Result, ok}
use luster.I64
use luster.I64.{modulus, half, max_value}
use luster.I64.Laws.{IsI64}
use luster.Float.{Float}
use luster.Value
use luster.Value.{Value}
use luster.Math
use luster.Math.{Rng, Answer, Values, max_step, min_step, try_fold, negative_infinity, go_on}

-- `g` is one of the numbers, and no number is better.
abbrev pub Best : (ℕ → ℕ → Bool) → ℕ → List ℕ → Type 0
Best better g ns = (has g ns ≡ true) × ((k : ℕ) → has k ns ≡ true → better g k ≡ false)

-- `n` is less than `m`.
abbrev pub smaller : ℕ → ℕ → Bool
smaller m n = I64.lt n m

module _ ⦃fl : Float⦄ where
  abbrev pub integers : List ℕ → Values
  integers ns = map Value.integer ns

  module _ (step : Value fl.F64 → Value fl.F64 → Result String (Value fl.F64))
      (better : ℕ → ℕ → Bool)
      (steps : (m n : ℕ)
        → step (Value.integer m) (Value.integer n)
          ≡ ok (if better m n then Value.integer n else Value.integer m))
      (asymmetric : (m n : ℕ) → better m n ≡ true → better n m ≡ false)
      (transitive : (g m n : ℕ)
        → better g m ≡ false
        → better m n ≡ false
        → better g n ≡ false) where
    Best-better :
        (g m n : ℕ) (ns : List ℕ)
        → better m n ≡ true
        → Best better g (n ∷ ns)
        → Best better g (m ∷ n ∷ ns)
    Best-better g m n ns e (mem, best) = (
      grind arith,
      λ k h. elim (Bool-cases (k == m)) [
        | inl same ↦
            let eq : k ≡ m = ground arith in
            rw eq (transitive g n m (best n (ground arith)) (asymmetric m n e))
        | inr other ↦ best k (grind arith)
      ],
    )

    Best-not_better :
        (g m n : ℕ) (ns : List ℕ)
        → better m n ≡ false
        → Best better g (m ∷ ns)
        → Best better g (m ∷ n ∷ ns)
    Best-not_better g m n ns e (mem, best) = (
      grind arith,
      λ k h. elim (Bool-cases (k == n)) [
        | inl same ↦
            let eq : k ≡ n = ground arith in rw eq (transitive g m n (best m (ground arith)) e)
        | inr other ↦ best k (grind arith)
      ],
    )

    irreflexive : (m : ℕ) → better m m ≡ false
    irreflexive m = elim (Bool-cases (better m m)) [ inl e ↦ asymmetric m m e | inr e ↦ e ]

    -- A fold of integers that keeps the better one comes to the best.
    try_fold-Best :
        (ns : List ℕ) (m : ℕ)
        → (g : ℕ) × (try_fold step (integers ns) (Value.integer m) ≡ ok (Value.integer g))
          × Best better g (m ∷ ns)
    unfolding try_fold
    try_fold-Best [] m =
        (m, refl, (ground arith, λ k h. let eq : k ≡ m = ground arith in rw eq (irreflexive m)))
    try_fold-Best (n ∷ ns) m = elim (Bool-cases (better m n)) [
      | inl e ↦
          let (g, eq, best) = try_fold-Best ns n in
          (g, rw (steps m n) (rw e eq), Best-better g m n ns e best)
      | inr e ↦
          let (g, eq, best) = try_fold-Best ns m in
          (g, rw (steps m n) (rw e eq), Best-not_better g m n ns e best)
    ]

  lt-asymmetric : (m n : ℕ) → I64.lt m n ≡ true → I64.lt n m ≡ false
  unfolding I64.lt
  lt-asymmetric m n h = ground arith

  lt-transitive : (g m n : ℕ) → I64.lt g m ≡ false → I64.lt m n ≡ false → I64.lt g n ≡ false
  unfolding I64.lt
  lt-transitive g m n h k = ground arith

  max_step-integers :
      (m n : ℕ)
      → max_step (Value.integer m) (Value.integer n)
        ≡ ok (if I64.lt m n then Value.integer n else Value.integer m)
  unfolding max_step Value.less_than Value.integers
  max_step-integers m n = refl

  min_step-integers :
      (m n : ℕ)
      → min_step (Value.integer m) (Value.integer n)
        ≡ ok (if smaller m n then Value.integer n else Value.integer m)
  unfolding min_step Value.less_than Value.integers
  min_step-integers m n = refl

  max_step-first :
      (n : ℕ)
      → fl.lt negative_infinity (fl.of_ℤ (I64.to_ℤ n)) ≡ true
      → max_step (Value.number negative_infinity) (Value.integer n) ≡ ok (Value.integer n)
  unfolding max_step Value.less_than Value.integers Value.strings Value.compare_numbers
      Value.to_number
  max_step-first n h = rw h refl

  min_step-first :
      (n : ℕ)
      → fl.lt (fl.of_ℤ (I64.to_ℤ n)) fl.infinity ≡ true
      → min_step (Value.number fl.infinity) (Value.integer n) ≡ ok (Value.integer n)
  unfolding min_step Value.less_than Value.integers Value.strings Value.compare_numbers
      Value.to_number
  min_step-first n h = rw h refl

  -- `max` and `min` of a list of integers that is not empty return two of them, no argument is
  -- greater than what `max` returns, and none is less than what `min` returns. The hypotheses say
  -- that the first argument, as a float, is between the infinities.
  pub max-min-Best :
      (n : ℕ) (ns : List ℕ)
      → fl.lt negative_infinity (fl.of_ℤ (I64.to_ℤ n)) ≡ true
      → fl.lt (fl.of_ℤ (I64.to_ℤ n)) fl.infinity ≡ true
      → (greatest : ℕ) × (least : ℕ) × (Math.max (integers (n ∷ ns))
          ≡ done (ok (Value.integer greatest ∷ [])))
        × Best I64.lt greatest (n ∷ ns)
        × (Math.min (integers (n ∷ ns)) ≡ done (ok (Value.integer least ∷ [])))
        × Best smaller least (n ∷ ns)
  unfolding Math.max Math.min try_fold
  max-min-Best n ns above below =
      let (greatest, max_eq, most) =
        try_fold-Best max_step I64.lt max_step-integers lt-asymmetric lt-transitive ns n in
      let (least, min_eq, fewest) =
        try_fold-Best min_step smaller min_step-integers (λ m k h. lt-asymmetric k m h)
          (λ g m k h i. lt-transitive k m g i h) ns n in
      (
        greatest,
        least,
        rw (max_step-first n above) (rw max_eq refl),
        most,
        rw (min_step-first n below) (rw min_eq refl),
        fewest,
      )

flip_sign-next :
    (b : ℕ)
    → IsI64 b
    → b == max_value ≡ false
    → I64.flip_sign ((b + 1) % modulus) ≡ I64.flip_sign b + 1
flip_sign-next b bound e = ground arith

-- `a < b + 1` is `a <= b`.
lt-next : (a b : ℕ) → IsI64 b → b == max_value ≡ false → I64.lt a ((b + 1) % modulus) ≡ I64.le a b
unfolding I64.lt I64.le
lt-next a b bound e = rw (flip_sign-next b bound e) (ground arith)

checked_sum-next :
    (b : ℕ) → IsI64 b → b == max_value ≡ false → I64.checked_sum b 1 ≡ done ((b + 1) % modulus)
unfolding I64.checked_sum
checked_sum-next b bound e = ground arith

checked_sum-last : (b : ℕ) → b == max_value ≡ true → I64.checked_sum b 1 ≡ panic
unfolding I64.checked_sum
checked_sum-last b e = let eq : b ≡ max_value = ground arith in rw eq refl

-- What `gen_range` of an integer range does: it panics on an empty one.
pub record GenRange {F R : Type 0} (rng : Rng F R) : Type 0 where
  pub draws :
      (low high : ℕ) (r : R)
      → I64.lt low high ≡ true
      → (n : ℕ) × (after : R) × (rng.gen_range low high r ≡ done (n, after))
        × (I64.le low n ≡ true)
        × (I64.lt n high ≡ true)
  pub empty : (low high : ℕ) (r : R) → I64.lt low high ≡ false → rng.gen_range low high r ≡ panic

module _ ⦃fl : Float⦄ {R : Type 0} (rng : Rng fl.F64 R) (laws : GenRange rng) where
  abbrev pub Draws : ℕ → ℕ → R → Type 0
  Draws a b r =
      (n : ℕ) × (after : R) × (Math.random rng (integers (a ∷ b ∷ [])) r
        ≡ done (ok (Value.integer n ∷ [], after)))
      × (I64.le a n ≡ true)
      × (I64.le n b ≡ true)

  -- `random` of two integers `a` and `b` returns an integer from `a` to `b` if `a <= b` and `b` is
  -- not the greatest integer, and panics otherwise. `laws` says that `gen_range` draws from the
  -- half-open range, and panics if that is empty.
  pub random-cases :
      (a b : ℕ) (r : R)
      → IsI64 a
      → IsI64 b
      → ((I64.le a b && not (b == max_value) ≡ true) × Draws a b r)
        ⊎ ((I64.le a b && not (b == max_value) ≡ false)
            × (Math.random rng (integers (a ∷ b ∷ [])) r ≡ panic))
  unfolding Math.random Value.to_integer
  random-cases a b r bound_a bound_b = elim (Bool-cases (b == max_value)) [
    | inl e ↦ inr (rw e (ground arith), rw (checked_sum-last b e) refl)
    | inr e ↦ elim (Bool-cases (I64.le a b)) [
      | inl f ↦ inl (
        rw f (rw e refl),
        let (n, after, eq, low, high) =
              laws.draws a ((b + 1) % modulus) r (lt-next a b bound_b e ∙ f) in
            (
              n,
              after,
              rw (checked_sum-next b bound_b e) (rw eq refl),
              low,
              sym (lt-next n b bound_b e) ∙ high,
            ),
      )
      | inr f ↦ inr (
        rw f refl,
        rw (checked_sum-next b bound_b e)
            (rw (laws.empty a ((b + 1) % modulus) r (lt-next a b bound_b e ∙ f)) refl),
      )
    ]
  ]
