-- ===== src/Table/Search.antt =====
-- The two loops of `TableState::length`, over the tests that it passes to them. The numbers are
-- `i64`s that are not negative.
use luster.Prelude.{
  ℕ, zero, suc, ◌+◌, ◌-◌, ◌*◌, ◌/◌, ◌^◌, ◌≤◌, ◌<◌, ◌≡◌, ◌≢◌, refl, sym, ap, ◌∙◌, ◌⊎◌, inl, inr,
  Bool, true, false, Option, none, some, arith, ltb, ◌==◌, if◌then◌else◌, Bool-cases, subst,
}
use native.Mathlib.Nat.{pow-suc, mul_assoc, mul_comm}
use luster.I64.{max_value}

-- `binary_search`, on fuel: `k` rounds suffice for `max - min <= 2 ^ k`.
unfoldable pub binary_search : ℕ → ℕ → ℕ → (ℕ → Bool) → ℕ
binary_search zero min max is_nil = min
binary_search (suc fuel) min max is_nil =
    let mid = min + (max - min) / 2 in
    let rest =
      binary_search fuel (if is_nil mid then min else mid) (if is_nil mid then mid else max)
        is_nil in
    if ltb 1 (max - min) then rest else min

-- The loop that looks for a key that the map does not hold, from `max` on; `none` where the code
-- returns `i64::MAX`. 64 rounds suffice.
unfoldable pub find_nil : ℕ → ℕ → (ℕ → Bool) → Option ℕ
find_nil zero max contains = none
find_nil (suc fuel) max contains =
    let rest = find_nil fuel (if ltb (max * 2) (2 ^ 63) then max * 2 else max_value) contains in
    if contains max then if max == max_value then none else rest else some max

-- What a binary search between `min` and `max` leaves.
pub record Found (min max : ℕ) (is_nil : ℕ → Bool) (r : ℕ) : Type 0 where
  pub from : min ≤ r
  pub before : r < max
  pub held : r ≢ min → is_nil r ≡ false
  pub next_nil : is_nil (r + 1) ≡ true

last_round :
    (min max : ℕ) (is_nil : ℕ → Bool) → max ≡ min + 1 → is_nil max ≡ true → Found min max is_nil min
last_round min max is_nil h e = record {
  from = omega arith;
  before = omega arith;
  held = λ ne. absurd (ne refl);
  next_nil = subst (λ x. is_nil x ≡ true) h e;
}

pub binary_search-Found :
    (fuel min max : ℕ) (is_nil : ℕ → Bool)
    → min < max
    → max ≤ min + 2 ^ fuel
    → is_nil max ≡ true
    → Found min max is_nil (binary_search fuel min max is_nil)
unfolding binary_search
binary_search-Found zero min max is_nil h k e = last_round min max is_nil (omega arith) e
binary_search-Found (suc fuel) min max is_nil h k e =
    let mid = min + (max - min) / 2 in
    let half : (max - min) / 2 ≤ 2 ^ fuel = omega (arith, pow-suc 2 fuel) in
    let other : max - min - (max - min) / 2 ≤ 2 ^ fuel = omega (arith, pow-suc 2 fuel) in
    elim (Bool-cases (ltb 1 (max - min))) [
      | inr stop ↦ rw stop (last_round min max is_nil (ground arith) e)
      | inl more ↦ elim (Bool-cases (is_nil mid)) [
        | inl low ↦
            let f = binary_search-Found fuel min mid is_nil (ground arith) (omega arith) low in
            rw (more, low)
              (record {
                from = f.from;
                before = omega (arith, f.before);
                held = f.held;
                next_nil = f.next_nil;
              })
        | inr high ↦
            let f = binary_search-Found fuel mid max is_nil (ground arith) (omega arith) e in
            rw (more, high)
              (record {
                from = omega (arith, f.from);
                before = f.before;
                held = λ ne. elim (Bool-cases (binary_search fuel mid max is_nil == mid)) [
                  | inl same ↦ subst (λ x. is_nil x ≡ false) (sym (ground arith)) high
                  | inr apart ↦ f.held (ground arith)
                ];
                next_nil = f.next_nil;
              })
      ]
    ]

-- What the search for a missing key leaves.
abbrev pub Missing : ℕ → (ℕ → Bool) → Option ℕ → Type 0
Missing max contains none = contains max_value ≡ true
Missing max contains (some m) = (contains m ≡ false) × (max ≤ m) × (m ≤ max_value)

weaken :
    (a b : ℕ) (contains : ℕ → Bool) (o : Option ℕ)
    → a ≤ b
    → Missing b contains o
    → Missing a contains o
weaken a b contains none h m = m
weaken a b contains (some x) h (m, l, u) = (m, omega arith, u)

doubled : (max fuel : ℕ) → max * 2 ^ suc fuel ≡ max * 2 * 2 ^ fuel
doubled max fuel =
    ap (λ x. max * x) (pow-suc 2 fuel)
    ∙ ap (λ x. max * x) (mul_comm (2 ^ fuel) 2)
    ∙ sym (mul_assoc max 2 (2 ^ fuel))

still_large :
    (fuel max : ℕ)
    → (2 ^ 64 ≤ max * 2 ^ suc fuel) ⊎ ((max ≡ max_value) × (1 ≤ suc fuel))
    → max ≢ max_value
    → 2 ^ 64 ≤ max * 2 * 2 ^ fuel
still_large fuel max (inl l) ne = subst (λ x. 2 ^ 64 ≤ x) (doubled max fuel) l
still_large fuel max (inr (e, _)) ne = absurd (ne e)

some_fuel :
    (fuel max : ℕ) → max ≤ max_value → max ≢ max_value → 2 ^ 64 ≤ max * 2 * 2 ^ fuel → 1 ≤ fuel
some_fuel zero max h ne l = absurd (omega arith)
some_fuel (suc fuel) max h ne l = omega arith

pub find_nil-Missing :
    (fuel max : ℕ) (contains : ℕ → Bool)
    → max ≤ max_value
    → (2 ^ 64 ≤ max * 2 ^ fuel) ⊎ ((max ≡ max_value) × (1 ≤ fuel))
    → Missing max contains (find_nil fuel max contains)
unfolding find_nil
find_nil-Missing zero max contains h k = absurd (omega arith)
find_nil-Missing (suc fuel) max contains h k = elim (Bool-cases (contains max)) [
  | inr free ↦ rw free (free, omega arith, h)
  | inl used ↦ elim (Bool-cases (max == max_value)) [
    | inl last ↦ rw (used, last) (subst (λ x. contains x ≡ true) (ground arith) used)
    | inr more ↦
        let large = still_large fuel max k (ground arith) in
        elim (Bool-cases (ltb (max * 2) (2 ^ 63))) [
          | inl fits ↦
              rw (used, more, fits)
                (weaken max (max * 2) contains _ (omega arith)
                  (find_nil-Missing fuel (max * 2) contains (ground arith) (inl large)))
          | inr over ↦
              rw (used, more, over)
                (weaken max max_value contains _ h (
                  find_nil-Missing fuel max_value contains (omega arith)
                    (inr (refl, some_fuel fuel max h (ground arith) large))))
        ]
  ]
]
