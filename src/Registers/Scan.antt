-- ===== src/Registers/Scan.antt =====
-- The two loops of the register allocator.
use luster.Prelude.{
  ℕ, zero, suc, ◌+◌, ◌-◌, ◌≤◌, ◌<◌, ◌≡◌, inl, inr, Bool, true, false, arith, ltb, ◌==◌, Bool-cases,
  subst,
}
use luster.Registers.{next_free, trim}

-- The loop stops in range, at a free index or at 256, and everything that it passed is in use.
pub record Scanned (regs : ℕ → Bool) (i r : ℕ) : Type 0 where
  pub from : i ≤ r
  pub within : r ≤ 256
  pub found : r < 256 → regs r ≡ false
  pub passed : (j : ℕ) → i ≤ j → j < r → regs j ≡ true

Scanned-step :
    {regs : ℕ → Bool} {i r : ℕ} → regs i ≡ true → Scanned regs (i + 1) r → Scanned regs i r
Scanned-step {regs} {i} {r} e s = record {
  from = omega (arith, s.from);
  within = s.within;
  found = s.found;
  passed = λ j h k. grind (arith, s.passed);
}

Scanned-here : {regs : ℕ → Bool} {i : ℕ} → i ≤ 256 → (i < 256 → regs i ≡ false) → Scanned regs i i
Scanned-here h f = record {
  from = omega arith;
  within = h;
  found = f;
  passed = λ j l m. absurd (omega arith);
}

pub next_free-Scanned :
    (fuel : ℕ) (regs : ℕ → Bool) (i : ℕ)
    → i ≤ 256
    → 256 ≤ i + fuel
    → Scanned regs i (next_free fuel regs i)
unfolding next_free
next_free-Scanned zero regs i h k = Scanned-here h (λ l. absurd (omega arith))
next_free-Scanned (suc fuel) regs i h k = elim (Bool-cases (i == 256)) [
  | inl e ↦ rw e (Scanned-here h (λ l. absurd (ground arith)))
  | inr e ↦ elim (Bool-cases (regs i)) [
    | inl used ↦
        rw (e, used)
          (Scanned-step used (next_free-Scanned fuel regs (i + 1) (ground arith) (omega arith)))
    | inr unused ↦ rw (e, unused) (Scanned-here h (λ l. unused))
  ]
]

-- What `trim` leaves: nothing is in use from `t` up to the old top, and the index below `t` is.
pub record Trimmed (regs : ℕ → Bool) (first top t : ℕ) : Type 0 where
  pub from : first ≤ t
  pub within : t ≤ top
  pub last : first < t → regs (t - 1) ≡ true
  pub cleared : (j : ℕ) → t ≤ j → j < top → regs j ≡ false

trim-Trimmed_sum :
    (regs : ℕ → Bool) (first n : ℕ) → Trimmed regs first (first + n) (trim regs first n (first + n))
unfolding trim
trim-Trimmed_sum regs first zero = record {
  from = omega arith;
  within = omega arith;
  last = λ h. absurd (omega arith);
  cleared = λ j h k. absurd (omega arith);
}
trim-Trimmed_sum regs first (suc n) = elim (Bool-cases (regs (first + n))) [
  | inl used ↦ rw used (record {
    from = omega arith;
    within = omega arith;
    last = λ h. subst (λ k. regs k ≡ true) (omega arith) used;
    cleared = λ j h k. absurd (omega arith);
  })
  | inr unused ↦
      let t = trim-Trimmed_sum regs first n in
      rw unused (record {
        from = t.from;
        within = omega (arith, t.within);
        last = t.last;
        cleared = λ j h k. grind (arith, t.cleared);
      })
]

pub trim-Trimmed :
    (regs : ℕ → Bool) (first n : ℕ)
    → first ≤ n
    → Trimmed regs first n (trim regs first (n - first) n)
trim-Trimmed regs first n h =
    subst (λ top. Trimmed regs first top (trim regs first (n - first) top)) (omega arith)
      (trim-Trimmed_sum regs first (n - first))

-- Below a top that is not 0 stands an index in use, if everything below `first` is.
pub Trimmed-last :
    {regs : ℕ → Bool} {first top t : ℕ}
    → Trimmed regs first top t
    → ((j : ℕ) → j < first → regs j ≡ true)
    → 0 < t
    → regs (t - 1) ≡ true
Trimmed-last {first = first} {t = t} m below h = elim (Bool-cases (ltb first t)) [
  | inl e ↦ m.last (ground arith)
  | inr e ↦ below (t - 1) (ground (arith, m.from))
]
