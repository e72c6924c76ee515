-- ===== src/I64/Laws.antt =====
-- The bit patterns against the integers that they stand for.
use native.Mathlib.Nat.{sub-zero, mod_self}
use luster.Prelude.{
  ℕ, ◌+◌, ◌-◌, ◌%◌, ◌≤◌, ◌<◌, ◌≡◌, ◌⊎◌, false, arith, ◌==◌, if◌then◌else◌, Bool-cases, inl, inr,
}
use luster.Prelude.Int.{◌+ℤ◌, ltb_ℤ}
use luster.Prelude.Run.{Run, done, panic, Run-cases}
use luster.I64.{
  modulus, half, to_ℤ, wrapping_add, wrapping_sub, lt, sum_overflows, is_negative, mod_i64,
  floor_mod, min_value, magnitude,
}

abbrev pub IsI64 : ℕ → Type 0
IsI64 a = a < modulus

pub lt-ltb_ℤ : (a b : ℕ) → IsI64 a → IsI64 b → lt a b ≡ ltb_ℤ (to_ℤ a) (to_ℤ b)
unfolding lt
lt-ltb_ℤ a b h k = ground arith

pub wrapping_add-+ℤ :
    (a b : ℕ)
    → IsI64 a
    → IsI64 b
    → sum_overflows a b ≡ false
    → to_ℤ (wrapping_add a b) ≡ to_ℤ a +ℤ to_ℤ b
unfolding wrapping_add ◌+ℤ◌
wrapping_add-+ℤ a b h k = ground arith

pub wrapping_sub_self : (a b : ℕ) → IsI64 a → IsI64 b → wrapping_sub (wrapping_add a b) b ≡ a
unfolding wrapping_sub wrapping_add
wrapping_sub_self a b h k = omega arith

mod_facts :
    (x y : ℕ)
    → 0 < y
    → (x % y < y)
      × ((x % y + y) % y ≡ x % y)
      × ((y - x % y) % y ≡ (if x % y == 0 then 0 else y - x % y))
mod_facts x y h = (
  omega arith,
  grind arith,
  elim (Bool-cases (x % y == 0)) [
    | inl e ↦ let z : x % y ≡ 0 = ground arith in rw (e, z, sub-zero) (mod_self y)
    | inr e ↦ rw e (grind arith)
  ],
)

mod_i64-floor_mod :
    (a b : ℕ) → IsI64 a → IsI64 b → {m : ℕ} → mod_i64 a b ≡ done m → m ≡ floor_mod a b
unfolding mod_i64 floor_mod
mod_i64-floor_mod a b h k e = elim (Bool-cases (is_negative a)) [
  | inr pa ↦ elim (Bool-cases (is_negative b)) [
    | inr pb ↦ ground (arith, mod_facts a b)
    | inl nb ↦ ground (arith, mod_facts a (modulus - b))
  ]
  | inl na ↦ elim (Bool-cases (is_negative b)) [
    | inr pb ↦ ground (arith, mod_facts (modulus - a) b)
    | inl nb ↦ ground (arith, mod_facts (modulus - a) (modulus - b))
  ]
]

-- The result of `((a % b) + b) % b`.
abbrev pub Reduces : ℕ → ℕ → Run ℕ → Type 0
Reduces a b panic =
    (b ≡ 0)
    ⊎ ((a ≡ min_value) × (b ≡ modulus - 1))
    ⊎ ((is_negative a ≡ is_negative b) × (half ≤ magnitude a % magnitude b + magnitude b))
Reduces a b (done m) = m ≡ floor_mod a b

panics_when : (a b : ℕ) → IsI64 a → IsI64 b → mod_i64 a b ≡ panic → Reduces a b panic
unfolding mod_i64
panics_when a b h k e = elim (Bool-cases (b == 0)) [
  | inl z ↦ inl (ground arith)
  | inr nz ↦ inr (elim (Bool-cases (is_negative a)) [
    | inr pa ↦ elim (Bool-cases (is_negative b)) [
      | inr pb ↦ ground (arith, mod_facts a b)
      | inl nb ↦ ground (arith, mod_facts a (modulus - b))
    ]
    | inl na ↦ elim (Bool-cases (is_negative b)) [
      | inr pb ↦ ground (arith, mod_facts (modulus - a) b)
      | inl nb ↦ ground (arith, mod_facts (modulus - a) (modulus - b))
    ]
  ])
]

-- The integer case of `modulo` gives the remainder of a division that rounds towards negative
-- infinity, with the sign of the divisor. It panics at most for the divisor 0, for the least
-- integer and the divisor -1, and for operands of one sign where the remainder and the divisor add
-- up to 2 ^ 63 or more.
pub mod_i64-Reduces : (a b : ℕ) → IsI64 a → IsI64 b → Reduces a b (mod_i64 a b)
mod_i64-Reduces a b h k = elim (Run-cases (mod_i64 a b)) [
  | inl e ↦ rw e (panics_when a b h k e)
  | inr (m, e) ↦ rw e (mod_i64-floor_mod a b h k e)
]
