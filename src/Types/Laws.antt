-- ===== src/Types/Laws.antt =====
-- src/types.rs: the one-byte encodings, read back.
use luster.Prelude.{
  ℕ, ◌≤◌, ◌≡◌, refl, ap, false, Option, none, some, arith, ◌==◌, Bool-cases, inl, inr,
}
use luster.Prelude.Run.{Run, done, panic, ◌>>=◌}
use luster.Types.{
  Opt254, VarCount, try_new, to_u8, constant, try_constant, is_variable, to_constant,
}

abbrev pub FitsByte : Option ℕ → Type 0
FitsByte none = Unit
FitsByte (some n) = n ≤ 255

-- The result of `try_new`.
abbrev pub Encodes : Option ℕ → Option Opt254 → Type 0
Encodes v none = v ≡ some 255
Encodes v (some o) = (to_u8 o ≡ v) × (o.byte ≤ 255)

-- What `try_new` makes of an optional byte is one byte and reads back as that, and it refuses
-- nothing but `Some(255)`.
pub to_u8-try_new : (v : Option ℕ) → FitsByte v → Encodes v (try_new v)
unfolding try_new to_u8
to_u8-try_new none h = (refl, omega arith)
to_u8-try_new (some n) h = elim (Bool-cases (n == 255)) [
  | inl e ↦ rw e (ap some (ground arith))
  | inr e ↦ rw (e, e) (refl, h)
]

-- The result of `constant c`.
abbrev pub Counts : ℕ → Run VarCount → Type 0
Counts c panic = (c ≡ 255) × (try_constant c ≡ none)
Counts c (done v) = (try_constant c ≡ some v) × (to_constant v ≡ some c) × (is_variable v ≡ false)

-- A count made by `constant` reads back, is not variable, and is the one that `try_constant`
-- gives. Both fail for 255 alone, `constant` by a panic.
pub to_constant-constant : (c : ℕ) → Counts c (constant c)
unfolding constant try_constant to_constant is_variable
to_constant-constant c = elim (Bool-cases (c == 255)) [
  | inl e ↦ rw (e, ◌>>=◌) (ground arith, rw (e, try_constant))
  | inr e ↦ rw (e, ◌>>=◌) (rw (e, try_constant), rw (e, to_constant), rw (e, is_variable))
]
