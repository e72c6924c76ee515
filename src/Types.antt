-- ===== src/Types.antt =====
-- src/types.rs: indices, and the one-byte encodings `Opt254` and `VarCount`. An index is the number
-- that its struct wraps.
use luster.Prelude.{ℕ, Bool, true, false, Option, none, some, ◌==◌, if◌then◌else◌}
use luster.Prelude.Run.{Run, done, panic, ◌>>=◌}
pub mod Laws

abbrev pub RegisterIndex : Type 0
RegisterIndex = ℕ

abbrev pub ConstantIndex8 : Type 0
ConstantIndex8 = ℕ

abbrev pub ConstantIndex16 : Type 0
ConstantIndex16 = ℕ

abbrev pub UpValueIndex : Type 0
UpValueIndex = ℕ

abbrev pub PrototypeIndex : Type 0
PrototypeIndex = ℕ

-- `pub struct Opt254(u8)`
pub record Opt254 : Type 0 where
  pub byte : ℕ

unfoldable pub try_new : Option ℕ → Option Opt254
try_new none = some (record { byte = 255 })
try_new (some v) = if v == 255 then none else some (record { byte = v })

-- `expect` of the result of `try_new`
unfoldable pub new : Option ℕ → Run Opt254
unfolding try_new
new v = elim (try_new v) [ none ↦ panic | some o ↦ done o ]

unfoldable pub to_u8 : Opt254 → Option ℕ
to_u8 o = if o.byte == 255 then none else some o.byte

-- `pub struct VarCount(Opt254)`
pub record VarCount : Type 0 where
  pub count : Opt254

unfoldable pub variable : Run VarCount
unfolding new
variable = do o ← new none; done (record { count = o })

unfoldable pub constant : ℕ → Run VarCount
unfolding new
constant c = do o ← new (some c); done (record { count = o })

unfoldable pub try_constant : ℕ → Option VarCount
unfolding try_new
try_constant c = elim (try_new (some c)) [ none ↦ none | some o ↦ some (record { count = o }) ]

is_none : Option ℕ → Bool
is_none none = true
is_none (some _) = false

unfoldable pub is_variable : VarCount → Bool
unfolding is_none to_u8
is_variable v = is_none (to_u8 v.count)

unfoldable pub to_constant : VarCount → Option ℕ
unfolding to_u8
to_constant v = to_u8 v.count
