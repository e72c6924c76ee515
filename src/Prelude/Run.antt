-- ===== src/Prelude/Run.antt =====
-- What a call of the Rust code comes to: a value, or a panic. A failed `assert!`, `unwrap` of a
-- `None` and an arithmetic overflow of a checked build are panics.
use Prim.Native.Nat.{ℕ, ◌-◌, ◌+◌, ◌^◌}
use mathlib.Core.Path.{◌≡◌, refl}
use mathlib.Core.Logic.{◌⊎◌, inl, inr}
use mathlib.Core.Bool.{Bool, true, false}
use luster.Prelude.Tests.{ltb, leb, if◌then◌else◌}

pub data Run {ℓ} (A : Type ℓ) : Type ℓ where
  done : A → Run A
  panic : Run A

infixl 5 ◌>>=◌ ◌>>◌
abbrev pub ◌>>=◌ {ℓ κ} : {A : Type ℓ} {B : Type κ} → Run A → (A → Run B) → Run B
done a >>= f = f a
panic >>= f = panic

abbrev pub ◌>>◌ {ℓ} : {B : Type ℓ} → Run (Unit {0}) → Run B → Run B
m >> k = m >>= λ _. k

abbrev pub assert : Bool → Run (Unit {0})
assert true = done tt
assert false = panic

-- Addition and subtraction of a `w`-bit unsigned integer in a checked build.
abbrev pub add_checked : ℕ → ℕ → ℕ → Run ℕ
add_checked w a b = if ltb (a + b) (2 ^ w) then done (a + b) else panic

abbrev pub sub_checked : ℕ → ℕ → Run ℕ
sub_checked a b = if leb b a then done (a - b) else panic

-- `P` holds of the value, and there is one.
abbrev pub Returns {ℓ κ} : {A : Type ℓ} → Run A → (A → Type κ) → Type (ℓ ⊔ κ)
Returns {A} r P = (a : A) × (r ≡ done a) × P a

abbrev pub map {ℓ κ} : {A : Type ℓ} {B : Type κ} → (A → B) → Run A → Run B
map f (done a) = done (f a)
map f panic = panic

pub Run-cases {ℓ} : {A : Type ℓ} (r : Run A) → (r ≡ panic) ⊎ ((a : A) × (r ≡ done a))
Run-cases panic = inl refl
Run-cases (done a) = inr (a, refl)

pub done-injective {ℓ} : {A : Type ℓ} {a b : A} → done a ≡ done b → a ≡ b
done-injective e = cc

pub panic-done {ℓ} : {A : Type ℓ} {a : A} → ◌≡◌ {A = Run A} panic (done a) → ⊥
panic-done e = cc

-- What a call that returns has gone through.
pub bind-done {ℓ κ} :
    {A : Type ℓ} {B : Type κ} (r : Run A) (f : A → Run B) {b : B}
    → (r >>= f) ≡ done b
    → (a : A) × (r ≡ done a) × (f a ≡ done b)
bind-done (done a) f e = (a, refl, e)
bind-done panic f e = cc
