-- ===== src/Prelude/Members.antt =====
-- Lists of numbers as sets: membership as a test, lists without repetition, the last element.
use Prim.Native.Nat.{ℕ}
use mathlib.Core.Path.{◌≡◌, refl}
use mathlib.Core.Bool.{Bool, true, false, ◌||◌, or_assoc}
use mathlib.Core.Option.{Option, none, some}
use mathlib.Core.List.{List, [], ◌∷◌, ◌++◌}
use native.Mathlib.Omega.{arith}
use luster.Prelude.Tests.{◌==◌}

abbrev pub has : ℕ → List ℕ → Bool
has a [] = false
has a (x ∷ xs) = a == x || has a xs

abbrev pub NoRepeat : List ℕ → Type 0
NoRepeat [] = Unit
NoRepeat (x ∷ xs) = (has x xs ≡ false) × NoRepeat xs

abbrev pub last : List ℕ → Option ℕ
last [] = none
last (x ∷ []) = some x
last (x ∷ y ∷ ys) = last (y ∷ ys)

pub has-append : (a : ℕ) (xs ys : List ℕ) → has a (xs ++ ys) ≡ (has a xs || has a ys)
has-append a [] ys = refl
has-append a (x ∷ xs) ys = rw (has-append a xs ys, or_assoc)

-- A list without repetition stays one when an element moves from the back part to the front part.
pub NoRepeat-append :
    (xs ys : List ℕ) → NoRepeat (xs ++ ys) → (a : ℕ) → has a ys ≡ true → has a xs ≡ false
NoRepeat-append [] ys h a m = refl
NoRepeat-append (x ∷ xs) ys (n, h) a m =
    ground (arith, has-append x xs ys, NoRepeat-append xs ys h a m)

pub NoRepeat-left : (xs ys : List ℕ) → NoRepeat (xs ++ ys) → NoRepeat xs
NoRepeat-left [] ys h = tt
NoRepeat-left (x ∷ xs) ys (n, h) = (ground (arith, has-append x xs ys), NoRepeat-left xs ys h)

pub NoRepeat-right : (xs ys : List ℕ) → NoRepeat (xs ++ ys) → NoRepeat ys
NoRepeat-right [] ys h = h
NoRepeat-right (x ∷ xs) ys (n, h) = NoRepeat-right xs ys h

pub last-snoc : (xs : List ℕ) (p : ℕ) → last (xs ++ p ∷ []) ≡ some p
last-snoc [] p = refl
last-snoc (x ∷ []) p = refl
last-snoc (x ∷ y ∷ ys) p = last-snoc (y ∷ ys) p

-- A list without repetition stays one when an element in the middle leaves it.
pub NoRepeat-remove :
    (xs : List ℕ) (p : ℕ) (ys : List ℕ) → NoRepeat (xs ++ p ∷ ys) → NoRepeat (xs ++ ys)
NoRepeat-remove [] p ys (n, h) = h
NoRepeat-remove (x ∷ xs) p ys (n, h) =
    (ground (arith, has-append x xs ys, has-append x xs (p ∷ ys)), NoRepeat-remove xs p ys h)

pub NoRepeat-snoc :
    (xs : List ℕ) (p : ℕ) (ys : List ℕ) → NoRepeat (xs ++ p ∷ ys) → NoRepeat ((xs ++ p ∷ []) ++ ys)
NoRepeat-snoc [] p ys h = h
NoRepeat-snoc (x ∷ xs) p ys (n, h) = (
  ground
      (arith, has-append x xs (p ∷ ys), has-append x (xs ++ p ∷ []) ys, has-append x xs (p ∷ [])),
  NoRepeat-snoc xs p ys h,
)
