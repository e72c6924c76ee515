-- ===== src/Gc/Sizes.antt =====
-- gc-arena/src/context.rs: the bytes that a list of objects takes up, what `total_allocated` counts.
use luster.Prelude.{ℕ, ◌+◌, ◌≡◌, refl, false, List, [], ◌∷◌, ◌++◌, has, arith}
use luster.Gc.{put, put_self}

unfoldable pub sizes : (ℕ → ℕ) → List ℕ → ℕ
sizes size [] = 0
sizes size (x ∷ xs) = size x + sizes size xs

pub sizes-append :
    (size : ℕ → ℕ) (xs ys : List ℕ) → sizes size (xs ++ ys) ≡ sizes size xs + sizes size ys
unfolding sizes
sizes-append size [] ys = omega arith
sizes-append size (x ∷ xs) ys = omega (arith, sizes-append size xs ys)

pub sizes-put :
    (size : ℕ → ℕ) (p n : ℕ) (xs : List ℕ)
    → has p xs ≡ false
    → sizes (put size p n) xs ≡ sizes size xs
unfolding sizes put
sizes-put size p n [] h = refl
sizes-put size p n (x ∷ xs) h = ground (arith, sizes-put size p n xs)

pub sizes-push :
    (size : ℕ → ℕ) (p n : ℕ) (xs : List ℕ)
    → has p xs ≡ false
    → sizes (put size p n) (p ∷ xs) ≡ n + sizes size xs
unfolding sizes
sizes-push size p n xs h = ground (arith, put_self size p n, sizes-put size p n xs h)
