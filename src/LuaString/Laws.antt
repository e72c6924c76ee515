-- ===== src/LuaString/Laws.antt =====
-- src/string.rs: `String::new` against `as_bytes`, and the comparisons of bytes.
use luster.Prelude.{
  ℕ, ◌%◌, ◌<◌, not, ◌≡◌, ◌↔◌, refl, ap, ap₂, inl, inr, true, List, [], ◌∷◌, ◌++◌, length, take,
  arith, leb, Bool-cases,
}
use luster.LuaString.{new, as_bytes, bytes_eq, bytes_lt, bytes_le}

take-length_append {ℓ} : {A : Type ℓ} (xs ys : List A) → take (length xs) (xs ++ ys) ≡ xs
take-length_append [] ys = refl
take-length_append (x ∷ xs) ys = ap (λ l. x ∷ l) (take-length_append xs ys)

-- Whatever representation `new` chooses, `as_bytes` gives back the bytes.
pub as_bytes-new : (s : List ℕ) → as_bytes (new s) ≡ s
unfolding as_bytes new
as_bytes-new s = elim (Bool-cases (leb (length s) 8)) [
  | inl e ↦ rw (e, small (ground arith)) (take-length_append s _)
  | inr e ↦ elim (Bool-cases (leb (length s) 32)) [
    | inl f ↦ rw (e, f, small (ground arith)) (take-length_append s _)
    | inr f ↦ rw (e, f)
  ]
]
  where
    small : length s < 256 → length s % 256 ≡ length s
    small h = omega arith

cons_head : {x y : ℕ} {xs ys : List ℕ} → x ∷ xs ≡ y ∷ ys → x ≡ y
cons_head h = cc

pub cons_tail : {x y : ℕ} {xs ys : List ℕ} → x ∷ xs ≡ y ∷ ys → xs ≡ ys
cons_tail h = cc

pub bytes_eq_iff : (xs ys : List ℕ) → (bytes_eq xs ys ≡ true) ↔ (xs ≡ ys)
unfolding bytes_eq
bytes_eq_iff [] [] = (λ h. refl, λ h. refl)
bytes_eq_iff [] (y ∷ ys) = (λ h. cc, λ h. cc)
bytes_eq_iff (x ∷ xs) [] = (λ h. cc, λ h. cc)
bytes_eq_iff (x ∷ xs) (y ∷ ys) =
    let (l, r) = bytes_eq_iff xs ys in
    (
      λ h. ap₂ ◌∷◌ (ground arith) (l (ground arith)),
      λ h. ground (arith, cons_head h, r (cons_tail h)),
    )

-- `<=` on bytes is the negation of `<` the other way round: the order is total.
pub bytes_le-not_lt : (xs ys : List ℕ) → bytes_le xs ys ≡ not (bytes_lt ys xs)
unfolding bytes_le bytes_lt
bytes_le-not_lt [] [] = refl
bytes_le-not_lt [] (y ∷ ys) = refl
bytes_le-not_lt (x ∷ xs) [] = refl
bytes_le-not_lt (x ∷ xs) (y ∷ ys) = ground (arith, bytes_le-not_lt xs ys)
