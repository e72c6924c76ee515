-- ===== src/HashMap/Laws.antt =====
-- The laws of the entries of a hash map, for a test on keys that is an equivalence on the keys
-- that the map admits.
use luster.Prelude.{
  ◌≡◌, refl, Bool, true, none, some, List, [], ◌∷◌, arith, if◌then◌else◌, Bool-cases, inl, inr,
}
use luster.HashMap.{find, put, erase}

pub record Lawful {ℓ} {K : Type ℓ} (Admits : K → Type 0) (eq : K → K → Bool) : Type ℓ where
  pub eq_refl : (a : K) → Admits a → eq a a ≡ true
  pub eq_symm : (a b : K) → Admits a → Admits b → eq a b ≡ eq b a
  pub eq_congr : (a b c : K) → Admits a → Admits b → Admits c → eq a b ≡ true → eq a c ≡ eq b c

-- Every key is admitted, and no two are equal.
abbrev pub AllAdmitted {ℓ} : {K V : Type ℓ} → (K → Type 0) → List (K × V) → Type 0
AllAdmitted P [] = Unit
AllAdmitted P (e ∷ es) = P e.0 × AllAdmitted P es

abbrev pub AllHeld {ℓ} : {K V : Type ℓ} → (V → Type 0) → List (K × V) → Type 0
AllHeld P [] = Unit
AllHeld P (e ∷ es) = P e.1 × AllHeld P es

abbrev pub Distinct {ℓ} : {K V : Type ℓ} → (K → K → Bool) → List (K × V) → Type ℓ
Distinct eq [] = Unit
Distinct eq (e ∷ es) = (find eq e.0 es ≡ none) × Distinct eq es

module _ {ℓ} {K V : Type ℓ} (eq : K → K → Bool) (k : K) where
  pub AllAdmitted-put :
      (P : K → Type 0) (v : V) (es : List (K × V))
      → P k
      → AllAdmitted P es
      → AllAdmitted P (put eq k v es)
  unfolding put
  AllAdmitted-put P v [] p h = (p, tt)
  AllAdmitted-put P v (x ∷ es) p (h, hs) = elim (Bool-cases (eq k x.0)) [
    | inl e ↦ rw e (h, hs)
    | inr e ↦ rw e (h, AllAdmitted-put P v es p hs)
  ]

  pub AllAdmitted-erase :
      (P : K → Type 0) (es : List (K × V)) → AllAdmitted P es → AllAdmitted P (erase eq k es)
  unfolding erase
  AllAdmitted-erase P [] h = tt
  AllAdmitted-erase P (x ∷ es) (h, hs) = elim (Bool-cases (eq k x.0)) [
    | inl e ↦ rw e hs
    | inr e ↦ rw e (h, AllAdmitted-erase P es hs)
  ]

  pub AllHeld-put :
      (P : V → Type 0) (v : V) (es : List (K × V)) → P v → AllHeld P es → AllHeld P (put eq k v es)
  unfolding put
  AllHeld-put P v [] p h = (p, tt)
  AllHeld-put P v (x ∷ es) p (h, hs) = elim (Bool-cases (eq k x.0)) [
    | inl e ↦ rw e (p, hs)
    | inr e ↦ rw e (h, AllHeld-put P v es p hs)
  ]

  pub AllHeld-erase :
      (P : V → Type 0) (es : List (K × V)) → AllHeld P es → AllHeld P (erase eq k es)
  unfolding erase
  AllHeld-erase P [] h = tt
  AllHeld-erase P (x ∷ es) (h, hs) = elim (Bool-cases (eq k x.0)) [
    | inl e ↦ rw e hs
    | inr e ↦ rw e (h, AllHeld-erase P es hs)
  ]

module _ {ℓ} {K V : Type ℓ} {P : K → Type 0} {eq : K → K → Bool} (l : Lawful P eq) where
  pub find_congr :
      (a b : K) (es : List (K × V))
      → P a
      → P b
      → AllAdmitted P es
      → eq a b ≡ true
      → find eq a es ≡ find eq b es
  unfolding find
  find_congr a b [] pa pb ps e = refl
  find_congr a b (x ∷ es) pa pb (px, ps) e =
      ground (arith, l.eq_congr a b x.0 pa pb px e, find_congr a b es pa pb ps e)

  pub find-put :
      (q k : K) (v : V) (es : List (K × V))
      → P q
      → P k
      → AllAdmitted P es
      → find eq q (put eq k v es) ≡ (if eq q k then some v else find eq q es)
  unfolding find put
  find-put q k v [] pq pk ps = refl
  find-put q k v (x ∷ es) pq pk (px, ps) = ground (
    arith,
    l.eq_congr q k x.0 pq pk px,
    l.eq_congr k x.0 q pk px pq,
    l.eq_symm k q pk pq,
    l.eq_symm x.0 q px pq,
    find-put q k v es pq pk ps,
  )

  pub find-erase :
      (q k : K) (es : List (K × V))
      → P q
      → P k
      → AllAdmitted P es
      → Distinct eq es
      → find eq q (erase eq k es) ≡ (if eq q k then none else find eq q es)
  unfolding find erase
  find-erase q k [] pq pk ps d = ground arith
  find-erase q k (x ∷ es) pq pk (px, ps) (f, d) = ground (
    arith,
    l.eq_congr q k x.0 pq pk px,
    l.eq_congr k x.0 q pk px pq,
    l.eq_symm k q pk pq,
    l.eq_symm x.0 q px pq,
    find_congr q x.0 es pq px ps,
    find-erase q k es pq pk ps d,
  )

  pub Distinct-put :
      (k : K) (v : V) (es : List (K × V))
      → P k
      → AllAdmitted P es
      → Distinct eq es
      → Distinct eq (put eq k v es)
  unfolding put find
  Distinct-put k v [] pk ps d = (refl, tt)
  Distinct-put k v (x ∷ es) pk (px, ps) (f, d) = elim (Bool-cases (eq k x.0)) [
    | inl e ↦ rw e (f, d)
    | inr e ↦ rw e (
      ground (arith, find-put x.0 k v es px pk ps, l.eq_symm k x.0 pk px),
      Distinct-put k v es pk ps d,
    )
  ]

  pub Distinct-erase :
      (k : K) (es : List (K × V))
      → P k
      → AllAdmitted P es
      → Distinct eq es
      → Distinct eq (erase eq k es)
  unfolding erase
  Distinct-erase k [] pk ps d = tt
  Distinct-erase k (x ∷ es) pk (px, ps) (f, d) = elim (Bool-cases (eq k x.0)) [
    | inl e ↦ rw e d
    | inr e ↦ rw e (ground (arith, find-erase x.0 k es px pk ps d), Distinct-erase k es pk ps d)
  ]
