-- ===== src/Gc/Links.antt =====
-- gc-arena/src/context.rs: the linked list of all objects, as a path through the `next` pointers.
use luster.Prelude.{
  ℕ, ◌≡◌, refl, sym, ap, true, false, Option, none, some, List, [], ◌∷◌, ◌++◌, has, NoRepeat, last,
  arith, ◌==◌, subst,
}
use luster.Gc.{put}

-- From `a` the pointers lead through `xs` to `b`.
abbrev pub Links : (ℕ → Option ℕ) → Option ℕ → List ℕ → Option ℕ → Type 0
Links next a [] b = a ≡ b
Links next a (p ∷ ps) b = (a ≡ some p) × Links next (next p) ps b

pub put_other : {A : Type 0} (f : ℕ → A) (p q : ℕ) (v : A) → (q == p) ≡ false → put f p v q ≡ f q
unfolding put
put_other f p q v h = rw h refl

pub last-has : (p : ℕ) (xs : List ℕ) → last xs ≡ some p → has p xs ≡ true
last-has p [] e = cc
last-has p (x ∷ []) e = ground arith
last-has p (x ∷ y ∷ ys) e = ground (arith, last-has p (y ∷ ys) e)

pub last-nil : (xs : List ℕ) → last xs ≡ none → xs ≡ []
last-nil [] e = refl
last-nil (x ∷ []) e = cc
last-nil (x ∷ y ∷ ys) e = ground (arith, last-nil (y ∷ ys) e)

module _ (next : ℕ → Option ℕ) where
  pub Links-snoc :
      (a : Option ℕ) (xs : List ℕ) (p : ℕ)
      → Links next a xs (some p)
      → Links next a (xs ++ p ∷ []) (next p)
  Links-snoc a [] p h = (h, refl)
  Links-snoc a (x ∷ xs) p (h, l) = (h, Links-snoc (next x) xs p l)

  pub Links-append :
      (a : Option ℕ) (xs : List ℕ) (b : Option ℕ) (ys : List ℕ) (c : Option ℕ)
      → Links next a xs b
      → Links next b ys c
      → Links next a (xs ++ ys) c
  Links-append a [] b ys c h k = subst (λ o. Links next o ys c) (sym h) k
  Links-append a (x ∷ xs) b ys c (h, l) k = (h, Links-append (next x) xs b ys c l k)

  pub Links-put :
      (p : ℕ) (v a : Option ℕ) (xs : List ℕ) (b : Option ℕ)
      → has p xs ≡ false
      → Links next a xs b
      → Links (put next p v) a xs b
  unfolding put
  Links-put p v a [] b n l = l
  Links-put p v a (x ∷ xs) b n (h, l) = (
    h,
    subst (λ o. Links (put next p v) o xs b) (sym (put_other next p x v (ground arith)))
        (Links-put p v (next x) xs b (ground arith) l),
  )

  pub Links-nil : (xs : List ℕ) → Links next none xs none → xs ≡ []
  Links-nil [] l = refl
  Links-nil (x ∷ xs) (h, l) = cc

  -- What a path from `p` to the end starts with.
  pub Links-cons :
      (p : ℕ) (xs : List ℕ)
      → Links next (some p) xs none
      → (ps : List ℕ) × (xs ≡ p ∷ ps) × Links next (next p) ps none
  Links-cons p [] l = cc
  Links-cons p (x ∷ xs) (h, l) =
      let e : x ≡ p = ground arith in
      (xs, ap (λ y. y ∷ xs) e, subst (λ y. Links next (next y) xs none) e l)

  -- The pointer of the last element, written, is where the path leads to.
  pub Links-relink :
      (p : ℕ) (v a : Option ℕ) (xs : List ℕ) (b : Option ℕ)
      → NoRepeat xs
      → last xs ≡ some p
      → Links next a xs b
      → Links (put next p v) a xs v
  unfolding put
  Links-relink p v a [] b n e l = cc
  Links-relink p v a (x ∷ []) b n e (h, l) = (h, ground arith)
  Links-relink p v a (x ∷ y ∷ ys) b (o, n) e (h, kl) = (
    h,
    subst (λ o. Links (put next p v) o (y ∷ ys) v)
        (sym (put_other next p x v (ground (arith, last-has p (y ∷ ys) e))))
        (Links-relink p v (next x) (y ∷ ys) b n e kl),
  )
