-- ===== src/Sequence/Fused.antt =====
-- gc-sequence/src: a finished sequence that is stepped again panics.
use luster.Prelude.{◌≡◌, refl, subst, Option, none, some, arith, ◌⊎◌, inl, inr}
use luster.Prelude.Run.{done, panic, bind-done}
use luster.Sequence.{
  Step, first, second, then_step, outer, inner, flatten_step, chain_step, done_step, fn_step,
}
use luster.Sequence.Results.{Result, ok, err, and_then_step, flatten_ok_step, and_chain_step}

-- A step of the state that is left when the output is given panics.
abbrev pub IsFused : {M S O : Type 0} → Step M S O → Type 0
IsFused {M} {S} {O} step =
    (s s' : S) (m m' : M) (o : O) → step s m ≡ done (some o, s', m') → (k : M) → step s' k ≡ panic

pub done-IsFused : {M O : Type 0} → IsFused (done_step {M = M} {O = O})
unfolding done_step
done-IsFused (some a) s' m m' o e k = ground arith
done-IsFused none s' m m' o e k = cc

then-IsFused : {M S O R : Type 0} (step : Step M S O) → IsFused (then_step {R = R} step)
unfolding then_step
then-IsFused step (first s f) s' m m' o e k =
    let (x, h, e') = bind-done (step s m) _ e in ground (arith, h)
then-IsFused step (second (some p)) s' m m' o e k =
    let (x, h, e') = bind-done (p.1 m p.0) _ e in
    let left : second none ≡ s' = cc in subst (λ s. then_step step s k ≡ panic) left refl
then-IsFused step (second none) s' m m' o e k = cc

fn-IsFused : {M R : Type 0} → IsFused (fn_step {M = M} {R = R})
unfolding fn_step
fn-IsFused (some f) s' m m' o e k =
    let (x, h, e') = bind-done (f m) _ e in
    let left : none ≡ s' = cc in subst (λ s. fn_step s k ≡ panic) left refl
fn-IsFused none s' m m' o e k = cc

-- A step of a sequence that has given its output, from what it came to.
fused_at :
    {M S O : Type 0} {step : Step M S O} {s : S} {m k : M} {o : O}
    → IsFused step
    → (x : Option O × S × M) → step s m ≡ done x
    → x.0 ≡ some o
    → step x.1 k ≡ panic
fused_at {step = step} {s} {m} {k} {o} fused x h e =
    fused s x.1 m x.2 o (subst (λ p. step s m ≡ done (p, x.1, x.2)) e h) k

flatten-IsFused :
    {M S T O : Type 0} (step : Step M S T) {step' : Step M T O}
    → IsFused step'
    → IsFused (flatten_step step step')
unfolding flatten_step
flatten-IsFused step fused (outer s) s' m m' o e k =
    let (x, h, e') = bind-done (step s m) _ e in ground (arith, h)
flatten-IsFused step {step'} fused (inner t) s' m m' o e k =
    let (x, h, e') = bind-done (step' t m) _ e in
    let left : inner x.1 ≡ s' = cc in
    let output : x.0 ≡ some o = cc in
    subst (λ s. flatten_step step step' s k ≡ panic) left (rw (fused_at fused x h output) refl)

and_then-IsFused :
    {M S A E R : Type 0} (step : Step M S (Result A E)) → IsFused (and_then_step {R = R} step)
unfolding and_then_step
and_then-IsFused step (first s f) s' m m' o e k =
    let (x, h, e') = bind-done (step s m) _ e in
    let left : second none ≡ s' = ground (arith, h) in
    subst (λ s. and_then_step step s k ≡ panic) left refl
and_then-IsFused step (second (some p)) s' m m' o e k =
    let (x, h, e') = bind-done (p.1 m p.0) _ e in
    let left : second none ≡ s' = cc in subst (λ s. and_then_step step s k ≡ panic) left refl
and_then-IsFused step (second none) s' m m' o e k = cc

output-cases :
    {A E : Type 0} (p : Option (Result A E))
    → ((p ≡ none) ⊎ ((a : A) × (p ≡ some (ok a)))) ⊎ ((e : E) × (p ≡ some (err e)))
output-cases none = inl (inl refl)
output-cases (some (ok a)) = inl (inr (a, refl))
output-cases (some (err e)) = inr (e, refl)

flatten_ok-IsFused :
    {M S T E O : Type 0} (step : Step M S (Result T E)) {step' : Step M T (Result O E)}
    → IsFused step
    → IsFused step'
    → IsFused (flatten_ok_step step step')
unfolding flatten_ok_step
flatten_ok-IsFused {E = E} step {step'} fused fused' (outer s) s' m m' o e k =
    let (x, h, e') = bind-done (step s m) _ e in
    elim (output-cases x.0) [
      | inl (inl none_yet) ↦ ground (arith, none_yet)
      | inl (inr (t, succeeded)) ↦ ground (arith, succeeded)
      | inr (a, failed) ↦
          let left : outer x.1 ≡ s' = ground (arith, failed) in
          subst (λ s. flatten_ok_step step step' s k ≡ panic) left
            (rw (fused_at fused x h failed) refl)
    ]
flatten_ok-IsFused step {step'} fused fused' (inner t) s' m m' o e k =
    let (x, h, e') = bind-done (step' t m) _ e in
    let left : inner x.1 ≡ s' = cc in
    let output : x.0 ≡ some o = cc in
    subst (λ s. flatten_ok_step step step' s k ≡ panic) left (rw (fused_at fused' x h output) refl)

-- `chain` and `and_chain` panic when they are stepped again after their output, if the sequences
-- that they run last do so.
pub chain-IsFused :
    {M S O T R U V A B E : Type 0} (step : Step M S O) {step' : Step M T R}
    (try_step : Step M U (Result A E)) {try_step' : Step M V (Result B E)}
    → IsFused step'
    → IsFused try_step'
    → IsFused (chain_step step step') × IsFused (and_chain_step try_step try_step')
chain-IsFused step try_step fused fused' = (
  flatten-IsFused (then_step step) fused,
  flatten_ok-IsFused (and_then_step try_step) (and_then-IsFused try_step) fused',
)
