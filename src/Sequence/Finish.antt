-- ===== src/Sequence/Finish.antt =====
-- gc-sequence/src: what a sequence comes to when it is stepped until it gives its output, and what the
-- combinators make of it.
use luster.Prelude.{ℕ, suc, ◌+◌, ◌≡◌, refl, none, some, subst, arith}
use luster.Prelude.Run.{Run, done, ◌>>=◌}
use luster.Sequence.{
  Step, map, map_step, Then, second, then, then_step, Flatten, outer, inner, flatten, flatten_step,
  chain, chain_step,
}

-- After `n` steps that give nothing and one more, the sequence gives `o` and leaves `s'` and `m'`.
pub data Finishes {M S O : Type 0} (step : Step M S O) : ℕ → S → M → O → S → M → Type 0 where
  now :
      (s s' : S) (m m' : M) (o : O) → step s m ≡ done (some o, s', m') → Finishes step 0 s m o s' m'
  later :
      (n : ℕ) (s t s' : S) (m k m' : M) (o : O)
      → step s m ≡ done (none, t, k)
      → Finishes step n t k o s' m'
      → Finishes step (suc n) s m o s' m'

-- `map` of a function that does not panic on the output of a sequence finishes in the same steps
-- with the mapped output.
pub map-Finishes :
    {M S O R : Type 0} {step : Step M S O} (f : O → Run R) {n : ℕ} {s s' : S} {m m' : M} {o : O}
    {r : R}
    → Finishes step n s m o s' m'
    → f o ≡ done r
    → Finishes (map_step step) n (map s f) m r (record { sequence = s'; function = none }) m'
unfolding map_step
map-Finishes f (now s s' m m' o e) h = now _ _ m m' _ (rw (e, h) refl)
map-Finishes f (later n s t s' m k m' o e l) h =
    later n _ _ _ m k m' _ (rw e refl) (map-Finishes f l h)

pub then-Finishes :
    {M S O R : Type 0} {step : Step M S O} (f : M → O → Run (R × M)) {n : ℕ} {s s' : S}
    {m m' m'' : M} {o : O} {r : R}
    → Finishes step n s m o s' m'
    → f m' o ≡ done (r, m'')
    → Finishes (then_step step) (suc n) (then s f) m r (second none) m''
unfolding then_step
then-Finishes {M} {R = R} f {r = r} (now s s' m m' o e) h =
    later 0 _ _ _ m m' _ r (rw e refl) (now (second (some (o, f))) _ m' _ r (rw h refl))
then-Finishes f (later n s t s' m k m' o e l) h =
    later (suc n) _ _ _ m k _ _ (rw e refl) (then-Finishes f l h)

pub at_index :
    {M S O : Type 0} {step : Step M S O} {i j : ℕ} {s s' : S} {m m' : M} {o : O}
    → i ≡ j
    → Finishes step i s m o s' m'
    → Finishes step j s m o s' m'
at_index {step = step} {s = s} {s'} {m} {m'} {o} e l = subst (λ i. Finishes step i s m o s' m') e l

inner-Finishes :
    {M S T O : Type 0} (step : Step M S T) {step' : Step M T O} {n : ℕ} {t t' : T} {m m' : M}
    {o : O}
    → Finishes step' n t m o t' m'
    → Finishes (flatten_step step step') n (inner t) m o (inner t') m'
unfolding flatten_step
inner-Finishes step (now s s' m m' o e) = now _ _ m m' _ (rw e refl)
inner-Finishes step (later n s t s' m k m' o e l) =
    later n _ (inner t) _ m k m' _ (rw e refl) (inner-Finishes step l)

flatten-Finishes :
    {M S T O : Type 0} {step : Step M S T} {step' : Step M T O} {n n' : ℕ} {s s' : S} {t t' : T}
    {m m' m'' : M} {o : O}
    → Finishes step n s m t s' m'
    → Finishes step' n' t m' o t' m''
    → Finishes (flatten_step step step') (n + suc n') (flatten s) m o (inner t') m''
unfolding flatten_step
flatten-Finishes {step = step} {n' = n'} {t' = t'} {m'' = m''} {o = o} (now s s' m m' t e) r =
    at_index (omega arith)
      (later n' (outer s) (inner t) (inner t') m m' m'' o (rw e refl) (inner-Finishes step r))
flatten-Finishes {n' = n'} {t' = t'} {m'' = m''} {o} (later n s u s' m k m' t e l) r =
    at_index (omega arith) (
      later (n + suc n') (outer s) (outer u) (inner t') m k m'' o (rw e refl)
        (flatten-Finishes l r))

-- `chain` on a sequence that finishes and a function that does not panic runs the sequence, the
-- function in a step of its own and the sequence that it gives, and finishes with the output of
-- that one two steps after the steps of both.
pub chain-Finishes :
    {M S O T R : Type 0} {step : Step M S O} {step' : Step M T R} (f : M → O → Run (T × M))
    {n n' : ℕ} {s s' : S} {t t' : T} {m k k' m' : M} {o : O} {r : R}
    → Finishes step n s m o s' k
    → f k o ≡ done (t, k')
    → Finishes step' n' t k' r t' m'
    → Finishes (chain_step step step') (n + n' + 2) (chain s f) m r (inner t') m'
chain-Finishes f a h b = at_index (omega arith) (flatten-Finishes (then-Finishes f a h) b)

-- A function that chains another behind the sequence that it gives.
abbrev pub chain_after :
    {M O T R U : Type 0}
    → (M → O → Run (T × M))
    → (M → R → Run (U × M))
    → M
    → O
    → Run (Flatten (Then T (M → R → Run (U × M)) R) U × M)
chain_after f g m o = do t ← f m o; done (chain t.0 g, t.1)

-- Where a sequence, the sequence that a function gives for its output, and the one that a second
-- function gives for that one's output all finish, it does not matter how the two chains are
-- bracketed: the output, the number of steps and the arena are the same.
pub chain_assoc :
    {M S O T R U V : Type 0} {step : Step M S O} {step' : Step M T R} {step'' : Step M U V}
    (f : M → O → Run (T × M)) (g : M → R → Run (U × M)) {n n' n'' : ℕ} {s s' : S} {t t' : T}
    {u u' : U} {m k k' l l' m' : M} {o : O} {r : R} {v : V}
    → Finishes step n s m o s' k
    → f k o ≡ done (t, k')
    → Finishes step' n' t k' r t' l
    → g l r ≡ done (u, l')
    → Finishes step'' n'' u l' v u' m'
    → Finishes
        (chain_step (chain_step step step') step'')
        (n + n' + n'' + 4)
        (chain (chain s f) g)
        m
        v
        (inner u')
        m'
      × Finishes
          (chain_step step (chain_step step' step''))
          (n + n' + n'' + 4)
          (chain s (chain_after f g))
          m
          v
          (inner (inner u'))
          m'
chain_assoc f g a h b i c = (
  at_index (omega arith) (chain-Finishes g (chain-Finishes f a h b) i c),
  at_index (omega arith) (chain-Finishes (chain_after f g) a (rw h refl) (chain-Finishes g b i c)),
)
