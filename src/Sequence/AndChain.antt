-- ===== src/Sequence/AndChain.antt =====
-- gc-sequence/src/and_then.rs and flatten_result.rs: what `and_chain` comes to.
use luster.Prelude.{ℕ, suc, ◌+◌, ◌≡◌, refl, none, some, arith}
use luster.Prelude.Run.{Run, done}
use luster.Sequence.{Step, Then, first, second, then, Flatten, outer, inner, flatten, chain}
use luster.Sequence.Results.{Result, ok, err, and_then_step, flatten_ok_step, and_chain_step}
use luster.Sequence.Finish.{Finishes, now, later, at_index}

and_then-Finishes :
    {M S A E R : Type 0} {step : Step M S (Result A E)} (f : M → A → Run (Result R E × M)) {n : ℕ}
    {s s' : S} {m k m' : M} {a : A} {r : Result R E}
    → Finishes step n s m (ok a) s' k
    → f k a ≡ done (r, m')
    → Finishes (and_then_step step) (suc n) (then s f) m r (second none) m'
unfolding and_then_step
and_then-Finishes f {r = r} (now s s' m m' (ok a) e) h =
    later 0 _ _ _ m m' _ r (rw e refl) (now (second (some (a, f))) _ m' _ r (rw h refl))
and_then-Finishes f (later n s t s' m k m' o e l) h =
    later (suc n) _ _ _ m k _ _ (rw e refl) (and_then-Finishes f l h)

and_then-err :
    {M S A E R : Type 0} {step : Step M S (Result A E)} (f : M → A → Run (Result R E × M)) {n : ℕ}
    {s s' : S} {m m' : M} {e : E}
    → Finishes step n s m (err e) s' m'
    → Finishes (and_then_step step) n (then s f) m (err e) (second none) m'
unfolding and_then_step
and_then-err f (now s s' m m' (err e) h) = now _ _ m m' (err e) (rw h refl)
and_then-err f (later n s t s' m k m' o e l) =
    later n _ (first t (some f)) _ m k _ _ (rw e refl) (and_then-err f l)

inner-ok :
    {M S T E O : Type 0} (step : Step M S (Result T E)) {step' : Step M T (Result O E)} {n : ℕ}
    {t t' : T} {m m' : M} {o : Result O E}
    → Finishes step' n t m o t' m'
    → Finishes (flatten_ok_step step step') n (inner t) m o (inner t') m'
unfolding flatten_ok_step
inner-ok step (now s s' m m' o e) = now _ _ m m' _ (rw e refl)
inner-ok step (later n s t s' m k m' o e l) =
    later n _ (inner t) _ m k m' _ (rw e refl) (inner-ok step l)

flatten_ok-ok :
    {M S T E O : Type 0} {step : Step M S (Result T E)} {step' : Step M T (Result O E)} {n n' : ℕ}
    {s s' : S} {t t' : T} {m m' m'' : M} {o : Result O E}
    → Finishes step n s m (ok t) s' m'
    → Finishes step' n' t m' o t' m''
    → Finishes (flatten_ok_step step step') (n + suc n') (flatten s) m o (inner t') m''
unfolding flatten_ok_step
flatten_ok-ok {step = step} {n' = n'} {t' = t'} {m'' = m''} {o = o} (now s s' m m' (ok t) e) r =
    at_index (omega arith)
      (later n' (outer s) (inner t) (inner t') m m' m'' o (rw e refl) (inner-ok step r))
flatten_ok-ok {n' = n'} {t' = t'} {m'' = m''} {o} (later n s u s' m k m' t e l) r =
    at_index (omega arith)
      (later (n + suc n') (outer s) (outer u) (inner t') m k m'' o (rw e refl) (flatten_ok-ok l r))

flatten_ok-err :
    {M S T E O : Type 0} {step : Step M S (Result T E)} (step' : Step M T (Result O E)) {n : ℕ}
    {s s' : S} {m m' : M} {x : E}
    → Finishes step n s m (err x) s' m'
    → Finishes (flatten_ok_step step step') n (flatten s) m (err x) (outer s') m'
unfolding flatten_ok_step
flatten_ok-err step' (now s s' m m' (err x) h) = now _ (outer s') m m' (err x) (rw h refl)
flatten_ok-err step' (later n s t s' m k m' o e l) =
    later n _ (outer t) _ m k _ _ (rw e refl) (flatten_ok-err step' l)

-- What follows on the result of the sequence: its error; an error of the function; or the sequence
-- that the function gives. The number is that of the steps added.
pub data Continues {M S A E T R : Type 0} (step' : Step M T (Result R E))
    (f : M → A → Run (Result T E × M)) (k : M)
    : Result A E
      → ℕ
      → Result R E
      → Flatten (Then S (M → A → Run (Result T E × M)) A) T
      → M
      → Type 0 where
  failed : (e : E) → Continues step' f k (err e) 0 (err e) (outer (second none)) k
  refused :
      (a : A) (e : E) (m' : M)
      → f k a ≡ done (err e, m')
      → Continues step' f k (ok a) 1 (err e) (outer (second none)) m'
  continued :
      (a : A) (t t' : T) (k' m' : M) (n : ℕ) (r : Result R E)
      → f k a ≡ done (ok t, k')
      → Finishes step' n t k' r t' m'
      → Continues step' f k (ok a) (n + 2) r (inner t') m'

-- `and_chain` behind a sequence that comes to a result: with its error the function is not called
-- and no step is added; otherwise the function is called in a step of its own, an error of it ends
-- the sequence there, and the sequence that it gives is run and has the last word.
pub and_chain-Finishes :
    {M S A E T R : Type 0} {step : Step M S (Result A E)} {step' : Step M T (Result R E)}
    {f : M → A → Run (Result T E × M)} {n i : ℕ} {s s' : S} {m k m' : M} {a : Result A E}
    {r : Result R E} {z : Flatten (Then S (M → A → Run (Result T E × M)) A) T}
    → Finishes step n s m a s' k
    → Continues step' f k a i r z m'
    → Finishes (and_chain_step step step') (n + i) (chain s f) m r z m'
and_chain-Finishes {step' = step'} {f} l (failed e) =
    at_index (omega arith) (flatten_ok-err step' (and_then-err f l))
and_chain-Finishes {step' = step'} {f} l (refused a e m' h) =
    at_index (omega arith) (flatten_ok-err step' (and_then-Finishes f l h))
and_chain-Finishes {f = f} l (continued a t t' k' m' n r h i) =
    at_index (omega arith) (flatten_ok-ok (and_then-Finishes f l h) i)
